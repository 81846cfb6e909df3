-- ===== src/Stamper/Usage.antt =====
-- `state` and `usage` of the stamper that packages/dappdata/src/stamper/index.ts makes.
use dappdata.Base.{ℕ, ◌+◌, ◌^◌, ◌≡◌, [], ◌∷◌, arith}
use dappdata.Stamper.State.{StamperState}
use dappdata.Stamper.State.Heights.{HeightMap, height, set_height}
use dappdata.Stamper.{Device, StamperOptions, line, set_line}

-- The copy that `state` returns has what the stamper's state has.
abbrev pub live_state : {W : Type 0} → Device W → StamperState
live_state d = d.state

-- The loop of `usage`.
unfoldable pub reserved_total : HeightMap → ℕ
reserved_total [] = 0
reserved_total ((bucket, h) ∷ rest) = h + reserved_total rest

-- The quotient, as its numerator and its denominator.
abbrev pub usage : {W : Type 0} → StamperOptions W → Device W → ℕ × ℕ
usage o d = (reserved_total (live_state d).reserved, 2 ^ o.depth)

reserved_total-set_height :
    (m : HeightMap) (b h : ℕ)
    → reserved_total (set_height m b h) + height m b ≡ reserved_total m + h
unfolding reserved_total set_height height
reserved_total-set_height [] b h = omega arith
reserved_total-set_height ((k, v) ∷ m) b h = ground (arith, reserved_total-set_height m b h)

-- Moving a bucket's line moves the usage by what the line moved, whatever the other lines are.
pub usage-set_line :
    {W : Type 0} (o : StamperOptions W) (d : Device W) (b h : ℕ)
    → (usage o (set_line b h d)).0 + line d b ≡ (usage o d).0 + h
usage-set_line o d b h = reserved_total-set_height d.state.reserved b h
