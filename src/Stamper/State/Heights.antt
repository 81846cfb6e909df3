-- ===== src/Stamper/State/Heights.antt =====
-- The `Map<number, number>` of a stamper: bucket to height, in insertion order. `get` with the
-- default 0 is `height`, `set` is `set_height`; a key that is there keeps its place.
use dappdata.Base.{ℕ, ◌≡◌, refl, Bool, true, false, List, [], ◌∷◌, arith, ◌==◌, if◌then◌else◌}

abbrev pub HeightMap : Type 0
HeightMap = List (ℕ × ℕ)

-- `m.get(bucket) ?? 0`
unfoldable pub height : HeightMap → ℕ → ℕ
height [] b = 0
height ((k, v) ∷ m) b = if k == b then v else height m b

-- `m.set(bucket, v)`
unfoldable pub set_height : HeightMap → ℕ → ℕ → HeightMap
set_height [] b v = (b, v) ∷ []
set_height ((k, w) ∷ m) b v = if k == b then (k, v) ∷ m else (k, w) ∷ set_height m b v

-- `m.has(bucket)`
unfoldable pub has_key : HeightMap → ℕ → Bool
has_key [] b = false
has_key ((k, v) ∷ m) b = if k == b then true else has_key m b

-- What every JavaScript `Map` has: no key twice.
abbrev pub Distinct : HeightMap → Type 0
Distinct [] = Unit {0}
Distinct ((k, v) ∷ m) = (has_key m k ≡ false) × Distinct m

pub height-set_height :
    (m : HeightMap) (b v c : ℕ) → height (set_height m b v) c ≡ (if b == c then v else height m c)
unfolding height set_height
height-set_height [] b v c = refl
height-set_height ((k, w) ∷ m) b v c = ground (arith, height-set_height m b v c)

pub has_key-set_height :
    (m : HeightMap) (b v c : ℕ)
    → has_key (set_height m b v) c ≡ (if b == c then true else has_key m c)
unfolding has_key set_height
has_key-set_height [] b v c = refl
has_key-set_height ((k, w) ∷ m) b v c = ground (arith, has_key-set_height m b v c)

pub set_height-Distinct : (m : HeightMap) (b v : ℕ) → Distinct m → Distinct (set_height m b v)
unfolding set_height
set_height-Distinct [] b v h = unfold has_key in (refl, tt)
set_height-Distinct ((k, w) ∷ m) b v h =
    ground (arith, set_height-Distinct m b v h.1, has_key-set_height m b v k)

pub height_absent : (m : HeightMap) (b : ℕ) → has_key m b ≡ false → height m b ≡ 0
unfolding height has_key
height_absent [] b h = refl
height_absent ((k, v) ∷ m) b h = ground (arith, height_absent m b)

pub height_nil : (b : ℕ) → height [] b ≡ 0
unfolding height
height_nil b = refl
