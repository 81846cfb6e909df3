-- ===== src/Stamper/Reserve.antt =====
-- Reserve before use, in packages/dappdata/src/stamper/index.ts, for stores that do not have the stamper
-- sign their own writes.
pub mod Stamp
use dappdata.Base.{
  ℕ, zero, suc, ◌+◌, ◌≤◌, ◌<◌, ◌≡◌, refl, sym, ap, ◌∙◌, subst, Bool, true, false, Bool-cases, ◌⊎◌,
  inl, inr, Option, none, some, List, [], ◌∷◌, arith, ltb, leb, ◌==◌, ==_iff, if◌then◌else◌, Result,
  ok, err, continue, Exec, max, min, ◌>>=◌, >>=-eq-ok, lift, pure,
}
use dappdata.Errors.{Bytes, Failure}
use dappdata.Stamper.State.{StamperState, bucket_of, merge_state}
use dappdata.Stamper.State.Heights.{HeightMap, height, set_height, height-set_height}
use dappdata.Stamper.Store.{Script, done, ask, SaveFailure, moved, failed, store_save}
use dappdata.Stamper.{
  StamperOptions, Device, Attempt, published, again, spent, line, has_room, mark_spent, absorb,
  capacity, take_slot, stamp_saving, run_script, extend_line, count_needs, reserve_needs,
  ask_upcoming, prepare, begin_save, withdraw, lost_to, after_save, save_now, attempt, next_attempt,
  commit_loop, commit, ask_load, absorb_stored, extend, ensure_room, stamp_slot, stamp, merge_in,
  retry, write, still_wanted, end_save, set_spent, set_line, reload,
}

abbrev pub Contains : ℕ → List ℕ → Type 0
Contains b [] = ⊥
Contains b (c ∷ rest) = (c ≡ b) ⊎ Contains b rest

abbrev pub NoRoom : {W : Type 0} → ℕ → Device W → Type 0
NoRoom b d = line d b ≤ spent d b

pub mark_spent-state :
    {W : Type 0} (buckets : List ℕ) (d : Device W)
    → ((mark_spent buckets d).state ≡ d.state) × ((mark_spent buckets d).world ≡ d.world)
unfolding mark_spent
mark_spent-state [] d = (refl, refl)
mark_spent-state (b ∷ rest) d =
    ground (arith, mark_spent-state rest d, mark_spent-state rest (set_spent b (line d b) d))

-- A bucket that has no room gets none, and a bucket of the list has none afterwards.
pub mark_spent-NoRoom :
    {W : Type 0} (b : ℕ) (buckets : List ℕ) (d : Device W)
    → Contains b buckets ⊎ NoRoom b d
    → NoRoom b (mark_spent buckets d)
unfolding mark_spent
mark_spent-NoRoom b [] d (inl h) = absurd h
mark_spent-NoRoom b [] d (inr h) = h
mark_spent-NoRoom b (c ∷ rest) d h = ground (
  arith,
  mark_spent-NoRoom b rest d,
  mark_spent-NoRoom b rest (set_spent c (line d c) d),
  height-set_height d.used c (line d c) b,
  ==_iff c b,
)

pub merge_in-NoRoom :
    {W : Type 0} (b : ℕ) (merged : StamperState) (buckets : List ℕ) (d : Device W)
    → Contains b buckets
    → NoRoom b (merge_in merged buckets d).1
unfolding merge_in
merge_in-NoRoom b merged buckets d h =
    mark_spent-NoRoom b buckets (record d { state = merged }) (inl h)

-- Taking in another view makes no room in the buckets that it names.
pub absorb-NoRoom :
    {W : Type 0} (b : ℕ) (remote : StamperState) (buckets : List ℕ) (d d' : Device W)
    → Contains b buckets
    → absorb remote buckets d ≡ (ok tt, d')
    → line d' b ≤ spent d' b
unfolding absorb lift
absorb-NoRoom b remote buckets d d' h e =
    let (merged, f, first, rest) =
      >>=-eq-ok (lift (merge_state d.state remote)) (λ m. merge_in m buckets) d e in
    rw (← (ap (λ (x : Result Failure (Unit {0}) × Device _). x.1) rest))
      (merge_in-NoRoom b merged buckets f h)

module _ {W : Type 0} (o : StamperOptions W) where
  extend_line_moves :
      (b want : ℕ) (d d' : Device W) (t : List ℕ)
      → NoRoom b d
      → extend_line o (some (b, want)) d ≡ (ok t, d')
      → (spent d' b < line d' b) × (line d' b ≤ capacity o) × Contains b t × (d'.used ≡ d.used)
  unfolding extend_line
  extend_line_moves b want d d' t h e =
      let want' : ℕ = min (max want (spent d b + o.block)) (capacity o) in
      let read = height-set_height d.state.reserved b want' b in ground (arith, read, ==_iff b b)

  ask_upcoming_keeps :
      (d d' : Device W) (a : List Bytes)
      → ask_upcoming o d ≡ (ok a, d')
      → (d'.state ≡ d.state) × (d'.used ≡ d.used)
  unfolding ask_upcoming
  ask_upcoming_keeps d d' a e = ground arith

  count_needs_keeps :
      (need : HeightMap) (addresses : List Bytes) (d d' : Device W) (n : HeightMap)
      → count_needs o need addresses d ≡ (ok n, d')
      → d' ≡ d
  unfolding count_needs ◌>>=◌
  count_needs_keeps need [] d d' n e = ground arith
  count_needs_keeps need (address ∷ rest) d d' n e =
      let (b, f, first, then_rest) =
        >>=-eq-ok (lift (bucket_of address))
          (λ b. count_needs o (set_height need b (height need b + 1)) rest) d e in
      count_needs_keeps (set_height need b (height need b + 1)) rest f d' n then_rest
      ∙ sym (ap (λ (x : Result Failure ℕ × Device W). x.1) first)

  reserve_needs_raises :
      (b : ℕ) (need : HeightMap) (t : List ℕ) (d d' : Device W) (t' : List ℕ)
      → reserve_needs o need t d ≡ (ok t', d')
      → spent d b < line d b
      → line d b ≤ capacity o
      → Contains b t
      → (spent d' b < line d' b) × (line d' b ≤ capacity o) × Contains b t' × (d'.used ≡ d.used)
  unfolding reserve_needs
  reserve_needs_raises b [] t d d' t' e lt le c = ground arith
  reserve_needs_raises b ((k, n) ∷ rest) t d d' t' e lt le c = ground (
    arith,
    reserve_needs_raises b rest t d d' t',
    reserve_needs_raises b rest (k ∷ t) (set_line k (spent d k + n) d) d' t',
    height-set_height d.state.reserved k (spent d k + n) b,
    ==_iff k b,
  )

  lookahead_raises :
      (b : ℕ) (n : HeightMap) (t₁ : List ℕ) (d d₁ d₂ d₃ d' : Device W) (t : List ℕ)
      → (spent d₁ b < line d₁ b) × (line d₁ b ≤ capacity o) × Contains b t₁ × (d₁.used ≡ d.used)
      → (d₂.state ≡ d₁.state) × (d₂.used ≡ d₁.used)
      → d₃ ≡ d₂
      → reserve_needs o n t₁ d₃ ≡ (ok t, d')
      → (spent d' b < line d' b) × (line d' b ≤ capacity o) × Contains b t × (d'.used ≡ d.used)
  lookahead_raises b n t₁ d d₁ d₂ d₃ d' t (lt, le, c, u) (s₂, u₂) same e =
      ground (arith, reserve_needs_raises b n t₁ d₃ d' t e)

  -- What an attempt does before the write, for a bucket that has no room: its line goes up, above the
  -- spent height and not above the capacity, and the bucket is one of the tentative ones.
  pub prepare_moves :
      (b want : ℕ) (d d' : Device W) (t : List ℕ)
      → NoRoom b d
      → prepare o (some (b, want)) d ≡ (ok t, d')
      → (spent d' b < line d' b) × (line d' b ≤ capacity o) × Contains b t × (d'.used ≡ d.used)
  unfolding prepare
  prepare_moves b want d d' t h e =
      let (t₁, d₁, e₁, r₁) = >>=-eq-ok (extend_line o (some (b, want))) _ d e in
      let (a, d₂, e₂, r₂) = >>=-eq-ok (ask_upcoming o) _ d₁ r₁ in
      let (n, d₃, e₃, r₃) = >>=-eq-ok (count_needs o [] a) _ d₂ r₂ in
      let moved_line = extend_line_moves b want d d₁ t₁ h e₁ in
      let kept = ask_upcoming_keeps d₁ d₂ a e₂ in
      let same = count_needs_keeps [] a d₂ d₃ n e₃ in
      lookahead_raises b n t₁ d d₁ d₂ d₃ d' t moved_line kept same r₃

-- A store whose `save` ends without having the stamper sign anything.
abbrev pub IsDone : {W : Type 0} → Script W → Type 0
IsDone (done r w) = Unit {0}
IsDone (ask address next) = ⊥

abbrev pub IsQuiet : {W : Type 0} → StamperOptions W → Type 0
IsQuiet {W} o = (s : StamperState) (w : W) → IsDone (store_save o.store s w)

module _ {W : Type 0} (o : StamperOptions W) where
  pub run_done :
      (s : Script W) (d d' : Device W) (r : Result SaveFailure (Unit {0}))
      → IsDone s
      → run_script o s d ≡ (r, d')
      → (s ≡ done r d'.world) × (d'.state ≡ d.state) × (d'.used ≡ d.used)
  unfolding run_script
  run_done (done r₁ w) d d' r h e = ground arith
  run_done (ask address next) d d' r h e = absurd h

  -- The checkpoint in the device's state is what the store has accepted, and the bucket has room
  -- below the line that it publishes.
  abbrev pub Written : ℕ → Device W → Type 0
  Written b d =
      (w : W) × (store_save o.store d.state w ≡ done (ok tt) d.world)
      × (spent d b < line d b)
      × (line d b ≤ capacity o)

  -- An attempt either writes the checkpoint, or leaves the bucket without room and the extension as
  -- it was.
  abbrev pub Outcome : ℕ → Option (ℕ × ℕ) → Attempt (Option (ℕ × ℕ)) → Device W → Type 0
  Outcome b extension published d = Written b d
  Outcome b extension (again e) d = (e ≡ extension) × NoRoom b d

  module _ (b want : ℕ) (t : List ℕ) (before : HeightMap) (c : Contains b t) where
    retry-Outcome :
        (d d' : Device W) (a : Attempt (Option (ℕ × ℕ)))
        → NoRoom b d
        → retry o (some (b, want)) d ≡ (ok a, d')
        → Outcome b (some (b, want)) a d'
    unfolding retry still_wanted
    retry-Outcome d d' published h e = ground arith
    retry-Outcome d d' (again x) h e = ground arith

    pub lost_to-Outcome :
        (remote : StamperState) (d d' : Device W) (a : Attempt (Option (ℕ × ℕ)))
        → lost_to o before (some (b, want)) t remote d ≡ (ok a, d')
        → Outcome b (some (b, want)) a d'
    unfolding lost_to
    lost_to-Outcome remote d d' a e =
        let (u, f, first, rest) =
          >>=-eq-ok (absorb remote t) (λ _. retry o (some (b, want))) (withdraw o before d) e in
        retry-Outcome f d' a (absorb-NoRoom b remote t (withdraw o before d) f c first) rest
