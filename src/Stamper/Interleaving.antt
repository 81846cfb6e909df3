-- ===== src/Stamper/Interleaving.antt =====
-- Calls of `stamp` that are in flight together. `await ensureRoom(bucket)` gives up the thread also
-- when it returns at once, so between the test `spent(bucket) < line(bucket)` and the lines that
-- take the slot other calls may run. A call here is in flight from its test to its take.
use dappdata.Base.{
  ℕ, suc, ◌+◌, ◌≤◌, ◌<◌, ◌≡◌, refl, sym, ap, true, arith, ltb→lt, lt→ltb, max, List, [], ◌∷◌,
  Bool-cases, inl, inr, if◌then◌else◌, Result, ok, lift, >>=-eq-ok, ==_iff,
}
use dappdata.Errors.{Failure}
use dappdata.Stamper.State.{StamperState, merge_state}
use dappdata.Stamper.State.Heights.{HeightMap, height, height-set_height}
use dappdata.Stamper.Reserve.{mark_spent-state}
use dappdata.Stamper.{
  StamperOptions, Device, spent, line, has_room, set_line, set_spent, mark_spent, merge_in, absorb,
  withdraw, take_slot,
}

module _ {W : Type 0} (o : StamperOptions W) where
  -- The calls for bucket `b` with at most `n` of them in flight at a time; `k` are now. Between their
  -- steps a commit may move a line, up or down, or take its lines back after a lost race, and a
  -- checkpoint of another device may be taken in, which may mark a bucket as spent up to its line.
  pub data Step (b n : ℕ) : Device W → ℕ → Device W → ℕ → Type 0 where
    test : (d : Device W) (k : ℕ) → k < n → has_room b d ≡ true → Step b n d k d (suc k)
    take : (d : Device W) (k : ℕ) → Step b n d (suc k) (take_slot b d).1 k
    move : (d : Device W) (k bucket h : ℕ) → Step b n d k (set_line bucket h d) k
    take_back : (d : Device W) (k : ℕ) (before : HeightMap) → Step b n d k (withdraw o before d) k
    take_in :
        (d e : Device W) (k : ℕ) (remote : StamperState) (buckets : List ℕ)
        → absorb remote buckets d ≡ (ok tt, e)
        → Step b n d k e k

  -- Steps along which the bucket's line stays at most `top`.
  pub data Reach (b n top : ℕ) (d : Device W) (k : ℕ) : Device W → ℕ → Type 0 where
    here : Reach b n top d k d k
    next :
        {e f : Device W} {i j : ℕ}
        → Reach b n top d k e i
        → Step b n e i f j
        → line f b ≤ top
        → Reach b n top d k f j

  take_slot-spent : (b : ℕ) (d : Device W) → spent (take_slot b d).1 b ≡ spent d b + 1
  unfolding take_slot
  take_slot-spent b d = ground (arith, height-set_height d.used b (spent d b + 1) b, ==_iff b b)

  take_slot-line : (b : ℕ) (d : Device W) → line (take_slot b d).1 b ≡ line d b
  unfolding take_slot
  take_slot-line b d = refl

  -- Marking as spent raises a bucket at most to its line, and moves no line.
  mark_spent-most :
      (b top : ℕ) (buckets : List ℕ) (d : Device W)
      → line d b ≤ top
      → spent d b ≤ top
      → spent (mark_spent buckets d) b ≤ top
  unfolding mark_spent
  mark_spent-most b top [] d l s = s
  mark_spent-most b top (c ∷ rest) d l s =
      let marked : Device W = if has_room c d then set_spent c (line d c) d else d in
      let same : line marked b ≡ line d b = elim (Bool-cases (has_room c d)) [
        | inl e ↦ rw e refl
        | inr e ↦ rw e refl
      ] in
      mark_spent-most b top rest marked (omega (arith, same, l)) (elim (Bool-cases (has_room c d)) [
        | inl e ↦ rw e (ground (arith, height-set_height d.used c (line d c) b, ==_iff c b, l, s))
        | inr e ↦ rw e s
      ])

  absorb-most :
      (b top : ℕ) (remote : StamperState) (buckets : List ℕ) (d e : Device W)
      → absorb remote buckets d ≡ (ok tt, e)
      → line e b ≤ top
      → spent e b ≤ max (spent d b) top
  unfolding absorb merge_in lift
  absorb-most b top remote buckets d e h l =
      let (merged, f, first, rest) =
        >>=-eq-ok (lift (merge_state d.state remote)) (λ m. merge_in m buckets) d h in
      let same : d ≡ f = ap (λ (x : Result Failure StamperState × Device W). x.1) first in
      let d' : Device W = record f { state = merged } in
      let ends : mark_spent buckets d' ≡ e =
        ap (λ (x : Result Failure (Unit {0}) × Device W). x.1) rest in
      let lines : line (mark_spent buckets d') b ≤ top = rw ends l in
      let kept : line d' b ≤ top =
        rw (← (ap (λ (x : StamperState). height x.reserved b) (mark_spent-state buckets d').0))
          lines in
      let was : spent f b ≡ spent d b = ap (λ (x : Device W). spent x b) (sym same) in
      rw (← ends) (
        mark_spent-most b (max (spent d b) top) buckets d' (omega (arith, kept))
          (omega (arith, was)))

  -- What is spent and what the calls in flight may take.
  abbrev Bounded : ℕ → ℕ → ℕ → Device W → ℕ → Type 0
  Bounded b n top d k = (spent d b + k ≤ top + n) × (k ≤ n) × (line d b ≤ top)

  Step-Bounded :
      {b n i j : ℕ} {d e : Device W} (top : ℕ)
      → Step b n d i e j
      → line e b ≤ top
      → Bounded b n top d i
      → Bounded b n top e j
  unfolding withdraw
  Step-Bounded {b} top (test d k free room) l (h, c, m) =
      (omega (arith, ltb→lt (spent d b) (line d b) room, m, free), omega (arith, free), l)
  Step-Bounded {b} top (take d k) l (h, c, m) =
      (omega (arith, take_slot-spent b d, h), omega (arith, c), l)
  Step-Bounded top (move d k bucket g) l (h, c, m) = (h, c, l)
  Step-Bounded top (take_back d k before) l (h, c, m) = (h, c, l)
  Step-Bounded {b} top (take_in d e k remote buckets a) l (h, c, m) =
      (omega (arith, absorb-most b top remote buckets d e a l, h, c), c, l)

  Reach-Bounded :
      {b n top : ℕ} {d : Device W} {i : ℕ} {e : Device W} {j : ℕ}
      → Reach b n top d i e j
      → Bounded b n top d i
      → Bounded b n top e j
  Reach-Bounded here h = h
  Reach-Bounded {top = top} (next r s l) h = Step-Bounded top s l (Reach-Bounded r h)

  -- With at most `n` calls for a bucket in flight at a time, whatever commits and merges run between
  -- their steps: if the bucket's line never stood above `top`, the slot that the next of `k + 1` calls
  -- in flight takes lies at most `n - 1 - k` slots past `top`, that is past the first slot that no line
  -- covered.
  pub in_flight_bound :
      (b n k top : ℕ) (d e : Device W)
      → spent d b ≤ line d b
      → line d b ≤ top
      → Reach b n top d 0 e (suc k)
      → (slot : ℕ) × ((take_slot b e).0 ≡ ok slot) × (slot + suc k ≤ top + n)
  unfolding take_slot
  in_flight_bound b n k top d e h l r =
      (spent e b, refl, (Reach-Bounded r (omega (arith, h, l), omega arith, l)).0)

  took : (b : ℕ) (e : Device W) (slot : ℕ) → spent e b ≡ slot → (take_slot b e).0 ≡ ok slot
  unfolding take_slot
  took b e slot same = ap ok same

  -- When a bucket has one slot left below its line, two calls in flight together both pass the test, and
  -- the second takes the slot at the line, which no checkpoint has reserved.
  pub in_flight_overrun :
      (b : ℕ) (d : Device W)
      → suc (spent d b) ≡ line d b
      → (e : Device W) × Reach b 2 (line d b) d 0 e 1
        × ((take_slot b e).0 ≡ ok (line d b))
        × (line e b ≡ line d b)
  in_flight_overrun b d h =
      let room : has_room b d ≡ true = lt→ltb (spent d b) (line d b) (omega arith) in
      let one : Reach b 2 (line d b) d 0 d 1 =
        next here (test d 0 (omega arith) room) (omega arith) in
      let two : Reach b 2 (line d b) d 0 d 2 =
        next one (test d 1 (omega arith) room) (omega arith) in
      (
        (take_slot b d).1,
        next two (take d 1) (omega (arith, take_slot-line b d)),
        took b (take_slot b d).1 (line d b) (omega (arith, take_slot-spent b d)),
        take_slot-line b d,
      )
