-- ===== src/Slot/Watch.antt =====
-- `watch` of packages/dappdata/src/slot/index.ts: polling with backoff, one step per poll. A poll found
-- the slot at an index, found nothing, or failed. What the callback `onValue` does is not modelled, but
-- that it may throw is; `onError` does not throw.
use dappdata.Base.{
  ℕ, ◌*◌, ◌≡◌, ◌≤◌, refl, ap, Bool, false, Bool-cases, inl, inr, Option, none, some, List, [], ◌∷◌,
  arith, ltb, ◌==◌, if◌then◌else◌, true, ◌≢◌, ◌++◌, subst, sym, ◌∙◌, ==_iff,
}

-- A value comes with whether `onValue` would throw on it.
pub data Poll : Type 0 where
  nothing failed : Poll
  at_value : ℕ → Bool → Poll

-- The callbacks that a poll calls, in order: `onValue` with an index, and `onError`.
pub data Called : Type 0 where
  on_error : Called
  on_value : ℕ → Called

pub record Watch : Type 0 where
  pub first : ℕ
  pub longest : ℕ
  pub delay : ℕ
  pub last_index : Option ℕ

-- `Math.min(delay * 2, longest)`
unfoldable pub backed_off : ℕ → ℕ → ℕ
backed_off longest delay = if ltb longest (delay * 2) then longest else delay * 2

unfoldable pub is_last : Option ℕ → ℕ → Bool
is_last none index = false
is_last (some last) index = last == index

unfoldable pub wait_longer : Watch → Watch
unfolding backed_off
wait_longer w = record w { delay = backed_off w.longest w.delay }

-- What the `catch` does after `onValue` threw.
unfoldable pub after_value : ℕ → Bool → Watch → List Called × Watch
unfolding wait_longer
after_value index true w = (on_value index ∷ on_error ∷ [], wait_longer w)
after_value index false w = (on_value index ∷ [], w)

unfoldable pub tick : Watch → Poll → List Called × Watch
unfolding wait_longer is_last after_value
tick w nothing = ([], wait_longer w)
tick w failed = (on_error ∷ [], wait_longer w)
tick w (at_value index throws) =
    if is_last w.last_index index
    then ([], wait_longer w)
    else after_value index throws (record w { last_index = some index; delay = w.first })

unfoldable pub watch : ℕ → ℕ → Watch
watch first longest = record { first = first; longest = longest; delay = first; last_index = none }

-- The polls of a watch, and the callbacks that they call.
unfoldable pub run : Watch → List Poll → List Called × Watch
unfolding tick
run w [] = ([], w)
run w (poll ∷ rest) = let (c, w1) = tick w poll in let (l, w2) = run w1 rest in (c ++ l, w2)

-- What polls find: an index and whether the callback would throw, or a failure.
abbrev pub finds : List Poll → List (Option (ℕ × Bool))
finds [] = []
finds (nothing ∷ rest) = finds rest
finds (failed ∷ rest) = none ∷ finds rest
finds (at_value index throws ∷ rest) = some (index, throws) ∷ finds rest

-- The calls for a first sight of an index, and for a failure.
abbrev pub calls_for : ℕ → Bool → List Called
calls_for index true = on_value index ∷ on_error ∷ []
calls_for index false = on_value index ∷ []

-- The calls that answer what polls find, where `seen` was the index before: `onValue` where an index
-- differs from it, and `onError` where a poll failed or `onValue` threw.
pub data Answers : Option ℕ → List (Option (ℕ × Bool)) → List Called → Type 0 where
  ends : {seen : Option ℕ} → Answers seen [] []
  fails :
      {seen : Option ℕ} {rest : List (Option (ℕ × Bool))} {l : List Called}
      → Answers seen rest l
      → Answers seen (none ∷ rest) (on_error ∷ l)
  same :
      {index : ℕ} {throws : Bool} {rest : List (Option (ℕ × Bool))} {l : List Called}
      → Answers (some index) rest l
      → Answers (some index) (some (index, throws) ∷ rest) l
  new :
      {seen : Option ℕ} {index : ℕ} {throws : Bool} {rest : List (Option (ℕ × Bool))}
      {l : List Called}
      → seen ≢ some index
      → Answers (some index) rest l
      → Answers seen (some (index, throws) ∷ rest) (calls_for index throws ++ l)

is_last-same : (seen : Option ℕ) (index : ℕ) → is_last seen index ≡ true → seen ≡ some index
unfolding is_last
is_last-same none index e = absurd (cc)
is_last-same (some last) index e = ap some ((==_iff last index).0 e)

is_last-new : (seen : Option ℕ) (index : ℕ) → is_last seen index ≡ false → seen ≢ some index
unfolding is_last
is_last-new none index e = λ k. absurd (cc)
is_last-new (some last) index e = λ k. ground (arith, k, e)

run-after :
    (w : Watch) (index : ℕ) (throws : Bool) (rest : List Poll)
    → ((v : Watch) → v.last_index ≡ some index → Answers (some index) (finds rest) (run v rest).0)
    → (v : Watch) → v.last_index ≡ some index
    → (l : List Called) × ((let (c, w1) = after_value index throws v in c ++ (run w1 rest).0)
        ≡ calls_for index throws ++ l)
      × Answers (some index) (finds rest) l
unfolding after_value wait_longer
run-after w index true rest go v e = ((run (wait_longer v) rest).0, refl, go (wait_longer v) e)
run-after w index false rest go v e = ((run v rest).0, refl, go v e)

run-Answers_from :
    (polls : List Poll) (w : Watch) → Answers w.last_index (finds polls) (run w polls).0
unfolding run tick wait_longer
run-Answers_from [] w = ends
run-Answers_from (nothing ∷ rest) w = run-Answers_from rest (wait_longer w)
run-Answers_from (failed ∷ rest) w = fails (run-Answers_from rest (wait_longer w))
run-Answers_from (at_value index throws ∷ rest) w = elim (Bool-cases (is_last w.last_index index)) [
  | inl e ↦
      let seen = is_last-same w.last_index index e in
      let go = run-Answers_from rest (wait_longer w) in
      rw e (
        subst (λ s. Answers s (some (index, throws) ∷ finds rest) (run (wait_longer w) rest).0)
          (sym seen)
          (same (subst (λ s. Answers s (finds rest) (run (wait_longer w) rest).0) seen go)))
  | inr e ↦
      let (l, is, go) =
        run-after w index throws rest
          (λ v k. subst (λ s. Answers s (finds rest) (run v rest).0) k (run-Answers_from rest v))
          (record w { last_index = some index; delay = w.first }) refl in
      rw (e, is) (new (is_last-new w.last_index index e) go)
]

-- Whatever the polls find: `watch` calls `onValue` for the first index and then for each index that
-- differs from the one before it, in order, `onError` right after an `onValue` that threw and for each
-- poll that failed, and nothing else.
pub run-Answers :
    (first longest : ℕ) (polls : List Poll)
    → Answers none (finds polls) (run (watch first longest) polls).0
unfolding watch
run-Answers first longest polls = run-Answers_from polls (watch first longest)

pub record Bounded (w : Watch) : Type 0 where
  pub delay_bound : w.delay ≤ w.longest
  pub first_bound : w.first ≤ w.longest
  pub first_least : w.first ≤ w.delay

wait_longer-Bounded : (w : Watch) → Bounded w → Bounded (wait_longer w)
unfolding wait_longer backed_off
wait_longer-Bounded w b = record {
  delay_bound = ground (arith, b.delay_bound);
  first_bound = b.first_bound;
  first_least = ground (arith, b.first_least, b.first_bound);
}

after_value-Bounded :
    (index : ℕ) (throws : Bool) (w : Watch) → Bounded w → Bounded (after_value index throws w).1
unfolding after_value
after_value-Bounded index true w b = wait_longer-Bounded w b
after_value-Bounded index false w b = b

run-Bounded_from : (polls : List Poll) (w : Watch) → Bounded w → Bounded (run w polls).1
unfolding run tick
run-Bounded_from [] w b = b
run-Bounded_from (nothing ∷ rest) w b =
    run-Bounded_from rest (wait_longer w) (wait_longer-Bounded w b)
run-Bounded_from (failed ∷ rest) w b =
    run-Bounded_from rest (wait_longer w) (wait_longer-Bounded w b)
run-Bounded_from (at_value index throws ∷ rest) w b =
    elim (Bool-cases (is_last w.last_index index)) [
      | inl e ↦ rw e (run-Bounded_from rest (wait_longer w) (wait_longer-Bounded w b))
      | inr e ↦ rw e (
          run-Bounded_from rest _ (
            after_value-Bounded index throws (record w { last_index = some index; delay = w.first })
              (record {
                delay_bound = b.first_bound;
                first_bound = b.first_bound;
                first_least = omega arith;
              })))
    ]

abbrev SameSettings : Watch → Watch → Type 0
SameSettings w v = (v.longest ≡ w.longest) × (v.first ≡ w.first)

after_value-SameSettings :
    (index : ℕ) (throws : Bool) (w : Watch) → SameSettings w (after_value index throws w).1
unfolding after_value wait_longer
after_value-SameSettings index true w = (refl, refl)
after_value-SameSettings index false w = (refl, refl)

run-SameSettings : (polls : List Poll) (w : Watch) → SameSettings w (run w polls).1
unfolding run tick wait_longer
run-SameSettings [] w = (refl, refl)
run-SameSettings (nothing ∷ rest) w = run-SameSettings rest (wait_longer w)
run-SameSettings (failed ∷ rest) w = run-SameSettings rest (wait_longer w)
run-SameSettings (at_value index throws ∷ rest) w = elim (Bool-cases (is_last w.last_index index)) [
  | inl e ↦ rw e (run-SameSettings rest (wait_longer w))
  | inr e ↦
      let seen = record w { last_index = some index; delay = w.first } in
      let (a, b) = after_value-SameSettings index throws seen in
      let (c, d) = run-SameSettings rest ((after_value index throws seen).1) in rw e (c ∙ a, d ∙ b)
]

-- If the first delay is at most the longest, the delay stays between the two, whatever the polls find.
pub run_delay_bounds :
    (first longest : ℕ) (polls : List Poll)
    → first ≤ longest
    → (first ≤ (run (watch first longest) polls).1.delay)
      × ((run (watch first longest) polls).1.delay ≤ longest)
unfolding watch
run_delay_bounds first longest polls h =
    let w = watch first longest in
    let b =
      run-Bounded_from polls w
        (record { delay_bound = h; first_bound = h; first_least = omega arith }) in
    let (same_longest, same_first) = run-SameSettings polls w in
    (omega (arith, b.first_least), omega (arith, b.delay_bound))
