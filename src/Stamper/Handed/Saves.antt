-- ===== src/Stamper/Handed/Saves.antt =====
-- The steps of packages/dappdata/src/stamper/index.ts up to a save take no slot twice.
use dappdata.Base.{
  ◌≡◌, ◌∙◌, refl, ap, ◌<◌, Bool-cases, inl, inr, ltb, leb, min, ℕ, ◌+◌, Option, none, some, List,
  [], ◌∷◌, arith, ==_iff, if◌then◌else◌, Result, Exec, max, ◌>>=◌, lift, pure,
}
use dappdata.Errors.{Bytes}
use dappdata.Stamper.State.{StamperState, bucket_of, merge_state}
use dappdata.Stamper.State.Heights.{HeightMap, height, set_height, height-set_height}
use dappdata.Stamper.Store.{Script, done, ask, store_save}
use dappdata.Stamper.Grows.{Grows, mark_spent-Grows, take_slot-Grows}
use dappdata.Stamper.Fresh.{Misses, NoRepeat}
use dappdata.Stamper.Keeps.{Preorder, Relates, bind-R, lift-R, pure-R}
use dappdata.Stamper.{
  StamperOptions, Device, spent, line, has_room, mark_spent, absorb, take_slot, stamp_saving,
  run_script, extend_line, count_needs, reserve_needs, ask_upcoming, prepare, begin_save, save_now,
  capacity, merge_in, take_reserved, set_spent, set_line,
}

-- Every slot in the list is spent.
abbrev pub Below : {W : Type 0} → Device W → List (ℕ × ℕ) → Type 0
Below d [] = Unit {0}
Below d ((b, s) ∷ rest) = (s < spent d b) × Below d rest

-- What was handed out is spent, and no slot of a bucket was handed out twice.
abbrev pub Intact : {W : Type 0} → Device W → Type 0
Intact d = Below d d.handed × NoRepeat d.handed

abbrev pub Safe : {W : Type 0} → Device W → Device W → Type 0
Safe d e = Intact d → Intact e

Below-Grows : {W : Type 0} (d e : Device W) (l : List (ℕ × ℕ)) → Grows d e → Below d l → Below e l
Below-Grows d e [] g h = tt
Below-Grows d e ((b, s) ∷ rest) g h = (omega (arith, g b, h.0), Below-Grows d e rest g h.1)

Below-Misses :
    {W : Type 0} (d : Device W) (b : ℕ) (l : List (ℕ × ℕ)) → Below d l → Misses b (spent d b) l
Below-Misses d b [] h = tt
Below-Misses d b ((c, s) ∷ rest) h = (
  (λ same. absurd (omega (arith, h.0, same.1, ap (λ x. spent d x) same.0))),
  Below-Misses d b rest h.1,
)

Safe-of : {W : Type 0} (d e : Device W) → Grows d e → e.handed ≡ d.handed → Safe d e
Safe-of d e g same (below, apart) = rw same (Below-Grows d e d.handed g below, apart)

Safe-preorder : {W : Type 0} → Preorder (Safe {W = W})
Safe-preorder = record { refl_at = λ d i. i; trans_at = λ d e f p q i. q (p i) }

pub bind-Safe :
    {W E A B : Type 0} (m : Exec (Device W) E A) (f : A → Exec (Device W) E B)
    → Relates Safe m
    → ((a : A) → Relates Safe (f a))
    → Relates Safe (m >>= f)
bind-Safe = bind-R Safe-preorder

pub lift-Safe : {W E A : Type 0} (r : Result E A) → Relates Safe (lift {S = Device W} r)
lift-Safe = lift-R Safe-preorder

pub pure-Safe : {W E A : Type 0} (a : A) → Relates Safe (pure {S = Device W} {E = E} a)
pure-Safe = pure-R Safe-preorder

mark_spent-handed :
    {W : Type 0} (buckets : List ℕ) (d : Device W) → (mark_spent buckets d).handed ≡ d.handed
unfolding mark_spent
mark_spent-handed [] d = refl
mark_spent-handed (b ∷ rest) d =
    mark_spent-handed rest (if has_room b d then set_spent b (line d b) d else d)
    ∙ elim (Bool-cases (has_room b d)) [ inl e ↦ rw e refl | inr e ↦ rw e refl ]

pub ruleset safe_rules = (bind-Safe, lift-Safe, pure-Safe)

merge_in-Safe :
    {W : Type 0} (merged : StamperState) (buckets : List ℕ)
    → Relates Safe (merge_in {W = W} merged buckets)
unfolding merge_in
merge_in-Safe merged buckets = record {
  at = λ d.
      Safe-of d (mark_spent buckets (record d { state = merged }))
        (mark_spent-Grows buckets (record d { state = merged }))
        (mark_spent-handed buckets (record d { state = merged }));
}

pub absorb-Safe :
    {W : Type 0} (remote : StamperState) (buckets : List ℕ)
    → Relates Safe (absorb {W = W} remote buckets)
unfolding absorb
absorb-Safe remote buckets = record {
  at = λ d.
      (bind-Safe _ _ (lift-Safe (merge_state d.state remote)) (λ m. merge_in-Safe m buckets)).at d;
}

-- The slot that is taken is none that was handed out before, and it is spent from then on.
pub take_slot-Safe : {W : Type 0} (bucket : ℕ) → Relates Safe (take_slot {W = W} bucket)
unfolding take_slot
take_slot-Safe b = record {
  at = λ d i. (
    (
      ground (arith, height-set_height d.used b (spent d b + 1) b, ==_iff b b),
      Below-Grows d (take_slot b d).1 d.handed ((take_slot-Grows b).at d) i.0,
    ),
    (Below-Misses d b d.handed i.0, i.1),
  );
}

module _ {W : Type 0} (o : StamperOptions W) where
  take_reserved-Safe : (bucket : ℕ) → Relates Safe (take_reserved o bucket)
  unfolding take_reserved
  take_reserved-Safe b = record {
    at = λ d. elim (Bool-cases (has_room b d)) [
      | inl e ↦ rw e ((take_slot-Safe b).at d)
      | inr e ↦ rw e (λ i. i)
    ];
  }

  stamp_saving-Safe : (address : Bytes) → Relates Safe (stamp_saving o address)
  unfolding stamp_saving
  stamp_saving-Safe address = search (safe_rules, take_reserved-Safe)

  run_script-Safe : (s : Script W) → Relates Safe (run_script o s)
  unfolding run_script
  run_script-Safe (done r w) = record { at = λ d i. i }
  run_script-Safe (ask address next) = record {
    at = λ d i.
        let (r, d') = stamp_saving o address d in
        (run_script-Safe (next r)).at d' ((stamp_saving-Safe address).at d i);
  }

  extend_line-Safe : (extension : Option (ℕ × ℕ)) → Relates Safe (extend_line o extension)
  unfolding extend_line
  extend_line-Safe none = record { at = λ d i. i }
  extend_line-Safe (some (bucket, want)) = record {
    at = λ d.
        let most = min (max want (spent d bucket + o.block)) (capacity o) in
        elim (Bool-cases (leb (line d bucket) (spent d bucket))) [
          | inl e ↦ elim (Bool-cases (leb most (spent d bucket))) [
            | inl f ↦ rw (e, f) (λ i. i)
            | inr f ↦ rw (e, f) (λ i. i)
          ]
          | inr e ↦ rw e (λ i. i)
        ];
  }

  ask_upcoming-Safe : Relates Safe (ask_upcoming o)
  unfolding ask_upcoming
  ask_upcoming-Safe = record { at = λ d i. i }

  count_needs-Safe :
      (need : HeightMap) (addresses : List Bytes) → Relates Safe (count_needs o need addresses)
  unfolding count_needs
  count_needs-Safe need [] = pure-Safe need
  count_needs-Safe need (address ∷ rest) =
      bind-Safe _ _ (lift-Safe (bucket_of address))
        λ b. count_needs-Safe (set_height need b (height need b + 1)) rest

  reserve_needs-Safe :
      (need : HeightMap) (tentative : List ℕ) → Relates Safe (reserve_needs o need tentative)
  unfolding reserve_needs
  reserve_needs-Safe [] t = record { at = λ d i. i }
  reserve_needs-Safe ((b, n) ∷ rest) t = record {
    at = λ d. elim (Bool-cases (leb (spent d b + n) (line d b))) [
      | inl e ↦ rw e ((reserve_needs-Safe rest t).at d)
      | inr e ↦ elim (Bool-cases (ltb (capacity o) (spent d b + n))) [
        | inl f ↦ rw (e, f) (λ i. i)
        | inr f ↦ rw (e, f) ((reserve_needs-Safe rest (b ∷ t)).at (set_line b (spent d b + n) d))
      ]
    ];
  }

  pub prepare-Safe : (extension : Option (ℕ × ℕ)) → Relates Safe (prepare o extension)
  unfolding prepare
  prepare-Safe extension =
      search (safe_rules, extend_line-Safe, ask_upcoming-Safe, count_needs-Safe, reserve_needs-Safe)
        depth 8

  pub save_now-Safe : Relates Safe (save_now o)
  unfolding save_now begin_save
  save_now-Safe = record {
    at = λ d.
        (run_script-Safe (store_save o.store (begin_save o d).state d.world)).at (begin_save o d);
  }
