-- ===== src/Stamper/Grows.antt =====
-- The spent heights of packages/dappdata/src/stamper/index.ts over its calls.
use dappdata.Base.{
  ℕ, zero, suc, ◌+◌, ◌≤◌, Option, none, some, List, [], ◌∷◌, arith, ==_iff, if◌then◌else◌, Result,
  ok, err, Exec, max, ◌>>=◌, lift, pure,
}
use dappdata.Errors.{Bytes, Failure}
use dappdata.Stamper.State.{StamperState, bucket_of, merge_state}
use dappdata.Stamper.State.Heights.{HeightMap, height, set_height, height-set_height}
use dappdata.Stamper.Store.{Script, done, ask, SaveFailure, moved, failed, store_save}
use dappdata.Stamper.Keeps.{Preorder, Relates, bind-R, lift-R, pure-R}
use dappdata.Stamper.{
  StamperOptions, Device, Attempt, published, again, spent, line, has_room, mark_spent, absorb,
  take_slot, stamp_saving, run_script, extend_line, count_needs, reserve_needs, ask_upcoming,
  prepare, begin_save, withdraw, lost_to, after_save, save_now, attempt, next_attempt, commit_loop,
  commit, ask_load, absorb_stored, extend, ensure_room, stamp_slot, raise_lines, checkpoint,
  merge_in, retry, write, take_reserved, reload, set_spent, set_line,
}

abbrev pub Grows : {W : Type 0} → Device W → Device W → Type 0
Grows d e = (bucket : ℕ) → spent d bucket ≤ spent e bucket

Grows-preorder : {W : Type 0} → Preorder (Grows {W = W})
Grows-preorder = record {
  refl_at = λ d bucket. omega arith;
  trans_at = λ d e f p q bucket. omega (arith, p bucket, q bucket);
}

bind-Grows :
    {W E A B : Type 0} (m : Exec (Device W) E A) (f : A → Exec (Device W) E B)
    → Relates Grows m
    → ((a : A) → Relates Grows (f a))
    → Relates Grows (m >>= f)
bind-Grows = bind-R Grows-preorder

lift-Grows : {W E A : Type 0} (r : Result E A) → Relates Grows (lift {S = Device W} r)
lift-Grows = lift-R Grows-preorder

pure-Grows : {W E A : Type 0} (a : A) → Relates Grows (pure {S = Device W} {E = E} a)
pure-Grows = pure-R Grows-preorder

pub mark_spent-Grows :
    {W : Type 0} (buckets : List ℕ) (d : Device W) → Grows d (mark_spent buckets d)
unfolding mark_spent
mark_spent-Grows [] d c = omega arith
mark_spent-Grows (b ∷ rest) d c = ground (
  arith,
  mark_spent-Grows rest (if has_room b d then set_spent b (line d b) d else d) c,
  height-set_height d.used b (line d b) c,
  ==_iff b c,
)

ruleset grows_rules = (bind-Grows, lift-Grows, pure-Grows)

merge_in-Grows :
    {W : Type 0} (merged : StamperState) (buckets : List ℕ)
    → Relates Grows (merge_in {W = W} merged buckets)
unfolding merge_in
merge_in-Grows merged buckets = record {
  at = λ d. mark_spent-Grows buckets (record d { state = merged });
}

absorb-Grows :
    {W : Type 0} (remote : StamperState) (buckets : List ℕ)
    → Relates Grows (absorb {W = W} remote buckets)
unfolding absorb
absorb-Grows remote buckets = record {
  at = λ d.
      (bind-Grows _ _ (lift-Grows (merge_state d.state remote)) (λ m. merge_in-Grows m buckets)).at
        d;
}

pub take_slot-Grows : {W : Type 0} (bucket : ℕ) → Relates Grows (take_slot {W = W} bucket)
unfolding take_slot
take_slot-Grows b = record {
  at = λ d c. ground (arith, height-set_height d.used b (spent d b + 1) c, ==_iff b c);
}

module _ {W : Type 0} (o : StamperOptions W) where
  take_reserved-Grows : (bucket : ℕ) → Relates Grows (take_reserved o bucket)
  unfolding take_reserved
  take_reserved-Grows b = record { at = λ d c. ground (arith, (take_slot-Grows b).at d c) }

  stamp_saving-Grows : (address : Bytes) → Relates Grows (stamp_saving o address)
  unfolding stamp_saving
  stamp_saving-Grows address = search (grows_rules, take_reserved-Grows)

  run_script-Grows : (s : Script W) → Relates Grows (run_script o s)
  unfolding run_script
  run_script-Grows (done r w) = record { at = λ d c. omega arith }
  run_script-Grows (ask address next) = record {
    at = λ d c.
        let (r, d') = stamp_saving o address d in
        omega (arith, (stamp_saving-Grows address).at d c, (run_script-Grows (next r)).at d' c);
  }

  extend_line-Grows : (extension : Option (ℕ × ℕ)) → Relates Grows (extend_line o extension)
  unfolding extend_line
  extend_line-Grows none = record { at = λ d c. omega arith }
  extend_line-Grows (some (bucket, want)) = record { at = λ d c. ground arith }

  ask_upcoming-Grows : Relates Grows (ask_upcoming o)
  unfolding ask_upcoming
  ask_upcoming-Grows = record { at = λ d c. omega arith }

  count_needs-Grows :
      (need : HeightMap) (addresses : List Bytes) → Relates Grows (count_needs o need addresses)
  unfolding count_needs
  count_needs-Grows need [] = pure-Grows need
  count_needs-Grows need (address ∷ rest) =
      bind-Grows _ _ (lift-Grows (bucket_of address))
        λ b. count_needs-Grows (set_height need b (height need b + 1)) rest

  reserve_needs-Grows :
      (need : HeightMap) (tentative : List ℕ) → Relates Grows (reserve_needs o need tentative)
  unfolding reserve_needs
  reserve_needs-Grows [] t = record { at = λ d c. omega arith }
  reserve_needs-Grows ((b, n) ∷ rest) t = record {
    at = λ d c. ground (
      arith,
      (reserve_needs-Grows rest t).at d c,
      (reserve_needs-Grows rest (b ∷ t)).at (set_line b (spent d b + n) d) c,
    );
  }

  prepare-Grows : (extension : Option (ℕ × ℕ)) → Relates Grows (prepare o extension)
  unfolding prepare
  prepare-Grows extension =
      search
        (grows_rules, extend_line-Grows, ask_upcoming-Grows, count_needs-Grows, reserve_needs-Grows)
        depth 8

  save_now-Grows : Relates Grows (save_now o)
  unfolding save_now begin_save
  save_now-Grows = record {
    at = λ d.
        (run_script-Grows (store_save o.store (begin_save o d).state d.world)).at (begin_save o d);
  }

  module _ (before : HeightMap) (extension : Option (ℕ × ℕ)) (tentative : List ℕ) where
    retry-Grows : Relates Grows (retry o extension)
    unfolding retry
    retry-Grows = record { at = λ d c. omega arith }

    lost_to-Grows :
        (remote : StamperState) → Relates Grows (lost_to o before extension tentative remote)
    unfolding lost_to withdraw
    lost_to-Grows remote = record {
      at = λ d.
          (bind-Grows (absorb remote tentative) _ (absorb-Grows remote tentative)
              (λ u. retry-Grows)).at
            (withdraw o before d);
    }

    after_save-Grows :
        (r : Result SaveFailure (Unit {0})) (d : Device W)
        → Grows d (after_save o before extension tentative (r, d)).1
    unfolding after_save
    after_save-Grows (ok u) d c = omega arith
    after_save-Grows (err (failed e)) d c = omega arith
    after_save-Grows (err (moved remote)) d c = (lost_to-Grows remote).at d c

    write-Grows : Relates Grows (write o before extension tentative)
    unfolding write
    write-Grows = record {
      at = λ d c.
          let (r, d') = save_now o d in
          omega (arith, save_now-Grows.at d c, after_save-Grows r d' c);
    }

  attempt-Grows : (extension : Option (ℕ × ℕ)) → Relates Grows (attempt o extension)
  unfolding attempt
  attempt-Grows extension = record {
    at = λ d.
        (bind-Grows (prepare o extension) _ (prepare-Grows extension)
            (write-Grows d.state.reserved extension)).at
          d;
  }

  next_attempt-Grows :
      (loop : Option (ℕ × ℕ) → Exec (Device W) Failure (Unit {0}))
      → ((extension : Option (ℕ × ℕ)) → Relates Grows (loop extension))
      → (a : Attempt (Option (ℕ × ℕ))) → Relates Grows (next_attempt o loop a)
  unfolding next_attempt
  next_attempt-Grows loop h published = pure-Grows tt
  next_attempt-Grows loop h (again extension) = h extension

  commit_loop-Grows :
      (attempts : ℕ) (extension : Option (ℕ × ℕ)) → Relates Grows (commit_loop o attempts extension)
  unfolding commit_loop
  commit_loop-Grows zero extension = lift-Grows _
  commit_loop-Grows (suc n) extension =
      bind-Grows _ _ (attempt-Grows extension)
        (next_attempt-Grows (commit_loop o n) (commit_loop-Grows n))

  commit-Grows : (extension : Option (ℕ × ℕ)) → Relates Grows (commit o extension)
  unfolding commit
  commit-Grows extension = commit_loop-Grows 8 extension

  ask_load-Grows : Relates Grows (ask_load o)
  unfolding ask_load
  ask_load-Grows = record { at = λ d c. omega arith }

  absorb_stored-Grows :
      (b : ℕ) (stored : Option StamperState) → Relates Grows (absorb_stored o b stored)
  unfolding absorb_stored
  absorb_stored-Grows b none = pure-Grows tt
  absorb_stored-Grows b (some stored) = absorb-Grows stored (b ∷ [])

  extend-Grows : (b : ℕ) → Relates Grows (extend o b)
  unfolding extend
  extend-Grows b = record {
    at = λ d c. ground (arith, (commit-Grows (some (b, spent d b + o.block))).at d c);
  }

  reload-Grows : (b : ℕ) → Relates Grows (reload o b)
  unfolding reload
  reload-Grows b = search (grows_rules, ask_load-Grows, absorb_stored-Grows, extend-Grows)

  pub ensure_room-Grows : (b : ℕ) → Relates Grows (ensure_room o b)
  unfolding ensure_room
  ensure_room-Grows b = record { at = λ d c. ground (arith, (reload-Grows b).at d c) }

  pub stamp_slot-Grows : (address : Bytes) → Relates Grows (stamp_slot o address)
  unfolding stamp_slot
  stamp_slot-Grows address = search (grows_rules, ensure_room-Grows, take_slot-Grows)

  raise_lines-Grows : (m : HeightMap) (d : Device W) → Grows d (raise_lines o m d)
  unfolding raise_lines
  raise_lines-Grows [] d c = omega arith
  raise_lines-Grows ((b, h) ∷ rest) d c = raise_lines-Grows rest (set_line b (max (line d b) h) d) c

  pub checkpoint-Grows : Relates Grows (checkpoint o)
  unfolding checkpoint
  checkpoint-Grows = record {
    at = λ d c.
        omega
          (arith, raise_lines-Grows d.used d c, (commit-Grows none).at (raise_lines o d.used d) c);
  }
