-- ===== src/Stamper/Reserve/Stamp.antt =====
-- The rounds of `commit`, and `stamp` over them.
use dappdata.Base.{
  ℕ, zero, suc, ◌+◌, ◌≤◌, ◌<◌, ◌≡◌, refl, sym, ap, subst, subst₂, false, Bool-cases, ◌⊎◌, inl, inr,
  Option, none, some, List, [], ◌∷◌, arith, Result, ok, err, ◌>>◌, >>=-eq-ok, lift, pure, le→ltb,
  ltb→le, ltb→lt,
}
use dappdata.Errors.{Bytes, Failure}
use dappdata.Stamper.State.{StamperState, bucket_of}
use dappdata.Stamper.State.Heights.{HeightMap, height}
use dappdata.Stamper.Store.{done, SaveFailure, moved, failed, store_save}
use dappdata.Stamper.{
  StamperOptions, Device, Attempt, published, again, spent, line, has_room, capacity, take_slot,
  prepare, begin_save, lost_to, after_save, save_now, attempt, next_attempt, commit_loop, commit,
  ask_load, absorb_stored, extend, ensure_room, stamp_slot, write, end_save, reload,
}
use dappdata.Stamper.Reserve.{
  Contains, NoRoom, absorb-NoRoom, prepare_moves, IsQuiet, run_done, Written, Outcome,
  lost_to-Outcome,
}

module _ {W : Type 0} (o : StamperOptions W) where
  -- Where the slot that a call returned comes from: it lies below a line that the device already had,
  -- and the call left the store alone; or below a line that the store accepted in this call.
  abbrev pub Reserved : ℕ → ℕ → Device W → Device W → Type 0
  Reserved bucket slot d d' =
      ((slot < line d bucket) × (d'.world ≡ d.world))
      ⊎ ((published : StamperState) × (w : W) × (store_save o.store published w
            ≡ done (ok tt) d'.world)
          × (slot < height published.reserved bucket)
          × (height published.reserved bucket ≤ capacity o))

module _ {W : Type 0} (o : StamperOptions W) (quiet : IsQuiet o) where
  save_now_done :
      (d d' : Device W) (r : Result SaveFailure (Unit {0}))
      → save_now o d ≡ (r, d')
      → (store_save o.store d'.state d.world ≡ done r d'.world)
        × (d'.state.reserved ≡ d.state.reserved)
        × (d'.used ≡ d.used)
  unfolding save_now begin_save
  save_now_done d d' r e =
      let s = store_save o.store (begin_save o d).state d.world in
      let (ends, state, used) =
        run_done o s (begin_save o d) d' r (quiet (begin_save o d).state d.world) e in
      (rw state ends, ap (λ (x : StamperState). x.reserved) state, used)

  module _ (b want : ℕ) where
    -- `finally` changes nothing that an outcome speaks of.
    end_save-Outcome :
        (a : Attempt (Option (ℕ × ℕ))) (f d' : Device W)
        → Outcome o b (some (b, want)) a f
        → record f { saving = false } ≡ d'
        → Outcome o b (some (b, want)) a d'
    end_save-Outcome published f d' h e = subst (λ x. Written o b x) e h
    end_save-Outcome (again x) f d' h e = (h.0, subst (λ y. NoRoom b y) e h.1)

    lost-Outcome :
        (x : Result Failure (Attempt (Option (ℕ × ℕ))) × Device W) (a : Attempt (Option (ℕ × ℕ)))
        (d' : Device W)
        → ((y : Attempt (Option (ℕ × ℕ))) (f : Device W)
            → x ≡ (ok y, f)
            → Outcome o b (some (b, want)) y f)
        → end_save o x ≡ (ok a, d')
        → Outcome o b (some (b, want)) a d'
    unfolding end_save
    lost-Outcome (ok y, f) a d' h e =
        let same : y ≡ a = cc in
        subst (λ z. Outcome o b (some (b, want)) z d') same
          (end_save-Outcome y f d' (h y f refl)
            (ap (λ (p : Result Failure (Attempt (Option (ℕ × ℕ))) × Device W). p.1) e))
    lost-Outcome (err g, f) a d' h e = cc

    same_outcome :
        (x y : Attempt (Option (ℕ × ℕ))) (d f : Device W)
        → ◌≡◌ {A = Result Failure (Attempt (Option (ℕ × ℕ))) × Device W} (ok x, d) (ok y, f)
        → x ≡ y
    same_outcome x y d f q = cc

    after_save-Outcome :
        (t : List ℕ) (before : HeightMap) (w : W) (r : Result SaveFailure (Unit {0}))
        (d d' : Device W) (a : Attempt (Option (ℕ × ℕ)))
        → Contains b t
        → store_save o.store d.state w ≡ done r d.world
        → spent d b < line d b
        → line d b ≤ capacity o
        → after_save o before (some (b, want)) t (r, d) ≡ (ok a, d')
        → Outcome o b (some (b, want)) a d'
    unfolding after_save
    after_save-Outcome t before w (ok u) d d' a c s lt le e =
        lost-Outcome (ok published, d) a d'
          (λ y f q.
            subst (λ z. Outcome o b (some (b, want)) z f) (same_outcome published y d f q)
              (subst (λ x. Written o b x)
                (ap (λ (p : Result Failure (Attempt (Option (ℕ × ℕ))) × Device W). p.1) q)
                (w, s, lt, le)))
          e
    after_save-Outcome t before w (err (failed f)) d d' a c s lt le e =
        lost-Outcome (err f, d) a d' (λ y g q. cc) e
    after_save-Outcome t before w (err (moved remote)) d d' a c s lt le e =
        lost-Outcome (lost_to o before (some (b, want)) t remote d) a d'
          (λ y f q. lost_to-Outcome o b want t before c remote d f y q) e

    attempt-Outcome :
        (d d' : Device W) (a : Attempt (Option (ℕ × ℕ)))
        → NoRoom b d
        → attempt o (some (b, want)) d ≡ (ok a, d')
        → Outcome o b (some (b, want)) a d'
    unfolding attempt write
    attempt-Outcome d d' a h e =
        let ext : Option (ℕ × ℕ) = some (b, want) in
        let (t, f, first, rest) = >>=-eq-ok (prepare o ext) (write o d.state.reserved ext) d e in
        let (lt, le, c, used) = prepare_moves o b want d f t h first in
        written t d.state.reserved f d' a c lt le rest
      where
        written :
            (t : List ℕ) (before : HeightMap) (f d' : Device W) (a : Attempt (Option (ℕ × ℕ)))
            → Contains b t
            → spent f b < line f b
            → line f b ≤ capacity o
            → write o before (some (b, want)) t f ≡ (ok a, d')
            → Outcome o b (some (b, want)) a d'
        written t before f d' a c lt le e =
            let (r, g) = save_now o f in
            let (ends, lines, used) = save_now_done f g r refl in
            after_save-Outcome t before f.world r g d' a c ends (rw (lines, used) lt) (rw lines le)
              e

    commit_loop-Written :
        (n : ℕ) (d d' : Device W)
        → NoRoom b d
        → commit_loop o n (some (b, want)) d ≡ (ok tt, d')
        → Written o b d'
    unfolding commit_loop next_attempt lift pure
    commit_loop-Written zero d d' h e = cc
    commit_loop-Written (suc n) d d' h e =
        let ext : Option (ℕ × ℕ) = some (b, want) in
        let (a, f, first, rest) =
          >>=-eq-ok (attempt o ext) (next_attempt o (commit_loop o n)) d e in
        go (commit_loop-Written n) a f (attempt-Outcome d f a h first) rest
      where
        go :
            ((x y : Device W)
              → NoRoom b x
              → commit_loop o n (some (b, want)) x ≡ (ok tt, y)
              → Written o b y)
            → (a : Attempt (Option (ℕ × ℕ))) → (f : Device W) → Outcome o b (some (b, want)) a f
            → next_attempt o (commit_loop o n) a f ≡ (ok tt, d')
            → Written o b d'
        go ih published f w q =
            subst (λ x. Written o b x) (ap (λ (p : Result Failure (Unit {0}) × Device W). p.1) q) w
        go ih (again x) f (same, none_left) q =
            ih f d' none_left (subst (λ y. commit_loop o n y f ≡ (ok tt, d')) same q)

  extend-Written :
      (b : ℕ) (d d' : Device W) → NoRoom b d → extend o b d ≡ (ok tt, d') → Written o b d'
  unfolding extend commit
  extend-Written b d d' h e =
      commit_loop-Written b (spent d b + o.block) 8 d d' h
        (rw (le→ltb (spent d b) (line d b) h) at e)

  absorb_stored_none_left :
      (b : ℕ) (stored : Option StamperState) (d d' : Device W)
      → NoRoom b d
      → absorb_stored o b stored d ≡ (ok tt, d')
      → NoRoom b d'
  unfolding absorb_stored pure
  absorb_stored_none_left b none d d' h e =
      subst (λ x. NoRoom b x) (ap (λ (p : Result Failure (Unit {0}) × Device W). p.1) e) h
  absorb_stored_none_left b (some stored) d d' h e =
      absorb-NoRoom b stored (b ∷ []) d d' (inl refl) e

  reload-Written :
      (b : ℕ) (d d' : Device W) → NoRoom b d → reload o b d ≡ (ok tt, d') → Written o b d'
  unfolding reload ask_load
  reload-Written b d d' h e =
      let (stored, f, first, rest) = >>=-eq-ok (ask_load o) _ d e in
      let (u, g, second, last) = >>=-eq-ok (absorb_stored o b stored) (λ _. extend o b) f rest in
      extend-Written b g d' (absorb_stored_none_left b stored f g (ground (arith, h, first)) second)
        last

  ensure_room-Written :
      (b : ℕ) (d d' : Device W)
      → ensure_room o b d ≡ (ok tt, d')
      → ((spent d b < line d b) × (d' ≡ d)) ⊎ Written o b d'
  unfolding ensure_room
  ensure_room-Written b d d' e = elim (Bool-cases (has_room b d)) [
    | inl room ↦ inl (ltb→lt (spent d b) (line d b) room, ground arith)
    | inr none_left ↦ elim (Bool-cases d.saving) [
      | inl busy ↦ absurd (ground arith)
      | inr free ↦
          inr (reload-Written b d d' (ltb→le (spent d b) (line d b) none_left) (ground arith))
    ]
  ]

  slot_taken :
      (b slot : ℕ) (d g d' : Device W)
      → ((spent d b < line d b) × (g ≡ d)) ⊎ Written o b g
      → take_slot b g ≡ (ok slot, d')
      → Reserved o b slot d d'
  unfolding take_slot
  slot_taken b slot d g d' (inl (room, same)) e =
      let here : spent d b ≡ slot = ground (arith, ap (λ (x : Device W). spent x b) same) in
      inl (omega arith, ground arith)
  slot_taken b slot d g d' (inr (w, ends, lt, le)) e =
      let here : spent g b ≡ slot = ground arith in
      let same_world : g.world ≡ d'.world = ground arith in
      inr (g.state, w, rw (← same_world) ends, omega arith, le)

  -- Reserve before use, for a store that does not have the stamper sign its writes: a slot that
  -- `stamp` hands out is the device's next one, and lies below the line that the device had, with the
  -- store left alone, or below the line of a checkpoint that the store accepted during this very call,
  -- which does not pass the capacity of a bucket.
  pub stamp_slot-Reserved :
      (address : Bytes) (bucket slot : ℕ) (d d' : Device W)
      → bucket_of address ≡ ok bucket
      → stamp_slot o address d ≡ (ok slot, d')
      → Reserved o bucket slot d d'
  unfolding stamp_slot lift take_slot
  stamp_slot-Reserved address b slot d d' at_bucket e =
      let (b', f, first, rest) =
        >>=-eq-ok (lift (bucket_of address)) (λ b. ensure_room o b >> take_slot b) d e in
      let (u, g, second, last) = >>=-eq-ok (ensure_room o b') (λ _. take_slot b') f rest in
      let same_bucket : b' ≡ b = ground (arith, first, at_bucket) in
      let same_device : f ≡ d = ap (λ (p : Result Failure ℕ × Device W). p.1) (sym first) in
      slot_taken b slot d g d'
        (ensure_room-Written b d g
          (subst₂ (λ k x. ensure_room o k x ≡ (ok tt, g)) same_bucket same_device second))
        (subst (λ k. take_slot k g ≡ (ok slot, d')) same_bucket last)
