-- ===== src/Stamper/Races.antt =====
-- Where the code hands out slots that a published checkpoint does not cover.
use text.Mathlib.TextEquality.{eq_iff}
use dappdata.Base.{
  ℕ, ◌+◌, ◌≤◌, ◌<◌, ◌≡◌, ◌≢◌, refl, ap, false, some, List, [], ◌∷◌, arith, max, lt→ltb, ok, err,
  ◌>>=◌, ==_iff,
}
use dappdata.Errors.{Bytes, Failure}
use dappdata.Stamper.State.{StamperState, bucket_of, merge_state, merge_heights}
use dappdata.Stamper.State.Heights.{HeightMap, Distinct, height, height-set_height}
use dappdata.Stamper.State.Merge.{height-merge_heights}
use dappdata.Stamper.Store.{done, failed, store_save}
use dappdata.Stamper.Reserve.{mark_spent-state, prepare_moves}
use dappdata.Stamper.{
  StamperOptions, Device, spent, line, set_spent, mark_spent, merge_in, absorb, take_slot, prepare,
  begin_save, run_script, save_now, after_save, write, attempt, commit_loop, commit, end_save,
  ensure_room, stamp_slot,
}

-- Marking buckets that do not include `c` leaves its spent height alone.
abbrev Lacks : ℕ → List ℕ → Type 0
Lacks c [] = Unit {0}
Lacks c (b ∷ rest) = (b ≢ c) × Lacks c rest

mark_spent-spent :
    {W : Type 0} (c : ℕ) (buckets : List ℕ) (d : Device W)
    → Lacks c buckets
    → spent (mark_spent buckets d) c ≡ spent d c
unfolding mark_spent
mark_spent-spent c [] d h = refl
mark_spent-spent c (b ∷ rest) d h = ground (
  arith,
  mark_spent-spent c rest d h.1,
  mark_spent-spent c rest (set_spent b (line d b) d) h.1,
  height-set_height d.used b (line d b) c,
  ==_iff b c,
)

-- The device after the next slot of a bucket was taken.
abbrev taken : {W : Type 0} → ℕ → Device W → Device W
taken c d = record (set_spent c (spent d c + 1) d) { handed = (c, spent d c) ∷ d.handed }

-- A bucket with room: the next slot is handed out, and nothing is read or written.
stamp_slot-room :
    {W : Type 0} (o : StamperOptions W) (address : Bytes) (c : ℕ) (d : Device W)
    → bucket_of address ≡ ok c
    → spent d c < line d c
    → stamp_slot o address d ≡ (ok (spent d c), taken c d)
unfolding stamp_slot ensure_room take_slot ◌>>=◌
stamp_slot-room o address c d e h = rw (e, lt→ltb (spent d c) (line d c) h)

module _ {W : Type 0} (o : StamperOptions W) where
  -- Taking in another device's checkpoint marks only the named buckets as spent. In any other bucket
  -- `c` where that device's line is above our spent height, the next stamp hands out a slot below
  -- that line, which belongs to the other device, and reads and writes no checkpoint.
  pub absorb_leaks :
      (remote : StamperState) (buckets : List ℕ) (address : Bytes) (c : ℕ) (d : Device W)
      → d.state.batch_id ≡ remote.batch_id
      → Distinct remote.reserved
      → Lacks c buckets
      → spent d c < height remote.reserved c
      → bucket_of address ≡ ok c
      → (e f : Device W) × (absorb remote buckets d ≡ (ok tt, e))
        × (stamp_slot o address e ≡ (ok (spent d c), f))
        × (f.world ≡ d.world)
  unfolding absorb merge_state merge_in ◌>>=◌
  absorb_leaks remote buckets address c d same distinct lacks below at_bucket =
      let merged : StamperState = record {
        batch_id = d.state.batch_id;
        depth = max d.state.depth remote.depth;
        reserved = merge_heights d.state.reserved remote.reserved;
        generation = max d.state.generation remote.generation;
      } in
      let d' : Device W = record d { state = merged } in
      let e = mark_spent buckets d' in
      let (state, world) = mark_spent-state buckets d' in
      let unmarked = mark_spent-spent c buckets d' lacks in
      let lines = ap (λ (s : StamperState). height s.reserved c) state in
      let room : spent e c < line e c =
        omega (arith, height-merge_heights d.state.reserved remote.reserved c distinct) in
      (
        e,
        taken c e,
        rw ((eq_iff d.state.batch_id remote.batch_id).1 same),
        rw (← unmarked) (stamp_slot-room o address c e at_bucket room),
        world,
      )

  -- `save` throws something other than a lost race: the lines that the attempt raised stay in the
  -- device's state, though no checkpoint that holds them was written.
  failed_save_keeps_lines :
      (b want : ℕ) (t : List ℕ) (d f : Device W) (e : Failure) (w : W)
      → line d b ≤ spent d b
      → prepare o (some (b, want)) d ≡ (ok t, f)
      → store_save o.store (begin_save o f).state f.world ≡ done (err (failed e)) w
      → (g : Device W) × (commit o (some (b, want)) d ≡ (err e, g))
        × (spent g b ≡ spent d b)
        × (spent g b < line g b)
        × (g.world ≡ w)
  unfolding commit commit_loop attempt write save_now run_script begin_save after_save end_save
      ◌>>=◌
  failed_save_keeps_lines b want t d f e w h prepared save =
      let (lt, le, c, used) = prepare_moves o b want d f t h prepared in
      (
        record (begin_save o f) { saving = false; world = w },
        rw (prepared, save),
        ap (λ (m : HeightMap). height m b) used,
        lt,
        refl,
      )

  -- After a commit for bucket `b` that failed so, the next stamp in `b` hands out a slot that no
  -- published checkpoint covers: it signs the slot without a read or a write.
  pub unpublished_slot :
      (address : Bytes) (b want : ℕ) (t : List ℕ) (d f : Device W) (e : Failure) (w : W)
      → bucket_of address ≡ ok b
      → line d b ≤ spent d b
      → prepare o (some (b, want)) d ≡ (ok t, f)
      → store_save o.store (begin_save o f).state f.world ≡ done (err (failed e)) w
      → (g h : Device W) × (commit o (some (b, want)) d ≡ (err e, g))
        × (stamp_slot o address g ≡ (ok (spent d b), h))
        × (h.world ≡ w)
  unpublished_slot address b want t d f e w at_bucket none_left prepared save =
      let (g, thrown, same, room, world) =
        failed_save_keeps_lines b want t d f e w none_left prepared save in
      (g, taken b g, thrown, rw (← same) (stamp_slot-room o address b g at_bucket room), world)
