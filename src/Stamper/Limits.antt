-- ===== src/Stamper/Limits.antt =====
-- What `stamp` does at its limits: while a checkpoint is being saved, and in a full bucket.
use dappdata.Base.{
  ℕ, ◌+◌, ◌≤◌, ◌≡◌, refl, ap, true, false, inl, Option, none, some, [], ◌∷◌, arith, max, le→ltb,
  String, Result, ok, err, continue, ◌>>=◌, ◌>>◌,
}
use dappdata.Errors.{Bytes, Failure, dapp_data_error, too_large}
use text.Mathlib.TextEquality.{eq_iff}
use dappdata.Stamper.State.{StamperState, bucket_of, merge_state, merge_heights}
use dappdata.Stamper.Grows.{mark_spent-Grows}
use dappdata.Stamper.Reserve.{mark_spent-NoRoom, mark_spent-state}
use dappdata.Stamper.Store.{store_load}
use dappdata.Stamper.{
  StamperOptions, Device, spent, line, capacity, signed, take_slot, take_reserved, stamp_saving,
  extend_line, prepare, attempt, commit_loop, commit, ask_load, absorb_stored, extend, reload,
  ensure_room, absorb, merge_in, mark_spent, stamp_slot, stamp,
}

module _ {W : Type 0} (o : StamperOptions W) where
  ensure_room-saving :
      (b : ℕ) (d : Device W)
      → d.saving ≡ true
      → (ensure_room o b >> take_slot b) d ≡ take_reserved o b d
  unfolding ensure_room take_reserved ◌>>=◌
  ensure_room-saving b d h = ground arith

  -- While a checkpoint is being saved, `stamp` is `stamp_saving`: it signs the next slot of a bucket
  -- that has room, and throws in any other, without reading or writing a checkpoint.
  pub stamp-saving :
      (address : Bytes) (d : Device W)
      → d.saving ≡ true
      → stamp o address d ≡ stamp_saving o address d
  unfolding stamp stamp_slot stamp_saving ◌>>=◌
  stamp-saving address d h = go (bucket_of address)
    where
      go :
          (r : Result Failure ℕ)
          → continue
              (continue (r, d) λ b. (ensure_room o b >> take_slot b))
              (λ slot e. (ok (signed o address slot), e))
            ≡ continue
                (r, d)
                λ b e. continue (take_reserved o b e) λ slot e'. (ok (signed o address slot), e')
      go (ok b) =
          ap
            (λ (p : Result Failure ℕ × Device W).
              continue p (λ slot e. (ok (signed o address slot), e)))
            (ensure_room-saving b d h)
      go (err f) = refl

  extend_line_full :
      (b want : ℕ) (d : Device W)
      → line d b ≤ spent d b
      → capacity o ≤ spent d b
      → extend_line o (some (b, want)) d ≡ (err (dapp_data_error too_large), d)
  unfolding extend_line
  extend_line_full b want d h g = ground arith

  extend_full :
      (b : ℕ) (d : Device W)
      → line d b ≤ spent d b
      → capacity o ≤ spent d b
      → extend o b d ≡ (err (dapp_data_error too_large), d)
  unfolding extend commit commit_loop attempt prepare ◌>>=◌
  extend_full b d h g =
      rw (le→ltb (spent d b) (line d b) h, extend_line_full b (spent d b + o.block) d h g)

  -- The checkpoint that was read, if there was one, belongs to this batch.
  abbrev pub OfBatch : String → Option StamperState → Type 0
  OfBatch batch_id none = Unit {0}
  OfBatch batch_id (some stored) = batch_id ≡ stored.batch_id

  absorb_stored_ends :
      (b : ℕ) (stored : Option StamperState) (d : Device W)
      → OfBatch d.state.batch_id stored
      → line d b ≤ spent d b
      → (e : Device W) × (absorb_stored o b stored d ≡ (ok tt, e))
        × (line e b ≤ spent e b)
        × (spent d b ≤ spent e b)
        × (e.world ≡ d.world)
  unfolding absorb_stored absorb merge_state merge_in ◌>>=◌
  absorb_stored_ends b none d same h = (d, refl, h, omega arith, refl)
  absorb_stored_ends b (some s) d same h =
      let merged : StamperState = record {
        batch_id = d.state.batch_id;
        depth = max d.state.depth s.depth;
        reserved = merge_heights d.state.reserved s.reserved;
        generation = max d.state.generation s.generation;
      } in
      let d' : Device W = record d { state = merged } in
      (
        mark_spent (b ∷ []) d',
        rw ((eq_iff d.state.batch_id s.batch_id).1 same),
        mark_spent-NoRoom b (b ∷ []) d' (inl (inl refl)),
        mark_spent-Grows (b ∷ []) d' b,
        (mark_spent-state (b ∷ []) d').1,
      )

  reload_full :
      (b : ℕ) (d e : Device W) (stored : Option StamperState) (w : W)
      → store_load o.store d.world ≡ (ok stored, w)
      → absorb_stored o b stored (record d { world = w }) ≡ (ok tt, e)
      → line e b ≤ spent e b
      → capacity o ≤ spent e b
      → reload o b d ≡ (err (dapp_data_error too_large), e)
  unfolding reload ask_load ◌>>=◌
  reload_full b d e stored w load ends h g = rw (load, ends, extend_full b e h g)

  ensure_room_idle :
      (b : ℕ) (d : Device W)
      → d.saving ≡ false
      → line d b ≤ spent d b
      → ensure_room o b d ≡ reload o b d
  unfolding ensure_room
  ensure_room_idle b d idle h = ground arith

  -- If no checkpoint is being saved, a bucket is spent up to its line and up to the capacity, and the
  -- store's load succeeds, with no checkpoint or one of this batch: the call of `stamp` throws
  -- `too-large`, and the world is as the load left it, so nothing was written.
  pub stamp_slot_full :
      (address : Bytes) (b : ℕ) (d : Device W) (stored : Option StamperState) (w : W)
      → bucket_of address ≡ ok b
      → d.saving ≡ false
      → line d b ≤ spent d b
      → capacity o ≤ spent d b
      → store_load o.store d.world ≡ (ok stored, w)
      → OfBatch d.state.batch_id stored
      → ((stamp_slot o address d).0 ≡ err (dapp_data_error too_large))
        × ((stamp_slot o address d).1.world ≡ w)
  unfolding stamp_slot ◌>>=◌
  stamp_slot_full address b d stored w at_bucket idle h g load same =
      let (e, ends, none_left, grown, world) =
        absorb_stored_ends b stored (record d { world = w }) same h in
      let thrown = reload_full b d e stored w load ends none_left (omega arith) in
      rw (at_bucket, ensure_room_idle b d idle h, thrown) (refl, world)
