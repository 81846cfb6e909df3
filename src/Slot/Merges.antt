-- ===== src/Slot/Merges.antt =====
-- A conflict in `set`: another device wrote in between.
use dappdata.Base.{
  ℕ, ◌+◌, ◌≡◌, refl, String, none, some, List, [], ◌∷◌, ◌++◌, arith, Result, ok, err, ◌>>=◌, length,
  get_elem?,
}
use dappdata.Errors.{Bytes, Failure, conflict_error}
use dappdata.Transport.{Stamp}
use dappdata.Feed.Reads.{InStep}
use dappdata.Feed.Appends.{append_conflicts}
use dappdata.Feed.{FeedState, at_index, set_index}
use dappdata.Slot.Serves.{Keeps, Dependable, Storable}
use dappdata.Slot.{
  SlotContext, SlotState, SlotValue, SetOptions, or_else, wanted, get, write, merge_read,
  merge_remote, on_conflict, set_stamped, set,
}
use dappdata.Slot.Rounds.Frames.{ReadsFrom, frame-Framed}
use dappdata.Slot.Rounds.{IsGiven, set_or_refuse-given, get_last, Wrote, write-Wrote}

module _ {W T Key : Type 0} (c : SlotContext W T Key) {Holds : W → List Bytes → Type 0}
    {CanPay : Stamp W → Type 0} {Room : List Bytes → Type 0} {Stored : W → String → Bytes → Type 0}
    {Good : Bytes → Type 0} (d : Dependable c Holds CanPay Room Stored Good) (key : Bytes)
    (signs : c.feed.signer ≡ some key) (stamp : Stamp W) (pays : CanPay stamp) (s : SlotState W)
    (l : List Bytes) (value : T) (bytes taken : Bytes) (options : SetOptions W T) (e : ℕ)
    (chosen : or_else options.stamp (or_else c.options.stamp c.stamp) ≡ some stamp)
    (given : IsGiven stamp) (h : Holds s.feed.world l) (v : InStep l s.feed)
    (expects : options.expect_index ≡ some e) (there : get_elem? l (e + 1) ≡ some taken)
    (enc : c.options.codec.encode value ≡ ok bytes) (good : Storable c Good s.drawn bytes) where
  -- The state that a refused write leaves: blobs may have been added, the feed is as it was.
  abbrev pub Refused : Result Failure ℕ × SlotState W → Type 0
  Refused r =
      (w' : W) × (n : ℕ) × (r ≡ (
        err (conflict_error (e + 1) taken),
        record { feed = record (s.feed) { world = w' }; drawn = n },
      ))
      × Holds w' l
      × Keeps Stored s.feed.world w'

  write-Refused : Refused (write c value stamp options.expect_index s)
  unfolding write ◌>>=◌
  write-Refused =
      let (p, w', n, framed, fits, holds, keeps, reads) =
        frame-Framed c d s l value bytes stamp h pays enc good in
      let between : FeedState W = record (s.feed) { world = w' } in
      (
        w',
        n,
        rw
            (
              expects,
              framed,
              append_conflicts c.feed d.log l between holds key p taken stamp e signs there,
            )
            refl,
        holds,
        keeps,
      )

  -- The slot's caller read index `e`, and the log holds another update after it. Without a merge, `set`
  -- throws the conflict with that update, and the feed's log and its cache are as they were.
  pub set_conflicts : options.merge ≡ none → Refused (set c value options s)
  unfolding set_stamped on_conflict
  set_conflicts none_given = go write-Refused
    where
      go : Refused (write c value stamp options.expect_index s) → Refused (set c value options s)
      go (w', n, refused, holds, keeps) = (
        w',
        n,
        rw (set_or_refuse-given c d value options stamp given chosen, refused, none_given) refl,
        holds,
        keeps,
      )

  -- The value was written at the end of the log, and is what `get` returns.
  abbrev pub Merged : T → Result Failure ℕ × SlotState W → Type 0
  Merged merged r =
      (p : Bytes) × (s' : SlotState W) × (r ≡ (ok (length l), s'))
      × Holds s'.feed.world (l ++ p ∷ [])
      × (get c s'.feed ≡ (
        ok (some (record { value = merged; index = length l; schema = wanted c })),
        set_index (at_index (length l)) s'.feed,
      ))

  -- With a merge, if that update is the last one and reads as `theirs`, and the merge of the two can be
  -- encoded, and the log has room for one more: `set` writes the merged value after it, and `get` returns the merged value. No update is
  -- lost.
  pub set_merges :
      (merge : T → SlotValue T → Result Failure T) (theirs merged : T) (merged_bytes : Bytes)
      → Room l
      → options.merge ≡ some merge
      → e + 2 ≡ length l
      → ReadsFrom c d s.feed.world taken theirs
      → merge value (record { value = theirs; index = e + 1; schema = wanted c }) ≡ ok merged
      → c.options.codec.encode merged ≡ ok merged_bytes
      → ((n : ℕ) → Storable c Good n merged_bytes)
      → Merged merged (set c value options s)
  unfolding set_stamped on_conflict merge_remote merge_read ◌>>=◌
  set_merges merge theirs merged merged_bytes room is last reads makes enc' good' = go write-Refused
    where
      extended :
          (w' : W) (n : ℕ)
          → Holds w' l
          → Wrote c d
              (record { feed = record (s.feed) { world = w' }; drawn = n })
              l
              merged
              (write c merged stamp
                (some (e + 1))
                (record { feed = record (s.feed) { world = w' }; drawn = n }))
      extended w' n holds =
          write-Wrote c d key signs stamp pays
            (record { feed = record (s.feed) { world = w' }; drawn = n }) l merged merged_bytes
            (some (e + 1)) holds (record { cache_holds = v.cache_holds; mine_holds = v.mine_holds })
            (omega arith) room enc' (good' n)

      both :
          (w' : W) (n : ℕ)
          → write c value stamp options.expect_index s ≡ (
            err (conflict_error (e + 1) taken),
            record { feed = record (s.feed) { world = w' }; drawn = n },
          )
          → Keeps Stored s.feed.world w'
          → Wrote c d
              (record { feed = record (s.feed) { world = w' }; drawn = n })
              l
              merged
              (write c merged stamp
                (some (e + 1))
                (record { feed = record (s.feed) { world = w' }; drawn = n }))
          → Merged merged (set c value options s)
      both w' n refused keeps (p, s', done, holds', step', reads') = (
        p,
        s',
        rw
            (
              set_or_refuse-given c d value options stamp given chosen,
              refused,
              is,
              reads w' keeps,
              makes,
              done,
            )
            refl,
        holds',
        get_last c d s'.feed l p merged holds' step' reads',
      )

      go :
          Refused (write c value stamp options.expect_index s)
          → Merged merged (set c value options s)
      go (w', n, refused, holds, keeps) = both w' n refused keeps (extended w' n holds)
