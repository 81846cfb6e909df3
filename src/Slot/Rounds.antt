-- ===== src/Slot/Rounds.antt =====
-- `get` after `set`, of packages/dappdata/src/slot/index.ts.
pub mod Frames
use text.Mathlib.Text.{◌==◌ as str_eq}
use dappdata.Base.{
  ℕ, ◌+◌, ◌≡◌, ◌≤◌, ◌<◌, refl, sym, ◌∙◌, ap, subst, Bool, true, false, String, Option-cases, ◌⊎◌,
  inl, inr, Option, none, some, List, [], ◌∷◌, ◌++◌, arith, ◌==◌, ==_iff, if◌then◌else◌, Result, ok,
  err, Exec, continue, ◌>>=◌, pure, lift, length,
}
use dappdata.Errors.{Bytes, Failure}
use dappdata.Transport.{FeedUpdate, Stamp, batch, marshalled, signer}
use dappdata.Feed.Log.{last_update}
use dappdata.Feed.Reads.{cached, InStep, latest_in_step}
use dappdata.Feed.Appends.{Expects, last_update-append, append_puts}
use dappdata.Feed.{FeedState, new_feed, at_index, set_index, latest, append}
use dappdata.Slot.Serves.{Keeps, Dependable, Storable}
use dappdata.Slot.{
  SlotContext, SlotState, SlotValue, SetOptions, or_else, wanted, read_payload, to_wanted, migrated,
  from_update, get, frame, write, on_conflict, set_stamped, set_or_refuse, set,
}
use Frames.{ReadsFrom, frame-Framed}

-- A stamp that `set` takes for one.
abbrev pub IsGiven : {W : Type 0} → Stamp W → Type 0
IsGiven (batch batch_id) = str_eq batch_id "" ≡ false
IsGiven _ = Unit {0}

module _ {W T Key : Type 0} (c : SlotContext W T Key) {Holds : W → List Bytes → Type 0}
    {CanPay : Stamp W → Type 0} {Room : List Bytes → Type 0} {Stored : W → String → Bytes → Type 0}
    {Good : Bytes → Type 0} (d : Dependable c Holds CanPay Room Stored Good) where
  pub set_or_refuse-given :
      (value : T) (options : SetOptions W T) (stamp : Stamp W)
      → IsGiven stamp
      → or_else options.stamp (or_else c.options.stamp c.stamp) ≡ some stamp
      → set c value options ≡ set_stamped c value options stamp
  unfolding set set_or_refuse
  set_or_refuse-given value options (batch id) g e = rw (e, g) refl
  set_or_refuse-given value options (marshalled id bytes) g e = rw e refl
  set_or_refuse-given value options (signer id sign) g e = rw e refl

  on_conflict-ok :
      (value : T) (options : SetOptions W T) (stamp : Stamp W) (index : ℕ) (s : SlotState W)
      → on_conflict c options.merge value stamp (ok index, s) ≡ (ok index, s)
  unfolding on_conflict
  on_conflict-ok value options stamp index s = elim (Option-cases options.merge) [
    | inl e ↦ rw e refl
    | inr (merge, e) ↦ rw e refl
  ]

  pub get_last :
      (s : FeedState W) (l : List Bytes) (p : Bytes) (value : T)
      → Holds s.world (l ++ p ∷ [])
      → InStep (l ++ p ∷ []) s
      → ReadsFrom c d s.world p value
      → get c s ≡ (
        ok (some (record { value = value; index = length l; schema = wanted c })),
        set_index (at_index (length l)) s,
      )
  unfolding get from_update migrated to_wanted ◌>>=◌
  get_last s l p value h v reads =
      rw
        (
          latest_in_step c.feed d.log (l ++ p ∷ []) s h v,
          last_update-append l p,
          reads s.world (λ r b k. k),
          (==_iff (wanted c) (wanted c)).1 refl,
        )
        refl

  abbrev pub Wrote : SlotState W → List Bytes → T → Result Failure ℕ × SlotState W → Type 0
  Wrote s l value r =
      (p : Bytes) × (s' : SlotState W) × (r ≡ (ok (length l), s'))
      × Holds s'.feed.world (l ++ p ∷ [])
      × InStep (l ++ p ∷ []) s'.feed
      × ReadsFrom c d s'.feed.world p value

  module _ (key : Bytes) (signs : c.feed.signer ≡ some key) (stamp : Stamp W)
      (pays : CanPay stamp) where
    pub write-Wrote :
        (s : SlotState W) (l : List Bytes) (value : T) (bytes : Bytes) (expect : Option ℕ)
        → Holds s.feed.world l
        → InStep l s.feed
        → Expects l expect
        → Room l
        → c.options.codec.encode value ≡ ok bytes
        → Storable c Good s.drawn bytes
        → Wrote s l value (write c value stamp expect s)
    unfolding write ◌>>=◌
    write-Wrote s l value bytes expect h v x room enc good =
        let (p, w', n, framed, fits, holds, keeps, reads) =
          frame-Framed c d s l value bytes stamp h pays enc good in
        let between : FeedState W = record (s.feed) { world = w' } in
        let step : InStep l between = record {
          cache_holds = v.cache_holds;
          mine_holds = v.mine_holds;
        } in
        let (f', done, holds', step', (put, paid, wrote)) =
          append_puts c.feed d.log l between holds key p stamp fits pays signs room expect step x in
        (
          p,
          record { feed = f'; drawn = n },
          rw (framed, done) refl,
          holds',
          step',
          λ w'' k. reads w'' (λ r b e. k r b (d.blobs.put_keeps w' f'.world put paid wrote r b e)),
        )

    -- A slot in step with its feed's log, which has room for one more, and whose caller names no index
    -- or the one it read: `set` succeeds at the log's end, and `get` returns the value with that index and the slot's schema,
    -- whether the value fits a chunk or not.
    pub get-set :
        (s : SlotState W) (l : List Bytes) (value : T) (bytes : Bytes) (options : SetOptions W T)
        → or_else options.stamp (or_else c.options.stamp c.stamp) ≡ some stamp
        → IsGiven stamp
        → Holds s.feed.world l
        → InStep l s.feed
        → Expects l options.expect_index
        → Room l
        → c.options.codec.encode value ≡ ok bytes
        → Storable c Good s.drawn bytes
        → (s' : SlotState W) × (set c value options s ≡ (ok (length l), s'))
          × (get c s'.feed ≡ (
            ok (some (record { value = value; index = length l; schema = wanted c })),
            set_index (at_index (length l)) s'.feed,
          ))
    unfolding set_stamped on_conflict
    get-set s l value bytes options chosen given h v x room enc good =
        let (p, s', done, holds, step, reads) =
          write-Wrote s l value bytes options.expect_index h v x room enc good in
        (
          s',
          rw (set_or_refuse-given value options stamp given chosen, done)
              (on_conflict-ok value options stamp (length l) s'),
          get_last s'.feed l p value holds step reads,
        )

    -- After a `set`, a reader with no cache that reads the same feed gets the value.
    pub get-set_fresh :
        (s : SlotState W) (l : List Bytes) (value : T) (bytes : Bytes) (options : SetOptions W T)
        → or_else options.stamp (or_else c.options.stamp c.stamp) ≡ some stamp
        → IsGiven stamp
        → Holds s.feed.world l
        → InStep l s.feed
        → Expects l options.expect_index
        → Room l
        → c.options.codec.encode value ≡ ok bytes
        → Storable c Good s.drawn bytes
        → (s' : SlotState W) × (set c value options s ≡ (ok (length l), s'))
          × (get c (new_feed s'.feed.world) ≡ (
            ok (some (record { value = value; index = length l; schema = wanted c })),
            set_index (at_index (length l)) (new_feed s'.feed.world),
          ))
    unfolding set_stamped on_conflict
    get-set_fresh s l value bytes options chosen given h v x room enc good =
        let (p, s', done, holds, step, reads) =
          write-Wrote s l value bytes options.expect_index h v x room enc good in
        (
          s',
          rw (set_or_refuse-given value options stamp given chosen, done)
              (on_conflict-ok value options stamp (length l) s'),
          get_last (new_feed s'.feed.world) l p value holds
              (record { cache_holds = tt; mine_holds = tt }) reads,
        )
