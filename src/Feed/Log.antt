-- ===== src/Feed/Log.antt =====
-- What a feed promises: a log that only grows. A transport serves a log at an owner and a topic if
-- every read of an index answers what the log holds there, Bee's lookup answers its last entry, and a
-- write at the next index adds to it.
use dappdata.Base.{
  ℕ, ◌⊎◌, ◌<◌, ◌^◌, ◌+◌, ◌≡◌, ◌≤◌, Option, none, some, List, [], ◌∷◌, ◌++◌, ok, length, get_elem?,
}
use dappdata.Errors.{Bytes}
use dappdata.Transport.{FeedUpdate, Stamp}
use dappdata.Feed.{SequentialFeed}

-- The last entry, and the entries before it counted.
abbrev pub last_from : ℕ → Bytes → List Bytes → FeedUpdate
last_from i payload [] = record { index = i; payload = payload }
last_from i payload (next ∷ rest) = last_from (i + 1) next rest

abbrev pub last_update : List Bytes → Option FeedUpdate
last_update [] = none
last_update (payload ∷ rest) = some (last_from 0 payload rest)

-- `Holds w l`: in the world `w` the feed's updates are `l`. A read is asked for an index up to the one
-- after the last, or for any index of 64 bits. A write succeeds if its payload fits a chunk, `CanPay` holds of its stamp, and the log
-- has `Room` for one more.
pub record ServesLog {W : Type 0} (f : SequentialFeed W) (Holds : W → List Bytes → Type 0)
    (CanPay : Stamp W → Type 0) (Room : List Bytes → Type 0) : Type 0 where
  pub get_at :
      (w : W) (l : List Bytes) (index : ℕ)
      → Holds w l
      → (index ≤ length l) ⊎ (index < 2 ^ 64)
      → f.transport.get_feed_update (record { owner = f.owner; topic = f.topic; index = index }) w
        ≡ (ok (get_elem? l index), w)
  pub find_last :
      (w : W) (l : List Bytes)
      → Holds w l
      → f.transport.find_latest f.owner f.topic w ≡ (ok (last_update l), w)
  pub put_next :
      (w : W) (l : List Bytes) (key payload : Bytes) (stamp : Stamp W)
      → Holds w l
      → f.signer ≡ some key
      → length payload ≤ 4096
      → CanPay stamp
      → Room l
      → (w' : W) × (f.transport.put_feed_update
            (record {
              signer_key = key;
              topic = f.topic;
              index = length l;
              payload = payload;
              stamp = stamp;
            })
            w
          ≡ (ok tt, w'))
        × Holds w' (l ++ payload ∷ [])
