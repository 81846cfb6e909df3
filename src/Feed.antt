-- ===== src/Feed.antt =====
-- packages/dappdata/src/feed/index.ts: one sequential feed, with its index cache. `#index` is `null`
-- before the first read (`unread`), -1 when the lookup said that the feed is empty (`empty_feed`), or
-- an index (`at_index`). The object's fields that change, and the world of the transport, are the
-- state `FeedState`.
pub mod Address
pub mod Log
pub mod Reads
pub mod Appends
mod Examples
use dappdata.Base.{
  ℕ, zero, suc, ◌+◌, String, Bool, Option, none, some, ltb, if◌then◌else◌, Result, ok, err, Exec,
  continue, ◌>>=◌, ◌>>◌, pure, lift,
}
use dappdata.Errors.{Bytes, Failure, conflict_error, other_error}
use dappdata.Transport.{FeedUpdate, Stamp, Transport, PutFeedUpdate, GetFeedUpdate}

-- How far the feed walks forward from a cached index before asking Bee.
abbrev pub walk_limit : ℕ
walk_limit = 16

pub data Cached : Type 0 where
  unread empty_feed : Cached
  at_index : ℕ → Cached

pub record SequentialFeed (W : Type 0) : Type 0 where
  pub transport : Transport W
  pub owner : String
  pub topic : Bytes
  pub signer : Option Bytes

pub record FeedState (W : Type 0) : Type 0 where
  pub index : Cached
  pub last_written : Option FeedUpdate
  pub world : W

abbrev pub new_feed : {W : Type 0} → W → FeedState W
new_feed w = record { index = unread; last_written = none; world = w }

unfoldable pub known_index : Cached → Option ℕ
known_index (at_index i) = some i
known_index _ = none

unfoldable pub hint : {W : Type 0} → ℕ → FeedState W → FeedState W
hint index s = record s { index = hinted s.index }
  where
    hinted : Cached → Cached
    hinted (at_index i) = if ltb i index then at_index index else at_index i
    hinted _ = at_index index

-- `index + 1n`, where an empty feed's index is -1.
abbrev pub after_head : Option FeedUpdate → ℕ
after_head none = 0
after_head (some head) = head.index + 1

-- A call of the transport, in the state of the feed.
abbrev pub within : {W A : Type 0} → Exec W Failure A → Exec (FeedState W) Failure A
within call s = let (r, w) = call s.world in (r, record s { world = w })

abbrev pub set_index : {W : Type 0} → Cached → FeedState W → FeedState W
set_index index s = record s { index = index }

module _ {W : Type 0} (f : SequentialFeed W) where
  pub at : ℕ → Exec (FeedState W) Failure (Option Bytes)
  at index =
      within
        (f.transport.get_feed_update (record { owner = f.owner; topic = f.topic; index = index }))

  pub found : Option FeedUpdate → Exec (FeedState W) Failure (Option FeedUpdate)
  found none s = (ok none, set_index empty_feed s)
  found (some update) s = (ok (some update), set_index (at_index update.index) s)

  pub lookup : Exec (FeedState W) Failure (Option FeedUpdate)
  unfolding found
  lookup = do update ← within (f.transport.find_latest f.owner f.topic); found update

  -- The end of `#latestFromNetwork`, after the loop. The loop's `index` and `payload` are one
  -- variable, `head`: the payload is null just where the index is that of an empty feed.
  pub settle : Option FeedUpdate → Exec (FeedState W) Failure (Option FeedUpdate)
  settle none s = (ok none, set_index empty_feed s)
  settle (some head) s = (ok (some head), set_index (at_index head.index) s)

  -- A round of the loop, after its read: `left` rounds may follow, by `walk_on`.
  pub after_probe :
      ℕ
      → (Option FeedUpdate → Exec (FeedState W) Failure (Option FeedUpdate))
      → Option FeedUpdate
      → Option Bytes
      → Exec (FeedState W) Failure (Option FeedUpdate)
  unfolding settle lookup
  after_probe left walk_on head none = settle head
  after_probe zero walk_on head (some ahead) = lookup
  after_probe (suc left) walk_on head (some ahead) =
      walk_on (some (record { index = after_head head; payload = ahead }))

  pub walk : ℕ → Option FeedUpdate → Exec (FeedState W) Failure (Option FeedUpdate)
  unfolding after_probe at
  walk zero head = settle head
  walk (suc left) head = do ahead ← at (after_head head); after_probe left (walk left) head ahead

  -- The read of the cached index: a miss means that the cache was wrong.
  pub from_cached : ℕ → Option Bytes → Exec (FeedState W) Failure (Option FeedUpdate)
  unfolding walk
  from_cached i none = lookup
  from_cached i (some payload) = walk walk_limit (some (record { index = i; payload = payload }))

  pub from_index : Cached → Exec (FeedState W) Failure (Option FeedUpdate)
  unfolding from_cached
  from_index unread = lookup
  from_index empty_feed = walk walk_limit none
  from_index (at_index i) = do payload ← at i; from_cached i payload

  pub latest_from_network : Exec (FeedState W) Failure (Option FeedUpdate)
  unfolding from_index
  latest_from_network s = from_index s.index s

  -- A write of this device that the network does not show yet is served from memory.
  pub newer : Option FeedUpdate → Option FeedUpdate → Option FeedUpdate
  newer none from_network = from_network
  newer (some mine) none = some mine
  newer (some mine) (some update) = if ltb update.index mine.index then some mine else some update

  pub with_mine : Option FeedUpdate → Exec (FeedState W) Failure (Option FeedUpdate)
  unfolding newer
  with_mine from_network s = (ok (newer s.last_written from_network), s)

  pub latest : Exec (FeedState W) Failure (Option FeedUpdate)
  unfolding latest_from_network with_mine
  latest = do from_network ← latest_from_network; with_mine from_network

  -- The index that an append goes to.
  pub target : Option ℕ → Exec (FeedState W) Failure ℕ
  unfolding latest
  target none = do head ← latest; pure (after_head head)
  target (some expect_index) = pure (expect_index + 1)

  pub refuse_taken : ℕ → Option Bytes → Exec (FeedState W) Failure (Unit {0})
  refuse_taken index none = pure tt
  refuse_taken index (some taken) = lift (err (conflict_error index taken))

  pub remember : ℕ → Bytes → FeedState W → FeedState W
  remember index payload s = record s {
    index = at_index index;
    last_written = some (record { index = index; payload = payload });
  }

  pub wrote : ℕ → Bytes → Exec (FeedState W) Failure ℕ
  unfolding remember
  wrote index payload s = (ok index, remember index payload s)

  pub put : Bytes → ℕ → Bytes → Stamp W → Exec (FeedState W) Failure (Unit {0})
  put key index payload stamp = within (
      f.transport.put_feed_update (record {
        signer_key = key;
        topic = f.topic;
        index = index;
        payload = payload;
        stamp = stamp;
      }))

  pub append_with : Bytes → Bytes → Stamp W → Option ℕ → Exec (FeedState W) Failure ℕ
  unfolding target refuse_taken wrote at put
  append_with key payload stamp expect_index = do
    index ← target expect_index
    taken ← at index
    refuse_taken index taken
    put key index payload stamp
    wrote index payload

  pub append_as : Option Bytes → Bytes → Stamp W → Option ℕ → Exec (FeedState W) Failure ℕ
  unfolding append_with
  append_as none payload stamp expect_index = lift (err other_error)
  append_as (some key) payload stamp expect_index = append_with key payload stamp expect_index

  pub append : Bytes → Stamp W → Option ℕ → Exec (FeedState W) Failure ℕ
  unfolding append_as
  append payload stamp expect_index = append_as f.signer payload stamp expect_index
