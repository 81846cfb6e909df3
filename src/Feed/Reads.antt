-- ===== src/Feed/Reads.antt =====
-- `latest` of packages/dappdata/src/feed/index.ts over a transport that serves a log.
use dappdata.Base.{
  ℕ, ◌⊎◌, inl, ◌^◌, zero, suc, ◌+◌, ◌≤◌, ◌≡◌, ◌<◌, refl, Option, none, some, List, [], ◌∷◌, arith,
  Result, ok, length, get_elem?, Exec, le→ltb, ◌>>=◌,
}
use native.Mathlib.Numerals.{add-one}
use dappdata.Errors.{Bytes, Failure}
use dappdata.Transport.{FeedUpdate, Stamp}
use dappdata.Feed.Log.{last_from, last_update, ServesLog}
use dappdata.Feed.{
  SequentialFeed, FeedState, Cached, unread, empty_feed, at_index, after_head, set_index, at, found,
  lookup, settle, after_probe, walk, from_cached, from_index, latest_from_network, newer, with_mine,
  latest,
}

pub get_elem?-lt : (l : List Bytes) (i : ℕ) {p : Bytes} → get_elem? l i ≡ some p → i < length l
get_elem?-lt [] i e = cc
get_elem?-lt (x ∷ l) zero e = omega arith
get_elem?-lt (x ∷ l) (suc i) e = omega (arith, get_elem?-lt l i e)

pub get_elem?-length : (l : List Bytes) → get_elem? l (length l) ≡ none
get_elem?-length [] = refl
get_elem?-length (x ∷ l) = get_elem?-length l

last_from_at :
    (k : ℕ) (x : Bytes) (l : List Bytes) (i : ℕ) (p : Bytes)
    → get_elem? (x ∷ l) i ≡ some p
    → get_elem? (x ∷ l) (suc i) ≡ none
    → last_from k x l ≡ record { index = k + i; payload = p }
last_from_at k x [] zero p e n = ground arith
last_from_at k x [] (suc i) p e n = cc
last_from_at k x (y ∷ l) zero p e n = cc
last_from_at k x (y ∷ l) (suc i) p e n = ground (arith, last_from_at (k + 1) y l i p e n)

pub last_update_at :
    (l : List Bytes) (i : ℕ) (p : Bytes)
    → get_elem? l i ≡ some p
    → get_elem? l (suc i) ≡ none
    → last_update l ≡ some (record { index = i; payload = p })
last_update_at [] i p e n = cc
last_update_at (x ∷ l) i p e n = ground (arith, last_from_at 0 x l i p e n)

-- The entry that a head names is in the log.
abbrev pub IsHead : List Bytes → Option FeedUpdate → Type 0
IsHead l none = Unit {0}
IsHead l (some u) = get_elem? l u.index ≡ some u.payload

last_update_of_head :
    (l : List Bytes) (head : Option FeedUpdate)
    → IsHead l head
    → get_elem? l (after_head head) ≡ none
    → last_update l ≡ head
last_update_of_head [] none h n = refl
last_update_of_head (x ∷ l) none h n = cc
last_update_of_head l (some u) h n =
    last_update_at l u.index u.payload h (rw (← (add-one u.index)) n)

last_from-index : (k : ℕ) (x : Bytes) (l : List Bytes) → (last_from k x l).index ≡ k + length l
last_from-index k x [] = omega arith
last_from-index k x (y ∷ l) = omega (arith, last_from-index (k + 1) y l)

pub last_from-payload :
    (k : ℕ) (x : Bytes) (l : List Bytes)
    → get_elem? (x ∷ l) (length l) ≡ some (last_from k x l).payload
last_from-payload k x [] = refl
last_from-payload k x (y ∷ l) = last_from-payload (k + 1) y l

pub last_from_zero : (x : Bytes) (l : List Bytes) → (last_from 0 x l).index ≡ length l
last_from_zero x l = omega (arith, last_from-index 0 x l)

pub last_update-IsHead : (l : List Bytes) → IsHead l (last_update l)
last_update-IsHead [] = tt
last_update-IsHead (x ∷ l) = rw (last_from_zero x l) (last_from-payload 0 x l)

-- The index that follows the last entry is the log's length.
pub after_head-last_update : (l : List Bytes) → after_head (last_update l) ≡ length l
after_head-last_update [] = refl
after_head-last_update (x ∷ l) = omega (arith, last_from_zero x l)

-- A head's next index is at most the log's length.
after_head-IsHead :
    (l : List Bytes) (head : Option FeedUpdate) → IsHead l head → after_head head ≤ length l
after_head-IsHead l none h = omega arith
after_head-IsHead l (some u) h = omega (arith, get_elem?-lt l u.index h)

abbrev pub cached : Option FeedUpdate → Cached
cached none = empty_feed
cached (some u) = at_index u.index

-- A feed that is in step with the log: a cached index and a remembered write are entries of it.
abbrev pub CacheHolds : List Bytes → Cached → Type 0
CacheHolds l (at_index i) = i < length l
CacheHolds l _ = Unit {0}

-- An index that the feed can ask the transport for.
abbrev pub Readable : List Bytes → Cached → Type 0
Readable l (at_index i) = (i ≤ length l) ⊎ (i < 2 ^ 64)
Readable l _ = Unit {0}

CacheHolds-Readable : (l : List Bytes) (c : Cached) → CacheHolds l c → Readable l c
CacheHolds-Readable l unread h = tt
CacheHolds-Readable l empty_feed h = tt
CacheHolds-Readable l (at_index i) h = inl (omega (arith, h))

pub record InStep {W : Type 0} (l : List Bytes) (s : FeedState W) : Type 0 where
  pub cache_holds : CacheHolds l s.index
  pub mine_holds : IsHead l s.last_written

module _ {W : Type 0} (f : SequentialFeed W) {Holds : W → List Bytes → Type 0}
    {CanPay : Stamp W → Type 0} {Room : List Bytes → Type 0}
    (serves : ServesLog f Holds CanPay Room) (l : List Bytes) where
  -- The state after a read of the last entry, and its answer.
  abbrev answer : FeedState W → Result Failure (Option FeedUpdate) × FeedState W
  answer s = (ok (last_update l), set_index (cached (last_update l)) s)

  pub at-Holds :
      (i : ℕ) (s : FeedState W)
      → Holds s.world l
      → i ≤ length l
      → at f i s ≡ (ok (get_elem? l i), s)
  unfolding at
  at-Holds i s h in_log = rw (serves.get_at s.world l i h (inl in_log))

  at_any :
      (i : ℕ) (s : FeedState W)
      → Holds s.world l
      → (i ≤ length l) ⊎ (i < 2 ^ 64)
      → at f i s ≡ (ok (get_elem? l i), s)
  unfolding at
  at_any i s h fits = rw (serves.get_at s.world l i h fits)

  lookup-Holds : (s : FeedState W) → Holds s.world l → lookup f s ≡ answer s
  unfolding lookup found ◌>>=◌
  lookup-Holds s h = rw (serves.find_last s.world l h) (go (last_update l))
    where
      go : (u : Option FeedUpdate) → found f u s ≡ (ok u, set_index (cached u) s)
      go none = refl
      go (some u) = refl

  settle_last :
      (head : Option FeedUpdate) (s : FeedState W)
      → last_update l ≡ head
      → settle f head s ≡ answer s
  unfolding settle
  settle_last none s e = rw e
  settle_last (some u) s e = rw e

  after_probe_last :
      (left : ℕ) (walk_on : Option FeedUpdate → Exec (FeedState W) Failure (Option FeedUpdate))
      (head : Option FeedUpdate) (ahead : Option Bytes) (s : FeedState W)
      → Holds s.world l
      → IsHead l head
      → get_elem? l (after_head head) ≡ ahead
      → ((n : ℕ) (u : FeedUpdate)
          → left ≡ suc n
          → IsHead l (some u)
          → walk_on (some u) s ≡ answer s)
      → after_probe f left walk_on head ahead s ≡ answer s
  unfolding after_probe
  after_probe_last left walk_on head none s h i e go =
      settle_last head s (last_update_of_head l head i e)
  after_probe_last zero walk_on head (some p) s h i e go = lookup-Holds s h
  after_probe_last (suc left) walk_on head (some p) s h i e go =
      go left (record { index = after_head head; payload = p }) refl e

  walk_last :
      (left : ℕ) (head : Option FeedUpdate) (s : FeedState W)
      → Holds s.world l
      → IsHead l head
      → walk f (suc left) head s ≡ answer s
  unfolding walk ◌>>=◌
  walk_last zero head s h i = rw (at-Holds (after_head head) s h (after_head-IsHead l head i)) (
      after_probe_last zero (walk f 0) head (get_elem? l (after_head head)) s h i refl
        (λ n u e k. cc))
  walk_last (suc left) head s h i =
      rw (at-Holds (after_head head) s h (after_head-IsHead l head i)) (
        after_probe_last (suc left) (walk f (suc left)) head (get_elem? l (after_head head)) s h i
          refl (λ n u e k. walk_last left (some u) s h k))

  from_index_last :
      (c : Cached) (s : FeedState W) → Holds s.world l → Readable l c → from_index f c s ≡ answer s
  unfolding from_index from_cached ◌>>=◌
  from_index_last unread s h c = lookup-Holds s h
  from_index_last empty_feed s h c = walk_last 15 none s h tt
  from_index_last (at_index i) s h c = rw (at_any i s h c) (go (get_elem? l i) refl)
    where
      go : (p : Option Bytes) → get_elem? l i ≡ p → from_cached f i p s ≡ answer s
      go none e = lookup-Holds s h
      go (some p) e = walk_last 15 (some (record { index = i; payload = p })) s h e

  newer_last :
      (mine : Option FeedUpdate) → IsHead l mine → newer f mine (last_update l) ≡ last_update l
  unfolding newer
  newer_last none h = refl
  newer_last (some u) h = go (last_update l) (after_head-last_update l) (last_update-IsHead l)
    where
      go :
          (last : Option FeedUpdate)
          → after_head last ≡ length l
          → IsHead l last
          → newer f (some u) last ≡ last
      go none e i = absurd (omega (arith, get_elem?-lt l u.index h))
      go (some v) e i = rw (le→ltb v.index u.index (omega (arith, get_elem?-lt l u.index h)))

  -- Whatever the cache says, also an index of 64 bits that is past the log's end, and if a write that
  -- the device remembers is in the log: `latest` returns the log's last entry, or none of an empty log,
  -- changes no world, and leaves the cache at that entry.
  pub latest_last :
      (s : FeedState W)
      → Holds s.world l
      → Readable l s.index
      → IsHead l s.last_written
      → latest f s ≡ (ok (last_update l), set_index (cached (last_update l)) s)
  unfolding latest latest_from_network with_mine ◌>>=◌
  latest_last s h c mine = rw (from_index_last s.index s h c, newer_last s.last_written mine)

  pub latest_in_step :
      (s : FeedState W)
      → Holds s.world l
      → InStep l s
      → latest f s ≡ (ok (last_update l), set_index (cached (last_update l)) s)
  latest_in_step s h v = latest_last s h (CacheHolds-Readable l s.index v.cache_holds) v.mine_holds
