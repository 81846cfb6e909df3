-- ===== src/Transport/Memory.antt =====
-- packages/dappdata/src/transport/memory.ts: the transport that keeps everything in memory. A key
-- `owner/topic/index` is the triple of its parts, with the owner in lower case. The world is the
-- transport's maps and whatever else a stamp's signer works on. `addressOf`, `toLowerCase`, the
-- chunk address, the splitter, the joiner and hexadecimal text are parameters; an entry of `writes`
-- keeps the batch id of its stamp.
pub mod Serves
pub mod Blobs
use text.Mathlib.Text.{◌==◌ as str_eq}
use text.Mathlib.TextEquality.{eq_iff}
use dappdata.Base.{
  ℕ, ◌+◌, ◌≡◌, refl, Bool, true, false, not, ◌&&◌, String, Option, none, some, List, [], ◌∷◌, ◌++◌,
  arith, ltb, ◌==◌, ==_iff, if◌then◌else◌, Result, ok, err, Exec, continue, ◌>>=◌, ◌>>◌, pure, lift,
  length, ◌↔◌,
}
use dappdata.Base.Assoc.{Eq, get_value, set_value, same_bytes, same_bytes_iff}
use dappdata.Errors.{Bytes, Failure, other_error}
use dappdata.Transport.Blob.{Split, split_blob}
use dappdata.Transport.{
  FeedUpdate, Stamp, batch, marshalled, signer, stamp_batch_id, PutFeedUpdate, GetFeedUpdate,
  BatchStatus, ChainState, Transport,
}

pub record HeadKey : Type 0 where
  pub owner : String
  pub topic : Bytes

pub record SlotKey : Type 0 where
  pub head : HeadKey
  pub index : ℕ

unfoldable pub same_head : HeadKey → HeadKey → Bool
same_head a b = str_eq a.owner b.owner && same_bytes a.topic b.topic

pub same_head_iff : (a b : HeadKey) → (same_head a b ≡ true) ↔ (a ≡ b)
unfolding same_head
same_head_iff a b = (
  λ e. ground (arith, eq_iff a.owner b.owner, same_bytes_iff a.topic b.topic),
  λ e. ground (arith, eq_iff a.owner b.owner, same_bytes_iff a.topic b.topic),
)

unfoldable pub same_slot : SlotKey → SlotKey → Bool
unfolding same_head
same_slot a b = same_head a.head b.head && a.index == b.index

pub same_slot_iff : (a b : SlotKey) → (same_slot a b ≡ true) ↔ (a ≡ b)
unfolding same_slot
same_slot_iff a b = (
  λ e. ground (arith, same_head_iff a.head b.head),
  λ e. ground (arith, same_head_iff a.head b.head),
)

abbrev pub head_keys : Eq HeadKey
head_keys = record { same = same_head; same_iff = same_head_iff }

abbrev pub slot_keys : Eq SlotKey
slot_keys = record { same = same_slot; same_iff = same_slot_iff }

abbrev pub byte_keys : Eq Bytes
byte_keys = record { same = same_bytes; same_iff = same_bytes_iff }

abbrev pub text_keys : Eq String
text_keys = record { same = str_eq; same_iff = eq_iff }

pub record MemoryWrite : Type 0 where
  pub owner : String
  pub topic : Bytes
  pub index : ℕ
  pub bytes : ℕ
  pub batch_id : String
  pub stamped : Option Bytes

pub record BlobChunk : Type 0 where
  pub address : Bytes
  pub stamped : Option Bytes

pub record Maps : Type 0 where
  pub feeds : List (SlotKey × Bytes)
  pub latest : List (HeadKey × ℕ)
  pub chunks : List (Bytes × Bytes)
  pub blob_chunks : List BlobChunk
  pub writes : List MemoryWrite
  pub batches : List (String × BatchStatus)
  pub price : ℕ

abbrev pub no_maps : Maps
no_maps = record {
  feeds = [];
  latest = [];
  chunks = [];
  blob_chunks = [];
  writes = [];
  batches = [];
  price = 24000;
}

pub record World (A : Type 0) : Type 0 where
  pub maps : Maps
  pub outside : A

-- What the source takes from its libraries and from JavaScript's strings. `hex_length` counts the
-- characters behind an optional `0x`, and `plain_id` is a batch id without it, in lower case.
pub record Tools : Type 0 where
  pub address_of : Bytes → String
  pub lower_case : String → String
  pub chunk_address : String → Bytes → ℕ → Bytes
  pub splitter : Bytes → Split
  pub join : Bytes → (Bytes → Result Failure Bytes) → Result Failure Bytes
  pub to_hex : Bytes → String
  pub of_hex : String → Bytes
  pub hex_length : String → ℕ
  pub plain_id : String → String

-- `(latest.get(head) ?? -1n) < index`
unfoldable pub is_newer : Option ℕ → ℕ → Bool
is_newer none index = true
is_newer (some last) index = ltb last index

unfoldable pub as_update : ℕ → Option Bytes → Option FeedUpdate
as_update index none = none
as_update index (some payload) = some (record { index = index; payload = payload })

unfoldable pub or_missing : Option Bytes → Result Failure Bytes
or_missing none = err other_error
or_missing (some chunk) = ok chunk

module _ (t : Tools) where
  abbrev pub head_key : String → Bytes → HeadKey
  head_key owner topic = record { owner = t.lower_case owner; topic = topic }

  abbrev pub slot_key : String → Bytes → ℕ → SlotKey
  slot_key owner topic index = record { head = head_key owner topic; index = index }

module _ {A : Type 0} (t : Tools) where
  -- The stamp that a signer makes for an address; none where the node stamps.
  unfoldable pub ask_stamp : Stamp (World A) → Bytes → Exec (World A) Failure (Option Bytes)
  ask_stamp (signer batch_id sign) address = do stamped ← sign address; pure (some stamped)
  ask_stamp _ address = pure none

  unfoldable pub store_update : PutFeedUpdate (World A) → Option Bytes → World A → World A
  unfolding is_newer
  store_update put stamped w = record w {
    maps = record (w.maps) {
      feeds = set_value slot_keys w.maps.feeds (slot_key t owner put.topic put.index) put.payload;
      latest =
          if is_newer (get_value head_keys w.maps.latest (head_key t owner put.topic)) put.index
          then set_value head_keys w.maps.latest (head_key t owner put.topic) put.index
          else w.maps.latest;
      writes =
          w.maps.writes
          ++ record {
            owner = owner;
            topic = put.topic;
            index = put.index;
            bytes = length put.payload;
            batch_id = stamp_batch_id put.stamp;
            stamped = stamped;
          }
            ∷ [];
    };
  }
    where
      owner : String
      owner = t.address_of put.signer_key

  unfoldable pub finish_put :
      PutFeedUpdate (World A) → Option Bytes → Exec (World A) Failure (Unit {0})
  unfolding store_update
  finish_put put stamped w = (ok tt, store_update put stamped w)

  unfoldable pub put_feed_update : PutFeedUpdate (World A) → Exec (World A) Failure (Unit {0})
  unfolding ask_stamp finish_put stamp_batch_id
  put_feed_update put w =
      if str_eq (stamp_batch_id put.stamp) ""
      then (err other_error, w)
      else if ltb 4096 (length put.payload)
      then (err other_error, w)
      else (do
        stamped ←
            ask_stamp put.stamp (t.chunk_address (t.address_of put.signer_key) put.topic put.index)
        finish_put put stamped)
          w

  unfoldable pub get_feed_update : GetFeedUpdate → Exec (World A) Failure (Option Bytes)
  get_feed_update get w =
      (ok (get_value slot_keys w.maps.feeds (slot_key t get.owner get.topic get.index)), w)

  unfoldable pub update_at : World A → String → Bytes → Option ℕ → Option FeedUpdate
  unfolding as_update
  update_at w owner topic none = none
  update_at w owner topic (some index) =
      as_update index (get_value slot_keys w.maps.feeds (slot_key t owner topic index))

  unfoldable pub find_latest : String → Bytes → Exec (World A) Failure (Option FeedUpdate)
  unfolding update_at
  find_latest owner topic w =
      (ok (update_at w owner topic (get_value head_keys w.maps.latest (head_key t owner topic))), w)

  unfoldable pub store_chunk : Bytes → Bytes → Option Bytes → Exec (World A) Failure (Unit {0})
  store_chunk address bytes stamped w = (
    ok tt,
    record w {
      maps = record (w.maps) {
        chunks = set_value byte_keys w.maps.chunks address bytes;
        blob_chunks = w.maps.blob_chunks ++ record { address = address; stamped = stamped } ∷ [];
      };
    },
  )

  unfoldable pub put_chunk : Stamp (World A) → Bytes → Bytes → Exec (World A) Failure (Unit {0})
  unfolding ask_stamp store_chunk
  put_chunk stamp address bytes = do
    stamped ← ask_stamp stamp address
    store_chunk address bytes stamped

  unfoldable pub put_blob : Bytes → Stamp (World A) → Exec (World A) Failure String
  unfolding put_chunk stamp_batch_id
  put_blob content stamp w =
      if str_eq (stamp_batch_id stamp) ""
      then (err other_error, w)
      else (do root ← split_blob (put_chunk stamp) t.splitter content; pure (t.to_hex root)) w

  unfoldable pub get_blob : String → Exec (World A) Failure Bytes
  unfolding or_missing
  get_blob reference w =
      if t.hex_length reference == 64
      then (
        t.join (t.of_hex reference)
            (λ address. or_missing (get_value byte_keys w.maps.chunks address)),
        w,
      )
      else (err other_error, w)

  unfoldable pub get_batch : String → Exec (World A) Failure (Option BatchStatus)
  get_batch batch_id w = (ok (get_value text_keys w.maps.batches (t.plain_id batch_id)), w)

  unfoldable pub get_chain_state : Exec (World A) Failure ChainState
  get_chain_state w = (ok (record { current_price = w.maps.price; block = 1 }), w)

  unfoldable pub set_batch : BatchStatus → World A → World A
  set_batch status w = record w {
    maps = record (w.maps) {
      batches = set_value text_keys w.maps.batches (t.plain_id status.batch_id) status;
    };
  }

  unfoldable pub set_price : ℕ → World A → World A
  set_price price w = record w { maps = record (w.maps) { price = price } }

  abbrev pub memory : Transport (World A)
  memory = record {
    put_feed_update = put_feed_update;
    get_feed_update = get_feed_update;
    find_latest = find_latest;
    put_blob = put_blob;
    get_blob = get_blob;
    get_batch = get_batch;
    get_chain_state = get_chain_state;
  }
