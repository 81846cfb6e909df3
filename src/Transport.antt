-- ===== src/Transport.antt =====
-- packages/dappdata/src/transport/types.ts: the Bee endpoint is an interface. A call runs in a world
-- `W`, which it may change and in which it may throw. Topics, keys and payloads are bytes; an index,
-- a `bigint` in the source, is a natural number.
pub mod Blob
pub mod Memory
pub mod Missing
pub mod Fetch
pub mod Http
use dappdata.Base.{ℕ, Bool, true, false, String, Option, Exec}
use dappdata.Errors.{Bytes, Failure}

pub record FeedUpdate : Type 0 where
  pub index : ℕ
  pub payload : Bytes

-- A batch id that the node stamps with, a stamp that was signed before, or a signer that is asked for
-- one stamp per chunk address.
pub data Stamp (W : Type 0) : Type 0 where
  batch : String → Stamp W
  marshalled : String → Bytes → Stamp W
  signer : String → (Bytes → Exec W Failure Bytes) → Stamp W

unfoldable pub is_stamp_signer : {W : Type 0} → Stamp W → Bool
is_stamp_signer (signer batch_id sign) = true
is_stamp_signer _ = false

unfoldable pub stamp_batch_id : {W : Type 0} → Stamp W → String
stamp_batch_id (batch batch_id) = batch_id
stamp_batch_id (marshalled batch_id bytes) = batch_id
stamp_batch_id (signer batch_id sign) = batch_id

pub record PutFeedUpdate (W : Type 0) : Type 0 where
  pub signer_key : Bytes
  pub topic : Bytes
  pub index : ℕ
  pub payload : Bytes
  pub stamp : Stamp W

pub record GetFeedUpdate : Type 0 where
  pub owner : String
  pub topic : Bytes
  pub index : ℕ

pub record BatchStatus : Type 0 where
  pub batch_id : String
  pub usable : Bool
  pub depth : ℕ
  pub bucket_depth : ℕ
  pub immutable : Bool
  pub utilization : ℕ
  pub ttl_seconds : ℕ

pub record ChainState : Type 0 where
  pub current_price : ℕ
  pub block : ℕ

pub record Transport (W : Type 0) : Type 0 where
  pub put_feed_update : PutFeedUpdate W → Exec W Failure (Unit {0})
  pub get_feed_update : GetFeedUpdate → Exec W Failure (Option Bytes)
  pub find_latest : String → Bytes → Exec W Failure (Option FeedUpdate)
  pub put_blob : Bytes → Stamp W → Exec W Failure String
  pub get_blob : String → Exec W Failure Bytes
  pub get_batch : String → Exec W Failure (Option BatchStatus)
  pub get_chain_state : Exec W Failure ChainState
