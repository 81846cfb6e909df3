-- ===== src/Transport/Http.antt =====
-- packages/dappdata/src/transport/http.ts: the transport over bee-js. The client `bee` is a parameter,
-- each of its calls with the error that it throws.
pub mod Batches
use dappdata.Base.{
  ℕ, Bool, true, false, ◌||◌, String, Option, none, some, ltb, if◌then◌else◌, Result, ok, err, Exec,
  ◌>>=◌, ◌>>◌, pure, lift,
}
use dappdata.Errors.{Bytes, Failure, dapp_data_error, other_error, unsupported}
use dappdata.Transport.Missing.{BeeError, is_not_found, is_unreadable_chunk}
use dappdata.Transport.{
  FeedUpdate, Stamp, batch, marshalled, signer, PutFeedUpdate, GetFeedUpdate, BatchStatus,
  ChainState, Transport,
}

-- A batch of the node's own, as bee-js describes it; the duration is given in whole seconds.
pub record OwnBatch : Type 0 where
  pub batch_id : String
  pub usable : Bool
  pub depth : ℕ
  pub bucket_depth : ℕ
  pub immutable_flag : Bool
  pub utilization : ℕ
  pub seconds : ℕ

pub record GlobalBatch : Type 0 where
  pub batch_id : String
  pub depth : ℕ
  pub bucket_depth : ℕ
  pub immutable : Bool
  pub batch_ttl : ℕ

pub record ChainInfo : Type 0 where
  pub current_price : String
  pub block : ℕ

-- `upload_payload` takes the stamp, the topic, the private key, the payload and the index, and
-- `download_payload` the topic, the owner and the index, or none for the latest update.
pub record Bee (W : Type 0) : Type 0 where
  pub upload_payload : String → Bytes → Bytes → Bytes → ℕ → Exec W BeeError (Unit {0})
  pub download_payload : Bytes → String → Option ℕ → Exec W BeeError FeedUpdate
  pub upload : String → Bytes → Exec W BeeError String
  pub download : String → Exec W BeeError Bytes
  pub stamp_get : String → Exec W BeeError OwnBatch
  pub stamp_get_global : String → Exec W BeeError GlobalBatch
  pub chain_state : Exec W BeeError ChainInfo
  pub big_int : String → Result Failure ℕ

-- An error of the client, thrown on.
abbrev pub passed_on : {W A : Type 0} → Result BeeError A × W → Result Failure A × W
passed_on (ok a, w) = (ok a, w)
passed_on (err e, w) = (err other_error, w)

module _ {W : Type 0} (bee : Bee W) where
  unfoldable pub put_feed_update : PutFeedUpdate W → Exec W Failure (Unit {0})
  put_feed_update put w = elim put.stamp [
    | batch batch_id ↦
        passed_on (bee.upload_payload batch_id put.topic put.signer_key put.payload put.index w)
    | marshalled batch_id bytes ↦ (err (dapp_data_error unsupported), w)
    | signer batch_id sign ↦ (err (dapp_data_error unsupported), w)
  ]

  unfoldable pub payload_of : Result BeeError FeedUpdate × W → Result Failure (Option Bytes) × W
  payload_of (ok update, w) = (ok (some update.payload), w)
  payload_of (err e, w) =
      (if is_not_found e || is_unreadable_chunk e then ok none else err other_error, w)

  unfoldable pub get_feed_update : GetFeedUpdate → Exec W Failure (Option Bytes)
  unfolding payload_of
  get_feed_update get w = payload_of (bee.download_payload get.topic get.owner (some get.index) w)

  unfoldable pub latest_of : Result BeeError FeedUpdate × W → Result Failure (Option FeedUpdate) × W
  latest_of (ok update, w) = (ok (some update), w)
  latest_of (err e, w) = (if is_not_found e then ok none else err other_error, w)

  unfoldable pub find_latest : String → Bytes → Exec W Failure (Option FeedUpdate)
  unfolding latest_of
  find_latest owner topic w = latest_of (bee.download_payload topic owner none w)

  unfoldable pub put_blob : Bytes → Stamp W → Exec W Failure String
  put_blob content (batch batch_id) w = passed_on (bee.upload batch_id content w)
  put_blob content (marshalled batch_id bytes) w = (err (dapp_data_error unsupported), w)
  put_blob content (signer batch_id sign) w = (err (dapp_data_error unsupported), w)

  unfoldable pub get_blob : String → Exec W Failure Bytes
  get_blob reference w = passed_on (bee.download reference w)

  abbrev pub own_status : OwnBatch → BatchStatus
  own_status b = record {
    batch_id = b.batch_id;
    usable = b.usable;
    depth = b.depth;
    bucket_depth = b.bucket_depth;
    immutable = b.immutable_flag;
    utilization = b.utilization;
    ttl_seconds = b.seconds;
  }

  abbrev pub global_status : GlobalBatch → BatchStatus
  global_status b = record {
    batch_id = b.batch_id;
    usable = ltb 0 b.batch_ttl;
    depth = b.depth;
    bucket_depth = b.bucket_depth;
    immutable = b.immutable;
    utilization = 0;
    ttl_seconds = b.batch_ttl;
  }

  unfoldable pub global_of :
      Result BeeError GlobalBatch × W → Result Failure (Option BatchStatus) × W
  global_of (ok b, w) = (ok (some (global_status b)), w)
  global_of (err e, w) = (if is_not_found e then ok none else err other_error, w)

  unfoldable pub own_of :
      String → Result BeeError OwnBatch × W → Result Failure (Option BatchStatus) × W
  unfolding global_of
  own_of batch_id (ok b, w) = (ok (some (own_status b)), w)
  own_of batch_id (err e, w) =
      if is_not_found e then global_of (bee.stamp_get_global batch_id w) else (err other_error, w)

  unfoldable pub get_batch : String → Exec W Failure (Option BatchStatus)
  unfolding own_of
  get_batch batch_id w = own_of batch_id (bee.stamp_get batch_id w)

  unfoldable pub get_chain_state : Exec W Failure ChainState
  get_chain_state = do
    state ← λ w. passed_on (bee.chain_state w)
    price ← lift (bee.big_int state.current_price)
    pure (record { current_price = price; block = state.block })

  abbrev pub http_transport : Transport W
  http_transport = record {
    put_feed_update = put_feed_update;
    get_feed_update = get_feed_update;
    find_latest = find_latest;
    put_blob = put_blob;
    get_blob = get_blob;
    get_batch = get_batch;
    get_chain_state = get_chain_state;
  }
