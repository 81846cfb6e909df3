-- ===== src/Transport/Fetch.antt =====
-- packages/dappdata/src/transport/fetch.ts: the transport over `fetch`. `fetch` itself is a parameter,
-- which runs in the world `W`; so are core-sdk, the parsers of JSON and `TextDecoder`. A path and a
-- header's value are texts. A response's body may still throw where it is read.
pub mod Absent
pub mod Batches
pub mod RoundTrip
pub mod Promises
pub mod Serves
mod Node
mod Examples
use dappdata.Base.{
  ℕ, Bool, true, false, not, ◌&&◌, ◌||◌, String, Option, none, some, List, [], ◌∷◌, ◌++◌, ltb, leb,
  ◌==◌, if◌then◌else◌, Result, ok, err, Exec, ◌>>=◌, ◌>>◌, pure, lift,
}
use dappdata.Base.Hex.{Text, codes, strip_0x, read_hex, hex_of_bytes}
use dappdata.Errors.{Bytes, Failure, dapp_data_error, other_error, unsupported}
use dappdata.Feed.Address.{feed_identifier}
use dappdata.Transport.Blob.{Split, split_blob}
use dappdata.Transport.Missing.{is_missing_chunk_response}
use dappdata.Transport.{
  FeedUpdate, Stamp, batch, marshalled, signer, is_stamp_signer, PutFeedUpdate, GetFeedUpdate,
  BatchStatus, ChainState, Transport,
}

pub record Header : Type 0 where
  pub name : String
  pub value : Text

pub data Method : Type 0 where
  get post : Method

-- `timeout` is that of the signal, in milliseconds.
pub record Request : Type 0 where
  pub method : Method
  pub path : Text
  pub headers : List Header
  pub content : Bytes
  pub timeout : Option ℕ

-- `feed_index` is the header `swarm-feed-index`.
pub record Response : Type 0 where
  pub status : ℕ
  pub body : Result Failure Bytes
  pub feed_index : Option Text

-- What `fetch` throws: a `TimeoutError`, or another error.
pub data Thrown : Type 0 where
  timeout_error : Thrown
  thrown : Failure → Thrown

abbrev pub failure_of : Thrown → Failure
failure_of timeout_error = other_error
failure_of (thrown e) = e

pub record FetchOptions : Type 0 where
  pub deferred : Bool
  pub pin : Bool
  pub probe_timeout : Option ℕ

-- A single-owner chunk, as core-sdk makes it.
pub record Soc : Type 0 where
  pub address : Bytes
  pub span : Bytes
  pub payload : Bytes
  pub signature : Bytes

-- The node's JSON of a batch of its own, of a batch on the chain, and of the chain's state.
pub record OwnBatch : Type 0 where
  pub batch_id : String
  pub usable : Bool
  pub depth : ℕ
  pub bucket_depth : ℕ
  pub immutable_flag : Bool
  pub utilization : ℕ
  pub batch_ttl : ℕ

pub record GlobalBatch : Type 0 where
  pub batch_id : String
  pub depth : ℕ
  pub bucket_depth : ℕ
  pub immutable : Bool
  pub batch_ttl : ℕ

pub record ChainJson : Type 0 where
  pub current_price : String
  pub block : ℕ

-- What the source takes from its libraries and from JavaScript. `make_soc` is the chunk that an
-- identifier, a private key and a payload make, and `owner_of` the address of a private key.
pub record Tools (W : Type 0) : Type 0 where
  pub fetch : Request → Exec W Thrown Response
  pub keccak : Bytes → Bytes
  pub make_soc : Bytes → Bytes → Bytes → Result Failure Soc
  pub owner_of : Bytes → String
  pub soc_address : Bytes → String → Bytes
  pub unmarshal : Bytes → Bytes → Result Failure Bytes
  pub splitter : Bytes → Split
  pub to_hex : Bytes → String
  pub decode_text : Bytes → Text
  pub own_json : Bytes → Result Failure OwnBatch
  pub global_json : Bytes → Result Failure GlobalBatch
  pub chain_json : Bytes → Result Failure ChainJson
  pub big_int : String → Result Failure ℕ

-- `url.replace(/\/+$/, "")`
abbrev pub slash_behind : ℕ → Text → Text
slash_behind c [] = if c == 47 then [] else c ∷ []
slash_behind c (d ∷ t) = c ∷ d ∷ t

abbrev pub strip_slashes : Text → Text
strip_slashes [] = []
strip_slashes (c ∷ t) = slash_behind c (strip_slashes t)

unfoldable pub stamp_header : {W : Type 0} → Stamp W → Bytes → Exec W Failure (List Header)
stamp_header (batch batch_id) address =
    pure (record { name = "swarm-postage-batch-id"; value = codes batch_id } ∷ [])
stamp_header (signer batch_id sign) address = do
  stamped ← sign address
  pure (record { name = "swarm-postage-stamp"; value = hex_of_bytes stamped } ∷ [])
stamp_header (marshalled batch_id bytes) address =
    pure (record { name = "swarm-postage-stamp"; value = hex_of_bytes bytes } ∷ [])

unfoldable pub upload_headers : FetchOptions → List Header
upload_headers o =
    (if o.deferred
      then record { name = "swarm-deferred-upload"; value = codes "true" } ∷ []
      else [])
    ++ (if o.pin then record { name = "swarm-pin"; value = codes "true" } ∷ [] else [])

-- `response.ok`
abbrev pub is_ok : ℕ → Bool
is_ok status = leb 200 status && ltb status 300

-- The error of an answer, whose message takes the response's text.
abbrev pub refusal : Result Failure Bytes → Failure
refusal (ok body) = dapp_data_error unsupported
refusal (err e) = e

abbrev pub or_2000 : Option ℕ → ℕ
or_2000 none = 2000
or_2000 (some n) = n

module _ {W : Type 0} (t : Tools W) (url : String) (o : FetchOptions) where
  abbrev pub base : Text
  base = strip_slashes (codes url)

  abbrev pub get_request : Text → Option ℕ → Request
  get_request path timeout = record {
    method = get;
    path = base ++ path;
    headers = [];
    content = [];
    timeout = timeout;
  }

  unfoldable pub upload_request : Text → List Header → Bytes → Request
  unfolding upload_headers
  upload_request path headers content = record {
    method = post;
    path = base ++ path;
    headers =
        record { name = "content-type"; value = codes "application/octet-stream" }
          ∷ upload_headers o
        ++ headers;
    content = content;
    timeout = none;
  }

  unfoldable pub checked : Result Thrown Response × W → Result Failure Response × W
  checked (ok r, w) = (if is_ok r.status || r.status == 404 then ok r else err (refusal r.body), w)
  checked (err e, w) = (err (failure_of e), w)

  unfoldable pub ask : Request → Exec W Failure Response
  unfolding checked
  ask request w = checked (t.fetch request w)

  unfoldable pub judged : ℕ → Result Failure Bytes → Result Failure (Option Response)
  judged status (ok body) =
      if is_missing_chunk_response status (t.decode_text body)
      then ok none
      else err (dapp_data_error unsupported)
  judged status (err e) = err e

  unfoldable pub maybe : Result Thrown Response × W → Result Failure (Option Response) × W
  unfolding judged
  maybe (ok r, w) = (if is_ok r.status then ok (some r) else judged r.status r.body, w)
  maybe (err timeout_error, w) = (ok none, w)
  maybe (err (thrown e), w) = (err e, w)

  unfoldable pub ask_maybe : Text → Option ℕ → Exec W Failure (Option Response)
  unfolding maybe
  ask_maybe path timeout w = maybe (t.fetch (get_request path timeout) w)

  abbrev pub soc_path : PutFeedUpdate W → Soc → Text
  soc_path put soc =
      codes "/soc/"
      ++ codes (t.owner_of put.signer_key)
      ++ codes "/"
      ++ codes (t.to_hex (feed_identifier t.keccak t.soc_address put.topic put.index))
      ++ codes "?sig="
      ++ codes (t.to_hex soc.signature)

  unfoldable pub accepted : Response → Exec W Failure (Unit {0})
  accepted r = if r.status == 404 then lift (err (dapp_data_error unsupported)) else pure tt

  unfoldable pub put_feed_update : PutFeedUpdate W → Exec W Failure (Unit {0})
  unfolding stamp_header ask accepted upload_request
  put_feed_update put = do
    soc ← lift (
        t.make_soc (feed_identifier t.keccak t.soc_address put.topic put.index) put.signer_key
          put.payload)
    headers ← stamp_header put.stamp soc.address
    response ← ask (upload_request (soc_path put soc) headers (soc.span ++ soc.payload))
    accepted response

  unfoldable pub payload_in : Bytes → Option Response → Exec W Failure (Option Bytes)
  payload_in address none = pure none
  payload_in address (some r) = do
    body ← lift r.body
    payload ← lift (t.unmarshal body address)
    pure (some payload)

  unfoldable pub get_feed_update : GetFeedUpdate → Exec W Failure (Option Bytes)
  unfolding ask_maybe payload_in
  get_feed_update wanted =
      let address =
        t.soc_address (feed_identifier t.keccak t.soc_address wanted.topic wanted.index)
          wanted.owner in
      ask_maybe (codes "/chunks/" ++ codes (t.to_hex address)) (some (or_2000 o.probe_timeout))
      >>= payload_in address

  -- `BigInt("0x" + index)`, which is read before the body.
  unfoldable pub update_with : Option ℕ → Result Failure Bytes → Exec W Failure (Option FeedUpdate)
  update_with none body = lift (err other_error)
  update_with (some index) body = do
    payload ← lift body
    pure (some (record { index = index; payload = payload }))

  unfoldable pub update_at : Option Text → Result Failure Bytes → Exec W Failure (Option FeedUpdate)
  unfolding update_with
  update_at none body = pure none
  update_at (some []) body = pure none
  update_at (some (c ∷ index)) body = update_with (read_hex (c ∷ index)) body

  unfoldable pub update_in : Option Response → Exec W Failure (Option FeedUpdate)
  unfolding update_at
  update_in none = pure none
  update_in (some r) = update_at r.feed_index r.body

  unfoldable pub find_latest : String → Bytes → Exec W Failure (Option FeedUpdate)
  unfolding ask_maybe update_in
  find_latest owner topic =
      ask_maybe (codes "/feeds/" ++ strip_0x (codes owner) ++ codes "/" ++ hex_of_bytes topic) none
      >>= update_in

  unfoldable pub put_chunk : Stamp W → Bytes → Bytes → Exec W Failure (Unit {0})
  unfolding stamp_header ask upload_request
  put_chunk stamp address bytes = do
    headers ← stamp_header stamp address
    response ← ask (upload_request (codes "/chunks") headers bytes)
    pure tt

  abbrev pub is_batch : Stamp W → Bool
  is_batch (batch batch_id) = true
  is_batch _ = false

  unfoldable pub put_blob : Bytes → Stamp W → Exec W Failure String
  unfolding put_chunk is_stamp_signer
  put_blob content stamp w =
      if not (is_batch stamp) && not (is_stamp_signer stamp)
      then (err (dapp_data_error unsupported), w)
      else (do root ← split_blob (put_chunk stamp) t.splitter content; pure (t.to_hex root)) w

  unfoldable pub blob_in : Response → Exec W Failure Bytes
  blob_in r = lift (if r.status == 404 then err (dapp_data_error unsupported) else r.body)

  unfoldable pub get_blob : String → Exec W Failure Bytes
  unfolding ask blob_in
  get_blob reference =
      ask (get_request (codes "/bytes/" ++ strip_0x (codes reference)) none) >>= blob_in

  abbrev pub own_status : OwnBatch → BatchStatus
  own_status b = record {
    batch_id = b.batch_id;
    usable = b.usable;
    depth = b.depth;
    bucket_depth = b.bucket_depth;
    immutable = b.immutable_flag;
    utilization = b.utilization;
    ttl_seconds = b.batch_ttl;
  }

  abbrev pub global_status : GlobalBatch → BatchStatus
  global_status b = record {
    batch_id = b.batch_id;
    usable = ltb 0 b.batch_ttl;
    depth = b.depth;
    bucket_depth = b.bucket_depth;
    immutable = b.immutable;
    utilization = 0;
    ttl_seconds = b.batch_ttl;
  }

  unfoldable pub global_in : Option Response → Exec W Failure (Option BatchStatus)
  global_in none = pure none
  global_in (some r) = do
    body ← lift r.body
    b ← lift (t.global_json body)
    pure (some (global_status b))

  unfoldable pub own_in : Text → Option Response → Exec W Failure (Option BatchStatus)
  unfolding ask_maybe global_in
  own_in id none = ask_maybe (codes "/batches/" ++ id) none >>= global_in
  own_in id (some r) = do body ← lift r.body; b ← lift (t.own_json body); pure (some (own_status b))

  unfoldable pub get_batch : String → Exec W Failure (Option BatchStatus)
  unfolding own_in
  get_batch batch_id =
      let id = strip_0x (codes batch_id) in ask_maybe (codes "/stamps/" ++ id) none >>= own_in id

  unfoldable pub get_chain_state : Exec W Failure ChainState
  unfolding ask
  get_chain_state = do
    response ← ask (get_request (codes "/chainstate") none)
    body ← lift response.body
    state ← lift (t.chain_json body)
    price ← lift (t.big_int state.current_price)
    pure (record { current_price = price; block = state.block })

  abbrev pub fetch_transport : Transport W
  fetch_transport = record {
    put_feed_update = put_feed_update;
    get_feed_update = get_feed_update;
    find_latest = find_latest;
    put_blob = put_blob;
    get_blob = get_blob;
    get_batch = get_batch;
    get_chain_state = get_chain_state;
  }
