-- ===== src/Transport/Fetch/Examples.antt =====
-- The theorems about the transport over `fetch` at concrete inputs: a node that keeps the last chunk it
-- was given, and has no batches.
use dappdata.Base.{ℕ, ◌≡◌, ◌↔◌, ◌⊎◌, true, false, none, [], ◌∷◌, ◌++◌, Result, ok, err, drop}
use dappdata.Base.Hex.{codes, strip_0x}
use dappdata.Errors.{Bytes, other_error}
use dappdata.Transport.Missing.{is_missing_chunk_response}
use dappdata.Transport.Missing.Patterns.{SaysMissing, is_missing_chunk_response_iff}
use dappdata.Transport.Fetch.{
  Method, get, post, Response, Thrown, Soc, Tools, FetchOptions, get_batch,
}
use dappdata.Transport.Fetch.Batches.{Unknown, get_batch-none}

is_missing_chunk_response_iff_example :
    (is_missing_chunk_response 500 (codes "Read Chunk Failed") ≡ true)
    ↔ ((◌≡◌ {A = ℕ} 500 404) ⊎ ((◌≡◌ {A = ℕ} 500 500) × SaysMissing (codes "Read Chunk Failed")))
is_missing_chunk_response_iff_example =
    is_missing_chunk_response_iff 500 (codes "Read Chunk Failed")

abbrev answer : Method → Bytes → Bytes → Result Thrown Response × Bytes
answer get content last = (ok (record { status = 200; body = ok last; feed_index = none }), last)
answer post content last = (ok (record { status = 201; body = ok []; feed_index = none }), content)

abbrev soc_of : Bytes → Bytes → Soc
soc_of identifier payload = record {
  address = identifier;
  span = 0 ∷ 0 ∷ 0 ∷ 0 ∷ 0 ∷ 0 ∷ 0 ∷ 0 ∷ [];
  payload = payload;
  signature = [];
}

abbrev node : Tools Bytes
node = record {
  fetch = λ request last. answer request.method request.content last;
  keccak = λ b. b;
  make_soc = λ identifier key payload. ok (soc_of identifier payload);
  owner_of = λ key. "0xa";
  soc_address = λ identifier owner. identifier;
  unmarshal = λ bytes address. ok (drop 8 bytes);
  splitter = λ bytes. record { below = []; root = record { address = []; bytes = bytes } };
  to_hex = λ b. "ab";
  decode_text = λ b. b;
  own_json = λ b. err other_error;
  global_json = λ b. err other_error;
  chain_json = λ b. err other_error;
  big_int = λ s. err other_error;
}

abbrev options : FetchOptions
options = record { deferred = true; pin = false; probe_timeout = none }

get_batch-none_example : (get_batch node "http://bee/" options "0xb1" [] ≡ (ok none, [])) ↔ (
    (v : Bytes) × Unknown node "http://bee/" options
      (codes "/stamps/" ++ strip_0x (codes "0xb1"))
      []
      v
    × Unknown node "http://bee/" options (codes "/batches/" ++ strip_0x (codes "0xb1")) v [])
get_batch-none_example = get_batch-none node "http://bee/" options "0xb1" [] []
