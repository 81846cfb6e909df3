-- ===== src/Funding/Provider/Examples.antt =====
-- A purchase through a provider at a concrete input.
use dappdata.Base.{ℕ, ◌+◌, ◌≡◌, refl, String, none, some, [], ◌∷◌, ok, err, ◌>>=◌, lift}
use dappdata.Base.Hex.{Text, codes}
use dappdata.Errors.{Bytes, other_error}
use dappdata.Transport.{Transport}
use dappdata.Funding.Abi.{
  decode_uint, encode_allowance, encode_approve, encode_create_batch, batch_id_for,
}
use dappdata.Funding.Provider.{
  Rpc, sepolia, payer_of, from, call, send, receipt, random_nonce, ids_differ,
}
use dappdata.Funding.Provider.Sent.{Purchased, fund-Sent}
use dappdata.Funding.{FundOptions, FundResult, fund, confirm}

abbrev no_node : Transport ℕ
no_node = record {
  put_feed_update = λ put w. (err other_error, w);
  get_feed_update = λ get w. (ok none, w);
  find_latest = λ owner topic w. (ok none, w);
  put_blob = λ content stamp w. (err other_error, w);
  get_blob = λ reference w. (err other_error, w);
  get_batch = λ batch_id w. (ok none, w);
  get_chain_state = λ w. (err other_error, w);
}

-- A provider that counts its calls; the token's allowance is 0, and every transaction is mined.
abbrev provider : Rpc ℕ
provider = record {
  accounts = λ w. (ok none, w + 1);
  eth_call = λ to data_ w. (ok (codes "0x00"), w + 1);
  send_transaction = λ account to data_ w. (ok "0xfeed", w + 1);
  receipt = λ hash w. (ok (some []), w + 1);
  random_bytes = λ n w. (ok (7 ∷ 7 ∷ []), w + 1);
}

abbrev payer : String
payer = "0x45a1502382541Cd610CC9068e88727426b696293"

abbrev text_of : Text → String
text_of t = "0x0707070707070707070707070707070707070707070707070707070707070707"

abbrev keccak : Bytes → Bytes
keccak b = 1 ∷ 2 ∷ 3 ∷ 4 ∷ []

abbrev wish : FundOptions
wish = record {
  owner = payer;
  budget = none;
  depth = some 17;
  amount_per_chunk = some 24000;
  immutable = none;
}

abbrev bought : FundResult
bought = record {
  batch_id = text_of [];
  depth = 17;
  amount_per_chunk = 24000;
  total_cost = 3145728000;
  transaction_hash = "0xfeed";
}

fund_run :
    fund no_node (payer_of provider sepolia (some payer) keccak text_of) 12 (λ n. n) wish 0
    ≡ (ok bought, 5)
unfolding fund confirm from call send receipt random_nonce encode_allowance encode_approve
    encode_create_batch decode_uint batch_id_for lift ids_differ ◌>>=◌
fund_run = refl

fund-Sent_example :
    Purchased provider sepolia (some payer) keccak text_of no_node (λ n. n) wish 0 5 bought
fund-Sent_example =
    fund-Sent provider sepolia (some payer) keccak text_of no_node (λ n. n) wish 0 5 bought fund_run
