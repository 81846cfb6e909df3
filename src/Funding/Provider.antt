-- ===== src/Funding/Provider.antt =====
-- packages/dappdata/src/funding/index.ts and chains.ts: the calls of `funding` through an EIP-1193
-- provider. The provider, Keccak and random bytes are parameters; a text of codes becomes a `String` by
-- `text_of`. `Promise.all` makes its second call whatever becomes of the first.
pub mod Sent
mod Examples
use dappdata.Base.{
  ℕ, Bool, true, false, not, ◌&&◌, String, Option, none, some, List, [], ◌∷◌, ◌++◌, ◌==◌,
  if◌then◌else◌, Result, ok, err, Exec, continue, ◌>>=◌, ◌>>◌, pure, lift,
}
use dappdata.Base.Assoc.{same_bytes}
use dappdata.Base.Hex.{Text, codes, strip_0x, to_lower_case, hex_of_bytes}
use dappdata.Errors.{Bytes, Failure, dapp_data_error, unsupported}
use dappdata.Funding.Abi.{
  CreateArgs, encode_allowance, encode_approve, encode_create_batch, encode_top_up,
  encode_remaining_balance, encode_last_price, batch_created_topic, batch_id_for, decode_uint,
}
use dappdata.Funding.{Payer, CreateBatch}

pub record ChainConfig : Type 0 where
  pub name : String
  pub chain_id : ℕ
  pub postage_stamp : String
  pub bzz_token : String
  pub decimals : ℕ
  pub block_seconds : ℕ

abbrev pub gnosis : ChainConfig
gnosis = record {
  name = "gnosis";
  chain_id = 100;
  postage_stamp = "0x45a1502382541Cd610CC9068e88727426b696293";
  bzz_token = "0xdBF3Ea6F5beE45c02255B2c26a16F300502F68da";
  decimals = 16;
  block_seconds = 5;
}

abbrev pub sepolia : ChainConfig
sepolia = record {
  name = "sepolia";
  chain_id = 11155111;
  postage_stamp = "0xcdfdC3752caaA826fE62531E0000C40546eC56A6";
  bzz_token = "0x543dDb01Ba47acB11de34891cD86B675F04840db";
  decimals = 16;
  block_seconds = 12;
}

abbrev pub by_chain_id : ℕ → Option ChainConfig
by_chain_id chain_id =
    if chain_id == gnosis.chain_id
    then some gnosis
    else if chain_id == sepolia.chain_id
    then some sepolia
    else none

abbrev pub custom : ChainConfig → ChainConfig
custom config = config

pub record FundingLink : Type 0 where
  pub name : String
  pub url : String
  pub what : String

abbrev pub links : List FundingLink
links =
    record {
      name = "Jumper";
      url =
          "https://jumper.exchange/?toChain=100&toToken=0xdBF3Ea6F5beE45c02255B2c26a16F300502F68da";
      what = "Bridge and swap from any chain; ends with xBZZ and xDAI on Gnosis.";
    }
    ∷ record {
      name = "Gnosis Chain bridge";
      url = "https://bridge.gnosischain.com/";
      what = "Move tokens you already hold on Ethereum to Gnosis.";
    }
    ∷ []

-- The topics of an event.
pub record Log : Type 0 where
  pub topics : List Text

-- `receipt` is none while the transaction is pending.
pub record Rpc (W : Type 0) : Type 0 where
  pub accounts : Exec W Failure (Option (List String))
  pub eth_call : String → Text → Exec W Failure Text
  pub send_transaction : String → String → Text → Exec W Failure String
  pub receipt : String → Exec W Failure (Option (List Log))
  pub random_bytes : ℕ → Exec W Failure Bytes

unfoldable pub payer_account : Option (List String) → Result Failure String
payer_account none = err (dapp_data_error unsupported)
payer_account (some []) = err (dapp_data_error unsupported)
payer_account (some (account ∷ rest)) = elim (codes account) [
  | [] ↦ err (dapp_data_error unsupported)
  | c ∷ t ↦ ok account
]

abbrev pub first_topic_is : Text → Log → Bool
first_topic_is topic log = elim log.topics [
  | [] ↦ false
  | first ∷ rest ↦ same_bytes (to_lower_case first) (to_lower_case topic)
]

abbrev pub second_topic : Log → Option Text
second_topic log = elim log.topics [
  | [] ↦ none
  | first ∷ rest ↦ elim rest [ [] ↦ none | second ∷ more ↦ some (to_lower_case (strip_0x second)) ]
]

-- The second topic of the first event `BatchCreated`.
unfoldable pub created_in : Text → List Log → Option Text
created_in topic [] = none
created_in topic (log ∷ rest) =
    if first_topic_is topic log then second_topic log else created_in topic rest

unfoldable pub ids_differ : String → String → Bool
ids_differ emitted expected =
    not (same_bytes (codes emitted) [])
    && not (same_bytes (codes emitted) (to_lower_case (codes expected)))

abbrev pub text_option : (Text → String) → Option Text → Option String
text_option text_of none = none
text_option text_of (some t) = some (text_of t)

abbrev pub text_or_none : (Text → String) → Result Failure Text → String
text_or_none text_of (ok t) = text_of t
text_or_none text_of (err e) = ""

abbrev pub both :
    {W : Type 0} → Result Failure ℕ → Result Failure ℕ × W → Result Failure (ℕ × ℕ) × W
both (err e) (b, w) = (err e, w)
both (ok a) (err e, w) = (err e, w)
both (ok a) (ok b, w) = (ok (a, b), w)

module _ {W : Type 0} (rpc : Rpc W) (chain : ChainConfig) (payer_address : Option String)
    (keccak : Bytes → Bytes) (text_of : Text → String) where
  unfoldable pub asked_account : Exec W Failure String
  unfolding payer_account
  asked_account = do accounts ← rpc.accounts; lift (payer_account accounts)

  unfoldable pub from : Exec W Failure String
  unfolding asked_account
  from = elim payer_address [
    | some account ↦ elim (codes account) [ [] ↦ asked_account | c ∷ t ↦ pure account ]
    | none ↦ asked_account
  ]

  unfoldable pub call : String → Result Failure Text → Exec W Failure ℕ
  call to request = do
    data_ ← lift request
    answer ← rpc.eth_call to data_
    lift (decode_uint answer)

  unfoldable pub send : String → Result Failure Text → Exec W Failure String
  unfolding from
  send to request = do data_ ← lift request; account ← from; rpc.send_transaction account to data_

  abbrev pub create_args : CreateBatch → CreateArgs
  create_args args = record {
    owner = codes args.owner;
    initial_balance_per_chunk = args.amount;
    depth = args.depth;
    bucket_depth = args.bucket_depth;
    nonce = codes args.nonce;
    immutable = args.immutable;
  }

  unfoldable pub receipt : String → Exec W Failure (Option (Option String))
  unfolding created_in batch_created_topic
  receipt hash = do result ← rpc.receipt hash; pure (seen result)
    where
      seen : Option (List Log) → Option (Option String)
      seen none = none
      seen (some logs) = some (text_option text_of (created_in (batch_created_topic keccak) logs))

  unfoldable pub remaining_and_price : String → Exec W Failure (ℕ × ℕ)
  unfolding call encode_remaining_balance encode_last_price
  remaining_and_price batch_id w = elim (encode_remaining_balance keccak (codes batch_id)) [
    | err e ↦ (err e, w)
    | ok data_ ↦
        let (remaining, v) = call chain.postage_stamp (ok data_) w in
        both remaining (call chain.postage_stamp (encode_last_price keccak) v)
  ]

  unfoldable pub random_nonce : Exec W Failure String
  random_nonce = do bytes ← rpc.random_bytes 32; pure (text_of (codes "0x" ++ hex_of_bytes bytes))

  -- The payer of `Funding`. Where `batch_id_for` would throw, the same address was refused before.
  abbrev pub payer_of : Payer W
  payer_of = record {
    from = from;
    allowance = λ account.
        call chain.bzz_token (encode_allowance keccak (codes account) (codes chain.postage_stamp));
    approve =
        λ total. send chain.bzz_token (encode_approve keccak (codes chain.postage_stamp) total);
    create_batch = λ args. send chain.postage_stamp (encode_create_batch keccak (create_args args));
    top_up =
        λ batch_id amount. send chain.postage_stamp (encode_top_up keccak (codes batch_id) amount);
    receipt = receipt;
    remaining_and_price = remaining_and_price;
    random_nonce = random_nonce;
    batch_id_for =
        λ account nonce. text_or_none text_of (batch_id_for keccak (codes account) (codes nonce));
    ids_differ = ids_differ;
  }
