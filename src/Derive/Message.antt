-- ===== src/Derive/Message.antt =====
-- packages/dappdata/src/derive/message.ts: the message that the user signs, and what it hashes to. A
-- text is the list of its codes. Keccak, `utf8.encode`, the decimal digits of a number and
-- `JSON.stringify` are parameters.
pub mod Apart
use dappdata.Base.{
  ℕ, zero, suc, Bool, true, false, ◌&&◌, String, List, [], ◌∷◌, ◌++◌, ◌==◌, if◌then◌else◌, Result,
  ok, err, length,
}
use dappdata.Base.Hex.{Text, codes, to_lower_case, strip_0x, zeros, all_hex, hex_to_bytes}
use dappdata.Errors.{Bytes, Failure, other_error}

abbrev pub domain_name : Text
domain_name = codes "dappdata"

abbrev pub domain_version : Text
domain_version = codes "1"

abbrev pub purpose : Text
purpose = codes "Derive dappdata storage key"

abbrev pub scope : Text
scope = codes "v1"

abbrev pub domain_type : Text
domain_type = codes "EIP712Domain(string name,string version)"

abbrev pub struct_type : Text
struct_type = codes "DappDataKey(string purpose,address account,string app,string scope)"

pub record Field : Type 0 where
  pub name : Text
  pub kind : Text

pub record KeyMessage : Type 0 where
  pub purpose : Text
  pub account : String
  pub app : String
  pub scope : Text

-- `domain_fields` is the type `EIP712Domain`, which the JSON lists too.
pub record TypedData : Type 0 where
  pub domain_name : Text
  pub domain_version : Text
  pub domain_fields : List Field
  pub key_fields : List Field
  pub primary_type : Text
  pub message : KeyMessage

abbrev pub field : String → String → Field
field name kind = record { name = codes name; kind = codes kind }

unfoldable pub typed_data : String → String → TypedData
typed_data account app = record {
  domain_name = domain_name;
  domain_version = domain_version;
  domain_fields = [];
  key_fields =
      field "purpose" "string"
      ∷ field "account" "address"
      ∷ field "app" "string"
      ∷ field "scope" "string"
      ∷ [];
  primary_type = codes "DappDataKey";
  message = record { purpose = purpose; account = account; app = app; scope = scope };
}

unfoldable pub typed_data_v4_json : (TypedData → String) → String → String → String
unfolding typed_data
typed_data_v4_json stringify account app = stringify (record (typed_data account app) {
  domain_fields = field "name" "string" ∷ field "version" "string" ∷ [];
})

abbrev pub newline : Text
newline = 10 ∷ []

unfoldable pub fallback_text : String → String → Text
fallback_text account app =
    codes "dappdata v"
    ++ (domain_version
        ++ (newline
            ++ (codes "purpose: "
                ++ (purpose
                    ++ (newline
                        ++ (codes "account: "
                            ++ (to_lower_case (codes account)
                                ++ (newline
                                    ++ (codes "app: "
                                        ++ (codes app
                                            ++ (newline ++ (codes "scope: " ++ scope))))))))))))

abbrev pub zero_bytes : ℕ → Bytes
zero_bytes zero = []
zero_bytes (suc n) = 0 ∷ zero_bytes n

-- Twelve zero bytes, and the twenty of the address.
unfoldable pub address32 : String → Result Failure Bytes
unfolding hex_to_bytes
address32 account =
    let digits = strip_0x (to_lower_case (codes account)) in
    if length digits == 40 && all_hex digits
    then ok (zero_bytes 12 ++ hex_to_bytes digits)
    else err other_error

module _ (keccak : Bytes → Bytes) (utf8 : Text → Bytes) where
  unfoldable pub hash : Text → Bytes
  hash t = keccak (utf8 t)

  unfoldable pub domain_input : Bytes
  unfolding hash
  domain_input = hash domain_type ++ (hash domain_name ++ hash domain_version)

  -- What the struct's hash is made of, with the address in 32 bytes.
  unfoldable pub struct_input : Bytes → String → Bytes
  unfolding hash
  struct_input address app =
      hash struct_type ++ (hash purpose ++ (address ++ (hash (codes app) ++ hash scope)))

  unfoldable pub digest_of : String → Result Failure Bytes → Result Failure Bytes
  unfolding domain_input struct_input
  digest_of app (err e) = err e
  digest_of app (ok address) =
      ok (keccak (25 ∷ 1 ∷ keccak domain_input ++ keccak (struct_input address app)))

  unfoldable pub typed_data_digest : String → String → Result Failure Bytes
  unfolding digest_of address32
  typed_data_digest account app = digest_of app (address32 account)

  unfoldable pub fallback_digest : (ℕ → Text) → String → String → Bytes
  unfolding fallback_text
  fallback_digest decimal account app =
      let body = utf8 (fallback_text account app) in
      keccak
        (utf8 (25 ∷ codes "Ethereum Signed Message:" ++ newline ++ decimal (length body)) ++ body)
