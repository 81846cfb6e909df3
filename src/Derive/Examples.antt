-- ===== src/Derive/Examples.antt =====
-- The theorems about signatures and scalars at concrete inputs: a curve of order 23 in place of
-- secp256k1's, and hashes that are easy to follow.
use dappdata.Base.{
  ℕ, zero, suc, ◌≡◌, ◌≢◌, refl, inr, String, [], ◌∷◌, ◌++◌, Result, ok, err, length,
}
use dappdata.Base.Hex.{codes}
use dappdata.Errors.{Bytes, Failure, other_error}
use dappdata.Derive.Signature.{
  SplitSignature, Signature, raw, split_signature, secret_from_signature, to32,
}
use dappdata.Derive.Signature.Canonical.{secret_from_signature_canonical}
use dappdata.Derive.Keys.{Hashes, feed_context, sub_context, enc_context}
use dappdata.Derive.Keys.Contexts.{In, contexts_apart}
use dappdata.Derive.Message.{address32, hash}
use dappdata.Derive.Message.Apart.{digits_of, struct_input_apart}

abbrev word : ℕ → Bytes → Bytes
word n rest = to32 n ++ rest

-- `r` 5 and `s` 4 with recovery byte 27, and its twin, `s` 19 with recovery byte 1.
abbrev low : Signature
low = raw (word 5 (word 4 (27 ∷ [])))

abbrev high : Signature
high = raw (word 5 (word 19 (1 ∷ [])))

abbrev low_split : SplitSignature
low_split = record { r = 5; s = 4; recovery = 0 }

abbrev high_split : SplitSignature
high_split = record { r = 5; s = 19; recovery = 1 }

abbrev of_hex : String → Result Failure Bytes
of_hex text = err other_error

abbrev recover : Bytes → SplitSignature → Result Failure String
recover digest sig = ok "0xa"

low_split_run : split_signature 23 of_hex low ≡ ok low_split
unfolding split_signature to32
low_split_run = refl

high_split_run : split_signature 23 of_hex high ≡ ok high_split
unfolding split_signature to32
high_split_run = refl

abbrev secret : Bytes
secret = word 5 (word 4 [])

low_run : secret_from_signature 23 (λ b. b) recover (λ s. s) of_hex low [] "0xa" ≡ ok secret
unfolding secret_from_signature to32
low_run = refl

high_run : secret_from_signature 23 (λ b. b) recover (λ s. s) of_hex high [] "0xa" ≡ ok secret
unfolding secret_from_signature to32
high_run = refl

secret_from_signature_canonical_example : secret ≡ secret
secret_from_signature_canonical_example =
    secret_from_signature_canonical 23 (λ b. b) recover (λ s. s) of_hex low high low_split
      high_split [] "0xa" secret secret refl low_split_run high_split_run refl (inr refl) low_run
      high_run

abbrev pad : ℕ → Bytes → Bytes
pad zero b = b
pad (suc n) b = 0 ∷ pad n b

abbrev key_hashes : Hashes
key_hashes = record {
  order = 23;
  hmac_sha256 = λ key b. b;
  utf8 = λ t. t;
  keccak = λ b. b;
  public_key = λ key. key;
  decimal = λ n. codes "1";
}

contexts_apart_example :
    (In key_hashes feed_context 0 ≢ In key_hashes (sub_context ++ codes "chat") 1)
    × (In key_hashes (sub_context ++ codes "chat") 1 ≢ enc_context)
    × (In key_hashes feed_context 0 ≢ enc_context)
contexts_apart_example = contexts_apart key_hashes (codes "chat") 0 1

-- The same account in two spellings.
abbrev lower_account : String
lower_account = "0x00000000000000000000000000000000000000a1"

abbrev upper_account : String
upper_account = "0x00000000000000000000000000000000000000A1"

abbrev address : Bytes
address = pad 31 (161 ∷ [])

abbrev a_hash : Bytes → Bytes
a_hash b = pad 31 (length b ∷ [])

struct_input_apart_example :
    (digits_of lower_account ≡ digits_of upper_account)
    × (hash a_hash (λ t. t) (codes "app") ≡ hash a_hash (λ t. t) (codes "app"))
unfolding address32 hash
struct_input_apart_example =
    struct_input_apart a_hash (λ t. t) lower_account upper_account "app" "app" address address
      (λ b. refl) refl refl refl
