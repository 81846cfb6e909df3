-- ===== src/Entropy/Wallet.antt =====
-- packages/dappdata/src/entropy/wallet.ts: a secret from a wallet's signature. The hashes and the curve
-- are parameters, as in derive/; a `TextEncoder` is one too.
pub mod Signed
use dappdata.Base.{
  ℕ, Bool, true, false, ◌||◌, ◌&&◌, not, String, Option, none, some, List, [], ◌∷◌, ◌++◌, ◌==◌,
  if◌then◌else◌, Result, ok, err, Exec, ◌>>=◌, ◌>>◌, pure, lift,
}
use dappdata.Base.Hex.{Text, codes, to_lower_case, hex_of_bytes}
use dappdata.Errors.{Bytes, Failure, dapp_data_error, other_error, unsupported}
use dappdata.Transport.Missing.{contains, or_empty}
use dappdata.Derive.Message.{
  TypedData, typed_data_v4_json, typed_data_digest, fallback_text, fallback_digest,
}
use dappdata.Derive.Signature.{Signature, SplitSignature, secret_from_signature}
use dappdata.Entropy.{EntropyKind, EntropyResult, EntropySource, ErrorNumber, RpcError, Provider}
use dappdata.Entropy.Account.{assert_signing_account}

pub record WalletOptions : Type 0 where
  pub account : Option String
  pub skip_account_check : Bool
  pub personal_sign_fallback : Bool

pub record Tools : Type 0 where
  pub order : ℕ
  pub keccak : Bytes → Bytes
  pub utf8 : Text → Bytes
  pub decimal : ℕ → Text
  pub stringify : TypedData → String
  pub recover_address : Bytes → SplitSignature → Result Failure String
  pub lower_case : String → String
  pub of_hex : String → Result Failure Bytes

-- What the block of `try` throws: the wallet's error, or one of the SDK's own.
pub data Thrown : Type 0 where
  by_wallet : RpcError → Thrown
  by_sdk : Failure → Thrown

-- `code === 4200 || code === -32601`
abbrev pub no_such_method : Option ErrorNumber → Bool
no_such_method none = false
no_such_method (some code) =
    not code.negative && code.size == 4200 || code.negative && code.size == 32601

unfoldable pub is_method_missing : RpcError → Bool
is_method_missing e =
    let message = to_lower_case (or_empty e.message) in
    no_such_method e.code
    || contains (codes "not supported") message
    || contains (codes "not found") message
    || contains (codes "unsupported method") message
    || contains (codes "unknown method") message

-- No message of the SDK's own errors names a method.
unfoldable pub is_missing : Thrown → Bool
unfolding is_method_missing
is_missing (by_wallet e) = is_method_missing e
is_missing (by_sdk e) = false

abbrev pub thrown_on : Thrown → Failure
thrown_on (by_wallet e) = other_error
thrown_on (by_sdk e) = e

abbrev pub by_rpc : {W A : Type 0} → Result RpcError A × W → Result Failure A × W
by_rpc (ok a, w) = (ok a, w)
by_rpc (err e, w) = (err other_error, w)

-- `"0x"` and the bytes of a text.
unfoldable pub hex_of_text : (Text → Bytes) → Text → Text
hex_of_text utf8 text = codes "0x" ++ hex_of_bytes (utf8 text)

-- An account that is empty text counts as none.
unfoldable pub first_of : Option (List String) → Result Failure String
first_of none = err (dapp_data_error unsupported)
first_of (some []) = err (dapp_data_error unsupported)
first_of (some (account ∷ rest)) = elim (codes account) [
  | [] ↦ err (dapp_data_error unsupported)
  | c ∷ t ↦ ok account
]

module _ {W : Type 0} (t : Tools) (provider : Provider W) (o : WalletOptions) where
  unfoldable pub first_account : Exec W Failure String
  unfolding first_of
  first_account = do accounts ← λ w. by_rpc (provider.request_accounts w); lift (first_of accounts)

  unfoldable pub chosen_account : Option String → Exec W Failure String
  unfolding first_account
  chosen_account none = first_account
  chosen_account (some account) = pure account

  unfoldable pub check_account : String → Exec W Failure (Unit {0})
  unfolding assert_signing_account
  check_account account =
      if o.skip_account_check then pure tt else assert_signing_account provider account

  unfoldable pub secret_with : Signature → Result Failure Bytes → String → Result Failure Bytes
  unfolding secret_from_signature
  secret_with signature (err e) account = err e
  secret_with signature (ok digest) account =
      secret_from_signature t.order t.keccak t.recover_address t.lower_case t.of_hex signature
        digest account

  unfoldable pub as_result : String → String → Result Failure Bytes → Result Failure EntropyResult
  as_result account method (err e) = err e
  as_result account method (ok bytes) =
      ok (record { secret = bytes; account = some account; method = method })

  unfoldable pub in_try : Result Failure EntropyResult → Result Thrown EntropyResult
  in_try (ok result) = ok result
  in_try (err e) = err (by_sdk e)

  -- What the block of `try` makes of the wallet's answer.
  unfoldable pub typed_result :
      String → String → Result RpcError Signature × W → Result Thrown EntropyResult × W
  unfolding as_result secret_with in_try
  typed_result app account (err e, w) = (err (by_wallet e), w)
  typed_result app account (ok signature, w) = (
    in_try (
        as_result account "eth_signTypedData_v4"
          (secret_with signature (typed_data_digest t.keccak t.utf8 account app) account)),
    w,
  )

  unfoldable pub try_typed : String → String → Exec W Thrown EntropyResult
  unfolding typed_result
  try_typed app account w =
      typed_result app account
        (provider.sign_typed_data account (typed_data_v4_json t.stringify account app) w)

  unfoldable pub personal : String → String → Exec W Failure EntropyResult
  unfolding as_result secret_with hex_of_text
  personal app account = do
    signature ← λ w.
        by_rpc (provider.personal_sign (hex_of_text t.utf8 (fallback_text account app)) account w)
    lift (
        as_result account "personal_sign" (
          secret_with signature (ok (fallback_digest t.keccak t.utf8 t.decimal account app))
            account))

  -- The block of `catch`, and what follows it.
  unfoldable pub after_try :
      String → String → Result Thrown EntropyResult × W → Result Failure EntropyResult × W
  unfolding personal is_missing
  after_try app account (ok result, w) = (ok result, w)
  after_try app account (err e, w) =
      if is_missing e
      then if o.personal_sign_fallback
        then personal app account w
        else (err (dapp_data_error unsupported), w)
      else (err (thrown_on e), w)

  unfoldable pub secret : String → Exec W Failure EntropyResult
  unfolding chosen_account check_account after_try try_typed
  secret app = do
    account ← chosen_account o.account
    check_account account
    λ w. after_try app account (try_typed app account w)

  abbrev pub wallet_source : EntropySource W
  wallet_source = record { kind = EntropyKind.wallet; secret = secret }
