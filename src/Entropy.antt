-- ===== src/Entropy.antt =====
-- packages/dappdata/src/entropy/types.ts: where the secret of a folder comes from. A call runs in a
-- world `W`. A wallet is asked through one function for each method of the provider.
pub mod Account
pub mod Wallet
pub mod Passkey
pub mod Mnemonic
mod Examples
use dappdata.Base.{ℕ, Bool, String, Option, List, Exec}
use dappdata.Base.Hex.{Text}
use dappdata.Errors.{Bytes, Failure}
use dappdata.Derive.Signature.{Signature}

pub data EntropyKind : Type 0 where
  wallet mnemonic passkey : EntropyKind

pub record EntropyResult : Type 0 where
  pub secret : Bytes
  pub account : Option String
  pub method : String

-- `secret` takes the app's identity.
pub record EntropySource (W : Type 0) : Type 0 where
  pub kind : EntropyKind
  pub secret : String → Exec W Failure EntropyResult

-- The whole number `code` of an error, which may be negative.
pub record ErrorNumber : Type 0 where
  pub negative : Bool
  pub size : ℕ

-- What a provider's request throws.
pub record RpcError : Type 0 where
  pub code : Option ErrorNumber
  pub message : Option Text

-- `request_accounts` is `none` where the answer is `null`. `sign_typed_data` takes the account and
-- the JSON, and `personal_sign` the text in hexadecimal and the account.
pub record Provider (W : Type 0) : Type 0 where
  pub request_accounts : Exec W RpcError (Option (List String))
  pub get_code : String → Exec W RpcError (Option Text)
  pub sign_typed_data : String → String → Exec W RpcError Signature
  pub personal_sign : Text → String → Exec W RpcError Signature
