-- ===== src/Entropy/Examples.antt =====
-- The theorems about the sources of entropy at concrete inputs: hashes that are easy to follow, a
-- wallet with one account, and an authenticator with one passkey.
use dappdata.Base.{
  ℕ, ◌≡◌, ◌↔◌, refl, zero, suc, true, false, String, Option, none, some, [], ◌∷◌, ◌++◌, Result, ok,
  err, ◌>>=◌, length,
}
use dappdata.Base.Hex.{Text, codes}
use dappdata.Errors.{Bytes, other_error}
use dappdata.Derive.Message.{typed_data_digest}
use dappdata.Derive.Signature.{Signature, raw, to32}
use dappdata.Entropy.{EntropyResult, Provider}
use dappdata.Entropy.Account.{assert_signing_account}
use dappdata.Entropy.Account.Code.{SignsItself, assert_signing_account_iff}
use dappdata.Entropy.Wallet.{WalletOptions, Tools}
use dappdata.Entropy.Wallet as Wallet
use dappdata.Entropy.Wallet.Signed.{IsSigned, secret-Signed}
use dappdata.Entropy.Passkey.{
  Denied, Credential, CredentialsApi, CreateOptions, PasskeyOptions, denied,
}
use dappdata.Entropy.Passkey as Passkey
use dappdata.Entropy.Passkey.Secrets.{creating, length-secret, secret-creating}

abbrev account : String
account = "0x00000000000000000000000000000000000000a1"

-- `r` 5 and `s` 4 on a curve of order 23, with recovery byte 27.
abbrev signature : Signature
signature = raw (to32 5 ++ (to32 4 ++ 27 ∷ []))

abbrev tools : Tools
tools = record {
  order = 23;
  keccak = λ b. 7 ∷ [];
  utf8 = λ t. t;
  decimal = λ n. codes "1";
  stringify = λ typed. "{}";
  recover_address = λ digest sig. ok account;
  lower_case = λ s. s;
  of_hex = λ s. err other_error;
}

abbrev provider : Provider Unit
provider = record {
  request_accounts = λ w. (ok (some (account ∷ [])), w);
  get_code = λ a w. (ok (some (codes "0x")), w);
  sign_typed_data = λ a json w. (ok signature, w);
  personal_sign = λ text a w. (ok signature, w);
}

abbrev wallet_options : WalletOptions
wallet_options = record {
  account = none;
  skip_account_check = false;
  personal_sign_fallback = false;
}

assert_signing_account_iff_example :
    (assert_signing_account provider account tt ≡ (ok tt, tt))
    ↔ ((code : Option Text) × (provider.get_code account tt ≡ (ok code, tt)) × SignsItself code)
assert_signing_account_iff_example = assert_signing_account_iff provider account tt tt

abbrev wallet_result : EntropyResult
wallet_result = record { secret = 7 ∷ []; account = some account; method = "eth_signTypedData_v4" }

wallet_run : Wallet.secret tools provider wallet_options "app" tt ≡ (ok wallet_result, tt)
unfolding Wallet.secret ◌>>=◌ typed_data_digest to32
wallet_run = refl

secret-Signed_example :
    (signer : String) × (wallet_result.account ≡ some signer)
    × IsSigned tools wallet_options "app" signer wallet_result
secret-Signed_example =
    secret-Signed tools provider wallet_options "app" tt tt wallet_result wallet_run

abbrev secret : Bytes
secret = zeros 32
  where
    zeros : ℕ → Bytes
    zeros zero = []
    zeros (suc n) = 0 ∷ zeros n

abbrev the_credential : Credential
the_credential = record { raw_id = 1 ∷ []; enabled = some true; first = some secret }

abbrev authenticator : CredentialsApi Unit
authenticator = record {
  get_credential = λ options w. (ok (some the_credential), w);
  create_credential = λ options w. (ok none, w);
}

abbrev passkey_options : PasskeyOptions Unit
passkey_options = record {
  rp_id = none;
  rp_name = none;
  user_name = none;
  create_if_missing = some false;
  credentials = some authenticator;
  random = λ n w. (ok [], w);
}

passkey_run :
    Passkey.secret passkey_options "app" tt
    ≡ (ok (record { secret = secret; account = none; method = "webauthn-prf" }), tt)
unfolding Passkey.secret ◌>>=◌
passkey_run = refl

length-secret_example : length secret ≡ 32
length-secret_example =
    length-secret passkey_options "app" tt tt
      (record { secret = secret; account = none; method = "webauthn-prf" }) passkey_run

abbrev failing : CreateOptions → Unit {0} → Result Denied (Option Credential) × Unit {0}
failing options w = (err (denied other_error), w)

secret-creating_example :
    Passkey.secret (creating failing passkey_options) "app" tt
    ≡ Passkey.secret passkey_options "app" tt
secret-creating_example = secret-creating passkey_options failing "app" tt refl
