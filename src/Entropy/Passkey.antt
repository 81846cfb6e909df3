-- ===== src/Entropy/Passkey.antt =====
-- packages/dappdata/src/entropy/passkey.ts: a secret from a passkey's PRF. The browser's API of
-- credentials, its errors and the random bytes are parameters; the salt of the PRF and what else
-- stands in a request besides the challenge are constants of it, and left out.
pub mod Secrets
use dappdata.Base.{
  ℕ, Bool, true, false, String, Option, none, some, List, length, ◌==◌, if◌then◌else◌, Result, ok,
  err, Exec, ◌>>=◌, ◌>>◌, pure, lift,
}
use dappdata.Errors.{Bytes, Failure, dapp_data_error, other_error, unsupported, bad_signature}
use dappdata.Entropy.{EntropyKind, EntropyResult, EntropySource}

-- What the API throws: a `NotAllowedError`, or another error.
pub data Denied : Type 0 where
  not_allowed : Denied
  denied : Failure → Denied

-- `enabled` and `first` are the extension's results, where it has them.
pub record Credential : Type 0 where
  pub raw_id : Bytes
  pub enabled : Option Bool
  pub first : Option Bytes

pub record GetOptions : Type 0 where
  pub challenge : Bytes
  pub rp_id : Option String

pub record CreateOptions : Type 0 where
  pub challenge : Bytes
  pub rp_name : String
  pub rp_id : Option String
  pub user_id : Bytes
  pub user_name : String

pub record CredentialsApi (W : Type 0) : Type 0 where
  pub get_credential : GetOptions → Exec W Denied (Option Credential)
  pub create_credential : CreateOptions → Exec W Denied (Option Credential)

-- `credentials` is that of the options, or else the browser's, where it has one. `random` makes some
-- bytes of the length that it is given.
pub record PasskeyOptions (W : Type 0) : Type 0 where
  pub rp_id : Option String
  pub rp_name : Option String
  pub user_name : Option String
  pub create_if_missing : Option Bool
  pub credentials : Option (CredentialsApi W)
  pub random : ℕ → Exec W Failure Bytes

abbrev pub or_text : Option String → String → String
or_text none name = name
or_text (some name') name = name'

unfoldable pub prf_output : Option Credential → Result Failure (Option Bytes)
prf_output none = ok none
prf_output (some credential) = elim credential.first [
  | none ↦ ok none
  | some bytes ↦ if length bytes == 32 then ok (some bytes) else err (dapp_data_error bad_signature)
]

unfoldable pub with_secret : Option Bytes → Result Failure (Option Bytes)
with_secret none = err (dapp_data_error unsupported)
with_secret (some secret) = ok (some secret)

module _ {W : Type 0} where
  -- The credential that the browser found, or `none` where it found none or the user cancelled.
  unfoldable pub found :
      Result Denied (Option Credential) × W → Result Failure (Option Credential) × W
  found (ok credential, w) = (ok credential, w)
  found (err not_allowed, w) = (ok none, w)
  found (err (denied e), w) = (err e, w)

  unfoldable pub secret_in : Option Credential → Exec W Failure (Option Bytes)
  unfolding with_secret prf_output
  secret_in none = pure none
  secret_in (some credential) = do
    secret ← lift (prf_output (some credential))
    lift (with_secret secret)

  unfoldable pub created : Result Denied (Option Credential) × W → Result Failure Bytes × W
  created (err not_allowed, w) = (err other_error, w)
  created (err (denied e), w) = (err e, w)
  created (ok none, w) = (err (dapp_data_error unsupported), w)
  created (ok (some credential), w) = elim credential.enabled [
    | some false ↦ (err (dapp_data_error unsupported), w)
    | _ ↦ (ok credential.raw_id, w)
  ]

  unfoldable pub used : Option Bytes → Exec W Failure Bytes
  used none = lift (err (dapp_data_error unsupported))
  used (some secret) = pure secret

module _ {W : Type 0} (o : PasskeyOptions W) where
  unfoldable pub credentials_api : Exec W Failure (CredentialsApi W)
  credentials_api w = elim o.credentials [
    | none ↦ (err (dapp_data_error unsupported), w)
    | some api ↦ (ok api, w)
  ]

  unfoldable pub get : Exec W Failure (Option Bytes)
  unfolding credentials_api found secret_in
  get = do
    api ← credentials_api
    challenge ← o.random 32
    credential ←
        λ w. found (api.get_credential (record { challenge = challenge; rp_id = o.rp_id }) w)
    secret_in credential

  unfoldable pub create : Exec W Failure Bytes
  unfolding credentials_api created
  create = do
    api ← credentials_api
    challenge ← o.random 32
    user_id ← o.random 16
    λ w. created (
        api.create_credential
          (record {
            challenge = challenge;
            rp_name = or_text o.rp_name "dappdata";
            rp_id = o.rp_id;
            user_id = user_id;
            user_name = or_text o.user_name "dappdata user";
          })
          w)

  -- A second assertion, behind the creation.
  unfoldable pub create_and_get : Exec W Failure Bytes
  unfolding get create used
  create_and_get = do raw_id ← create; secret ← get; used secret

  unfoldable pub or_create : Option Bytes → Exec W Failure Bytes
  unfolding create_and_get
  or_create (some secret) = pure secret
  or_create none = elim o.create_if_missing [
    | some false ↦ lift (err (dapp_data_error unsupported))
    | _ ↦ create_and_get
  ]

  unfoldable pub secret : String → Exec W Failure EntropyResult
  unfolding get or_create
  secret app = do
    found_secret ← get
    bytes ← or_create found_secret
    pure (record { secret = bytes; account = none; method = "webauthn-prf" })

  abbrev pub passkey_source : EntropySource W
  passkey_source = record { kind = EntropyKind.passkey; secret = secret }
