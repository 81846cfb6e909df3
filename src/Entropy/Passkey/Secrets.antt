-- ===== src/Entropy/Passkey/Secrets.antt =====
-- What the passkey source of packages/dappdata/src/entropy/passkey.ts returns, and when it creates.
use dappdata.Base.{
  ◌≡◌, refl, sym, ap, true, false, Bool-cases, Option-cases, inl, inr, String, Option, none, some,
  length, ◌==◌, ==_iff, Result, ok, Exec, ◌>>=◌, lift, pure, >>=-eq-ok,
}
use mathlib.Core.Path.{fun_ext}
use dappdata.Errors.{Bytes, Failure}
use dappdata.Entropy.{EntropyResult}
use dappdata.Entropy.Passkey.{
  Denied, Credential, CredentialsApi, CreateOptions, PasskeyOptions, prf_output, found, with_secret,
  secret_in, credentials_api, get, create, used, create_and_get, or_create, secret,
}

abbrev create_with :
    {W : Type 0}
    → (CreateOptions → Exec W Denied (Option Credential))
    → CredentialsApi W
    → CredentialsApi W
create_with c api = record api { create_credential = c }

abbrev option_map : {A B : Type 0} → (A → B) → Option A → Option B
option_map f none = none
option_map f (some a) = some (f a)

-- The same options, in a browser that creates credentials in another way.
abbrev pub creating :
    {W : Type 0}
    → (CreateOptions → Exec W Denied (Option Credential))
    → PasskeyOptions W
    → PasskeyOptions W
creating c o = record o { credentials = option_map (create_with c) o.credentials }

length-prf_output : (c : Option Credential) (s : Bytes) → prf_output c ≡ ok (some s) → length s ≡ 32
unfolding prf_output
length-prf_output none s h = absurd (cc)
length-prf_output (some c) s h = elim (Option-cases c.first) [
  | inl e ↦ absurd (let k = (rw e at h) in cc)
  | inr (bytes, e) ↦ elim (Bool-cases (length bytes == 32)) [
    | inl t ↦
        let k = (rw (e, t) at h) in
        let same : bytes ≡ s = cc in rw (sym same) ((==_iff (length bytes) 32).0 t)
    | inr t ↦ absurd (let k = (rw (e, t) at h) in cc)
  ]
]

module _ {W : Type 0} where
  length-secret_in :
      (c : Option Credential) (w w' : W) (s : Bytes)
      → secret_in c w ≡ (ok (some s), w')
      → length s ≡ 32
  unfolding secret_in with_secret ◌>>=◌
  length-secret_in none w w' s h = absurd (cc)
  length-secret_in (some c) w w' s h =
      let (found_secret, v, a, b) =
        >>=-eq-ok (lift (prf_output (some c))) (λ x. lift (with_secret x)) w h in
      last found_secret (ap (λ (x : Result Failure (Option Bytes) × W). x.0) a)
        (ap (λ (x : Result Failure (Option Bytes) × W). x.0) b)
    where
      last :
          (x : Option Bytes)
          → prf_output (some c) ≡ ok x
          → with_secret x ≡ ok (some s)
          → length s ≡ 32
      last none p q = absurd (cc)
      last (some bytes) p q =
          length-prf_output (some c) s (let same : bytes ≡ s = cc in (rw (sym same) p))

module _ {W : Type 0} (o : PasskeyOptions W) where
  length-get : (w w' : W) (s : Bytes) → get o w ≡ (ok (some s), w') → length s ≡ 32
  unfolding get
  length-get w w' s h =
      let (api, v, a, b) =
        >>=-eq-ok (credentials_api o)
          (λ api. o.random 32 >>= (λ challenge.
            (λ u. found (api.get_credential (record { challenge = challenge; rp_id = o.rp_id }) u))
            >>= secret_in))
          w h in
      let (challenge, v', a', b') =
        >>=-eq-ok (o.random 32)
          (λ challenge.
            (λ u. found (api.get_credential (record { challenge = challenge; rp_id = o.rp_id }) u))
            >>= secret_in)
          v b in
      let (credential, v'', a'', b'') =
        >>=-eq-ok
          (λ u. found (api.get_credential (record { challenge = challenge; rp_id = o.rp_id }) u))
          secret_in v' b' in
      length-secret_in credential v'' w' s b''

  length-used :
      (x : Option Bytes) (v w w' : W) (s : Bytes)
      → get o v ≡ (ok x, w)
      → used x w ≡ (ok s, w')
      → length s ≡ 32
  unfolding used ◌>>=◌
  length-used none v w w' s g h = absurd (cc)
  length-used (some bytes) v w w' s g h =
      let same : bytes ≡ s = cc in length-get v w s (rw (sym same) g)

  length-create_and_get : (w w' : W) (s : Bytes) → create_and_get o w ≡ (ok s, w') → length s ≡ 32
  unfolding create_and_get
  length-create_and_get w w' s h =
      let (raw_id, v, a, b) = >>=-eq-ok (create o) (λ raw_id. get o >>= used) w h in
      let (x, v', a', b') = >>=-eq-ok (get o) used v b in length-used x v v' w' s a' b'

  length-or_create :
      (x : Option Bytes) (v w w' : W) (s : Bytes)
      → get o v ≡ (ok x, w)
      → or_create o x w ≡ (ok s, w')
      → length s ≡ 32
  unfolding or_create ◌>>=◌
  length-or_create (some bytes) v w w' s g h =
      let same : bytes ≡ s = cc in length-get v w s (rw (sym same) g)
  length-or_create none v w w' s g h = elim (Option-cases o.create_if_missing) [
    | inl e ↦ length-create_and_get w w' s (rw e at h)
    | inr (true, e) ↦ length-create_and_get w w' s (rw e at h)
    | inr (false, e) ↦ absurd (let k = (rw e at h) in cc)
  ]

  abbrev result_of : Bytes → EntropyResult
  result_of bytes = record { secret = bytes; account = none; method = "webauthn-prf" }

  result_of-secret :
      (bytes : Bytes) (v w' : W) (result : EntropyResult)
      → ◌≡◌ {A = Result Failure EntropyResult × W} (pure (result_of bytes) v) (ok result, w')
      → bytes ≡ result.secret
  unfolding pure
  result_of-secret bytes v w' result h = cc

  -- A secret that a passkey gives is 32 bytes long, whether the passkey was found or created.
  pub length-secret :
      (app : String) (w w' : W) (result : EntropyResult)
      → secret o app w ≡ (ok result, w')
      → length result.secret ≡ 32
  unfolding secret
  length-secret app w w' result h =
      let (x, v, a, b) =
        >>=-eq-ok (get o) (λ x. or_create o x >>= (λ bytes. pure (result_of bytes))) w h in
      let (bytes, v', a', b') = >>=-eq-ok (or_create o x) (λ bytes. pure (result_of bytes)) v b in
      let same = result_of-secret bytes v' w' result b' in
      length-or_create x w v v' result.secret a (rw (sym same) a')

  get-creating :
      (c : CreateOptions → Exec W Denied (Option Credential)) (w : W)
      → get (creating c o) w ≡ get o w
  unfolding get credentials_api ◌>>=◌
  get-creating c w = elim (Option-cases o.credentials) [
    | inl e ↦ rw e refl
    | inr (api, e) ↦ rw e refl
  ]

  or_create-creating :
      (c : CreateOptions → Exec W Denied (Option Credential)) (x : Option Bytes)
      → o.create_if_missing ≡ some false
      → or_create (creating c o) x ≡ or_create o x
  unfolding or_create
  or_create-creating c none h = rw h refl
  or_create-creating c (some bytes) h = refl

  -- A source that may not create passkeys never does: what the browser does when it is asked to
  -- create one makes no difference to what the source returns, or to the world.
  pub secret-creating :
      (c : CreateOptions → Exec W Denied (Option Credential)) (app : String) (w : W)
      → o.create_if_missing ≡ some false
      → secret (creating c o) app w ≡ secret o app w
  unfolding secret ◌>>=◌
  secret-creating c app w h = rw (get-creating c w, fun_ext (λ x. or_create-creating c x h)) refl
