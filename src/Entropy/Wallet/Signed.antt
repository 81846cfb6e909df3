-- ===== src/Entropy/Wallet/Signed.antt =====
-- What the wallet's source of packages/dappdata/src/entropy/wallet.ts returns.
use dappdata.Base.{
  ◌≡◌, refl, ap, true, Bool-cases, ◌⊎◌, inl, inr, String, some, Result, ok, err, ◌>>=◌, lift,
  >>=-eq-ok,
}
use dappdata.Errors.{Bytes, Failure}
use dappdata.Derive.Message.{typed_data_digest, fallback_text, fallback_digest}
use dappdata.Derive.Signature.{Signature}
use dappdata.Derive.Signature.Canonical.{Checked, secret_from_signature-Checked}
use dappdata.Entropy.{EntropyResult, RpcError, Provider}
use dappdata.Entropy.Wallet.{
  WalletOptions, Tools, Thrown, by_rpc, is_missing, secret_with, as_result, in_try, typed_result,
  try_typed, personal, hex_of_text, chosen_account, check_account, after_try, secret,
}

module _ (t : Tools) where
  -- A signature of the digest by the account, which made the secret.
  abbrev pub IsSecret : Bytes → String → Bytes → Type 0
  IsSecret digest account bytes =
      (signature : Signature) × Checked t.order t.keccak t.recover_address t.lower_case t.of_hex
        signature digest account bytes

  -- The secret is of the typed data; or of the fallback's text, and the dapp opted in.
  abbrev pub IsSigned : WalletOptions → String → String → EntropyResult → Type 0
  IsSigned o app account result =
      ((digest : Bytes) × (typed_data_digest t.keccak t.utf8 account app ≡ ok digest)
        × (result.method ≡ "eth_signTypedData_v4")
        × IsSecret digest account result.secret)
      ⊎ ((o.personal_sign_fallback ≡ true)
          × (result.method ≡ "personal_sign")
          × IsSecret (fallback_digest t.keccak t.utf8 t.decimal account app) account result.secret)

module _ {W : Type 0} (t : Tools) (provider : Provider W) (o : WalletOptions) where
  made :
      (signature : Signature) (d : Result Failure Bytes) (account method : String)
      (result : EntropyResult)
      → as_result t provider o account method (secret_with t provider o signature d account)
        ≡ ok result
      → (digest : Bytes) × (d ≡ ok digest)
        × (result.account ≡ some account)
        × (result.method ≡ method)
        × IsSecret t digest account result.secret
  unfolding as_result secret_with
  made signature (err e) account method result h = absurd (cc)
  made signature (ok digest) account method result h =
      split (secret_with t provider o signature (ok digest) account) refl h
    where
      split :
          (r : Result Failure Bytes)
          → secret_with t provider o signature (ok digest) account ≡ r
          → as_result t provider o account method r ≡ ok result
          → (d' : Bytes) × (◌≡◌ {A = Result Failure Bytes} (ok digest) (ok d'))
            × (result.account ≡ some account)
            × (result.method ≡ method)
            × IsSecret t d' account result.secret
      split (err e) q k = absurd (cc)
      split (ok bytes) q k =
          let same : result.secret ≡ bytes = cc in
          (
            digest,
            refl,
            cc,
            cc,
            (
              signature,
              secret_from_signature-Checked t.order t.keccak t.recover_address t.lower_case t.of_hex
                  signature digest account result.secret (rw same q),
            ),
          )

  in_try-ok :
      (r : Result Failure EntropyResult) (result : EntropyResult)
      → in_try t provider o r ≡ ok result
      → r ≡ ok result
  unfolding in_try
  in_try-ok (ok a) result h = cc
  in_try-ok (err e) result h = absurd (cc)

  typed :
      (app account : String) (a : Result RpcError Signature × W) (result : EntropyResult) (w' : W)
      → typed_result t provider o app account a ≡ (ok result, w')
      → (result.account ≡ some account) × IsSigned t o app account result
  unfolding typed_result in_try
  typed app account (err e, w) result w' h = absurd (cc)
  typed app account (ok signature, w) result w' h =
      let (digest, d, acc, m, is) =
        made signature (typed_data_digest t.keccak t.utf8 account app) account
          "eth_signTypedData_v4" result
          (in_try-ok _ result (ap (λ (x : Result Thrown EntropyResult × W). x.0) h)) in
      (acc, inl (digest, d, m, is))

  by_hand :
      (app account : String) (w w' : W) (result : EntropyResult)
      → o.personal_sign_fallback ≡ true
      → personal t provider o app account w ≡ (ok result, w')
      → (result.account ≡ some account) × IsSigned t o app account result
  unfolding personal lift
  by_hand app account w w' result on h =
      let (signature, v, a, b) =
        >>=-eq-ok
          (λ (u : W).
            by_rpc
              (provider.personal_sign (hex_of_text t.utf8 (fallback_text account app)) account u))
          (λ signature. lift (
            as_result t provider o account "personal_sign" (
              secret_with t provider o signature
                (ok (fallback_digest t.keccak t.utf8 t.decimal account app)) account)))
          w h in
      let (digest, d, acc, m, is) =
        made signature (ok (fallback_digest t.keccak t.utf8 t.decimal account app)) account
          "personal_sign" result (ap (λ (x : Result Failure EntropyResult × W). x.0) b) in
      let same : fallback_digest t.keccak t.utf8 t.decimal account app ≡ digest = cc in
      (acc, inr (on, m, rw same is))

  tried :
      (app account : String) (a : Result Thrown EntropyResult × W) (result : EntropyResult) (w' : W)
      → ((a' : W)
          → a ≡ (ok result, a')
          → (result.account ≡ some account) × IsSigned t o app account result)
      → after_try t provider o app account a ≡ (ok result, w')
      → (result.account ≡ some account) × IsSigned t o app account result
  unfolding after_try
  tried app account (ok r, w) result w' k h = k w (cc)
  tried app account (err e, w) result w' k h = elim (Bool-cases (is_missing e)) [
    | inl m ↦ elim (Bool-cases o.personal_sign_fallback) [
      | inl on ↦ by_hand app account w w' result on (rw (m, on) at h)
      | inr off ↦ absurd (let e' = (rw (m, off) at h) in cc)
    ]
    | inr m ↦ absurd (let e' = (rw m at h) in cc)
  ]

  -- If the source returns a secret, then it names the account, and the secret was made from a
  -- signature that recovers to that account: of the typed data of the account and the app, or, only
  -- where the dapp opted in to it, of the fallback's text.
  pub secret-Signed :
      (app : String) (w w' : W) (result : EntropyResult)
      → secret t provider o app w ≡ (ok result, w')
      → (account : String) × (result.account ≡ some account) × IsSigned t o app account result
  unfolding secret
  secret-Signed app w w' result h =
      let (account, v, a, b) =
        >>=-eq-ok (chosen_account t provider o o.account)
          (λ account. check_account t provider o account >>= (λ u.
            (λ x. after_try t provider o app account (try_typed t provider o app account x))))
          w h in
      let (u, x, c, d) =
        >>=-eq-ok (check_account t provider o account)
          (λ u. (λ x. after_try t provider o app account (try_typed t provider o app account x))) v
          b in
      let (acc, signed) =
        tried app account (try_typed t provider o app account x) result w'
          (λ a' e. typed app account _ result a' e) d in
      (account, acc, signed)
