-- ===== src/Entropy/Account/Code.antt =====
-- Which code an account may have, in packages/dappdata/src/siwe/account.ts.
use dappdata.Base.{
  ◌≡◌, refl, ap, true, Bool-cases, ◌↔◌, ◌⊎◌, inl, inr, String, Option, [], ◌∷◌, ◌++◌, arith, ◌==◌,
  ==_iff, Result, ok, err, length,
}
use dappdata.Base.Hex.{Text, codes, strip_0x, to_lower_case, zeros}
use dappdata.Transport.Missing.{starts_with}
use dappdata.Transport.Missing.Patterns.{||_iff, &&_iff, starts_with-Front, Front-starts_with}
use dappdata.Entropy.{Provider, RpcError}
use dappdata.Entropy.Account.{
  or_0x, all_zeros, has_no_code, is_delegation, signs_itself, checked_code, assert_signing_account,
}

-- The digits of a code, in lower case.
abbrev pub plain : Option Text → Text
plain code = to_lower_case (strip_0x (or_0x code))

-- No code but zeros, or the designator of a delegation: `ef0100`, and the 40 digits of an address.
abbrev pub SignsItself : Option Text → Type 0
SignsItself code =
    (plain code ≡ zeros (length (plain code)))
    ⊎ ((address : Text) × (length address ≡ 40) × (plain code ≡ codes "ef0100" ++ address))

all_zeros_iff : (t : Text) → (all_zeros t ≡ true) ↔ (t ≡ zeros (length t))
all_zeros_iff [] = (λ e. refl, λ e. refl)
all_zeros_iff (c ∷ t) = (
  λ e.
      let here : (c == 48) ≡ true = ground (arith, e) in
      let rest : all_zeros t ≡ true = ground (arith, e) in
      let same = (==_iff c 48).0 here in let tail = (all_zeros_iff t).0 rest in cc,
  λ e.
      let same : c ≡ 48 = cc in
      let tail : t ≡ zeros (length t) = cc in
      let rest = (all_zeros_iff t).1 tail in rw (same, rest) refl,
)

delegation_iff :
    (t : Text)
    → (is_delegation t ≡ true)
      ↔ ((address : Text) × (length address ≡ 40) × (t ≡ codes "ef0100" ++ address))
unfolding is_delegation
delegation_iff t = (
  λ e.
      let both =
        (&&_iff (length t == 46) (starts_with (codes "ef0100") t) (==_iff (length t) 46)
            (λ h. h, λ h. h)).0
          e in
      let (address, same) = starts_with-Front (codes "ef0100") t (both.1) in
      (address, omega (arith, both.0, ap length same), same),
  λ d.
      let (address, size, same) = d in
      rw (same, Front-starts_with (codes "ef0100") address, size) refl,
)

signs_itself_iff : (code : Option Text) → (signs_itself code ≡ true) ↔ SignsItself code
unfolding signs_itself has_no_code
signs_itself_iff code =
    ||_iff (all_zeros (plain code)) (is_delegation (plain code)) (all_zeros_iff (plain code))
      (delegation_iff (plain code))

checked_code-ok :
    {W : Type 0} (r : Result RpcError (Option Text)) (w w' : W)
    → checked_code (r, w) ≡ (ok tt, w')
    → (code : Option Text) × (r ≡ ok code) × (w ≡ w') × SignsItself code
unfolding checked_code
checked_code-ok (err e) w w' h = absurd (cc)
checked_code-ok (ok code) w w' h = elim (Bool-cases (signs_itself code)) [
  | inl b ↦ (code, refl, cc, (signs_itself_iff code).0 b)
  | inr b ↦ absurd (let k = (rw b at h) in cc)
]

-- An account is taken exactly where the node gives its code, and that is empty or zeros, or the
-- designator of a delegation, whatever the case of its digits; and the check changes nothing else.
pub assert_signing_account_iff :
    {W : Type 0} (provider : Provider W) (account : String) (w w' : W)
    → (assert_signing_account provider account w ≡ (ok tt, w'))
      ↔ ((code : Option Text) × (provider.get_code account w ≡ (ok code, w')) × SignsItself code)
unfolding assert_signing_account checked_code
assert_signing_account_iff provider account w w' = (
  λ h.
      let (r, v) = provider.get_code account w in
      let (code, e, same, signs) = checked_code-ok r v w' h in (code, (λ i. (e i, same i)), signs),
  λ h. let (code, e, signs) = h in rw (e, (signs_itself_iff code).1 signs) refl,
)
