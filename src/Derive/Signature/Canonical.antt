-- ===== src/Derive/Signature/Canonical.antt =====
-- The encodings of a signature, and its secret, in packages/dappdata/src/derive/signature.ts.
use text.Mathlib.Text.{◌==◌ as str_eq}
use text.Mathlib.TextEquality.{eq_iff}
use dappdata.Base.{
  ℕ, ◌+◌, ◌-◌, ◌*◌, ◌/◌, ◌%◌, ◌≡◌, ◌≤◌, ◌<◌, refl, sym, ◌∙◌, true, Bool-cases, ◌&&◌, ◌⊎◌, inl, inr,
  String, arith, leb, ◌==◌, Result, ok, err, length, subst, take, drop, get_or,
}
use dappdata.Errors.{Bytes, Failure}
use dappdata.Derive.Signature.{
  SplitSignature, Signature, hex, raw, big_int, recovery_of, in_range, with_recovery, split_bytes,
  split_decoded, split_signature, flip, low_s, secret_of, if_account, secret_of_split,
  secret_from_signature,
}

-- The three encodings of a recovery bit are one: 0 or 1, 27 or 28, and EIP-155's 35 and up, where the
-- bit is added to twice the chain's number and 35.
pub recovery_of_encodings :
    (bit chain : ℕ)
    → bit ≤ 1
    → (recovery_of bit ≡ ok bit)
      × (recovery_of (bit + 27) ≡ ok bit)
      × (recovery_of (bit + chain * 2 + 35) ≡ ok bit)
unfolding recovery_of
recovery_of_encodings bit chain h = (ground arith, ground arith, ground arith)

pub record IsValid (order : ℕ) (sig : SplitSignature) : Type 0 where
  pub r_positive : 0 < sig.r
  pub r_below : sig.r < order
  pub s_positive : 0 < sig.s
  pub s_below : sig.s < order
  pub recovery_bit : sig.recovery ≤ 1

recovery_of_bit : (v recovery : ℕ) → recovery_of v ≡ ok recovery → recovery ≤ 1
unfolding recovery_of
recovery_of_bit v recovery e = ground arith

module _ (order : ℕ) where
  with_recovery-IsValid :
      (r s v : ℕ) (sig : SplitSignature)
      → with_recovery order r s (recovery_of v) ≡ ok sig
      → IsValid order sig
  unfolding with_recovery in_range
  with_recovery-IsValid r s v sig e = go (recovery_of v) refl e
    where
      go :
          (o : Result Failure ℕ)
          → recovery_of v ≡ o
          → with_recovery order r s o ≡ ok sig
          → IsValid order sig
      go (err x) q e = cc
      go (ok recovery) q e = elim (Bool-cases (in_range order r && in_range order s)) [
        | inl b ↦
            let same : record { r = r; s = s; recovery = recovery } ≡ sig =
              (let k = rw b at e in cc) in
            subst (IsValid order) same (record {
              r_positive = ground arith;
              r_below = ground arith;
              s_positive = ground arith;
              s_below = ground arith;
              recovery_bit = recovery_of_bit v recovery q;
            })
        | inr b ↦ absurd (let k = rw b at e in cc)
      ]

  -- A signature that is reduced has its `s` in the low half of the order, is still in range, and is not
  -- reduced further.
  pub low_s_lem :
      (sig : SplitSignature)
      → IsValid order sig
      → IsValid order (low_s order sig)
        × ((low_s order sig).s ≤ order / 2)
        × (low_s order (low_s order sig) ≡ low_s order sig)
  unfolding low_s flip
  low_s_lem sig v = elim (Bool-cases (leb sig.s (order / 2))) [
    | inl e ↦ rw (e, e) (v, ground arith, refl)
    | inr e ↦
        let small : leb (order - sig.s) (order / 2) ≡ true = ground arith in
        rw (e, small)
          (
            record {
              r_positive = v.r_positive;
              r_below = v.r_below;
              s_positive = omega (arith, v.s_below);
              s_below = omega (arith, v.s_positive, v.s_below);
              recovery_bit = ground arith;
            },
            ground arith,
            refl,
          )
  ]

  low_s_twins :
      (a b : SplitSignature)
      → order % 2 ≡ 1
      → a.r ≡ b.r
      → a.s + b.s ≡ order
      → ((low_s order a).r ≡ (low_s order b).r) × ((low_s order a).s ≡ (low_s order b).s)
  unfolding low_s
  low_s_twins a b odd e h = ground arith

  low_s_same :
      (a b : SplitSignature)
      → a.r ≡ b.r
      → a.s ≡ b.s
      → ((low_s order a).r ≡ (low_s order b).r) × ((low_s order a).s ≡ (low_s order b).s)
  unfolding low_s
  low_s_same a b e h = ground arith

  split_bytes-IsValid :
      (bytes : Bytes) (sig : SplitSignature) → split_bytes order bytes ≡ ok sig → IsValid order sig
  unfolding split_bytes
  split_bytes-IsValid bytes sig e = elim (Bool-cases (length bytes == 65)) [
    | inl b ↦
        with_recovery-IsValid (big_int (take 32 bytes)) (big_int (take 32 (drop 32 bytes)))
          (get_or bytes 64 0) sig (rw b at e)
    | inr b ↦ absurd (let k = rw b at e in cc)
  ]

  -- A signature that `splitSignature` takes, in hexadecimal or as bytes, has `r` and `s` between 0 and
  -- the curve's order, and a recovery bit.
  pub split_signature-IsValid :
      (of_hex : String → Result Failure Bytes) (signature : Signature) (sig : SplitSignature)
      → split_signature order of_hex signature ≡ ok sig
      → IsValid order sig
  unfolding split_signature split_decoded
  split_signature-IsValid of_hex (hex text) sig e = go (of_hex text) e
    where
      go : (o : Result Failure Bytes) → split_decoded order o ≡ ok sig → IsValid order sig
      go (ok bytes) e = split_bytes-IsValid bytes sig e
      go (err x) e = cc
  split_signature-IsValid of_hex (raw bytes) sig e = split_bytes-IsValid bytes sig e

  module _ (keccak : Bytes → Bytes)
      (recover_address : Bytes → SplitSignature → Result Failure String)
      (lower_case : String → String) (of_hex : String → Result Failure Bytes) where
    abbrev pub Checked : Signature → Bytes → String → Bytes → Type 0
    Checked signature digest account secret =
        (sig : SplitSignature) × (signer : String) × (split_signature order of_hex signature
          ≡ ok sig)
        × (recover_address digest sig ≡ ok signer)
        × (lower_case signer ≡ lower_case account)
        × (secret ≡ secret_of order keccak recover_address lower_case of_hex sig)

    -- A secret was made from a signature whose signer is the account, letter case aside, and is the
    -- hash of the reduced signature.
    pub secret_from_signature-Checked :
        (signature : Signature) (digest : Bytes) (account : String) (secret : Bytes)
        → secret_from_signature order keccak recover_address lower_case of_hex signature digest
            account
          ≡ ok secret
        → Checked signature digest account secret
    unfolding secret_from_signature secret_of_split if_account
    secret_from_signature-Checked signature digest account secret e =
        split (split_signature order of_hex signature) refl e
      where
        recovered :
            (sig : SplitSignature) (o : Result Failure String)
            → split_signature order of_hex signature ≡ ok sig
            → recover_address digest sig ≡ o
            → if_account order keccak recover_address lower_case of_hex account sig o ≡ ok secret
            → Checked signature digest account secret
        recovered sig (err x) q p e = cc
        recovered sig (ok signer) q p e =
            elim (Bool-cases (str_eq (lower_case signer) (lower_case account))) [
              | inl b ↦ (
                sig,
                signer,
                q,
                p,
                (eq_iff (lower_case signer) (lower_case account)).0 b,
                let k = rw b at e in cc,
              )
              | inr b ↦ absurd (let k = rw b at e in cc)
            ]

        split :
            (o : Result Failure SplitSignature)
            → split_signature order of_hex signature ≡ o
            → secret_of_split order keccak recover_address lower_case of_hex digest account o
              ≡ ok secret
            → Checked signature digest account secret
        split (err x) q e = cc
        split (ok sig) q e = recovered sig (recover_address digest sig) q refl e

    secret_of_twins :
        (a b : SplitSignature)
        → order % 2 ≡ 1
        → a.r ≡ b.r
        → (a.s ≡ b.s) ⊎ (a.s + b.s ≡ order)
        → secret_of order keccak recover_address lower_case of_hex a
          ≡ secret_of order keccak recover_address lower_case of_hex b
    unfolding secret_of
    secret_of_twins a b odd e (inl h) = let (rs, ss) = low_s_same a b e h in rw (rs, ss) refl
    secret_of_twins a b odd e (inr h) = let (rs, ss) = low_s_twins a b odd e h in rw (rs, ss) refl

    -- On a curve of odd order, two accepted signatures of one account with the same `r`, whose `s` are
    -- the same or add up to the order, make one secret: it depends neither on the encoding of the
    -- recovery byte, nor on which of the two values of `s` the wallet chose.
    pub secret_from_signature_canonical :
        (a b : Signature) (x y : SplitSignature) (digest : Bytes) (account : String) (k k' : Bytes)
        → order % 2 ≡ 1
        → split_signature order of_hex a ≡ ok x
        → split_signature order of_hex b ≡ ok y
        → x.r ≡ y.r
        → (x.s ≡ y.s) ⊎ (x.s + y.s ≡ order)
        → secret_from_signature order keccak recover_address lower_case of_hex a digest account
          ≡ ok k
        → secret_from_signature order keccak recover_address lower_case of_hex b digest account
          ≡ ok k'
        → k ≡ k'
    secret_from_signature_canonical a b x y digest account k k' odd xa yb rs ss ka kb =
        let (x', signer, xa', p, q, kx) = secret_from_signature-Checked a digest account k ka in
        let (y', signer', yb', p', q', ky) = secret_from_signature-Checked b digest account k' kb in
        let same_x : x' ≡ x = cc in
        let same_y : y' ≡ y = cc in
        kx ∙ (rw (same_x, same_y) (secret_of_twins x y odd rs ss)) ∙ sym ky
