-- ===== src/Derive/Scalar.antt =====
-- `deriveScalar` of packages/dappdata/src/derive/kdf.ts: the first hash in a sequence of contexts that
-- is not zero modulo the curve's order. `kdf` and the contexts' texts are parameters; the loop runs on
-- fuel.
use dappdata.Base.{
  ℕ, zero, suc, ◌+◌, ◌%◌, ◌≡◌, ◌≢◌, ◌<◌, refl, false, Bool-cases, inl, inr, Option, none, some,
  arith, subst, ◌==◌, if◌then◌else◌,
}
use dappdata.Base.Hex.{Text}
use dappdata.Errors.{Bytes}
use dappdata.Derive.Signature.{big_int, to32}

≢→==-false : (a b : ℕ) → a ≢ b → (a == b) ≡ false
≢→==-false a b h = ground arith

module _ (order : ℕ) (kdf : Bytes → Text → Bytes) (retry : Text → ℕ → Text) where
  unfoldable pub context_of : Text → ℕ → Text
  context_of context zero = context
  context_of context (suc round) = retry context (suc round)

  unfoldable pub scalar_at : Bytes → Text → ℕ → ℕ
  unfolding big_int context_of
  scalar_at seed context round = big_int (kdf seed (context_of context round)) % order

  unfoldable pub derive_from : ℕ → ℕ → Bytes → Text → Option Bytes
  unfolding scalar_at
  derive_from zero round seed context = none
  derive_from (suc fuel) round seed context =
      let k = scalar_at seed context round in
      let later = derive_from fuel (round + 1) seed context in
      if k == 0 then later else some (to32 k)

  unfoldable pub derive_scalar : ℕ → Bytes → Text → Option Bytes
  unfolding derive_from
  derive_scalar fuel seed context = derive_from fuel 0 seed context

  derive_from-ends :
      (gap fuel round : ℕ) (seed : Bytes) (context : Text)
      → ((i : ℕ) → i < gap → scalar_at seed context (round + i) ≡ 0)
      → scalar_at seed context (round + gap) ≢ 0
      → gap < fuel
      → derive_from fuel round seed context ≡ some (to32 (scalar_at seed context (round + gap)))
  unfolding derive_from
  derive_from-ends zero zero round seed context zeros found h = absurd (omega arith)
  derive_from-ends (suc gap) zero round seed context zeros found h = absurd (omega arith)
  derive_from-ends zero (suc fuel) round seed context zeros found h =
      let here : round + 0 ≡ round = omega arith in
      let not_zero : scalar_at seed context round ≢ 0 =
        subst (λ r. scalar_at seed context r ≢ 0) here found in
      rw (here, ≢→==-false (scalar_at seed context round) 0 not_zero) refl
  derive_from-ends (suc gap) (suc fuel) round seed context zeros found h =
      let here : round + 0 ≡ round = omega arith in
      let next : round + suc gap ≡ round + 1 + gap = omega arith in
      let is_zero : scalar_at seed context round ≡ 0 =
        subst (λ r. scalar_at seed context r ≡ 0) here (zeros 0 (omega arith)) in
      rw (is_zero, next)
        (derive_from-ends gap fuel (round + 1) seed context
          (λ i l.
            subst (λ r. scalar_at seed context r ≡ 0) (omega arith) (zeros (suc i) (omega arith)))
          (subst (λ r. scalar_at seed context r ≢ 0) next found) (omega arith))

  -- If the first round whose hash is not zero modulo the order is `gap`, then the loop returns with that
  -- hash for every fuel above `gap`: it neither skips a usable hash nor takes a zero one.
  pub derive_scalar-first :
      (gap fuel : ℕ) (seed : Bytes) (context : Text)
      → ((i : ℕ) → i < gap → scalar_at seed context i ≡ 0)
      → scalar_at seed context gap ≢ 0
      → gap < fuel
      → derive_scalar fuel seed context ≡ some (to32 (scalar_at seed context gap))
  unfolding derive_scalar
  derive_scalar-first gap fuel seed context zeros found h =
      subst (λ r. derive_from fuel 0 seed context ≡ some (to32 (scalar_at seed context r)))
        (omega arith)
        (derive_from-ends gap fuel 0 seed context
          (λ i l. subst (λ r. scalar_at seed context r ≡ 0) (omega arith) (zeros i l))
          (subst (λ r. scalar_at seed context r ≢ 0) (omega arith) found) h)

  derive_from_same :
      (fuel fuel' round : ℕ) (seed : Bytes) (context : Text) (a b : Bytes)
      → derive_from fuel round seed context ≡ some a
      → derive_from fuel' round seed context ≡ some b
      → a ≡ b
  unfolding derive_from
  derive_from_same zero fuel' round seed context a b h k = absurd (cc)
  derive_from_same (suc fuel) zero round seed context a b h k = absurd (cc)
  derive_from_same (suc fuel) (suc fuel') round seed context a b h k =
      elim (Bool-cases (scalar_at seed context round == 0)) [
        | inl z ↦ derive_from_same fuel fuel' (round + 1) seed context a b (rw z at h) (rw z at k)
        | inr z ↦ (let h' = (rw z at h) in let k' = (rw z at k) in cc)
      ]

  -- Two searches that both end find one scalar, whatever their fuel.
  pub derive_scalar_same :
      (fuel fuel' : ℕ) (seed : Bytes) (context : Text) (a b : Bytes)
      → derive_scalar fuel seed context ≡ some a
      → derive_scalar fuel' seed context ≡ some b
      → a ≡ b
  unfolding derive_scalar
  derive_scalar_same fuel fuel' seed context a b h k =
      derive_from_same fuel fuel' 0 seed context a b h k
