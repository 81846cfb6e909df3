-- ===== src/Base/Results.antt =====
-- The value of code that may throw, and code that changes a state and may throw: what was written
-- before the throw stays written, so the state comes back beside the error too.

use mathlib.Core.Path.{◌≡◌, refl}

pub data Result {ℓ κ} (E : Type κ) (A : Type ℓ) : Type (ℓ ⊔ κ) where
  ok : A → Result E A
  err : E → Result E A

abbrev pub Exec {ℓ κ} : Type ℓ → Type κ → Type κ → Type (ℓ ⊔ κ)
Exec S E A = S → Result E A × S

module _ {ℓ} {S E A : Type ℓ} where
  unfoldable pub pure : A → Exec S E A
  pure a s = (ok a, s)

  unfoldable pub lift : Result E A → Exec S E A
  lift r s = (r, s)

module _ {ℓ} {S E A B : Type ℓ} where
  abbrev pub continue : Result E A × S → (A → Exec S E B) → Result E B × S
  continue (ok a, s) f = f a s
  continue (err e, s) f = (err e, s)

  infixl 5 ◌>>=◌ ◌>>◌
  -- Opening this opens `pure` and `lift` too.
  unfoldable pub ◌>>=◌ : Exec S E A → (A → Exec S E B) → Exec S E B
  unfolding pure lift
  ◌>>=◌ m f s = continue (m s) f

  abbrev pub ◌>>◌ : Exec S E A → Exec S E B → Exec S E B
  m >> n = m >>= λ _. n

  continue-eq-ok :
      (m : Result E A × S) (f : A → Exec S E B) {b : B} {t : S}
      → continue m f ≡ (ok b, t)
      → (a : A) × (s' : S) × (m ≡ (ok a, s')) × (f a s' ≡ (ok b, t))
  continue-eq-ok (ok a, s') f h = (a, s', refl, h)
  continue-eq-ok (err e, s') f h = cc

  -- A chain that returns went through each of its parts.
  pub >>=-eq-ok :
      (m : Exec S E A) (f : A → Exec S E B) (s : S) {b : B} {t : S}
      → (m >>= f) s ≡ (ok b, t)
      → (a : A) × (s' : S) × (m s ≡ (ok a, s')) × (f a s' ≡ (ok b, t))
  unfolding ◌>>=◌
  >>=-eq-ok m f s h = continue-eq-ok (m s) f h
