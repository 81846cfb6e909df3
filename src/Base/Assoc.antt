-- ===== src/Base/Assoc.antt =====
-- A JavaScript `Map` as an association list in insertion order, over keys with an equality test.
use mathlib.Core.Path.{◌≡◌, refl}
use mathlib.Core.Logic.{◌↔◌}
use mathlib.Core.Bool.{Bool, true, false, ◌&&◌}
use mathlib.Core.Option.{Option, none, some}
use mathlib.Core.List.{List, [], ◌∷◌}
use native.Mathlib.Omega.{arith}
use Prim.Native.Nat.{ℕ}
use dappdata.Base.Tests.{◌==◌, if◌then◌else◌}

pub record Eq {ℓ} (K : Type ℓ) : Type ℓ where
  pub same : K → K → Bool
  pub same_iff : (a b : K) → (same a b ≡ true) ↔ (a ≡ b)

module _ {ℓ κ} {K : Type ℓ} {V : Type κ} (e : Eq K) where
  -- `m.get(k)`
  unfoldable pub get_value : List (K × V) → K → Option V
  get_value [] k = none
  get_value ((j, v) ∷ m) k = if e.same j k then some v else get_value m k

  -- `m.set(k, v)`: a key that is there keeps its place.
  unfoldable pub set_value : List (K × V) → K → V → List (K × V)
  set_value [] k v = (k, v) ∷ []
  set_value ((j, w) ∷ m) k v = if e.same j k then (j, v) ∷ m else (j, w) ∷ set_value m k v

  pub get_value-set_value :
      (m : List (K × V)) (k : K) (v : V) (j : K)
      → get_value (set_value m k v) j ≡ (if e.same k j then some v else get_value m j)
  unfolding get_value set_value
  get_value-set_value [] k v j = refl
  get_value-set_value ((i, w) ∷ m) k v j =
      ground (arith, get_value-set_value m k v j, e.same_iff i k, e.same_iff i j, e.same_iff k j)

abbrev pub same_bytes : List ℕ → List ℕ → Bool
same_bytes [] [] = true
same_bytes [] (b ∷ bs) = false
same_bytes (a ∷ l) [] = false
same_bytes (a ∷ l) (b ∷ bs) = a == b && same_bytes l bs

pub same_bytes_iff : (a b : List ℕ) → (same_bytes a b ≡ true) ↔ (a ≡ b)
same_bytes_iff [] [] = (λ e. refl, λ e. refl)
same_bytes_iff [] (b ∷ bs) = (λ e. cc, λ e. cc)
same_bytes_iff (a ∷ l) [] = (λ e. cc, λ e. cc)
same_bytes_iff (a ∷ l) (b ∷ bs) =
    (λ e. ground (arith, same_bytes_iff l bs), λ e. ground (arith, same_bytes_iff l bs))
