-- ===== src/Transport/Missing/Patterns.antt =====
-- The patterns of packages/dappdata/src/transport/missing.ts, without the search.
use dappdata.Base.{
  ℕ, ◌≡◌, refl, ap, Bool, true, false, Bool-cases, ◌&&◌, ◌||◌, ◌↔◌, ◌⊎◌, inl, inr, [], ◌∷◌, ◌++◌,
  arith, ◌==◌, ==_iff,
}
use dappdata.Base.Hex.{Text, codes, to_lower_case}
use dappdata.Transport.Missing.{starts_with, contains, says_missing, is_missing_chunk_response}

abbrev pub Occurs : Text → Text → Type 0
Occurs needle t = (a : Text) × (b : Text) × (t ≡ a ++ (needle ++ b))

-- A body says that a chunk is missing: one of the four texts stands in it, in whatever case.
abbrev pub SaysMissing : Text → Type 0
SaysMissing body =
    Occurs (codes "read chunk failed") (to_lower_case body)
    ⊎ (Occurs (codes "chunk not found") (to_lower_case body)
        ⊎ (Occurs (codes "not found") (to_lower_case body)
            ⊎ Occurs (codes "internal server error") (to_lower_case body)))

pub starts_with-Front :
    (needle t : Text) → starts_with needle t ≡ true → (b : Text) × (t ≡ needle ++ b)
starts_with-Front [] t h = (t, refl)
starts_with-Front (a ∷ needle) [] h = cc
starts_with-Front (a ∷ needle) (c ∷ t) h =
    let same : a ≡ c = ground arith in
    let rest : starts_with needle t ≡ true = ground arith in
    let (b, e) = starts_with-Front needle t rest in (b, cc)

pub Front-starts_with : (needle b : Text) → starts_with needle (needle ++ b) ≡ true
Front-starts_with [] b = refl
Front-starts_with (a ∷ needle) b = ground (arith, Front-starts_with needle b)

starts_with-contains : (needle t : Text) → starts_with needle t ≡ true → contains needle t ≡ true
starts_with-contains needle [] h = h
starts_with-contains needle (c ∷ t) h = rw h refl

contains-Occurs : (needle t : Text) → contains needle t ≡ true → Occurs needle t
contains-Occurs needle [] h = let (b, e) = starts_with-Front needle [] h in ([], b, e)
contains-Occurs needle (c ∷ t) h = elim (Bool-cases (starts_with needle (c ∷ t))) [
  | inl s ↦ let (b, e) = starts_with-Front needle (c ∷ t) s in ([], b, e)
  | inr s ↦
      let rest : contains needle t ≡ true = ground (arith, h, s) in
      let (a, b, e) = contains-Occurs needle t rest in (c ∷ a, b, ap (◌∷◌ c) e)
]

Occurs-contains : (needle a b : Text) → contains needle (a ++ (needle ++ b)) ≡ true
Occurs-contains needle [] b = starts_with-contains needle (needle ++ b) (Front-starts_with needle b)
Occurs-contains needle (c ∷ a) b = ground (arith, Occurs-contains needle a b)

pub contains_iff : (needle t : Text) → (contains needle t ≡ true) ↔ Occurs needle t
contains_iff needle t = (
  contains-Occurs needle t,
  λ (o : Occurs needle t). let (a, b, e) = o in rw e (Occurs-contains needle a b),
)

pub ||_iff :
    {P Q : Type 0} (a b : Bool) → ((a ≡ true) ↔ P) → ((b ≡ true) ↔ Q) → ((a || b) ≡ true) ↔ (P ⊎ Q)
||_iff true b p q = (λ e. inl (p.0 refl), λ o. refl)
||_iff false b p q =
    (λ e. inr (q.0 e), λ o. elim o [ inl x ↦ absurd (let e = p.1 x in cc) | inr y ↦ q.1 y ])

||_false_iff : {P : Type 0} (a : Bool) → ((a ≡ true) ↔ P) → ((a || false) ≡ true) ↔ P
||_false_iff true p = p
||_false_iff false p = p

pub &&_iff :
    {P Q : Type 0} (a b : Bool) → ((a ≡ true) ↔ P) → ((b ≡ true) ↔ Q) → ((a && b) ≡ true) ↔ (P × Q)
&&_iff true b p q = (λ e. (p.0 refl, q.0 e), λ o. q.1 (o.1))
&&_iff false b p q = (λ e. absurd (cc), λ o. p.1 (o.0))

says_missing_iff : (body : Text) → (says_missing body ≡ true) ↔ SaysMissing body
unfolding says_missing
says_missing_iff body =
    let t = to_lower_case body in
    ||_iff (contains (codes "read chunk failed") t) _ (contains_iff (codes "read chunk failed") t) (
      ||_iff (contains (codes "chunk not found") t) _ (contains_iff (codes "chunk not found") t) (
        ||_iff (contains (codes "not found") t) _ (contains_iff (codes "not found") t) (
          ||_false_iff (contains (codes "internal server error") t)
            (contains_iff (codes "internal server error") t))))

-- A failed read counts as a missing chunk exactly where the status is 404, or where it is 500 and
-- one of the four texts stands in the body, whatever the case of its letters.
pub is_missing_chunk_response_iff :
    (status : ℕ) (body : Text)
    → (is_missing_chunk_response status body ≡ true)
      ↔ ((status ≡ 404) ⊎ ((status ≡ 500) × SaysMissing body))
unfolding is_missing_chunk_response
is_missing_chunk_response_iff status body =
    ||_iff (status == 404) _ (==_iff status 404)
      (&&_iff (status == 500) (says_missing body) (==_iff status 500) (says_missing_iff body))
