-- ===== src/Transport/Http/Batches.antt =====
-- packages/dappdata/src/transport/http.ts: what the bee-js transport takes for absent.
use dappdata.Base.{◌≡◌, refl, true, Bool-cases, ◌↔◌, inl, inr, String, none, Result, ok, err, Exec}
use dappdata.Transport.Missing.{BeeError, is_not_found}
use dappdata.Transport.Http.{Bee, OwnBatch, GlobalBatch, global_of, own_of, get_batch}

-- The client says that it does not know the batch.
abbrev pub Unknown : {W A : Type 0} → Exec W BeeError A → W → W → Type 0
Unknown call w w' = (e : BeeError) × (call w ≡ (err e, w')) × (is_not_found e ≡ true)

module _ {W : Type 0} (bee : Bee W) where
  global_of-none :
      (r : Result BeeError GlobalBatch) (v w' : W)
      → global_of bee (r, v) ≡ (ok none, w')
      → (e : BeeError) × (r ≡ err e) × (is_not_found e ≡ true) × (v ≡ w')
  unfolding global_of
  global_of-none (ok b) v w' h = absurd (cc)
  global_of-none (err e) v w' h = elim (Bool-cases (is_not_found e)) [
    | inl m ↦ let k = (rw m at h) in (e, refl, m, cc)
    | inr m ↦ absurd (let k = (rw m at h) in cc)
  ]

  own_of-none :
      (id : String) (r : Result BeeError OwnBatch) (v w' : W)
      → own_of bee id (r, v) ≡ (ok none, w')
      → (e : BeeError) × (r ≡ err e)
        × (is_not_found e ≡ true)
        × Unknown (bee.stamp_get_global id) v w'
  unfolding own_of
  own_of-none id (ok b) v w' h = absurd (cc)
  own_of-none id (err e) v w' h = elim (Bool-cases (is_not_found e)) [
    | inl m ↦
        let (r, u) = bee.stamp_get_global id v in
        let (e', q, m', same) = global_of-none r u w' (rw m at h) in
        (e, refl, m, (e', (λ i. (q i, same i)), m'))
    | inr m ↦ absurd (let k = (rw m at h) in cc)
  ]

  -- A batch does not exist, exactly where the client knows it neither as the node's own nor as one on
  -- the chain.
  pub get_batch-Unknown :
      (id : String) (w w' : W)
      → (get_batch bee id w ≡ (ok none, w'))
        ↔ ((v : W) × Unknown (bee.stamp_get id) w v × Unknown (bee.stamp_get_global id) v w')
  unfolding get_batch own_of global_of
  get_batch-Unknown id w w' = (
    λ h.
        let (r, v) = bee.stamp_get id w in
        let (e, q, m, unknown) = own_of-none id r v w' h in (v, (e, (λ i. (q i, v)), m), unknown),
    λ h. let (v, (e, a, m), (e', b, m')) = h in rw (a, m, b, m') refl,
  )
