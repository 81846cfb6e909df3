-- ===== src/Funding/Lifetime.antt =====
-- `health` of packages/dappdata/src/funding/index.ts.
use dappdata.Base.{
  ℕ, ◌*◌, ◌/◌, ◌≡◌, ◌<◌, refl, Bool-cases, ◌&&◌, ◌⊎◌, inl, inr, String, some, ltb, ltb→lt, ltb→le,
  arith, Result, ok, err, ◌>>=◌,
}
use dappdata.Errors.{Failure}
use dappdata.Transport.{Transport, BatchStatus}
use dappdata.Funding.{Payer, contract, node, Health, lifetime, health_of, health_known, health}

module _ {W U : Type 0} (t : Transport W) (payer : Payer W) (block_seconds : ℕ)
    (depth_for_size : ℕ → ℕ) (stamp_usage : ℕ → ℕ → ℕ → U) where
  -- The contract answered with a balance and a price that is not 0.
  abbrev pub Answers : Result Failure (ℕ × ℕ) → ℕ → Type 0
  Answers (ok (remaining, price)) ttl = (0 < price) × (ttl ≡ remaining * block_seconds / price)
  Answers (err e) ttl = ⊥

  -- The contract gave no lifetime: a call threw, or its price is 0.
  abbrev pub IsSilent : Result Failure (ℕ × ℕ) → Type 0
  IsSilent (ok (remaining, price)) = price ≡ 0
  IsSilent (err e) = Unit {0}

  abbrev pub Agrees : BatchStatus → Result Failure (ℕ × ℕ) → Health U → Type 0
  Agrees batch answer h =
      (((h.ttl_source ≡ contract) × Answers answer h.ttl_seconds)
        ⊎ (IsSilent answer × (h.ttl_source ≡ node) × (h.ttl_seconds ≡ batch.ttl_seconds)))
      × (h.usable ≡ (batch.usable && ltb 0 h.ttl_seconds))

  -- The health of a batch that the node knows: it never fails, whatever the chain answers. Where the
  -- contract answered with a price that is not 0, the lifetime is said to be the contract's, and is the
  -- balance over that price, in blocks of the chain; where it did not, the lifetime is the node's and is
  -- said to be. A batch is called usable if the node calls it so and it has time left.
  pub health-Agrees :
      (batch_id : String) (batch : BatchStatus) (w w1 w2 : W) (answer : Result Failure (ℕ × ℕ))
      → t.get_batch batch_id w ≡ (ok (some batch), w1)
      → payer.remaining_and_price batch_id w1 ≡ (answer, w2)
      → (h : Health U) × (health t payer block_seconds depth_for_size stamp_usage batch_id w
          ≡ (ok (some h), w2))
        × Agrees batch answer h
  unfolding health health_known health_of lifetime ◌>>=◌
  health-Agrees batch_id batch w w1 w2 (err e) known asked =
      let h =
        health_of t payer block_seconds depth_for_size stamp_usage batch
          (batch.ttl_seconds, node) in
      (h, rw (known, asked) refl, (inr (tt, refl, refl), refl))
  health-Agrees batch_id batch w w1 w2 (ok (remaining, price)) known asked =
      let by_contract =
        health_of t payer block_seconds depth_for_size stamp_usage batch
          (remaining * block_seconds / price, contract) in
      let by_node =
        health_of t payer block_seconds depth_for_size stamp_usage batch
          (batch.ttl_seconds, node) in
      elim (Bool-cases (ltb 0 price)) [
        | inl e ↦
            (by_contract, rw (known, asked, e) refl, (inl (refl, (ltb→lt 0 price e, refl)), refl))
        | inr e ↦ (
          by_node,
          rw (known, asked, e) refl,
          (inr (omega (arith, ltb→le 0 price e), refl, refl), refl),
        )
      ]
