-- ===== src/Funding/Extension.antt =====
-- `topUp` of packages/dappdata/src/funding/index.ts.
use dappdata.Base.{ℕ, ◌*◌, ◌^◌, ◌≡◌, String, Option, ok, ◌>>=◌, >>=-eq-ok}
use dappdata.Transport.{BatchStatus, Transport}
use dappdata.Funding.Purchase.{Approved, approve_missing-Approved}
use dappdata.Funding.{Payer, depth_of, approve_missing, top_up}

module _ {W : Type 0} (t : Transport W) (payer : Payer W) (block_seconds : ℕ)
    (depth_for_size : ℕ → ℕ) where
  -- If `topUp` returns, then the node was asked for the batch, the total for its depth, or for depth 20
  -- where the node knows no such batch, was covered by the allowance or approved, and then the batch
  -- was topped up with the amount, by the transaction that is returned.
  pub top_up-Approved :
      (batch_id hash : String) (amount : ℕ) (w w' : W)
      → top_up t payer block_seconds depth_for_size batch_id amount w ≡ (ok hash, w')
      → (known : Option BatchStatus) × (from : String) × (allowance : ℕ) × (w1 w2 w3 w4 : W)
        × (t.get_batch batch_id w ≡ (ok known, w1))
        × (payer.from w1 ≡ (ok from, w2))
        × (payer.allowance from w2 ≡ (ok allowance, w3))
        × Approved t payer block_seconds depth_for_size
            (amount * 2 ^ depth_of t payer block_seconds depth_for_size known)
            allowance
            w3
            w4
        × (payer.top_up batch_id amount w4 ≡ (ok hash, w'))
  unfolding top_up
  top_up-Approved batch_id hash amount w w' h =
      let total = λ (known : Option BatchStatus).
        amount * 2 ^ depth_of t payer block_seconds depth_for_size known in
      let then_pay = λ (known : Option BatchStatus) (allowance : ℕ).
        approve_missing t payer block_seconds depth_for_size (total known) allowance
        >>= (λ u. payer.top_up batch_id amount) in
      let then_look =
        λ (known : Option BatchStatus) (from : String). payer.allowance from >>= then_pay known in
      let (known, w1, asked, h1) =
        >>=-eq-ok (t.get_batch batch_id) (λ known. payer.from >>= then_look known) w h in
      let (from, w2, payer_is, h2) = >>=-eq-ok payer.from (then_look known) w1 h1 in
      let (allowance, w3, looked, h3) = >>=-eq-ok (payer.allowance from) (then_pay known) w2 h2 in
      let (u, w4, approved, sent) =
        >>=-eq-ok (approve_missing t payer block_seconds depth_for_size (total known) allowance)
          (λ u. payer.top_up batch_id amount) w3 h3 in
      (
        known,
        from,
        allowance,
        w1,
        w2,
        w3,
        w4,
        asked,
        payer_is,
        looked,
        approve_missing-Approved t payer block_seconds depth_for_size (total known) allowance w3 w4
            approved,
        sent,
      )
