-- ===== src/Funding/Purchase.antt =====
-- `fund` of packages/dappdata/src/funding/index.ts: the order of approval, purchase and confirmation.
use dappdata.Base.{
  ℕ, ◌*◌, ◌^◌, ◌≤◌, ◌<◌, ◌≡◌, refl, sym, ap, subst₂, true, Bool-cases, ◌⊎◌, inl, inr, String, ltb,
  ltb→lt, ltb→le, Result, ok, Exec, ◌>>=◌, pure, lift, >>=-eq-ok,
}
use dappdata.Errors.{Failure}
use dappdata.Transport.{Transport}
use dappdata.Funding.{
  bucket_depth, Payer, FundOptions, FundResult, CreateBatch, or_value, approve_missing, confirm,
  to_buy, buy, fund,
}

module _ {W : Type 0} (t : Transport W) (payer : Payer W) (block_seconds : ℕ)
    (depth_for_size : ℕ → ℕ) where
  -- The token's allowance covers the total, or it was approved.
  abbrev pub Approved : ℕ → ℕ → W → W → Type 0
  Approved total allowance w w' =
      ((total ≤ allowance) × (w ≡ w'))
      ⊎ ((allowance < total) × (hash : String) × (payer.approve total w ≡ (ok hash, w')))

  pub approve_missing-Approved :
      (total allowance : ℕ) (w w' : W)
      → approve_missing t payer block_seconds depth_for_size total allowance w ≡ (ok tt, w')
      → Approved total allowance w w'
  unfolding approve_missing pure
  approve_missing-Approved total allowance w w' h = elim (Bool-cases (ltb allowance total)) [
    | inl b ↦
        let k = (rw b at h) in
        let (hash, v, a, r) = >>=-eq-ok (payer.approve total) (λ hash. pure tt) w k in
        inr (ltb→lt allowance total b, hash, (let same : v ≡ w' = cc in rw (sym same) a))
    | inr b ↦ (let k = (rw b at h) in inl (ltb→le allowance total b, cc))
  ]

  abbrev pub creating : String → ℕ → ℕ → String → CreateBatch
  creating owner amount depth nonce = record {
    owner = owner;
    amount = amount;
    depth = depth;
    bucket_depth = bucket_depth;
    nonce = nonce;
    immutable = true;
  }

  -- A purchase: the total was covered or approved before the batch was created, with the owner, the
  -- amount and the depth of the result and the nonce that its id is made of, and then confirmed.
  pub record Bought (owner : String) (w w' : W) (result : FundResult) : Type 0 where
    pub from : String
    pub allowance : ℕ
    pub nonce : String
    pub w1 : W
    pub w2 : W
    pub w3 : W
    pub w4 : W
    pub w5 : W
    pub asked : payer.from w ≡ (ok from, w1)
    pub looked : payer.allowance from w1 ≡ (ok allowance, w2)
    pub approved : Approved result.total_cost allowance w2 w3
    pub drawn : payer.random_nonce w3 ≡ (ok nonce, w4)
    pub created :
        payer.create_batch (creating owner result.amount_per_chunk result.depth nonce) w4
        ≡ (ok result.transaction_hash, w5)
    pub confirmed :
        confirm t payer block_seconds depth_for_size result.transaction_hash result.batch_id w5
        ≡ (ok tt, w')
    pub id_is : result.batch_id ≡ payer.batch_id_for from nonce
    pub total_is : result.total_cost ≡ result.amount_per_chunk * 2 ^ result.depth

  pure-same :
      {A : Type 0} (a b : A) (v v' : W)
      → ◌≡◌ {A = Result Failure A × W} (pure a v) (ok b, v')
      → (a ≡ b) × (v ≡ v')
  unfolding pure
  pure-same a b v v' h = (cc, cc)

  module _ (owner : String) (depth amount : ℕ) where
    abbrev result_of : String → String → String → FundResult
    result_of from nonce hash = record {
      batch_id = payer.batch_id_for from nonce;
      depth = depth;
      amount_per_chunk = amount;
      total_cost = amount * 2 ^ depth;
      transaction_hash = hash;
    }

    -- What is left of `buy` behind each of its calls.
    abbrev then_confirm : String → String → String → Exec W Failure FundResult
    then_confirm from nonce hash =
        confirm t payer block_seconds depth_for_size hash (payer.batch_id_for from nonce) >>= λ u.
        pure (result_of from nonce hash)

    abbrev then_create : String → String → Exec W Failure FundResult
    then_create from nonce =
        payer.create_batch (creating owner amount depth nonce) >>= then_confirm from nonce

    abbrev then_draw : String → Unit {0} → Exec W Failure FundResult
    then_draw from u = payer.random_nonce >>= then_create from

    abbrev then_approve : String → ℕ → Exec W Failure FundResult
    then_approve from allowance =
        approve_missing t payer block_seconds depth_for_size (amount * 2 ^ depth) allowance
        >>= then_draw from

    abbrev then_look : String → Exec W Failure FundResult
    then_look from = payer.allowance from >>= then_approve from

    buy-Bought :
        (w w' : W) (result : FundResult)
        → buy t payer block_seconds depth_for_size owner (depth, amount) w ≡ (ok result, w')
        → Bought owner w w' result × (result.depth ≡ depth) × (result.amount_per_chunk ≡ amount)
    unfolding buy
    buy-Bought w w' result h =
        let (from, w1, asked, h1) = >>=-eq-ok payer.from then_look w h in
        let (allowance, w2, looked, h2) =
          >>=-eq-ok (payer.allowance from) (then_approve from) w1 h1 in
        let (u, w3, approved, h3) =
          >>=-eq-ok
            (approve_missing t payer block_seconds depth_for_size (amount * 2 ^ depth) allowance)
            (then_draw from) w2 h2 in
        let (nonce, w4, drawn, h4) = >>=-eq-ok payer.random_nonce (then_create from) w3 h3 in
        let (hash, w5, created, h5) =
          >>=-eq-ok (payer.create_batch (creating owner amount depth nonce))
            (then_confirm from nonce) w4 h4 in
        let (u', w6, confirmed, h6) =
          >>=-eq-ok
            (confirm t payer block_seconds depth_for_size hash (payer.batch_id_for from nonce))
            (λ u. pure (result_of from nonce hash)) w5 h5 in
        let (same, ends) = pure-same (result_of from nonce hash) result w6 w' h6 in
        (
          subst₂ (λ (r : FundResult) (x : W). Bought owner w x r) same ends
              (record {
                from = from;
                allowance = allowance;
                nonce = nonce;
                w1 = w1;
                w2 = w2;
                w3 = w3;
                w4 = w4;
                w5 = w5;
                asked = asked;
                looked = looked;
                approved = approve_missing-Approved (amount * 2 ^ depth) allowance w2 w3 approved;
                drawn = drawn;
                created = created;
                confirmed = confirmed;
                id_is = refl;
                total_is = refl;
              }),
          ap (λ (r : FundResult). r.depth) (sym same),
          ap (λ (r : FundResult). r.amount_per_chunk) (sym same),
        )

  -- If `fund` returns, then the batch was to be immutable, and it was bought as its result says: once
  -- the depth and the amount were chosen, the total was covered by the allowance or approved, then the
  -- batch was created for the owner with that depth and amount, and then the purchase was confirmed
  -- under the id that the payer's address and the nonce make.
  pub fund-Bought :
      (options : FundOptions) (w w' : W) (result : FundResult)
      → fund t payer block_seconds depth_for_size options w ≡ (ok result, w')
      → (or_value options.immutable true ≡ true)
        × (w0 : W) × (to_buy t payer block_seconds depth_for_size options options.depth
              options.amount_per_chunk w
            ≡ (ok (result.depth, result.amount_per_chunk), w0))
        × Bought options.owner w0 w' result
  unfolding fund lift
  fund-Bought options w w' result h = elim (Bool-cases (or_value options.immutable true)) [
    | inl b ↦
        let ((depth, amount), w0, chosen, bought) =
          >>=-eq-ok
            (to_buy t payer block_seconds depth_for_size options options.depth
              options.amount_per_chunk)
            (λ chosen. buy t payer block_seconds depth_for_size options.owner chosen) w
            (rw b at h) in
        let (is, d, a) = buy-Bought options.owner depth amount w0 w' result bought in
        (b, w0, rw (d, a) chosen, is)
    | inr b ↦ absurd (let k = (rw b at h) in cc)
  ]
