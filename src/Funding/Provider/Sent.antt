-- ===== src/Funding/Provider/Sent.antt =====
-- The transactions of packages/dappdata/src/funding/index.ts.
use dappdata.Base.{
  ℕ, ◌≤◌, ◌<◌, ◌≡◌, refl, ◌⊎◌, inl, inr, String, Option, Result, ok, ◌>>=◌, lift, >>=-eq-ok,
}
use dappdata.Base.Hex.{Text, codes}
use dappdata.Errors.{Bytes, Failure}
use dappdata.Transport.{Transport}
use dappdata.Funding.Abi.{encode_approve}
use dappdata.Funding.Abi.Data.{
  approve_data, create_data, encode_approve-data, encode_create_batch-data,
}
use dappdata.Funding.Purchase.{Bought, creating, fund-Bought}
use dappdata.Funding.Provider.{ChainConfig, Rpc, send, from, create_args, payer_of}
use dappdata.Funding.{FundOptions, FundResult, fund, to_buy}

module _ {W : Type 0} (rpc : Rpc W) (chain : ChainConfig) (payer_address : Option String)
    (keccak : Bytes → Bytes) (text_of : Text → String) where
  -- A transaction was sent: its data was made, the account was known, and the provider took it.
  abbrev pub Sent : String → Result Failure Text → String → W → W → Type 0
  Sent to request hash w w' =
      (data_ : Text) × (account : String) × (v : W) × (request ≡ ok data_)
      × (from rpc chain payer_address keccak text_of w ≡ (ok account, v))
      × (rpc.send_transaction account to data_ v ≡ (ok hash, w'))

  lift-ok :
      (r : Result Failure Text) (d : Text) (w v : W)
      → ◌≡◌ {A = Result Failure Text × W} (lift r w) (ok d, v)
      → (r ≡ ok d) × (w ≡ v)
  unfolding lift
  lift-ok r d w v h = (cc, cc)

  send-Sent :
      (to hash : String) (request : Result Failure Text) (w w' : W)
      → send rpc chain payer_address keccak text_of to request w ≡ (ok hash, w')
      → Sent to request hash w w'
  unfolding send
  send-Sent to hash request w w' h =
      let (data_, u, made, h1) =
        >>=-eq-ok (lift request)
          (λ data_.
            from rpc chain payer_address keccak text_of
            >>= (λ account. rpc.send_transaction account to data_))
          w h in
      let (account, v, known, sent) =
        >>=-eq-ok (from rpc chain payer_address keccak text_of)
          (λ account. rpc.send_transaction account to data_) u h1 in
      let (is, same) = lift-ok request data_ w u made in
      (data_, account, v, is, rw same known, sent)

  -- A transaction with this data was sent from the payer's account, and the provider took it.
  abbrev pub SentData : String → Text → String → W → W → Type 0
  SentData to data_ hash w w' =
      (account : String) × (v : W) × (from rpc chain payer_address keccak text_of w
        ≡ (ok account, v))
      × (rpc.send_transaction account to data_ v ≡ (ok hash, w'))

  Sent-SentData :
      (to hash : String) (request : Result Failure Text) (expected : Text) (w w' : W)
      → ((d : Text) → request ≡ ok d → d ≡ expected)
      → Sent to request hash w w'
      → SentData to expected hash w w'
  Sent-SentData to hash request expected w w' is (d, account, v, made, known, sent) =
      (account, v, known, rw (← is d made) sent)

  -- A purchase whose approval, unless the allowance covered the total, was a transaction to the token's
  -- contract, with the call that approves the total, and whose creation was one to the chain's postage
  -- contract, with the call of `createBatch` for the owner, in the worlds of the purchase's steps.
  abbrev pub Purchased : Transport W → (ℕ → ℕ) → FundOptions → W → W → FundResult → Type 0
  Purchased t depth_for_size options w w' result =
      (w0 : W) × (to_buy t (payer_of rpc chain payer_address keccak text_of) chain.block_seconds
          depth_for_size options options.depth options.amount_per_chunk w
        ≡ (ok (result.depth, result.amount_per_chunk), w0))
      × (b : Bought t (payer_of rpc chain payer_address keccak text_of) chain.block_seconds
          depth_for_size options.owner w0 w' result)
      × (((result.total_cost ≤ b.allowance) × (b.w2 ≡ b.w3))
          ⊎ ((b.allowance < result.total_cost)
              × (hash : String) × SentData chain.bzz_token
                  (approve_data keccak (codes chain.postage_stamp) result.total_cost) hash b.w2
                  b.w3))
      × SentData chain.postage_stamp
          (create_data keccak (codes options.owner) result.amount_per_chunk result.depth
            (codes b.nonce))
          result.transaction_hash b.w4 b.w5

  -- If `fund` returns over a provider, then in the order of the purchase's steps: unless the allowance
  -- that was read covers the total, a transaction to the token's contract approved the total; then one
  -- to the chain's postage contract, whose hash is the result's, created the batch. Its data, word by
  -- word, is the call of `createBatch` for the owner, with the amount and the depth of the result, 16
  -- bits for a bucket, the nonce that was drawn, and immutable.
  pub fund-Sent :
      (t : Transport W) (depth_for_size : ℕ → ℕ) (options : FundOptions) (w w' : W)
      (result : FundResult)
      → fund t
          (payer_of rpc chain payer_address keccak text_of)
          chain.block_seconds
          depth_for_size
          options
          w
        ≡ (ok result, w')
      → Purchased t depth_for_size options w w' result
  fund-Sent t depth_for_size options w w' result h =
      let (immutable, w0, chosen, b) =
        fund-Bought t (payer_of rpc chain payer_address keccak text_of) chain.block_seconds
          depth_for_size options w w' result h in
      (
        w0,
        chosen,
        b,
        elim b.approved [
          | inl covered ↦ inl covered
          | inr (less, hash, sent) ↦ inr (
            less,
            hash,
            Sent-SentData chain.bzz_token hash
                (encode_approve keccak (codes chain.postage_stamp) result.total_cost)
                (approve_data keccak (codes chain.postage_stamp) result.total_cost) b.w2 b.w3
                (λ d e.
                  encode_approve-data keccak (codes chain.postage_stamp) d result.total_cost e)
                (send-Sent chain.bzz_token hash
                  (encode_approve keccak (codes chain.postage_stamp) result.total_cost) b.w2 b.w3
                  sent),
          )
        ],
        Sent-SentData chain.postage_stamp result.transaction_hash _
            (create_data keccak (codes options.owner) result.amount_per_chunk result.depth
              (codes b.nonce))
            b.w4 b.w5
            (λ d e.
              encode_create_batch-data keccak
                (create_args rpc chain payer_address keccak text_of (
                  creating t (payer_of rpc chain payer_address keccak text_of) chain.block_seconds
                    depth_for_size options.owner result.amount_per_chunk result.depth b.nonce))
                d refl refl e)
            (send-Sent chain.postage_stamp result.transaction_hash _ b.w4 b.w5 b.created),
      )
