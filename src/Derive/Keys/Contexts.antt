-- ===== src/Derive/Keys/Contexts.antt =====
-- The contexts of packages/dappdata/src/derive/kdf.ts.
use dappdata.Base.{ℕ, zero, suc, ◌≡◌, ◌≢◌, refl, ap, ◌++◌, arith, get_or}
use dappdata.Base.Hex.{Text, codes}
use dappdata.Derive.Scalar.{context_of}
use dappdata.Derive.Keys.{Hashes, kdf, retry, feed_context, enc_context, sub_context}

tell : (t u : Text) → get_or t 9 0 ≢ get_or u 9 0 → t ≢ u
tell t u n e = n (ap (λ (l : Text). get_or l 9 0) e)

module _ (h : Hashes) where
  -- A context is read in some round.
  abbrev pub In : Text → ℕ → Text
  In context round = context_of h.order (kdf h) (retry h) context round

  feed_sub : (purpose : Text) (i j : ℕ) → In feed_context i ≢ In (sub_context ++ purpose) j
  unfolding context_of retry
  feed_sub purpose zero zero = tell _ _ (omega arith)
  feed_sub purpose zero (suc j) = tell _ _ (omega arith)
  feed_sub purpose (suc i) zero = tell _ _ (omega arith)
  feed_sub purpose (suc i) (suc j) = tell _ _ (omega arith)

  feed_enc : (i : ℕ) → In feed_context i ≢ enc_context
  unfolding context_of retry
  feed_enc zero = tell _ _ (omega arith)
  feed_enc (suc i) = tell _ _ (omega arith)

  sub_enc : (purpose : Text) (j : ℕ) → In (sub_context ++ purpose) j ≢ enc_context
  unfolding context_of retry
  sub_enc purpose zero = tell _ _ (omega arith)
  sub_enc purpose (suc j) = tell _ _ (omega arith)

  -- No context that a key for another library is derived from, whatever its purpose and in whatever
  -- round, is one that the folder's feed key or its encryption key is derived from, nor are those two
  -- ever the same.
  pub contexts_apart :
      (purpose : Text) (i j : ℕ)
      → (In feed_context i ≢ In (sub_context ++ purpose) j)
        × (In (sub_context ++ purpose) j ≢ enc_context)
        × (In feed_context i ≢ enc_context)
  contexts_apart purpose i j = (feed_sub purpose i j, sub_enc purpose j, feed_enc i)

  -- The second round of a purpose reads the context that another purpose's first round reads.
  pub retry_meets_purpose :
      (purpose : Text) (n : ℕ)
      → In (sub_context ++ purpose) (suc n)
        ≡ In (sub_context ++ (purpose ++ (codes "/retry" ++ h.decimal (suc n)))) 0
  unfolding context_of retry
  retry_meets_purpose purpose n = refl
