-- ===== src/Funding/Cost.antt =====
-- What `quote` and `fund` of packages/dappdata/src/funding/index.ts promise.
use native.Mathlib.Nat.{pow-le-pow_right, le-max_right}
use dappdata.Base.{
  ℕ, ◌*◌, ◌^◌, ◌≡◌, ◌≤◌, ◌<◌, refl, max, Bool-cases, ◌||◌, inl, inr, arith, subst, ◌==◌, ok, zero,
  suc, ◌+◌, ltb, leb, ltb→lt, ltb→le, ◌⊎◌, sym, pure, lift, >>=-eq-ok,
}
use dappdata.Transport.{Transport}
use dappdata.Funding.{
  chunk_bytes, chunks_of, WriteBudget, Quote, quote_at, quote, Payer, or_value, chunks_per_write,
  tree_above, leaves_of, ceil_div,
}

at_most : (chunks p q : ℕ) → chunks * 4096 ≤ 4096 * p → p ≤ q → chunks ≤ q
at_most chunks p q h l = omega arith

-- The chunks above a level of a blob's tree, whose nodes have 128 children each but for the last.
pub data TreeAbove : ℕ → ℕ → Type 0 where
  root : TreeAbove 1 0
  level :
      {nodes parents above all : ℕ}
      → 1 < nodes
      → nodes ≤ 128 * parents
      → 128 * parents < nodes + 128
      → TreeAbove parents above
      → all ≡ parents + above
      → TreeAbove nodes all

-- What a write of so many bytes costs in chunks: one, or a tree over leaves of 4,096 bytes of the
-- value with its envelope of 32, and one more for the reference.
abbrev pub WriteCost : ℕ → ℕ → Type 0
WriteCost bytes cost =
    ((bytes ≤ 4064) × (cost ≡ 1))
    ⊎ ((4064 < bytes)
        × (leaves above : ℕ) × (bytes + 32 ≤ 4096 * leaves)
        × (4096 * leaves < bytes + 32 + 4096)
        × TreeAbove leaves above
        × (cost ≡ leaves + above + 1))

tree_above-TreeAbove :
    (fuel nodes : ℕ) → 0 < nodes → nodes ≤ fuel → TreeAbove nodes (tree_above fuel nodes)
unfolding tree_above
tree_above-TreeAbove zero nodes h e = absurd (omega arith)
tree_above-TreeAbove (suc fuel) nodes h e = elim (Bool-cases (ltb 1 nodes)) [
  | inl b ↦
      let more = ltb→lt 1 nodes b in
      rw b (
        level more (omega arith) (omega arith)
          (tree_above-TreeAbove fuel (ceil_div nodes 128) (omega (arith, more))
            (omega (arith, more)))
          refl)
  | inr b ↦
      let one : nodes ≡ 1 = omega (arith, ltb→le 1 nodes b) in
      rw b (subst (λ n. TreeAbove n 0) (sym one) root)
]

chunks_per_write-WriteCost : (bytes : ℕ) → WriteCost bytes (chunks_per_write bytes)
unfolding chunks_per_write
chunks_per_write-WriteCost bytes = elim (Bool-cases (leb bytes 4064)) [
  | inl b ↦ rw b (inl (ground (arith, b), refl))
  | inr b ↦
      let more : 4064 < bytes = ground (arith, b) in
      rw b (
        inr (
          more,
          leaves_of bytes,
          tree_above (leaves_of bytes) (leaves_of bytes),
          omega arith,
          omega arith,
          tree_above-TreeAbove (leaves_of bytes) (leaves_of bytes) (omega (arith, more))
              (omega arith),
          omega arith,
        ))
]

module _ {W : Type 0} (t : Transport W) (payer : Payer W) (block_seconds : ℕ)
    (depth_for_size : ℕ → ℕ)
    (enough : (size : ℕ) → size ≤ chunk_bytes * 2 ^ depth_for_size size) where
  room : (chunks : ℕ) → chunks ≤ 2 ^ max 17 (depth_for_size (chunks * chunk_bytes))
  room chunks =
      let size = chunks * chunk_bytes in
      let deeper : 2 ^ depth_for_size size ≤ 2 ^ max 17 (depth_for_size size) =
        pow-le-pow_right (omega arith) (le-max_right 17 (depth_for_size size)) in
      at_most chunks (2 ^ depth_for_size size) (2 ^ max 17 (depth_for_size size)) (enough size)
        deeper

  abbrev pub Fits : WriteBudget → Quote → Type 0
  Fits budget q =
      ((cost : ℕ) × WriteCost (or_value budget.bytes_per_write 0) cost
        × (budget.writes_per_day * budget.retention_days * (cost + 1) ≤ 2 ^ q.depth))
      × (17 ≤ q.depth)
      × (q.total ≡ q.amount_per_chunk * 2 ^ q.depth)
      × (0 < budget.writes_per_day)
      × (0 < budget.retention_days)

  -- If the depth that the library gives for a size holds that many bytes: the batch that is quoted has a
  -- slot for every chunk of every write of the budget and one more per write for the checkpoint, is at
  -- least 17 deep, and the total pays every slot. The chunks of a write are those of its value's tree.
  pub quote_room :
      (budget : WriteBudget) (w w' : W) (q : Quote)
      → quote t payer block_seconds depth_for_size budget w ≡ (ok q, w')
      → Fits budget q
  unfolding quote quote_at chunks_of lift pure
  quote_room budget w w' q e =
      elim (Bool-cases (budget.writes_per_day == 0 || budget.retention_days == 0)) [
        | inl b ↦ absurd (let k = rw b at e in cc)
        | inr b ↦
            let (state, w1, asked, rest) = >>=-eq-ok t.get_chain_state _ w (rw b at e) in
            let same : quote_at t payer block_seconds depth_for_size budget state ≡ q = cc in
            subst (λ q. Fits budget q) same
              (
                (
                  chunks_per_write (or_value budget.bytes_per_write 0),
                  chunks_per_write-WriteCost (or_value budget.bytes_per_write 0),
                  room (chunks_of t payer block_seconds depth_for_size budget),
                ),
                omega arith,
                refl,
                ground arith,
                ground arith,
              )
      ]
