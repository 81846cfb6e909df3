-- ===== src/Funding/Size.antt =====
-- `chunksPerWrite` of packages/dappdata/src/funding/index.ts: the loop ends, and what it counts.
use native.Mathlib.Nat.{zero-add, suc-add}
use dappdata.Base.{
  ℕ, zero, suc, ◌+◌, ◌*◌, ◌≡◌, ◌≤◌, ◌<◌, refl, ap, false, Bool-cases, inl, inr, arith, ltb, leb,
  ltb→lt, lt→ltb,
}
use dappdata.Funding.{ceil_div, tree_above, leaves_of, chunks_per_write}

ceil_div_less : (level : ℕ) → 1 < level → ceil_div level 128 < level
ceil_div_less level h = omega arith

-- Fuel of the level's size is enough: more changes nothing.
pub tree_above_enough :
    (fuel more level : ℕ) → level ≤ fuel → tree_above (fuel + more) level ≡ tree_above fuel level
unfolding tree_above
tree_above_enough zero zero level h = refl
tree_above_enough zero (suc more) level h =
    let small : ltb 1 level ≡ false = ground arith in rw (zero-add (suc more), small) refl
tree_above_enough (suc fuel) more level h =
    rw (suc-add fuel more) (elim (Bool-cases (ltb 1 level)) [
      | inl e ↦
          let small = ceil_div_less level (ltb→lt 1 level e) in
          rw e (
            ap (λ n. ceil_div level 128 + n)
              (tree_above_enough fuel more (ceil_div level 128) (omega arith)))
      | inr e ↦ rw e refl
    ])

tree_above_small : (fuel level : ℕ) → 0 < level → tree_above fuel level < level
unfolding tree_above
tree_above_small zero level h = h
tree_above_small (suc fuel) level h = elim (Bool-cases (ltb 1 level)) [
  | inl e ↦
      let less = ltb→lt 1 level e in
      rw e (omega (arith, less, tree_above_small fuel (ceil_div level 128) (omega (arith, less))))
  | inr e ↦ rw e h
]

tree_above_some : (fuel level : ℕ) → 1 < level → 0 < tree_above (suc fuel) level
unfolding tree_above
tree_above_some fuel level h = rw (lt→ltb 1 level h) (omega arith)

leaves_two : (bytes : ℕ) → 4064 < bytes → 1 < leaves_of bytes
leaves_two bytes h = omega arith

tree_of_leaves : (n : ℕ) → 1 < n → (0 < tree_above n n) × (tree_above n n < n)
tree_of_leaves zero h = absurd (omega arith)
tree_of_leaves (suc n) h =
    (tree_above_some n (suc n) h, tree_above_small (suc n) (suc n) (omega arith))

-- A value that goes to a blob: there is a leaf for every 4,096 bytes of its envelope, the write costs
-- at least one chunk for the tree and one for the feed beyond them, and at most twice the leaves.
pub chunks_per_write_bounds :
    (bytes : ℕ)
    → 4064 < bytes
    → (bytes + 32 ≤ 4096 * leaves_of bytes)
      × (leaves_of bytes + 2 ≤ chunks_per_write bytes)
      × (chunks_per_write bytes ≤ 2 * leaves_of bytes)
unfolding chunks_per_write
chunks_per_write_bounds bytes h =
    let (some_tree, small_tree) = tree_of_leaves (leaves_of bytes) (leaves_two bytes h) in
    let big : leb bytes 4064 ≡ false = ground arith in
    rw big (omega arith, omega (arith, some_tree), omega (arith, small_tree))
