-- ===== src/Stamper/State/Merge.antt =====
-- `mergeState` of packages/dappdata/src/stamper/state.ts and the order of views of a batch.
use text.Mathlib.TextEquality.{eq_iff}
use dappdata.Base.{ℕ, ◌≤◌, ◌≡◌, refl, sym, max, [], ◌∷◌, arith, ==_iff, ok, err, ◌≢◌}
use dappdata.Errors.{dapp_data_error, unsupported}
use dappdata.Stamper.State.{StamperState, merge_heights, merge_state}
use dappdata.Stamper.State.Heights.{
  HeightMap, Distinct, height, set_height, height-set_height, height_absent, set_height-Distinct,
}

pub height-merge_heights :
    (m n : HeightMap) (c : ℕ)
    → Distinct n
    → height (merge_heights m n) c ≡ max (height m c) (height n c)
unfolding merge_heights height
height-merge_heights m [] c d = omega arith
height-merge_heights m ((b, h) ∷ n) c d = ground (
  arith,
  d.0,
  height-merge_heights (set_height m b (max (height m b) h)) n c d.1,
  height-set_height m b (max (height m b) h) c,
  height_absent n c,
  ==_iff b c,
)

pub merge_heights-Distinct : (m n : HeightMap) → Distinct m → Distinct (merge_heights m n)
unfolding merge_heights
merge_heights-Distinct m [] d = d
merge_heights-Distinct m ((b, h) ∷ n) d =
    merge_heights-Distinct (set_height m b (max (height m b) h)) n
      (set_height-Distinct m b (max (height m b) h) d)

-- The merge reads the first map's keys by `height` alone, so for any second map, with a repeated key
-- or not, no height falls.
pub le-merge_heights : (m n : HeightMap) (c : ℕ) → height m c ≤ height (merge_heights m n) c
unfolding merge_heights
le-merge_heights m [] c = omega arith
le-merge_heights m ((b, h) ∷ n) c = ground (
  arith,
  le-merge_heights (set_height m b (max (height m b) h)) n c,
  height-set_height m b (max (height m b) h) c,
  ==_iff b c,
)

-- One view of a batch knows no more than another: it has no greater height, depth or generation.
pub record IsBehind (s t : StamperState) : Type 0 where
  pub same_batch : s.batch_id ≡ t.batch_id
  pub depth_le : s.depth ≤ t.depth
  pub generation_le : s.generation ≤ t.generation
  pub height_le : (bucket : ℕ) → height s.reserved bucket ≤ height t.reserved bucket

-- Two views of one batch merge. Both are behind the merge, and the merge is behind every view that
-- both are behind: no height is lost, and none is made up.
pub merge_state_join :
    (a b : StamperState)
    → a.batch_id ≡ b.batch_id
    → Distinct b.reserved
    → (m : StamperState) × (merge_state a b ≡ ok m)
      × IsBehind a m
      × IsBehind b m
      × ((u : StamperState) → IsBehind a u → IsBehind b u → IsBehind m u)
unfolding merge_state
merge_state_join a b same d = (
  record {
    batch_id = a.batch_id;
    depth = max a.depth b.depth;
    reserved = merge_heights a.reserved b.reserved;
    generation = max a.generation b.generation;
  },
  rw ((eq_iff a.batch_id b.batch_id).1 same),
  record {
    same_batch = refl;
    depth_le = omega arith;
    generation_le = omega arith;
    height_le = λ c. omega (arith, height-merge_heights a.reserved b.reserved c d);
  },
  record {
    same_batch = sym same;
    depth_le = omega arith;
    generation_le = omega arith;
    height_le = λ c. omega (arith, height-merge_heights a.reserved b.reserved c d);
  },
  λ u p q. record {
    same_batch = p.same_batch;
    depth_le = omega arith;
    generation_le = omega arith;
    height_le = λ c.
        omega (arith, height-merge_heights a.reserved b.reserved c d, p.height_le c, q.height_le c);
  },
)

-- Views of two batches do not merge.
pub merge_state-other_batch :
    (a b : StamperState)
    → a.batch_id ≢ b.batch_id
    → merge_state a b ≡ err (dapp_data_error unsupported)
unfolding merge_state
merge_state-other_batch a b ne = ground (arith, eq_iff a.batch_id b.batch_id)
