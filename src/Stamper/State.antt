-- ===== src/Stamper/State.antt =====
-- packages/dappdata/src/stamper/state.ts: the heights reserved in each bucket of a batch.
-- A `Map<number, number>` is an association list in insertion order. Depths are whole numbers;
-- below depth 16 the source's capacity is a fraction, which nothing reads since `blankState`
-- refuses the depth.
pub mod Heights
pub mod Merge
pub mod Wire
use Prim.Native.Nat.{pred}
use text.Mathlib.Text.{◌==◌ as str_eq}
use dappdata.Base.{
  ℕ, ◌-◌, ◌*◌, ◌+◌, ◌^◌, max, String, ◌||◌, List, [], ◌∷◌, ltb, Result, ok, err, if◌then◌else◌,
}
use dappdata.Errors.{Bytes, Failure, dapp_data_error, unsupported}
use Heights.{HeightMap, height, set_height}

abbrev pub buckets : ℕ
buckets = 65536

pub record StamperState : Type 0 where
  pub batch_id : String
  pub depth : ℕ
  pub reserved : HeightMap
  pub generation : ℕ

unfoldable pub bucket_capacity : ℕ → ℕ
bucket_capacity depth = 2 ^ (depth - 16)

-- The top 16 bits of an address; each byte is below 256, so `(high << 8) | low` is the sum.
unfoldable pub bucket_of : Bytes → Result Failure ℕ
bucket_of (high ∷ low ∷ rest) = ok (high * 256 + low)
bucket_of _ = err (dapp_data_error unsupported)

unfoldable pub blank_state : String → ℕ → Result Failure StamperState
blank_state batch_id depth =
    if ltb depth 17 || ltb 40 depth
    then err (dapp_data_error unsupported)
    else ok (record { batch_id = batch_id; depth = depth; reserved = []; generation = 0 })

-- The loop of `mergeState`: a height never moves backwards.
unfoldable pub merge_heights : HeightMap → HeightMap → HeightMap
merge_heights reserved [] = reserved
merge_heights reserved ((bucket, h) ∷ rest) =
    merge_heights (set_height reserved bucket (max (height reserved bucket) h)) rest

unfoldable pub merge_state : StamperState → StamperState → Result Failure StamperState
merge_state a b =
    if str_eq a.batch_id b.batch_id
    then ok (record {
      batch_id = a.batch_id;
      depth = max a.depth b.depth;
      reserved = merge_heights a.reserved b.reserved;
      generation = max a.generation b.generation;
    })
    else err (dapp_data_error unsupported)
