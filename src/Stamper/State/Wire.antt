-- ===== src/Stamper/State/Wire.antt =====
-- encodeState and decodeState of packages/dappdata/src/stamper/state.ts: the checkpoint as it is
-- written. `decodeState` takes any JSON value; what it reads of it are the fields below, each `none`
-- where the value lacks it or has another type. Fractions, which the checkpoint's own writer never
-- makes, are left out; negative numbers are kept, since the code tests for them.
pub mod Roundtrip
use dappdata.Base.{
  ℕ, ◌+◌, Bool, true, false, ◌&&◌, String, Option, none, some, List, [], ◌∷◌, map, ltb, leb, ◌==◌,
  if◌then◌else◌, Result, ok, err,
}
use dappdata.Errors.{Failure, dapp_data_error, bad_envelope}
use dappdata.Stamper.State.{StamperState, buckets}
use dappdata.Stamper.State.Heights.{HeightMap, set_height}

-- `negsuc n` is -(n + 1).
pub data ℤ : Type 0 where
  pos : ℕ → ℤ
  negsuc : ℕ → ℤ

-- A `Partial<StamperStateWire> | null`.
pub record Wire : Type 0 where
  pub v : Option ℕ
  pub batch_id : Option String
  pub depth : Option ℕ
  pub generation : Option ℕ
  pub reserved : Option (List (ℤ × ℤ))

-- `sort((a, b) => a[0] - b[0])`, which is stable.
unfoldable pub insert_pair : ℕ × ℕ → HeightMap → HeightMap
insert_pair (b, h) [] = (b, h) ∷ []
insert_pair (b, h) ((c, k) ∷ m) =
    let rest = insert_pair (b, h) m in if leb b c then (b, h) ∷ (c, k) ∷ m else (c, k) ∷ rest

unfoldable pub sort_pairs : HeightMap → HeightMap
sort_pairs [] = []
sort_pairs (p ∷ m) = insert_pair p (sort_pairs m)

abbrev to_wire : ℕ × ℕ → ℤ × ℤ
to_wire (b, h) = (pos b, pos h)

unfoldable pub encode_state : StamperState → Wire
encode_state state = record {
  v = some 1;
  batch_id = some state.batch_id;
  depth = some state.depth;
  generation = some state.generation;
  reserved = some (map to_wire (sort_pairs state.reserved));
}

-- The body of the loop: `bucket >= 0 && bucket < BUCKETS && height > 0`.
unfoldable pub add_pair : HeightMap → ℤ × ℤ → HeightMap
add_pair reserved (pos bucket, pos h) =
    if ltb bucket buckets && ltb 0 h then set_height reserved bucket h else reserved
add_pair reserved _ = reserved

unfoldable pub read_pairs : HeightMap → List (ℤ × ℤ) → HeightMap
read_pairs reserved [] = reserved
read_pairs reserved (pair ∷ rest) = read_pairs (add_pair reserved pair) rest

abbrev or_zero : Option ℕ → ℕ
or_zero none = 0
or_zero (some n) = n

abbrev or_empty : Option (List (ℤ × ℤ)) → List (ℤ × ℤ)
or_empty none = []
or_empty (some pairs) = pairs

decode_fields : Wire → Option ℕ → Option String → Option ℕ → Result Failure StamperState
decode_fields w (some version) (some batch_id) (some depth) =
    if version == 1
    then ok (record {
      batch_id = batch_id;
      depth = depth;
      reserved = read_pairs [] (or_empty w.reserved);
      generation = or_zero w.generation;
    })
    else err (dapp_data_error bad_envelope)
decode_fields w _ _ _ = err (dapp_data_error bad_envelope)

unfoldable pub decode_state : Option Wire → Result Failure StamperState
unfolding decode_fields
decode_state none = err (dapp_data_error bad_envelope)
decode_state (some w) = decode_fields w w.v w.batch_id w.depth
