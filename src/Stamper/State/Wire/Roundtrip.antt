-- ===== src/Stamper/State/Wire/Roundtrip.antt =====
-- `encodeState` and `decodeState` of packages/dappdata/src/stamper/state.ts, together.
use dappdata.Base.{
  ℕ, ◌<◌, ◌≡◌, refl, ◌∙◌, true, false, some, [], ◌∷◌, map, arith, ◌==◌, ==_iff, if◌then◌else◌, ok,
  ◌⊎◌, inl,
}
use dappdata.Stamper.State.{StamperState, buckets}
use dappdata.Stamper.State.Heights.{
  HeightMap, Distinct, height, has_key, set_height, height-set_height, height_absent, height_nil,
}
use dappdata.Stamper.State.Wire.{
  insert_pair, sort_pairs, encode_state, decode_state, add_pair, read_pairs, to_wire,
}

-- Every bucket is one of the batch's.
abbrev pub InBatch : HeightMap → Type 0
InBatch [] = Unit {0}
InBatch ((b, h) ∷ m) = (b < buckets) × InBatch m

height-insert_pair :
    (b h : ℕ) (m : HeightMap) (c : ℕ)
    → has_key m b ≡ false
    → height (insert_pair (b, h) m) c ≡ (if b == c then h else height m c)
unfolding height has_key insert_pair
height-insert_pair b h [] c e = refl
height-insert_pair b h ((d, k) ∷ m) c e = ground (arith, height-insert_pair b h m c)

has_key-insert_pair :
    (b h : ℕ) (m : HeightMap) (c : ℕ)
    → has_key (insert_pair (b, h) m) c ≡ (if b == c then true else has_key m c)
unfolding has_key insert_pair
has_key-insert_pair b h [] c = refl
has_key-insert_pair b h ((d, k) ∷ m) c = ground (arith, has_key-insert_pair b h m c)

has_key-sort_pairs : (m : HeightMap) (c : ℕ) → has_key (sort_pairs m) c ≡ has_key m c
unfolding has_key sort_pairs
has_key-sort_pairs [] c = refl
has_key-sort_pairs ((b, h) ∷ m) c =
    ground (arith, has_key-insert_pair b h (sort_pairs m) c, has_key-sort_pairs m c)

height-sort_pairs : (m : HeightMap) (c : ℕ) → Distinct m → height (sort_pairs m) c ≡ height m c
unfolding height sort_pairs
height-sort_pairs [] c d = refl
height-sort_pairs ((b, h) ∷ m) c d = ground (
  arith,
  height-insert_pair b h (sort_pairs m) c,
  has_key-sort_pairs m b,
  height-sort_pairs m c d.1,
)

insert_pair-Distinct :
    (b h : ℕ) (m : HeightMap) → has_key m b ≡ false → Distinct m → Distinct (insert_pair (b, h) m)
unfolding insert_pair has_key
insert_pair-Distinct b h [] e d = (refl, tt)
insert_pair-Distinct b h ((c, k) ∷ m) e d =
    ground (arith, insert_pair-Distinct b h m, has_key-insert_pair b h m c)

sort_pairs-Distinct : (m : HeightMap) → Distinct m → Distinct (sort_pairs m)
unfolding sort_pairs
sort_pairs-Distinct [] d = tt
sort_pairs-Distinct ((b, h) ∷ m) d =
    insert_pair-Distinct b h (sort_pairs m) (has_key-sort_pairs m b ∙ d.0)
      (sort_pairs-Distinct m d.1)

insert_pair-InBatch :
    (b h : ℕ) (m : HeightMap) → b < buckets → InBatch m → InBatch (insert_pair (b, h) m)
unfolding insert_pair
insert_pair-InBatch b h [] e d = (e, tt)
insert_pair-InBatch b h ((c, k) ∷ m) e d = ground (arith, insert_pair-InBatch b h m e d.1)

sort_pairs-InBatch : (m : HeightMap) → InBatch m → InBatch (sort_pairs m)
unfolding sort_pairs
sort_pairs-InBatch [] d = tt
sort_pairs-InBatch ((b, h) ∷ m) d = insert_pair-InBatch b h _ d.0 (sort_pairs-InBatch m d.1)

-- Reading pairs back over `acc`: a bucket that is listed has its listed height, and a height of
-- zero is as good as none.
height-read_pairs :
    (acc m : HeightMap) (c : ℕ)
    → Distinct m
    → InBatch m
    → (height acc c ≡ 0) ⊎ (has_key m c ≡ false)
    → height (read_pairs acc (map to_wire m)) c ≡ (if has_key m c then height m c else height acc c)
unfolding read_pairs add_pair height has_key
height-read_pairs acc [] c d i e = refl
height-read_pairs acc ((b, h) ∷ m) c d i e = ground (
  arith,
  d.0,
  height-read_pairs acc m c d.1 i.1,
  height-read_pairs (set_height acc b h) m c d.1 i.1,
  height-set_height acc b h c,
  ==_iff b c,
)

-- A state that the code can hold: a `Map` has no key twice, and its keys are buckets of a batch.
-- Reading back what was written keeps the batch, its depth, the generation and the height of every
-- bucket, one that the state does not list included.
pub decode_state-encode_state :
    (s : StamperState)
    → Distinct s.reserved
    → InBatch s.reserved
    → (t : StamperState) × (decode_state (some (encode_state s)) ≡ ok t)
      × (t.batch_id ≡ s.batch_id)
      × (t.depth ≡ s.depth)
      × (t.generation ≡ s.generation)
      × ((bucket : ℕ) → height t.reserved bucket ≡ height s.reserved bucket)
unfolding decode_state encode_state
decode_state-encode_state s d i = (
  record s { reserved = read_pairs [] (map to_wire (sort_pairs s.reserved)) },
  refl,
  refl,
  refl,
  refl,
  λ bucket. same_height bucket,
)
  where
    same_height :
        (c : ℕ)
        → height (read_pairs [] (map to_wire (sort_pairs s.reserved))) c ≡ height s.reserved c
    same_height c = ground (
      arith,
      height-read_pairs [] (sort_pairs s.reserved) c (sort_pairs-Distinct _ d)
          (sort_pairs-InBatch _ i) (inl (height_nil c)),
      height-sort_pairs s.reserved c d,
      height_absent (sort_pairs s.reserved) c,
      height_nil c,
    )
