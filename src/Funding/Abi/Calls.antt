-- ===== src/Funding/Abi/Calls.antt =====
-- The call data of packages/dappdata/src/funding/abi.ts, and the words in it.
use dappdata.Base.{
  ℕ, zero, suc, ◌+◌, ◌*◌, ◌^◌, ◌≤◌, ◌<◌, ◌≡◌, refl, sym, ap, ◌∙◌, Bool, true, false, Bool-cases,
  ◌&&◌, inl, inr, some, [], ◌∷◌, ◌++◌, arith, ◌==◌, Result, ok, err, length, length-append, take,
}
use dappdata.Base.Hex.{
  Text, codes, to_lower_case, strip_0x, pad_start, hex_digits, read_hex, read_digits, all_hex,
  hex_of_bytes,
}
use dappdata.Base.Hex.Numbers.{
  length-pad_start, length-hex_digits, read_digits-padded, all_hex-hex_digits, strip_0x-all_hex,
}
use dappdata.Errors.{Bytes, Failure}
use dappdata.Funding.Abi.{
  word, address_word, uint_word, bytes32_word, bool_word, CreateArgs, join, decode_uint, selector,
  call, encode_create_batch,
}

uint_word_lem : (v : ℕ) → uint_word v ≡ pad_start 64 (hex_digits v)
unfolding uint_word
uint_word_lem v = ap (pad_start 64) (strip_0x-all_hex (hex_digits v) (all_hex-hex_digits v))

length-uint_word : (v : ℕ) → v < 16 ^ 64 → length (uint_word v) ≡ 64
length-uint_word v h =
    rw (uint_word_lem v) (length-pad_start 64 (hex_digits v) (length-hex_digits 63 v h))

take_all : (n : ℕ) (t : Text) → length t ≡ n → take n t ≡ t
take_all zero [] h = refl
take_all zero (c ∷ t) h = absurd (omega arith)
take_all (suc n) [] h = refl
take_all (suc n) (c ∷ t) h = ap (◌∷◌ c) (take_all n t (omega arith))

read_hex-some :
    (t : Text) (n : ℕ) → length t ≡ 64 → read_digits (some 0) t ≡ some n → read_hex t ≡ some n
unfolding read_hex
read_hex-some [] n h e = absurd (omega arith)
read_hex-some (c ∷ t) n h e = e

-- A number of 256 bits is read back from its word, as the node answers it, behind `0x`.
pub decode_uint-uint_word : (v : ℕ) → v < 16 ^ 64 → decode_uint (codes "0x" ++ uint_word v) ≡ ok v
unfolding decode_uint
decode_uint-uint_word v h =
    let size = length-uint_word v h in
    let some_digits : (length (uint_word v) == 0) ≡ false = rw size refl in
    let number : read_digits (some 0) (uint_word v) ≡ some v =
      rw (uint_word_lem v) (read_digits-padded 64 v) in
    rw (some_digits, take_all 64 (uint_word v) size, read_hex-some (uint_word v) v size number) refl

join-eq-ok :
    (a b : Result Failure Text) (t : Text)
    → join a b ≡ ok t
    → (x y : Text) × (a ≡ ok x) × (b ≡ ok y) × (t ≡ x ++ y)
join-eq-ok (err e) b t h = cc
join-eq-ok (ok x) (err e) t h = cc
join-eq-ok (ok x) (ok y) t h = (x, y, refl, refl, cc)

length-join :
    (a b : Result Failure Text) (m n : ℕ)
    → ((x : Text) → a ≡ ok x → length x ≡ m)
    → ((y : Text) → b ≡ ok y → length y ≡ n)
    → (t : Text) → join a b ≡ ok t
    → length t ≡ m + n
length-join a b m n ha hb t e =
    let (x, y, ea, eb, et) = join-eq-ok a b t e in
    ap length et ∙ length-append x y ∙ omega (arith, ha x ea, hb y eb)

length-address_word : (a t : Text) → address_word a ≡ ok t → length t ≡ 64
unfolding address_word word
length-address_word a t e =
    let raw = to_lower_case (strip_0x a) in
    elim (Bool-cases (length raw == 40 && all_hex raw)) [
      | inl b ↦
          let hex : all_hex raw ≡ true = ground (arith, b) in
          let size : length raw ≡ 40 = ground (arith, b) in
          let same : pad_start 64 (strip_0x raw) ≡ t = (let k = rw b at e in cc) in
          ap length (sym same)
          ∙ rw (strip_0x-all_hex raw hex) (length-pad_start 64 raw (omega (arith, size)))
      | inr b ↦ absurd (let k = rw b at e in cc)
    ]

length-bytes32_word : (a t : Text) → bytes32_word a ≡ ok t → length t ≡ 64
unfolding bytes32_word
length-bytes32_word a t e =
    let raw = to_lower_case (strip_0x a) in
    elim (Bool-cases (length raw == 64 && all_hex raw)) [
      | inl b ↦
          let size : length raw ≡ 64 = ground (arith, b) in
          let same : raw ≡ t = (let k = rw b at e in cc) in ap length (sym same) ∙ size
      | inr b ↦ absurd (let k = rw b at e in cc)
    ]

length-bool_word : (b : Bool) → length (bool_word b) ≡ 64
unfolding bool_word word
length-bool_word true = refl
length-bool_word false = refl

length-ok :
    (x t : Text) (n : ℕ) → length x ≡ n → ◌≡◌ {A = Result Failure Text} (ok x) (ok t) → length t ≡ n
length-ok x t n h e = let same : x ≡ t = cc in ap length (sym same) ∙ h

length-hex_of_bytes : (b : Bytes) → length (hex_of_bytes b) ≡ 2 * length b
unfolding hex_of_bytes
length-hex_of_bytes [] = refl
length-hex_of_bytes (x ∷ b) = omega (arith, length-hex_of_bytes b)

length-take : (n : ℕ) (b : Bytes) → n ≤ length b → length (take n b) ≡ n
length-take zero b h = refl
length-take (suc n) [] h = absurd (omega arith)
length-take (suc n) (x ∷ b) h = ap suc (length-take n b (omega arith))

three : (a b c : Text) → length a ≡ 64 → length b ≡ 64 → length c ≡ 64 → length (a ++ b ++ c) ≡ 192
three a b c x y z = omega (arith, length-append (a ++ b) c, length-append a b, x, y, z)

module _ (keccak : Bytes → Bytes) (digest : (b : Bytes) → length (keccak b) ≡ 32) where
  length-selector : (s : Text) → length (codes "0x" ++ selector keccak s) ≡ 10
  unfolding selector
  length-selector s =
      let four = length-take 4 (keccak s) (omega (arith, digest s)) in
      omega (arith, length-hex_of_bytes (take 4 (keccak s)), four)

  -- The call data of a purchase that is not refused: a selector of four bytes and one word of 32 bytes for each of
  -- the six arguments, if the numbers have at most 256 bits.
  pub length-encode_create_batch :
      (args : CreateArgs) (data_ : Text)
      → encode_create_batch keccak args ≡ ok data_
      → args.initial_balance_per_chunk < 16 ^ 64
      → args.depth < 16 ^ 64
      → args.bucket_depth < 16 ^ 64
      → length data_ ≡ 10 + 6 * 64
  unfolding encode_create_batch call
  length-encode_create_batch args data_ e balance depth bucket_depth =
      length-join (ok head) (join (address_word args.owner) middle) 10 384
        (λ x h. length-ok head x 10 (length-selector name) h)
        (λ y h.
          length-join (address_word args.owner) middle 64 320 (length-address_word args.owner)
            middle-length y h)
        data_ e
    where
      name : Text
      name = codes "createBatch(address,uint256,uint8,uint8,bytes32,bool)"

      head : Text
      head = codes "0x" ++ selector keccak name

      three_words : Text
      three_words =
          uint_word args.initial_balance_per_chunk
          ++ uint_word args.depth
          ++ uint_word args.bucket_depth

      last : Result Failure Text
      last = join (bytes32_word args.nonce) (ok (bool_word args.immutable))

      middle : Result Failure Text
      middle = join (ok three_words) last

      numbers :
          length (
            uint_word args.initial_balance_per_chunk
            ++ uint_word args.depth
            ++ uint_word args.bucket_depth)
          ≡ 192
      numbers =
          three (uint_word args.initial_balance_per_chunk) (uint_word args.depth)
            (uint_word args.bucket_depth) (length-uint_word args.initial_balance_per_chunk balance)
            (length-uint_word args.depth depth) (length-uint_word args.bucket_depth bucket_depth)

      last-length : (y : Text) → last ≡ ok y → length y ≡ 128
      last-length y h =
          length-join (bytes32_word args.nonce) (ok (bool_word args.immutable)) 64 64
            (length-bytes32_word args.nonce)
            (λ x h. length-ok (bool_word args.immutable) x 64 (length-bool_word args.immutable) h) y
            h

      middle-length : (y : Text) → middle ≡ ok y → length y ≡ 320
      middle-length y h =
          length-join (ok three_words) last 192 128 (λ x h. length-ok three_words x 192 numbers h)
            last-length y h
