-- ===== src/Funding/Abi/Data.antt =====
-- The data of the calls that packages/dappdata/src/funding/abi.ts encodes, word by word.
use dappdata.Base.{
  ℕ, ◌≡◌, refl, sym, ap, ◌∙◌, Bool-cases, inl, inr, ◌&&◌, ◌==◌, true, ◌++◌, Result, ok, err, length,
  take, arith,
}
use dappdata.Base.Hex.{
  Text, codes, to_lower_case, strip_0x, pad_start, hex_digits, all_hex, hex_of_bytes,
}
use dappdata.Base.Hex.Numbers.{strip_0x-all_hex, all_hex-hex_digits}
use dappdata.Errors.{Bytes, Failure}
use dappdata.Funding.Abi.{
  word, address_word, uint_word, bytes32_word, bool_word, CreateArgs, join, selector, call,
  encode_approve, encode_create_batch,
}

-- A word is 64 hexadecimal digits: a number, or an address behind zeros, or 32 bytes.
abbrev pub number_word : ℕ → Text
number_word n = pad_start 64 (hex_digits n)

abbrev pub plain_word : Text → Text
plain_word value = pad_start 64 (to_lower_case (strip_0x value))

uint_word-number_word : (n : ℕ) → uint_word n ≡ number_word n
unfolding uint_word word
uint_word-number_word n = ap (pad_start 64) (strip_0x-all_hex (hex_digits n) (all_hex-hex_digits n))

address_word-plain_word : (a w : Text) → address_word a ≡ ok w → w ≡ plain_word a
unfolding address_word word
address_word-plain_word a w h =
    let raw = to_lower_case (strip_0x a) in
    elim (Bool-cases (length raw == 40 && all_hex raw)) [
      | inl e ↦
          let hex : all_hex raw ≡ true = ground (arith, e) in
          let is = (rw e at h) in
          let same : word raw ≡ w = cc in sym same ∙ ap (pad_start 64) (strip_0x-all_hex raw hex)
      | inr e ↦ absurd (let is = (rw e at h) in cc)
    ]

bytes32_word-plain : (a w : Text) → bytes32_word a ≡ ok w → w ≡ to_lower_case (strip_0x a)
unfolding bytes32_word
bytes32_word-plain a w h =
    let raw = to_lower_case (strip_0x a) in
    elim (Bool-cases (length raw == 64 && all_hex raw)) [
      | inl e ↦ (let is = (rw e at h) in let same : raw ≡ w = cc in sym same)
      | inr e ↦ absurd (let is = (rw e at h) in cc)
    ]

bool_word-one : bool_word true ≡ number_word 1
unfolding bool_word word hex_digits
bool_word-one = refl

join-ok :
    (a b : Result Failure Text) (d : Text)
    → join a b ≡ ok d
    → (x y : Text) × (a ≡ ok x) × (b ≡ ok y) × (d ≡ x ++ y)
join-ok (err e) b d h = absurd (cc)
join-ok (ok a) (err e) d h = absurd (cc)
join-ok (ok a) (ok b) d h = (a, b, refl, refl, cc)

ok-same : (a b : Text) → ◌≡◌ {A = Result Failure Text} (ok a) (ok b) → b ≡ a
ok-same a b h = cc

module _ (keccak : Bytes → Bytes) where
  -- The first four bytes of the signature's hash.
  abbrev pub head_of : Text → Text
  head_of signature = codes "0x" ++ hex_of_bytes (take 4 (keccak signature))

  -- `approve` of the spender, for the amount.
  abbrev pub approve_data : Text → ℕ → Text
  approve_data spender amount =
      head_of (codes "approve(address,uint256)") ++ (plain_word spender ++ number_word amount)

  -- `createBatch` of the owner: the balance per chunk, the depth, 16 bits for a bucket, the nonce, and
  -- immutable.
  abbrev pub create_data : Text → ℕ → ℕ → Text → Text
  create_data owner amount depth nonce =
      head_of (codes "createBatch(address,uint256,uint8,uint8,bytes32,bool)")
      ++ (plain_word owner
          ++ ((number_word amount ++ number_word depth ++ number_word 16)
              ++ (to_lower_case (strip_0x nonce) ++ number_word 1)))

  call-ok :
      (signature d : Text) (words : Result Failure Text)
      → call keccak signature words ≡ ok d
      → (w : Text) × (words ≡ ok w) × (d ≡ head_of signature ++ w)
  unfolding call selector
  call-ok signature d words h =
      let (x, y, first, second, is) = join-ok (ok (head_of signature)) words d h in
      let same = ok-same (head_of signature) x first in
      (y, second, is ∙ ap (λ (z : Text). z ++ y) same)

  pub encode_approve-data :
      (spender d : Text) (amount : ℕ)
      → encode_approve keccak spender amount ≡ ok d
      → d ≡ approve_data spender amount
  unfolding encode_approve
  encode_approve-data spender d amount h =
      let (w, words, is) = call-ok _ d _ h in
      let (x, y, first, second, both) =
        join-ok (address_word spender) (ok (uint_word amount)) w words in
      rw
        (
          is,
          both,
          address_word-plain_word spender x first,
          ok-same (uint_word amount) y second,
          uint_word-number_word amount,
        )
        refl

  pub encode_create_batch-data :
      (args : CreateArgs) (d : Text)
      → args.bucket_depth ≡ 16
      → args.immutable ≡ true
      → encode_create_batch keccak args ≡ ok d
      → d ≡ create_data args.owner args.initial_balance_per_chunk args.depth args.nonce
  unfolding encode_create_batch
  encode_create_batch-data args d sixteen fixed h =
      let (w, words, is) = call-ok _ d _ h in
      let (x, y, first, second, both) = join-ok (address_word args.owner) _ w words in
      let (n, m, numbers, last, both2) = join-ok _ _ y second in
      let (p, q, third, fourth, both3) = join-ok (bytes32_word args.nonce) _ m last in
      rw
        (
          is,
          both,
          both2,
          both3,
          address_word-plain_word args.owner x first,
          ok-same _ n numbers,
          bytes32_word-plain args.nonce p third,
          ok-same _ q fourth,
          uint_word-number_word args.initial_balance_per_chunk,
          uint_word-number_word args.depth,
          sixteen,
          uint_word-number_word 16,
          fixed,
          bool_word-one,
        )
        refl
