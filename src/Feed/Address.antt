-- ===== src/Feed/Address.antt =====
-- packages/dappdata/src/feed/address.ts: where an update of a feed lives. Keccak and the address of a
-- single-owner chunk are parameters.
use dappdata.Base.{ℕ, ◌/◌, ◌%◌, ◌^◌, ◌<◌, ◌≡◌, String, [], ◌∷◌, ◌++◌, arith, length, append_same}
use dappdata.Errors.{Bytes}

-- `setBigUint64(0, index, false)`: eight bytes, the greatest first, of the index modulo 2 ^ 64.
unfoldable pub big_endian_64 : ℕ → Bytes
big_endian_64 n =
    n / 2 ^ 56 % 256
    ∷ n / 2 ^ 48 % 256
    ∷ n / 2 ^ 40 % 256
    ∷ n / 2 ^ 32 % 256
    ∷ n / 2 ^ 24 % 256
    ∷ n / 2 ^ 16 % 256
    ∷ n / 2 ^ 8 % 256
    ∷ n % 256
    ∷ []

unfoldable pub identifier_input : Bytes → ℕ → Bytes
identifier_input topic index = topic ++ big_endian_64 index

module _ (keccak : Bytes → Bytes) (soc_address : Bytes → String → Bytes) where
  unfoldable pub feed_identifier : Bytes → ℕ → Bytes
  unfolding identifier_input
  feed_identifier topic index = keccak (identifier_input topic index)

  unfoldable pub feed_chunk_address : String → Bytes → ℕ → Bytes
  unfolding feed_identifier
  feed_chunk_address owner topic index = soc_address (feed_identifier topic index) owner

-- What is hashed tells topics of one length and indices of 64 bits apart.
big_endian_64-injective :
    (i j : ℕ) → i < 2 ^ 64 → j < 2 ^ 64 → big_endian_64 i ≡ big_endian_64 j → i ≡ j
unfolding big_endian_64
big_endian_64-injective i j hi hj e = ground arith

-- What a feed identifier hashes tells topics of one length and indices of 64 bits apart, so two
-- updates share an identifier only where Keccak collides.
pub identifier_input-injective :
    (t u : Bytes) (i j : ℕ)
    → length t ≡ length u
    → i < 2 ^ 64
    → j < 2 ^ 64
    → identifier_input t i ≡ identifier_input u j
    → (t ≡ u) × (i ≡ j)
unfolding identifier_input
identifier_input-injective t u i j n hi hj e =
    let (topics, ends) = append_same t u (big_endian_64 i) (big_endian_64 j) n e in
    (topics, big_endian_64-injective i j hi hj ends)
