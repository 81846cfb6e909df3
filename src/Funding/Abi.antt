-- ===== src/Funding/Abi.antt =====
-- packages/dappdata/src/funding/abi.ts: the calls of the postage contract and of its token. A text is
-- the list of its codes. Keccak is a parameter, and so is `utf8.encode`, which a signature is in ASCII.
pub mod Calls
pub mod Data
use dappdata.Base.{
  ℕ, ◌+◌, ◌*◌, Bool, true, false, not, ◌&&◌, ◌||◌, Option, none, some, List, [], ◌∷◌, ◌++◌, ◌==◌,
  if◌then◌else◌, Result, ok, err, length, take,
}
use dappdata.Base.Hex.{
  Text, codes, to_lower_case, strip_0x, zeros, pad_start, hex_digits, read_hex, all_hex,
  hex_of_bytes, hex_to_bytes,
}
use dappdata.Errors.{Bytes, Failure, dapp_data_error, other_error, unsupported}

-- `value.replace(/^0x/, "").padStart(64, "0")`
unfoldable pub word : Text → Text
word value = pad_start 64 (strip_0x value)

unfoldable pub address_word : Text → Result Failure Text
unfolding word
address_word address =
    let raw = to_lower_case (strip_0x address) in
    if length raw == 40 && all_hex raw then ok (word raw) else err (dapp_data_error unsupported)

-- An amount is a natural number, so it is never negative.
unfoldable pub uint_word : ℕ → Text
unfolding word hex_digits
uint_word value = word (hex_digits value)

unfoldable pub bytes32_word : Text → Result Failure Text
bytes32_word value =
    let raw = to_lower_case (strip_0x value) in
    if length raw == 64 && all_hex raw then ok raw else err (dapp_data_error unsupported)

unfoldable pub bool_word : Bool → Text
unfolding word
bool_word value = word (if value then codes "1" else codes "0")

pub record CreateArgs : Type 0 where
  pub owner : Text
  pub initial_balance_per_chunk : ℕ
  pub depth : ℕ
  pub bucket_depth : ℕ
  pub nonce : Text
  pub immutable : Bool

-- Two texts, or the error of the first that was refused.
abbrev pub join : Result Failure Text → Result Failure Text → Result Failure Text
join (err e) b = err e
join (ok a) (err e) = err e
join (ok a) (ok b) = ok (a ++ b)

unfoldable pub decode_uint : Text → Result Failure ℕ
unfolding read_hex
decode_uint text =
    let raw = strip_0x text in
    if length raw == 0
    then ok 0
    else elim (read_hex (take 64 raw)) [ none ↦ err other_error | some n ↦ ok n ]

module _ (keccak : Bytes → Bytes) where
  unfoldable pub selector : Text → Text
  unfolding hex_of_bytes
  selector signature = hex_of_bytes (take 4 (keccak signature))

  -- `"0x" + selector(signature) + words`
  unfoldable pub call : Text → Result Failure Text → Result Failure Text
  unfolding selector
  call signature words = join (ok (codes "0x" ++ selector signature)) words

  unfoldable pub encode_allowance : Text → Text → Result Failure Text
  unfolding call address_word
  encode_allowance owner spender =
      call (codes "allowance(address,address)") (join (address_word owner) (address_word spender))

  unfoldable pub encode_approve : Text → ℕ → Result Failure Text
  unfolding call address_word uint_word
  encode_approve spender amount =
      call (codes "approve(address,uint256)") (join (address_word spender) (ok (uint_word amount)))

  unfoldable pub encode_create_batch : CreateArgs → Result Failure Text
  unfolding call address_word uint_word bytes32_word bool_word
  encode_create_batch args = call (codes "createBatch(address,uint256,uint8,uint8,bytes32,bool)") (
      join (address_word args.owner) (
        join
          (ok (
            uint_word args.initial_balance_per_chunk
            ++ uint_word args.depth
            ++ uint_word args.bucket_depth))
          (join (bytes32_word args.nonce) (ok (bool_word args.immutable)))))

  unfoldable pub encode_top_up : Text → ℕ → Result Failure Text
  unfolding call uint_word bytes32_word
  encode_top_up batch_id amount =
      call (codes "topUp(bytes32,uint256)") (join (bytes32_word batch_id) (ok (uint_word amount)))

  unfoldable pub encode_remaining_balance : Text → Result Failure Text
  unfolding call bytes32_word
  encode_remaining_balance batch_id =
      call (codes "remainingBalance(bytes32)") (bytes32_word batch_id)

  unfoldable pub encode_last_price : Result Failure Text
  unfolding call
  encode_last_price = call (codes "lastPrice()") (ok [])

  unfoldable pub batch_created_topic : Text
  unfolding hex_of_bytes
  batch_created_topic =
      codes "0x"
      ++ hex_of_bytes
          (keccak (codes "BatchCreated(bytes32,uint256,uint256,address,uint8,uint8,bool)"))

  unfoldable pub id_of_words : Result Failure Text → Result Failure Text
  unfolding hex_of_bytes hex_to_bytes
  id_of_words (err e) = err e
  id_of_words (ok words) = ok (hex_of_bytes (keccak (hex_to_bytes (strip_0x words))))

  unfoldable pub batch_id_for : Text → Text → Result Failure Text
  unfolding id_of_words address_word bytes32_word
  batch_id_for payer nonce = id_of_words (join (address_word payer) (bytes32_word nonce))
