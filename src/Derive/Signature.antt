-- ===== src/Derive/Signature.antt =====
-- packages/dappdata/src/derive/signature.ts: the secret that a wallet's signature makes. The order of
-- the curve, the recovery of the signer's address, Keccak, `toLowerCase` and `hexToBytes` behind
-- `strip0x` are parameters.
pub mod Canonical
use text.Mathlib.Text.{◌==◌ as str_eq}
use dappdata.Base.{
  ℕ, zero, suc, ◌+◌, ◌-◌, ◌*◌, ◌/◌, ◌%◌, ◌≡◌, Bool, true, false, not, ◌&&◌, ◌||◌, String, List, [],
  ◌∷◌, ◌++◌, ltb, leb, ◌==◌, if◌then◌else◌, Result, ok, err, length, take, drop, get_or,
}
use dappdata.Errors.{Bytes, Failure, dapp_data_error, bad_signature, wrong_account}

pub record SplitSignature : Type 0 where
  pub r : ℕ
  pub s : ℕ
  pub recovery : ℕ

-- `string | Uint8Array`
pub data Signature : Type 0 where
  hex : String → Signature
  raw : Bytes → Signature

-- `BigInt("0x" + bytesToHex(bytes))`: the first byte is the greatest.
unfoldable pub big_int_from : ℕ → Bytes → ℕ
big_int_from n [] = n
big_int_from n (b ∷ rest) = big_int_from (n * 256 + b) rest

unfoldable pub big_int : Bytes → ℕ
unfolding big_int_from
big_int bytes = big_int_from 0 bytes

-- The last `count` bytes of a number, the greatest first.
unfoldable pub low_bytes : ℕ → ℕ → Bytes
low_bytes zero value = []
low_bytes (suc count) value = low_bytes count (value / 256) ++ value % 256 ∷ []

unfoldable pub to32 : ℕ → Bytes
unfolding low_bytes
to32 value = low_bytes 32 value

unfoldable pub recovery_of : ℕ → Result Failure ℕ
recovery_of v =
    if v == 0 || v == 1
    then ok v
    else if v == 27 || v == 28
    then ok (v - 27)
    else if leb 35 v
    then ok ((v - 35) % 2)
    else err (dapp_data_error bad_signature)

module _ (order : ℕ) where
  unfoldable pub in_range : ℕ → Bool
  in_range k = not (k == 0 || leb order k)

  unfoldable pub with_recovery : ℕ → ℕ → Result Failure ℕ → Result Failure SplitSignature
  unfolding in_range
  with_recovery r s (err e) = err e
  with_recovery r s (ok recovery) =
      if in_range r && in_range s
      then ok (record { r = r; s = s; recovery = recovery })
      else err (dapp_data_error bad_signature)

  unfoldable pub split_bytes : Bytes → Result Failure SplitSignature
  unfolding with_recovery big_int recovery_of
  split_bytes bytes =
      if length bytes == 65
      then with_recovery (big_int (take 32 bytes)) (big_int (take 32 (drop 32 bytes)))
          (recovery_of (get_or bytes 64 0))
      else err (dapp_data_error bad_signature)

  unfoldable pub split_decoded : Result Failure Bytes → Result Failure SplitSignature
  unfolding split_bytes
  split_decoded (ok bytes) = split_bytes bytes
  split_decoded (err e) = err e

  unfoldable pub split_signature :
      (String → Result Failure Bytes) → Signature → Result Failure SplitSignature
  unfolding split_decoded
  split_signature of_hex (hex text) = split_decoded (of_hex text)
  split_signature of_hex (raw bytes) = split_bytes bytes

  -- `sig.recovery ^ 1`, of a recovery that is 0 or 1.
  unfoldable pub flip : ℕ → ℕ
  flip recovery = if recovery == 0 then 1 else 0

  unfoldable pub low_s : SplitSignature → SplitSignature
  unfolding flip
  low_s sig =
      if leb sig.s (order / 2)
      then sig
      else record { r = sig.r; s = order - sig.s; recovery = flip sig.recovery }

  module _ (keccak : Bytes → Bytes)
      (recover_address : Bytes → SplitSignature → Result Failure String)
      (lower_case : String → String) (of_hex : String → Result Failure Bytes) where
    unfoldable pub secret_of : SplitSignature → Bytes
    unfolding low_s to32
    secret_of sig = keccak (to32 (low_s sig).r ++ to32 (low_s sig).s)

    unfoldable pub if_account :
        String → SplitSignature → Result Failure String → Result Failure Bytes
    unfolding secret_of
    if_account account sig (err e) = err e
    if_account account sig (ok signer) =
        if str_eq (lower_case signer) (lower_case account)
        then ok (secret_of sig)
        else err (dapp_data_error wrong_account)

    unfoldable pub secret_of_split :
        Bytes → String → Result Failure SplitSignature → Result Failure Bytes
    unfolding if_account
    secret_of_split digest account (err e) = err e
    secret_of_split digest account (ok sig) = if_account account sig (recover_address digest sig)

    unfoldable pub secret_from_signature : Signature → Bytes → String → Result Failure Bytes
    unfolding secret_of_split split_signature
    secret_from_signature signature digest account =
        secret_of_split digest account (split_signature of_hex signature)
