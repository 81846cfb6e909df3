-- ===== src/Errors.antt =====
-- packages/dappdata/src/errors.ts: the errors that the SDK throws.
use dappdata.Base.{ℕ, List}

abbrev pub Bytes : Type 0
Bytes = List ℕ

pub data ErrorCode : Type 0 where
  wrong_account contract_account bad_signature bad_envelope : ErrorCode
  conflict_code too_large unsupported : ErrorCode

-- A thrown value: a `DappDataError` with its code, a `ConflictError` with the update that won, or
-- any other JavaScript error.
pub data Failure : Type 0 where
  dapp_data_error : ErrorCode → Failure
  conflict_error : ℕ → Bytes → Failure
  other_error : Failure
