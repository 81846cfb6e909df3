-- ===== src/Envelope/Frame.antt =====
-- packages/dappdata/src/envelope/frame.ts: version(1) | alg(1) | mode(1) | schema(1) | nonce(12) | body.
use dappdata.Base.{
  ℕ, ◌+◌, not, ◌&&◌, List, [], ◌∷◌, ◌++◌, ltb, ◌==◌, if◌then◌else◌, Result, ok, err, length, take,
  drop, get_or,
}
use dappdata.Errors.{Bytes, Failure, dapp_data_error, bad_envelope}

abbrev pub version_byte : ℕ
version_byte = 1

abbrev pub alg_aes_256_gcm : ℕ
alg_aes_256_gcm = 1

abbrev pub header_bytes : ℕ
header_bytes = 4

abbrev pub nonce_bytes : ℕ
nonce_bytes = 12

-- `Mode.INLINE` and `Mode.REF`.
abbrev pub inline_mode : ℕ
inline_mode = 1

abbrev pub ref_mode : ℕ
ref_mode = 2

pub record Header : Type 0 where
  pub version : ℕ
  pub alg : ℕ
  pub mode : ℕ
  pub schema : ℕ

unfoldable pub write_header : Header → Result Failure Bytes
write_header header =
    if ltb 255 header.schema
    then err (dapp_data_error bad_envelope)
    else ok (header.version ∷ header.alg ∷ header.mode ∷ header.schema ∷ [])

-- The four tests on the bytes of a header, in their order.
checked : ℕ → ℕ → ℕ → ℕ → Result Failure Header
checked version alg mode schema =
    if not (version == version_byte)
    then err (dapp_data_error bad_envelope)
    else if not (alg == alg_aes_256_gcm)
    then err (dapp_data_error bad_envelope)
    else if not (mode == inline_mode) && not (mode == ref_mode)
    then err (dapp_data_error bad_envelope)
    else ok (record { version = version; alg = alg; mode = mode; schema = schema })

unfoldable pub read_header : Bytes → Result Failure Header
unfolding checked
read_header frame =
    if ltb (length frame) (header_bytes + nonce_bytes + 1)
    then err (dapp_data_error bad_envelope)
    else checked (get_or frame 0 0) (get_or frame 1 0) (get_or frame 2 0) (get_or frame 3 0)

-- `frame.subarray(0, HEADER_BYTES)`
unfoldable pub header_of : Bytes → Bytes
header_of frame = take header_bytes frame

unfoldable pub nonce_of : Bytes → Bytes
nonce_of frame = take nonce_bytes (drop header_bytes frame)

unfoldable pub body_of : Bytes → Bytes
body_of frame = drop (header_bytes + nonce_bytes) frame

unfoldable pub concat : List Bytes → Bytes
concat [] = []
concat (part ∷ rest) = part ++ concat rest
