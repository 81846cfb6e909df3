-- ===== src/Envelope.antt =====
-- packages/dappdata/src/envelope/index.ts: sealing a value into a frame, and opening it. WebCrypto's
-- AES-GCM and `TextEncoder` are the parameter `Platform`; the random nonce is an argument. A schema
-- is a whole number that is not negative.
pub mod Frame
pub mod Laws
pub mod Plain
mod Examples
use dappdata.Base.{
  ℕ, ◌+◌, ◌≡◌, String, Option, none, some, List, [], ◌∷◌, ◌++◌, ◌==◌, if◌then◌else◌, Result, ok,
  err, length,
}
use dappdata.Errors.{Bytes, Failure, dapp_data_error, bad_envelope}
use Frame.{
  Header, version_byte, alg_aes_256_gcm, inline_mode, header_of, write_header, read_header,
  nonce_of, body_of, concat,
}

-- `decrypt` is `none` where the promise is rejected.
pub record Platform (Key : Type 0) : Type 0 where
  pub import_raw : Bytes → Key
  pub encrypt : Key → Bytes → Bytes → Bytes → Bytes
  pub decrypt : Key → Bytes → Bytes → Bytes → Option Bytes
  pub encode_text : String → Bytes
  pub decode_text : Bytes → String

-- What AES-GCM promises: decryption undoes encryption, whatever decrypts is what encryption makes of
-- the plain text, and a cipher text is the plain text and a tag of 16 bytes.
pub record AesGcm {Key : Type 0} (c : Platform Key) : Type 0 where
  pub decrypt-encrypt :
      (k : Key) (nonce aad value : Bytes)
      → c.decrypt k nonce aad (c.encrypt k nonce aad value) ≡ some value
  pub decrypt_authentic :
      (k : Key) (nonce aad body value : Bytes)
      → c.decrypt k nonce aad body ≡ some value
      → body ≡ c.encrypt k nonce aad value
  pub length-encrypt :
      (k : Key) (nonce aad value : Bytes) → length (c.encrypt k nonce aad value) ≡ length value + 16

pub record SealOptions : Type 0 where
  pub aad : String
  pub schema : Option ℕ
  pub mode : Option ℕ

pub record Opened : Type 0 where
  pub value : Bytes
  pub schema : ℕ
  pub mode : ℕ

abbrev pub or_default : Option ℕ → ℕ → ℕ
or_default none n = n
or_default (some m) n = m

module _ {Key : Type 0} (c : Platform Key) where
  unfoldable pub import_key : Bytes → Result Failure Key
  import_key raw =
      if length raw == 32 then ok (c.import_raw raw) else err (dapp_data_error bad_envelope)

  seal_with : Key → Bytes → String → Bytes → Result Failure Bytes → Result Failure Bytes
  seal_with key value aad nonce (ok header) = ok (
      concat (
        header ∷ nonce ∷ c.encrypt key nonce (concat (header ∷ c.encode_text aad ∷ [])) value ∷ []))
  seal_with key value aad nonce (err e) = err e

  unfoldable pub seal : Key → Bytes → SealOptions → Bytes → Result Failure Bytes
  unfolding seal_with
  seal key value options nonce = seal_with key value options.aad nonce (
      write_header (record {
        version = version_byte;
        alg = alg_aes_256_gcm;
        mode = or_default options.mode inline_mode;
        schema = or_default options.schema 0;
      }))

  opened : Header → Option Bytes → Result Failure Opened
  opened header (some value) =
      ok (record { value = value; schema = header.schema; mode = header.mode })
  opened header none = err (dapp_data_error bad_envelope)

  open_with : Key → Bytes → String → Result Failure Header → Result Failure Opened
  unfolding opened
  open_with key frame aad (ok header) = opened header (
      c.decrypt key (nonce_of frame) (concat (header_of frame ∷ c.encode_text aad ∷ []))
        (body_of frame))
  open_with key frame aad (err e) = err e

  unfoldable pub open_frame : Key → Bytes → String → Result Failure Opened
  unfolding open_with
  open_frame key frame aad = open_with key frame aad (read_header frame)
