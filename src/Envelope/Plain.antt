-- ===== src/Envelope/Plain.antt =====
-- A platform for examples: the cipher text is 16 zeros and the plain text, so the laws of `AesGcm`
-- can be met.
use Prim.Native.String.{[] as no_text}
use dappdata.Base.{ℕ, zero, suc, ◌+◌, ◌≡◌, refl, ap, Option, none, some, [], ◌∷◌, arith, length}
use dappdata.Errors.{Bytes}
use dappdata.Envelope.{Platform, AesGcm}

abbrev pad : ℕ → Bytes → Bytes
pad zero value = value
pad (suc n) value = 0 ∷ pad n value

abbrev strip : ℕ → Bytes → Option Bytes
strip zero body = some body
strip (suc n) (zero ∷ body) = strip n body
strip (suc n) _ = none

abbrev pub plain : Platform Bytes
plain = record {
  import_raw = λ raw. raw;
  encrypt = λ key nonce aad value. pad 16 value;
  decrypt = λ key nonce aad body. strip 16 body;
  encode_text = λ text. [];
  decode_text = λ bytes. no_text;
}

strip-pad : (n : ℕ) (value : Bytes) → strip n (pad n value) ≡ some value
strip-pad zero value = refl
strip-pad (suc n) value = strip-pad n value

strip_pads : (n : ℕ) (body value : Bytes) → strip n body ≡ some value → body ≡ pad n value
strip_pads zero body value e = ground arith
strip_pads (suc n) [] value e = cc
strip_pads (suc n) (zero ∷ body) value e = ap (◌∷◌ 0) (strip_pads n body value e)
strip_pads (suc n) (suc b ∷ body) value e = cc

length-pad : (n : ℕ) (value : Bytes) → length (pad n value) ≡ length value + n
length-pad zero value = omega arith
length-pad (suc n) value = omega (arith, length-pad n value)

pub plain_laws : AesGcm plain
plain_laws = record {
  decrypt-encrypt = λ key nonce aad value. strip-pad 16 value;
  decrypt_authentic = λ key nonce aad body value e. strip_pads 16 body value e;
  length-encrypt = λ key nonce aad value. length-pad 16 value;
}
