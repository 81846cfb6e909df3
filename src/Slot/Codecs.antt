-- ===== src/Slot/Codecs.antt =====
-- packages/dappdata/src/slot/codec.ts: the codecs of a slot. JSON, TextEncoder and TextDecoder are
-- parameters; what `JSON.parse` throws, the JSON codec throws as a bad envelope.
use dappdata.Base.{◌≡◌, refl, sym, Option, none, some, Result, ok, err}
use dappdata.Base.Hex.{Text}
use dappdata.Errors.{Bytes, Failure, dapp_data_error, bad_envelope}
use dappdata.Slot.{Codec}

-- `parse` is none where `JSON.parse` throws.
pub record JsonTools (T : Type 0) : Type 0 where
  pub stringify : T → Result Failure Text
  pub parse : Text → Option T
  pub encode_text : Text → Bytes
  pub decode_text : Bytes → Text

abbrev pub parsed : {T : Type 0} → Option T → Result Failure T
parsed none = err (dapp_data_error bad_envelope)
parsed (some value) = ok value

abbrev pub encoded : {T : Type 0} → JsonTools T → Result Failure Text → Result Failure Bytes
encoded t (ok text) = ok (t.encode_text text)
encoded t (err e) = err e

abbrev pub json_codec : {T : Type 0} → JsonTools T → Codec T
json_codec t = record {
  encode = λ value. encoded t (t.stringify value);
  decode = λ bytes. parsed (t.parse (t.decode_text bytes));
}

abbrev pub bytes_codec : Codec Bytes
bytes_codec = record { encode = λ value. ok value; decode = λ bytes. ok bytes }

parsed-failure :
    {T : Type 0} (o : Option T) (e : Failure) → parsed o ≡ err e → e ≡ dapp_data_error bad_envelope
parsed-failure none e h = cc
parsed-failure (some value) e h = absurd (cc)

-- Whatever bytes a slot holds, the JSON codec throws nothing but a bad envelope.
pub decode_failure :
    {T : Type 0} (t : JsonTools T) (bytes : Bytes) (e : Failure)
    → (json_codec t).decode bytes ≡ err e
    → e ≡ dapp_data_error bad_envelope
decode_failure t bytes e h = parsed-failure (t.parse (t.decode_text bytes)) e h

decoded-encoded :
    {T : Type 0} (t : JsonTools T) (value : T) (r : Result Failure Text) (bytes : Bytes)
    → t.stringify value ≡ r
    → ((s : Text) → t.decode_text (t.encode_text s) ≡ s)
    → ((v : T) (s : Text) → t.stringify v ≡ ok s → t.parse s ≡ some v)
    → encoded t r ≡ ok bytes
    → (json_codec t).decode bytes ≡ ok value
decoded-encoded t value (err e) bytes is utf8 json h = absurd (cc)
decoded-encoded t value (ok s) bytes is utf8 json h =
    let same : t.encode_text s ≡ bytes = cc in rw (sym same, utf8 s, json value s is) refl

-- If the decoder undoes the encoder, and the parser reads what the printer prints, then a value that
-- the JSON codec encodes is decoded to itself.
pub decode-encode :
    {T : Type 0} (t : JsonTools T) (value : T) (bytes : Bytes)
    → ((s : Text) → t.decode_text (t.encode_text s) ≡ s)
    → ((v : T) (s : Text) → t.stringify v ≡ ok s → t.parse s ≡ some v)
    → (json_codec t).encode value ≡ ok bytes
    → (json_codec t).decode bytes ≡ ok value
decode-encode t value bytes utf8 json h =
    decoded-encoded t value (t.stringify value) bytes refl utf8 json h
