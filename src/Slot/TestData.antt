-- ===== src/Slot/TestData.antt =====
-- Test data: a blob, the in-memory transport with hashes that are easy to follow, and options for
-- slots of bytes.
use text.Mathlib.Text.{◌==◌ as str_eq}
use text.Mathlib.TextEquality.{eq_iff}
use dappdata.Base.{
  ℕ, ◌≡◌, ◌∙◌, zero, suc, refl, ap, sym, String, none, [], ◌∷◌, arith, if◌then◌else◌, ok,
}
use dappdata.Base.Assoc.{get_value}
use dappdata.Errors.{Bytes}
use dappdata.Envelope.{Platform, AesGcm}
use dappdata.Envelope.Plain.{plain, plain_laws}
use dappdata.Transport.{Stamp, batch}
use dappdata.Transport.Memory.{Tools, World, no_maps}
use dappdata.Transport.Memory.Serves.{Holds}
use dappdata.Transport.Memory.Blobs.{CoreSdk}
use dappdata.Slot.{SlotOptions}

-- One blob, and one reference to it.
abbrev pub the_blob : Bytes
the_blob = 5 ∷ []

abbrev pub IsTheBlob : Bytes → Type 0
IsTheBlob content = content ≡ the_blob

abbrev pub tools : Tools
tools = record {
  address_of = λ key. "0xa";
  lower_case = λ s. s;
  chunk_address = λ owner topic index. index ∷ [];
  splitter = λ bytes. record { below = []; root = record { address = 1 ∷ []; bytes = the_blob } };
  join = λ reference read. read (1 ∷ []);
  to_hex = λ bytes. "r";
  of_hex = λ s. 1 ∷ [];
  hex_length = λ s. if str_eq s "r" then 64 else 0;
  plain_id = λ s. s;
}

abbrev pub sdk : CoreSdk tools IsTheBlob
sdk = record {
  bytes_of = λ address. the_blob;
  addressed = λ content g. (refl, tt);
  join-splitter = λ content read g h. h.0 ∙ ap ok (sym g);
  of_hex-to_hex = λ content g. refl;
  hex_length-root = λ content g. refl;
}

abbrev pub paid : Stamp (World Unit)
paid = batch "b1"

abbrev pub no_world : World Unit
no_world = record { maps = no_maps; outside = tt }

abbrev pub zeros : ℕ → Bytes
zeros zero = []
zeros (suc n) = 0 ∷ zeros n

abbrev pub platform : Platform Bytes
platform = record plain { encode_text = λ text. zeros 64; decode_text = λ bytes. "r" }

pub platform_laws : AesGcm platform
platform_laws = record {
  decrypt-encrypt = plain_laws.decrypt-encrypt;
  decrypt_authentic = plain_laws.decrypt_authentic;
  length-encrypt = plain_laws.length-encrypt;
}

pub only_reference : (s : String) → tools.hex_length s ≡ 64 → s ≡ "r"
only_reference s e = ground (arith, eq_iff s "r")

abbrev pub options : SlotOptions (World Unit) Bytes
options = record {
  schema = none;
  migrate = none;
  codec = record { encode = λ value. ok value; decode = λ bytes. ok bytes };
  stamp = none;
}

pub no_world-Holds : Holds tools "0xa" (9 ∷ []) no_world []
unfolding get_value
no_world-Holds = record { holds_at = λ i. refl; holds_last = refl }
