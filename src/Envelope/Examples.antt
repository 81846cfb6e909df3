-- ===== src/Envelope/Examples.antt =====
-- The theorems about frames at concrete inputs.
use dappdata.Base.{◌≡◌, refl, ◌⊎◌, inl, some, [], ◌∷◌, arith, ok, length}
use dappdata.Errors.{Bytes}
use dappdata.Envelope.Frame.{
  inline_mode, ref_mode, read_header, nonce_of, body_of, header_of, concat,
}
use dappdata.Envelope.Laws.{frame_of, open_frame-seal, open_frame_only_sealed}
use dappdata.Envelope.Plain.{plain, plain_laws}
use dappdata.Envelope.{seal, open_frame}

abbrev nonce : Bytes
nonce = 0 ∷ 1 ∷ 2 ∷ 3 ∷ 4 ∷ 5 ∷ 6 ∷ 7 ∷ 8 ∷ 9 ∷ 10 ∷ 11 ∷ []

abbrev frame : Bytes
frame = frame_of plain plain_laws [] (104 ∷ 105 ∷ []) "topic" 1 3 nonce

open_frame-seal_example :
    (f : Bytes) × (seal plain []
        (104 ∷ 105 ∷ [])
        (record { aad = "topic"; schema = some 3; mode = some inline_mode })
        nonce
      ≡ ok f)
    × (open_frame plain [] f "topic" ≡ ok (record { value = 104 ∷ 105 ∷ []; schema = 3; mode = 1 }))
    × (length f ≡ 34)
open_frame-seal_example =
    open_frame-seal plain plain_laws [] (104 ∷ 105 ∷ []) nonce "topic" 1 3 (omega arith) (inl refl)
      refl

open_frame_only_sealed_example :
    (frame ≡ frame_of plain plain_laws [] (104 ∷ 105 ∷ []) "topic" 1 3 (nonce_of frame))
    × ((1 ≡ inline_mode) ⊎ (1 ≡ ref_mode))
unfolding open_frame read_header nonce_of body_of header_of concat
open_frame_only_sealed_example =
    open_frame_only_sealed plain plain_laws [] frame "topic"
      (record { value = 104 ∷ 105 ∷ []; schema = 3; mode = 1 }) refl
