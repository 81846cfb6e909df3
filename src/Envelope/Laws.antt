-- ===== src/Envelope/Laws.antt =====
-- `seal` and `open` of packages/dappdata/src/envelope/index.ts, together.
use mathlib.Core.List.{append-nil}
use dappdata.Base.{
  ℕ, zero, suc, ◌+◌, ◌<◌, ◌≡◌, refl, sym, ap, ◌∙◌, subst, ◌⊎◌, String, Option, none, some, [], ◌∷◌,
  ◌++◌, arith, Result, ok, err, length, length-append, le→ltb, take, drop,
}
use dappdata.Errors.{Bytes, Failure}
use dappdata.Envelope.Frame.{
  Header, inline_mode, ref_mode, write_header, read_header, header_of, nonce_of, body_of, concat,
}
use dappdata.Envelope.{Platform, AesGcm, Opened, seal, open_frame, opened, open_with}

take-append : (n : ℕ) (xs ys : Bytes) → length xs ≡ n → take n (xs ++ ys) ≡ xs
take-append zero [] ys h = refl
take-append zero (x ∷ xs) ys h = absurd (omega arith)
take-append (suc n) [] ys h = absurd (omega arith)
take-append (suc n) (x ∷ xs) ys h = ap (◌∷◌ x) (take-append n xs ys (omega arith))

drop-append : (n : ℕ) (xs ys : Bytes) → length xs ≡ n → drop n (xs ++ ys) ≡ ys
drop-append zero [] ys h = refl
drop-append zero (x ∷ xs) ys h = absurd (omega arith)
drop-append (suc n) [] ys h = absurd (omega arith)
drop-append (suc n) (x ∷ xs) ys h = drop-append n xs ys (omega arith)

take-append-drop : (n : ℕ) (xs : Bytes) → take n xs ++ drop n xs ≡ xs
take-append-drop zero xs = refl
take-append-drop (suc n) [] = refl
take-append-drop (suc n) (x ∷ xs) = ap (◌∷◌ x) (take-append-drop n xs)

module _ {Key : Type 0} (c : Platform Key) (aes : AesGcm c) where
  -- The frame that sealing with this nonce makes.
  abbrev pub frame_of : Key → Bytes → String → ℕ → ℕ → Bytes → Bytes
  frame_of key value aad mode schema nonce =
      1
      ∷ 1
      ∷ mode
      ∷ schema
      ∷ (nonce ++ c.encrypt key nonce (1 ∷ 1 ∷ mode ∷ schema ∷ c.encode_text aad) value)

  seal_lem :
      (key : Key) (value nonce : Bytes) (aad : String) (mode schema : ℕ)
      → schema < 256
      → seal c key value (record { aad = aad; schema = some schema; mode = some mode }) nonce
        ≡ ok (frame_of key value aad mode schema nonce)
  unfolding seal write_header concat
  seal_lem key value nonce aad mode schema h =
      rw (le→ltb 255 schema (omega arith)) (simp append-nil)

  read_header-frame :
      (mode schema : ℕ) (rest : Bytes)
      → 12 < length rest
      → (mode ≡ 1) ⊎ (mode ≡ 2)
      → read_header (1 ∷ 1 ∷ mode ∷ schema ∷ rest)
        ≡ ok (record { version = 1; alg = 1; mode = mode; schema = schema })
  unfolding read_header
  read_header-frame mode schema rest h m = ground arith

  -- A value that is sealed in either mode, under any schema of one byte and a nonce of 12 bytes, opens
  -- under the same key and associated data, with the schema and the mode that it was sealed with. The
  -- frame is 32 bytes longer than the value.
  pub open_frame-seal :
      (key : Key) (value nonce : Bytes) (aad : String) (mode schema : ℕ)
      → schema < 256
      → (mode ≡ inline_mode) ⊎ (mode ≡ ref_mode)
      → length nonce ≡ 12
      → (frame : Bytes) × (seal c key value
            (record { aad = aad; schema = some schema; mode = some mode })
            nonce
          ≡ ok frame)
        × (open_frame c key frame aad ≡ ok (record { value = value; schema = schema; mode = mode }))
        × (length frame ≡ length value + 32)
  unfolding open_frame nonce_of body_of header_of concat
  open_frame-seal key value nonce aad mode schema h m n =
      let sealed = c.encrypt key nonce (1 ∷ 1 ∷ mode ∷ schema ∷ c.encode_text aad) value in
      let size = length-append nonce sealed in
      let sealed_size =
        aes.length-encrypt key nonce (1 ∷ 1 ∷ mode ∷ schema ∷ c.encode_text aad) value in
      (
        frame_of key value aad mode schema nonce,
        seal_lem key value nonce aad mode schema h,
        rw (
          read_header-frame mode schema (nonce ++ sealed) (omega arith) m,
          take-append 12 nonce sealed n,
          drop-append 12 nonce sealed n,
          append-nil,
          aes.decrypt-encrypt,
        ),
        omega arith,
      )

  open_with_ok :
      (key : Key) (frame : Bytes) (aad : String) (h : Result Failure Header) (r : Opened)
      → open_with c key frame aad h ≡ ok r
      → (header : Header) × (h ≡ ok header)
        × (opened c header (
              c.decrypt key
                (nonce_of frame)
                (concat (header_of frame ∷ c.encode_text aad ∷ []))
                (body_of frame))
            ≡ ok r)
  unfolding open_with
  open_with_ok key frame aad (ok header) r e = (header, refl, e)
  open_with_ok key frame aad (err f) r e = cc

  opened_ok :
      (h : Header) (o : Option Bytes) (r : Opened)
      → opened c h o ≡ ok r
      → (o ≡ some r.value) × (r.schema ≡ h.schema) × (r.mode ≡ h.mode)
  unfolding opened
  opened_ok h (some value) r e = ground arith
  opened_ok h none r e = cc

  read_header_ok :
      (v a m s : ℕ) (rest : Bytes) (h : Header)
      → read_header (v ∷ a ∷ m ∷ s ∷ rest) ≡ ok h
      → (v ≡ 1) × (a ≡ 1) × ((m ≡ 1) ⊎ (m ≡ 2)) × (h.mode ≡ m) × (h.schema ≡ s)
  unfolding read_header
  read_header_ok v a m s rest h e = ground arith

  in_mode : (m n : ℕ) → (m ≡ 1) ⊎ (m ≡ 2) → m ≡ n → (n ≡ 1) ⊎ (n ≡ 2)
  in_mode m n h e = ground arith

  rebuilt :
      (key : Key) (v a m s : ℕ) (rest text : Bytes) (r : Opened)
      → v ≡ 1
      → a ≡ 1
      → m ≡ r.mode
      → s ≡ r.schema
      → drop 12 rest ≡ c.encrypt key (take 12 rest) (v ∷ a ∷ m ∷ s ∷ text) r.value
      → ◌≡◌ {A = Bytes} (v ∷ a ∷ m ∷ s ∷ rest) (
          1
          ∷ 1
          ∷ r.mode
          ∷ r.schema
          ∷ (take 12 rest
              ++ c.encrypt key (take 12 rest) (1 ∷ 1 ∷ r.mode ∷ r.schema ∷ text) r.value))
  rebuilt key v a m s rest text r p q t u e = cc (take-append-drop 12 rest)

  -- Whatever opens was sealed: a frame that opens under a key and associated data is the frame that
  -- `seal` makes of the value that comes out, in the mode and under the schema that come out, with the
  -- nonce that the frame holds. So no byte of a frame can be changed, nor the frame be moved to other
  -- associated data, unless the cipher text fits both.
  pub open_frame_only_sealed :
      (key : Key) (frame : Bytes) (aad : String) (r : Opened)
      → open_frame c key frame aad ≡ ok r
      → (frame ≡ frame_of key r.value aad r.mode r.schema (nonce_of frame))
        × ((r.mode ≡ inline_mode) ⊎ (r.mode ≡ ref_mode))
  unfolding open_frame read_header header_of nonce_of body_of concat
  open_frame_only_sealed key [] aad r e = cc
  open_frame_only_sealed key (v ∷ []) aad r e = cc
  open_frame_only_sealed key (v ∷ a ∷ []) aad r e = cc
  open_frame_only_sealed key (v ∷ a ∷ m ∷ []) aad r e = cc
  open_frame_only_sealed key (v ∷ a ∷ m ∷ s ∷ rest) aad r e =
      let (h, read, opens) =
        open_with_ok key (v ∷ a ∷ m ∷ s ∷ rest) aad (read_header (v ∷ a ∷ m ∷ s ∷ rest)) r e in
      let (is_v, is_a, is_m, same_m, same_s) = read_header_ok v a m s rest h read in
      let (plain, schema, mode) =
        opened_ok h
          (c.decrypt key (take 12 rest) ((v ∷ a ∷ m ∷ s ∷ []) ++ c.encode_text aad ++ [])
            (drop 12 rest))
          r opens in
      let cipher = aes.decrypt_authentic key (take 12 rest) _ (drop 12 rest) r.value plain in
      let text : Bytes = c.encode_text aad in
      let m_is : m ≡ r.mode = sym same_m ∙ sym mode in
      let s_is : s ≡ r.schema = sym same_s ∙ sym schema in
      (
        rebuilt key v a m s rest text r is_v is_a m_is s_is (
            subst (λ x. drop 12 rest ≡ c.encrypt key (take 12 rest) (v ∷ a ∷ m ∷ s ∷ x) r.value)
              (append-nil text) cipher),
        in_mode m r.mode is_m m_is,
      )
