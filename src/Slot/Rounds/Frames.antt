-- ===== src/Slot/Rounds/Frames.antt =====
-- `#frame` and `#resolve` of packages/dappdata/src/slot/index.ts, together.
use dappdata.Base.{
  ℕ, ◌+◌, ◌≡◌, ◌≤◌, ◌<◌, refl, Bool-cases, ◌⊎◌, inl, inr, String, some, List, arith, ltb, ltb→le,
  ltb→lt, le→ltb, Result, ok, ◌>>=◌, length,
}
use dappdata.Errors.{Bytes, Failure}
use dappdata.Envelope.Frame.{inline_mode, ref_mode}
use dappdata.Envelope.Laws.{open_frame-seal}
use dappdata.Envelope.{seal, open_frame}
use dappdata.Transport.{Stamp}
use dappdata.Slot.Serves.{Keeps, Dependable, Storable}
use dappdata.Slot.{
  SlotContext, SlotState, max_inline_bytes, wanted, unwrap, follow, resolve, decode_with,
  read_payload, seal_next, fits_chunk, frame_blob, frame_bytes, frame,
}

module _ {W T Key : Type 0} (c : SlotContext W T Key) {Holds : W → List Bytes → Type 0}
    {CanPay : Stamp W → Type 0} {Room : List Bytes → Type 0} {Stored : W → String → Bytes → Type 0}
    {Good : Bytes → Type 0} (d : Dependable c Holds CanPay Room Stored Good) where
  sealing :
      (value : Bytes) (mode n : ℕ)
      → (mode ≡ inline_mode) ⊎ (mode ≡ ref_mode)
      → (p : Bytes) × (seal c.platform c.key value
            (record { aad = c.aad; schema = some (wanted c); mode = some mode })
            (c.random n)
          ≡ ok p)
        × (open_frame c.platform c.key p c.aad
            ≡ ok (record { value = value; schema = wanted c; mode = mode }))
        × (length p ≡ length value + 32)
  sealing value mode n m =
      open_frame-seal c.platform d.aes c.key value (c.random n) c.aad mode (wanted c) d.schema_byte
        m (d.nonce_length n)

  -- In every world that keeps the blobs of `w`, the payload reads as the value.
  abbrev pub ReadsFrom : W → Bytes → T → Type 0
  ReadsFrom w p value =
      (w' : W) → Keeps Stored w w' → read_payload c p w' ≡ (ok (value, wanted c), w')

  -- A payload that reads as the value wherever the blobs of `s'` are kept, written without a change to
  -- the feed's log.
  abbrev pub Framed : SlotState W → List Bytes → T → Result Failure Bytes × SlotState W → Type 0
  Framed s l value r =
      (p : Bytes) × (w' : W) × (n : ℕ) × (r
        ≡ (ok p, record { feed = record (s.feed) { world = w' }; drawn = n }))
      × (length p ≤ 4096)
      × Holds w' l
      × Keeps Stored s.feed.world w'
      × ReadsFrom w' p value

  read_inline :
      (w : W) (value : T) (bytes p : Bytes)
      → c.options.codec.decode bytes ≡ ok value
      → open_frame c.platform c.key p c.aad
        ≡ ok (record { value = bytes; schema = wanted c; mode = inline_mode })
      → read_payload c p w ≡ (ok (value, wanted c), w)
  unfolding read_payload resolve decode_with ◌>>=◌
  read_inline w value bytes p dec op = rw (op, dec) refl

  read_blob :
      (w : W) (value : T) (bytes blob p : Bytes) (reference : String)
      → c.options.codec.decode bytes ≡ ok value
      → open_frame c.platform c.key blob c.aad
        ≡ ok (record { value = bytes; schema = wanted c; mode = inline_mode })
      → Stored w reference blob
      → open_frame c.platform c.key p c.aad
        ≡ ok (record {
          value = c.platform.encode_text reference;
          schema = wanted c;
          mode = ref_mode;
        })
      → read_payload c p w ≡ (ok (value, wanted c), w)
  unfolding read_payload resolve follow unwrap decode_with ◌>>=◌
  read_blob w value bytes blob p reference dec op st or =
      let (hex, len, text) = d.blobs.plain_reference w reference blob st in
      rw (or, text, d.blobs.get_stored w reference blob st, hex, op, dec) refl

  frame_blob-Framed :
      (s : SlotState W) (l : List Bytes) (value : T) (bytes : Bytes) (stamp : Stamp W)
      → Holds s.feed.world l
      → CanPay stamp
      → c.options.codec.decode bytes ≡ ok value
      → max_inline_bytes < length bytes
      → Storable c Good s.drawn bytes
      → Framed s l value (frame_blob c bytes stamp s)
  unfolding frame_blob seal_next fits_chunk ◌>>=◌
  frame_blob-Framed s l value bytes stamp h pays dec big good =
      let (blob, made, opens, size) = sealing bytes inline_mode s.drawn (inl refl) in
      let (reference, w', put, stored, holds, keeps) =
        d.blobs.put_stored s.feed.world l blob stamp h pays (good big blob made) in
      let (hex, len, text) = d.blobs.plain_reference w' reference blob stored in
      let (p, made', opens', size') =
        sealing (c.platform.encode_text reference) ref_mode (s.drawn + 1) (inr refl) in
      (
        p,
        w',
        s.drawn + 1 + 1,
        rw (made, put, made', le→ltb 4096 (length p) (omega arith)) refl,
        omega arith,
        holds,
        keeps,
        λ w'' k.
            read_blob w'' value bytes blob p reference dec opens (k reference blob stored) opens',
      )

  frame_bytes-Framed :
      (s : SlotState W) (l : List Bytes) (value : T) (bytes : Bytes) (stamp : Stamp W)
      → Holds s.feed.world l
      → CanPay stamp
      → c.options.codec.decode bytes ≡ ok value
      → Storable c Good s.drawn bytes
      → Framed s l value (frame_bytes c stamp bytes s)
  unfolding frame_bytes seal_next
  frame_bytes-Framed s l value bytes stamp h pays dec good =
      elim (Bool-cases (ltb max_inline_bytes (length bytes))) [
        | inl e ↦ rw e (
            frame_blob-Framed s l value bytes stamp h pays dec
              (ltb→lt max_inline_bytes (length bytes) e) good)
        | inr e ↦
            let (p, made, opens, size) = sealing bytes inline_mode s.drawn (inl refl) in
            rw e (
              p,
              s.feed.world,
              s.drawn + 1,
              rw made refl,
              omega (arith, ltb→le max_inline_bytes (length bytes) e),
              h,
              (λ r b k. k),
              λ w' k. read_inline w' value bytes p dec opens,
            )
      ]

  pub frame-Framed :
      (s : SlotState W) (l : List Bytes) (value : T) (bytes : Bytes) (stamp : Stamp W)
      → Holds s.feed.world l
      → CanPay stamp
      → c.options.codec.encode value ≡ ok bytes
      → Storable c Good s.drawn bytes
      → Framed s l value (frame c value stamp s)
  unfolding frame ◌>>=◌
  frame-Framed s l value bytes stamp h pays enc good =
      rw enc
        (frame_bytes-Framed s l value bytes stamp h pays (d.decode-encode value bytes enc) good)
