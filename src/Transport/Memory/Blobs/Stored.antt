-- ===== src/Transport/Memory/Blobs/Stored.antt =====
-- `putBlob` and `getBlob` of packages/dappdata/src/transport/memory.ts, together.
use text.Mathlib.Text.{◌==◌ as str_eq}
use dappdata.Base.{
  ◌≡◌, refl, sym, ◌∙◌, ap, subst, false, Bool-cases, inl, inr, ltb, String, List, [], ◌∷◌, ◌++◌,
  Result, ok, ◌>>=◌, length,
}
use dappdata.Errors.{Bytes, Failure}
use dappdata.Transport.Blob.{Chunk, upload_all, split_blob}
use dappdata.Transport.{Stamp, PutFeedUpdate, batch, marshalled, signer, stamp_batch_id}
use dappdata.Transport.Memory.{
  World, Tools, ask_stamp, store_update, finish_put, put_feed_update, put_chunk, put_blob, get_blob,
}
use dappdata.Transport.Memory.Serves.{CanPay}
use dappdata.Transport.Memory.Blobs.{
  all_chunks, AllRead, Addressed, CoreSdk, chunk_at, Grown, Grown-trans, SeenStored, upload-Grown,
}

AllRead-append :
    (read : Bytes → Result Failure Bytes) (chunks : List Chunk) (last : Chunk)
    → AllRead read chunks
    → read last.address ≡ ok last.bytes
    → AllRead read (chunks ++ last ∷ [])
AllRead-append read [] last h e = (e, tt)
AllRead-append read (chunk ∷ rest) last (h, hs) e = (h, AllRead-append read rest last hs e)

Addressed-append :
    (bytes_of : Bytes → Bytes) (chunks : List Chunk) (last : Chunk)
    → Addressed bytes_of (chunks ++ last ∷ [])
    → Addressed bytes_of chunks × (bytes_of last.address ≡ last.bytes)
Addressed-append bytes_of [] last (e, h) = (tt, e)
Addressed-append bytes_of (chunk ∷ rest) last (e, h) =
    let (es, l) = Addressed-append bytes_of rest last h in ((e, es), l)

module _ {A : Type 0} (t : Tools) {Good : Bytes → Type 0} (sdk : CoreSdk t Good) where
  -- All chunks that the splitter makes of `content` are in the map, under a root that the reference
  -- names.
  pub record Stored (w : World A) (reference : String) (content : Bytes) : Type 0 where
    pub good : Good content
    pub names_root : t.of_hex reference ≡ (t.splitter content).root.address
    pub plain : t.hex_length reference ≡ 64
    pub all_read : AllRead (chunk_at w) (all_chunks (t.splitter content))

  AllRead-Grown :
      (w w' : World A) (chunks : List Chunk)
      → Addressed sdk.bytes_of chunks
      → Grown t sdk w w'
      → AllRead (chunk_at w) chunks
      → AllRead (chunk_at w') chunks
  AllRead-Grown w w' [] e g h = tt
  AllRead-Grown w w' (chunk ∷ rest) (e, es) g (h, hs) =
      (g.keeps_chunk chunk.address (h ∙ ap ok (sym e)) ∙ ap ok e, AllRead-Grown w w' rest es g hs)

  pub Stored-Grown :
      (w w' : World A) (reference : String) (content : Bytes)
      → Grown t sdk w w'
      → Stored w reference content
      → Stored w' reference content
  Stored-Grown w w' reference content g s = record {
    good = s.good;
    names_root = s.names_root;
    plain = s.plain;
    all_read =
        AllRead-Grown w w' (all_chunks (t.splitter content)) (sdk.addressed content s.good) g
          s.all_read;
  }

  pub Stored-same :
      (w w' : World A) (reference : String) (content : Bytes)
      → w'.maps.chunks ≡ w.maps.chunks
      → Stored w reference content
      → Stored w' reference content
  Stored-same w w' reference content e s = record {
    good = s.good;
    names_root = s.names_root;
    plain = s.plain;
    all_read = rw e s.all_read;
  }

  stamped_put-chunks :
      (put : PutFeedUpdate (World A)) (stamp : Stamp (World A)) (address : Bytes)
      → CanPay stamp
      → (w w' : World A) → (ask_stamp t stamp address >>= finish_put t put) w ≡ (ok tt, w')
      → w'.maps.chunks ≡ w.maps.chunks
  unfolding ask_stamp finish_put store_update ◌>>=◌
  stamped_put-chunks put (batch id) address pays w w' e = ap (λ r. r.1.maps.chunks) (sym e)
  stamped_put-chunks put (marshalled id bytes) address pays w w' e =
      ap (λ r. r.1.maps.chunks) (sym e)
  stamped_put-chunks put (signer id sign) address (named, signs) w w' e =
      let (stamped, after, done) = signs address w in ap (λ r. r.1.maps.chunks) (sym (rw done at e))

  -- A put that succeeded leaves the chunks as they were, if its signer leaves the maps alone.
  pub put_feed_update-chunks :
      (put : PutFeedUpdate (World A))
      → CanPay put.stamp
      → (w w' : World A) → put_feed_update t put w ≡ (ok tt, w')
      → w'.maps.chunks ≡ w.maps.chunks
  unfolding put_feed_update
  put_feed_update-chunks put pays w w' e =
      elim (Bool-cases (str_eq (stamp_batch_id put.stamp) "")) [
        | inl b ↦ absurd (let k = rw b at e in cc)
        | inr b ↦ elim (Bool-cases (ltb 4096 (length put.payload))) [
          | inl g ↦ absurd (let k = rw (b, g) at e in cc)
          | inr g ↦ stamped_put-chunks put put.stamp _ pays w w' (rw (b, g) at e)
        ]
      ]

  -- `getBlob` of a stored blob returns its content.
  pub get_blob-Stored :
      (w : World A) (reference : String) (content : Bytes)
      → Stored w reference content
      → get_blob t reference w ≡ (ok content, w)
  unfolding get_blob
  get_blob-Stored w reference content s =
      rw (s.plain, s.names_root, sdk.join-splitter content (chunk_at w) s.good s.all_read) refl

  module _ (stamp : Stamp (World A)) (pays : CanPay stamp) where
    upload_all-Grown :
        (seen : List Bytes) (chunks : List Chunk) (w : World A)
        → Addressed sdk.bytes_of chunks
        → SeenStored t sdk w seen
        → (seen' : List Bytes) × (w' : World A) × (upload_all (put_chunk t stamp) seen chunks w
            ≡ (ok seen', w'))
          × AllRead (chunk_at w') chunks
          × SeenStored t sdk w' seen'
          × Grown t sdk w w'
    unfolding upload_all ◌>>=◌
    upload_all-Grown seen [] w e h = (
      seen,
      w,
      refl,
      tt,
      h,
      record { same_feeds = refl; same_latest = refl; keeps_chunk = λ a k. k },
    )
    upload_all-Grown seen (chunk ∷ rest) w (e, es) h =
        let (seen1, w1, done1, here, have, grown1) =
          upload-Grown t sdk stamp pays seen chunk w e h in
        let (seen2, w2, done2, read, have', grown2) = upload_all-Grown seen1 rest w1 es have in
        (
          seen2,
          w2,
          rw (done1, done2) refl,
          (grown2.keeps_chunk chunk.address (here ∙ ap ok (sym e)) ∙ ap ok e, read),
          have',
          Grown-trans t sdk w w1 w2 grown1 grown2,
        )

    split_blob-Stored :
        (content : Bytes) (w : World A)
        → Good content
        → (w' : World A) × (split_blob (put_chunk t stamp) t.splitter content w
            ≡ (ok (t.splitter content).root.address, w'))
          × Stored w' (t.to_hex (t.splitter content).root.address) content
          × Grown t sdk w w'
    unfolding split_blob ◌>>=◌
    split_blob-Stored content w good =
        let split = t.splitter content in
        let (es, e) =
          Addressed-append sdk.bytes_of split.below split.root (sdk.addressed content good) in
        let (seen1, w1, done1, read, have, grown1) =
          upload_all-Grown [] split.below w es (λ a k. cc) in
        let (seen2, w2, done2, here, have', grown2) =
          upload-Grown t sdk stamp pays seen1 split.root w1 e have in
        (
          w2,
          rw (done1, done2) refl,
          record {
            good = good;
            names_root = sdk.of_hex-to_hex content good;
            plain = sdk.hex_length-root content good;
            all_read =
                AllRead-append (chunk_at w2) split.below split.root
                  (AllRead-Grown w1 w2 split.below es grown2 read) here;
          },
          Grown-trans t sdk w w1 w2 grown1 grown2,
        )

    named_batch : str_eq (stamp_batch_id stamp) "" ≡ false
    unfolding stamp_batch_id
    named_batch = go stamp pays
      where
        go : (stamp : Stamp (World A)) → CanPay stamp → str_eq (stamp_batch_id stamp) "" ≡ false
        go (batch id) p = p
        go (marshalled id bytes) p = p
        go (signer id sign) (p, signs) = p

    -- `putBlob` with a stamp that pays succeeds. All chunks of the blob are then in the map, each one
    -- that was there before still is, and the feeds are as they were.
    pub put_blob-Stored :
        (content : Bytes) (w : World A)
        → Good content
        → (reference : String) × (w' : World A) × (put_blob t content stamp w ≡ (ok reference, w'))
          × Stored w' reference content
          × Grown t sdk w w'
    unfolding put_blob ◌>>=◌
    put_blob-Stored content w good =
        let (w', done, stored, grown) = split_blob-Stored content w good in
        (t.to_hex (t.splitter content).root.address, w', rw (named_batch, done) refl, stored, grown)

  -- What may happen to the maps later: puts of blobs and of updates that succeed.
  pub data Later (w : World A) : World A → Type 0 where
    now : Later w w
    put_one :
        {v v' : World A} (content : Bytes) (stamp : Stamp (World A)) (reference : String)
        → Later w v
        → Good content
        → CanPay stamp
        → put_blob t content stamp v ≡ (ok reference, v')
        → Later w v'
    update :
        {v v' : World A} (put : PutFeedUpdate (World A))
        → Later w v
        → CanPay put.stamp
        → put_feed_update t put v ≡ (ok tt, v')
        → Later w v'

  Later-Stored :
      (w : World A) (reference : String) (content : Bytes) (v : World A)
      → Stored w reference content
      → Later w v
      → Stored v reference content
  Later-Stored w reference content v s now = s
  Later-Stored w reference content v' s (put_one {v} other stamp name l good pays e) =
      let (name', u, done, stored, grown) = put_blob-Stored stamp pays other v good in
      let same : u ≡ v' = cc in
      subst (λ x. Stored x reference content) same
        (Stored-Grown v u reference content grown (Later-Stored w reference content v s l))
  Later-Stored w reference content v' s (update {v} put l pays e) =
      Stored-same v v' reference content (put_feed_update-chunks put pays v v' e)
        (Later-Stored w reference content v s l)

  -- If the splitter is right about the content and the stamp pays, `putBlob` succeeds, and `getBlob` of
  -- its reference returns the content, at once and after whatever puts of blobs and updates follow.
  pub get_blob-put_blob :
      (stamp : Stamp (World A)) (pays : CanPay stamp) (content : Bytes) (w : World A)
      → Good content
      → (reference : String) × (w' : World A) × (put_blob t content stamp w ≡ (ok reference, w'))
        × ((w'' : World A) → Later w' w'' → get_blob t reference w'' ≡ (ok content, w''))
  get_blob-put_blob stamp pays content w good =
      let (reference, w', done, stored, grown) = put_blob-Stored stamp pays content w good in
      (
        reference,
        w',
        done,
        λ w'' l.
            get_blob-Stored w'' reference content (Later-Stored w' reference content w'' stored l),
      )
