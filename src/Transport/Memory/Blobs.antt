-- ===== src/Transport/Memory/Blobs.antt =====
-- The chunks that `putBlob` of packages/dappdata/src/transport/memory.ts uploads.
pub mod Stored
use text.Mathlib.Text.{◌==◌ as str_eq}
use dappdata.Base.{
  ℕ, ◌+◌, ◌≡◌, refl, sym, ◌∙◌, ap, subst, Bool, true, false, Bool-cases, ◌⊎◌, inl, inr, String,
  Option, none, some, List, [], ◌∷◌, ◌++◌, arith, ◌==◌, ==_iff, if◌then◌else◌, Result, ok, err,
  Exec, continue, ◌>>=◌, pure, lift, length,
}
use dappdata.Base.Assoc.{get_value, set_value, get_value-set_value, same_bytes, same_bytes_iff}
use dappdata.Errors.{Bytes, Failure}
use dappdata.Transport.Blob.{Chunk, Split, is_seen, upload, upload_all, split_blob}
use dappdata.Transport.{Stamp, batch, marshalled, signer, stamp_batch_id}
use dappdata.Transport.Memory.{
  World, Maps, Tools, byte_keys, or_missing, ask_stamp, store_chunk, put_chunk, put_blob, get_blob,
}
use dappdata.Transport.Memory.Serves.{CanPay}

abbrev pub all_chunks : Split → List Chunk
all_chunks split = split.below ++ split.root ∷ []

abbrev pub AllRead : (Bytes → Result Failure Bytes) → List Chunk → Type 0
AllRead read [] = Unit {0}
AllRead read (chunk ∷ rest) = (read chunk.address ≡ ok chunk.bytes) × AllRead read rest

abbrev pub Addressed : (Bytes → Bytes) → List Chunk → Type 0
Addressed bytes_of [] = Unit {0}
Addressed bytes_of (chunk ∷ rest) = (bytes_of chunk.address ≡ chunk.bytes) × Addressed bytes_of rest

-- What the libraries promise of the contents in use, `Good`: an address names one chunk's bytes, a joiner that can read every chunk of
-- a split makes the content again, and a root's address is 64 hexadecimal digits that read back.
pub record CoreSdk (t : Tools) (Good : Bytes → Type 0) : Type 0 where
  pub bytes_of : Bytes → Bytes
  pub addressed :
      (content : Bytes) → Good content → Addressed bytes_of (all_chunks (t.splitter content))
  pub join-splitter :
      (content : Bytes) (read : Bytes → Result Failure Bytes)
      → Good content
      → AllRead read (all_chunks (t.splitter content))
      → t.join (t.splitter content).root.address read ≡ ok content
  pub of_hex-to_hex :
      (content : Bytes)
      → Good content
      → t.of_hex (t.to_hex (t.splitter content).root.address) ≡ (t.splitter content).root.address
  pub hex_length-root :
      (content : Bytes)
      → Good content
      → t.hex_length (t.to_hex (t.splitter content).root.address) ≡ 64

abbrev pub chunk_at : {A : Type 0} → World A → Bytes → Result Failure Bytes
chunk_at w address = or_missing (get_value byte_keys w.maps.chunks address)

module _ {A : Type 0} (t : Tools) {Good : Bytes → Type 0} (sdk : CoreSdk t Good) where
  -- The feeds are the same, and a chunk that was there still is.
  pub record Grown (w w' : World A) : Type 0 where
    pub same_feeds : w'.maps.feeds ≡ w.maps.feeds
    pub same_latest : w'.maps.latest ≡ w.maps.latest
    pub keeps_chunk :
        (a : Bytes) → chunk_at w a ≡ ok (sdk.bytes_of a) → chunk_at w' a ≡ ok (sdk.bytes_of a)

  pub Grown-trans : (u v w : World A) → Grown u v → Grown v w → Grown u w
  Grown-trans u v w g h = record {
    same_feeds = h.same_feeds ∙ g.same_feeds;
    same_latest = h.same_latest ∙ g.same_latest;
    keeps_chunk = λ a e. h.keeps_chunk a (g.keeps_chunk a e);
  }

  store_chunk-Grown :
      (w : World A) (after : A) (chunk : Chunk) (stamped : Option Bytes)
      → sdk.bytes_of chunk.address ≡ chunk.bytes
      → (w' : World A) × (store_chunk t chunk.address chunk.bytes stamped
            (record w { outside = after })
          ≡ (ok tt, w'))
        × (chunk_at w' chunk.address ≡ ok chunk.bytes)
        × Grown w w'
  unfolding store_chunk or_missing
  store_chunk-Grown w after chunk stamped e = (
    _,
    refl,
    rw
        (
          get_value-set_value byte_keys w.maps.chunks chunk.address chunk.bytes chunk.address,
          (same_bytes_iff chunk.address chunk.address).1 refl,
        )
        refl,
    record {
      same_feeds = refl;
      same_latest = refl;
      keeps_chunk = λ a h.
          rw (get_value-set_value byte_keys w.maps.chunks chunk.address chunk.bytes a)
            (elim (Bool-cases (same_bytes chunk.address a)) [
              | inl s ↦
                  rw (s, sym e)
                    (ap (λ b. ok (sdk.bytes_of b)) ((same_bytes_iff chunk.address a).0 s))
              | inr s ↦ rw s h
            ]);
    },
  )

  put_chunk-Grown :
      (stamp : Stamp (World A)) (w : World A) (chunk : Chunk)
      → CanPay stamp
      → sdk.bytes_of chunk.address ≡ chunk.bytes
      → (w' : World A) × (put_chunk t stamp chunk.address chunk.bytes w ≡ (ok tt, w'))
        × (chunk_at w' chunk.address ≡ ok chunk.bytes)
        × Grown w w'
  unfolding put_chunk ask_stamp ◌>>=◌
  put_chunk-Grown (batch id) w chunk pays e = store_chunk-Grown w w.outside chunk none e
  put_chunk-Grown (marshalled id bytes) w chunk pays e = store_chunk-Grown w w.outside chunk none e
  put_chunk-Grown (signer id sign) w chunk (named, signs) e =
      let (stamped, after, done) = signs chunk.address w in
      rw done (store_chunk-Grown w after chunk (some stamped) e)

  -- Every address in the set was uploaded.
  abbrev pub SeenStored : World A → List Bytes → Type 0
  SeenStored w seen = (a : Bytes) → is_seen seen a ≡ true → chunk_at w a ≡ ok (sdk.bytes_of a)

  module _ (stamp : Stamp (World A)) (pays : CanPay stamp) where
    pub upload-Grown :
        (seen : List Bytes) (chunk : Chunk) (w : World A)
        → sdk.bytes_of chunk.address ≡ chunk.bytes
        → SeenStored w seen
        → (seen' : List Bytes) × (w' : World A) × (upload (put_chunk t stamp) seen chunk w
            ≡ (ok seen', w'))
          × (chunk_at w' chunk.address ≡ ok chunk.bytes)
          × SeenStored w' seen'
          × Grown w w'
    unfolding upload ◌>>=◌
    upload-Grown seen chunk w e have = elim (Bool-cases (is_seen seen chunk.address)) [
      | inl s ↦ (
        seen,
        w,
        rw s refl,
        have chunk.address s ∙ ap ok e,
        have,
        record { same_feeds = refl; same_latest = refl; keeps_chunk = λ a h. h },
      )
      | inr s ↦
          let (w', done, here, grown) = put_chunk-Grown stamp w chunk pays e in
          (
            chunk.address ∷ seen,
            w',
            rw (s, done) refl,
            here,
            (λ a. elim (Bool-cases (same_bytes chunk.address a)) [
              | inl q ↦ λ k.
                  subst (λ b. chunk_at w' b ≡ ok (sdk.bytes_of b))
                    ((same_bytes_iff chunk.address a).0 q) (here ∙ ap ok (sym e))
              | inr q ↦ λ k. grown.keeps_chunk a (have a (rw q at k))
            ]),
            grown,
          )
    ]
