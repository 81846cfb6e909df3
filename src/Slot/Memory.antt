-- ===== src/Slot/Memory.antt =====
-- A slot over the transport of packages/dappdata/src/transport/memory.ts.
use dappdata.Base.{ℕ, ◌≡◌, ◌<◌, String, Option, some, List, ok, length}
use dappdata.Errors.{Bytes}
use dappdata.Envelope.{Platform, AesGcm}
use dappdata.Transport.{Stamp}
use dappdata.Transport.Memory.{World, Tools, memory}
use dappdata.Transport.Memory.Serves.{Holds, CanPay, NoLimit, memory_feed, memory-ServesLog}
use dappdata.Transport.Memory.Blobs.{CoreSdk, Grown}
use dappdata.Transport.Memory.Blobs.Stored.{
  Stored, Stored-Grown, get_blob-Stored, put_blob-Stored, Stored-same, put_feed_update-chunks,
}
use dappdata.Slot.Serves.{Dependable}
use dappdata.Slot.{SlotContext, SlotOptions, wanted}

module _ {A T Key : Type 0} (t : Tools) {Good : Bytes → Type 0} (sdk : CoreSdk t Good)
    (owner : String) (topic : Bytes) (mine : Option Bytes) (key : Key) (aad : String)
    (stamp : Option (Stamp (World A))) (options : SlotOptions (World A) T) (platform : Platform Key)
    (random : ℕ → Bytes) where
  abbrev pub memory_slot : SlotContext (World A) T Key
  memory_slot = record {
    feed = memory_feed t owner topic mine;
    transport = memory t;
    key = key;
    aad = aad;
    stamp = stamp;
    options = options;
    platform = platform;
    hex_length = t.hex_length;
    random = random;
  }

  module _
      (same : (key : Bytes)
        → mine ≡ some key
        → t.lower_case (t.address_of key) ≡ t.lower_case owner)
      (aes : AesGcm platform) (nonce_length : (n : ℕ) → length (random n) ≡ 12)
      (schema_byte : wanted memory_slot < 256)
      (decode-encode : (value : T) (bytes : Bytes)
        → options.codec.encode value ≡ ok bytes
        → options.codec.decode bytes ≡ ok value)
      (text : (reference : String)
        → t.hex_length reference ≡ 64
        → (length (platform.encode_text reference) ≡ 64)
          × (platform.decode_text (platform.encode_text reference) ≡ reference)) where
    Holds-Grown :
        (w w' : World A) (l : List Bytes)
        → Grown t sdk w w'
        → Holds t owner topic w l
        → Holds t owner topic w' l
    Holds-Grown w w' l g h = record {
      holds_at = λ i. rw (g.same_feeds) (h.holds_at i);
      holds_last = rw (g.same_latest) (h.holds_last);
    }

    pub memory-Dependable :
        Dependable memory_slot (Holds t owner topic) CanPay NoLimit (Stored t sdk) Good
    memory-Dependable = record {
      aes = aes;
      log = memory-ServesLog t owner topic mine same;
      blobs = record {
        put_stored = λ w l content stamp h pays good.
            let (reference, w', done, stored, grown) =
              put_blob-Stored t sdk stamp pays content w good in
            (
              reference,
              w',
              done,
              stored,
              Holds-Grown w w' l grown h,
              λ r b s. Stored-Grown t sdk w w' r b grown s,
            );
        get_stored = get_blob-Stored t sdk;
        plain_reference = λ w reference content s.
            let (len, back) = text reference s.plain in (s.plain, len, back);
        put_keeps = λ w w' put pays done r b s.
            Stored-same t sdk w w' r b (put_feed_update-chunks t sdk put pays w w' done) s;
      };
      nonce_length = nonce_length;
      schema_byte = schema_byte;
      decode-encode = decode-encode;
    }
