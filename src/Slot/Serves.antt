-- ===== src/Slot/Serves.antt =====
-- What a slot relies on: the cipher, a feed that serves a log, a transport that keeps blobs, and a
-- codec that reads what it writes.
use dappdata.Base.{ℕ, ◌≡◌, ◌<◌, String, List, some, ok, length}
use dappdata.Errors.{Bytes}
use dappdata.Envelope.{AesGcm, seal}
use dappdata.Envelope.Frame.{inline_mode}
use dappdata.Transport.{Stamp, PutFeedUpdate}
use dappdata.Feed.Log.{ServesLog}
use dappdata.Slot.{SlotContext, wanted, max_inline_bytes}

-- `Stored w r d`: in the world `w` the reference `r` names the blob `d`.
abbrev pub Keeps : {W : Type 0} → (W → String → Bytes → Type 0) → W → W → Type 0
Keeps Stored w w' =
    (reference : String) (content : Bytes)
    → Stored w reference content
    → Stored w' reference content

-- A reference is 64 hexadecimal digits. `Good` is said of the contents that may be stored. A blob that was stored is read back, no write loses it, and
-- storing one leaves the feed alone.
pub record ServesBlobs {W T Key : Type 0} (c : SlotContext W T Key)
    (Holds : W → List Bytes → Type 0) (CanPay : Stamp W → Type 0)
    (Stored : W → String → Bytes → Type 0) (Good : Bytes → Type 0) : Type 0 where
  pub put_stored :
      (w : W) (l : List Bytes) (content : Bytes) (stamp : Stamp W)
      → Holds w l
      → CanPay stamp
      → Good content
      → (reference : String) × (w' : W) × (c.transport.put_blob content stamp w
          ≡ (ok reference, w'))
        × Stored w' reference content
        × Holds w' l
        × Keeps Stored w w'
  pub get_stored :
      (w : W) (reference : String) (content : Bytes)
      → Stored w reference content
      → c.transport.get_blob reference w ≡ (ok content, w)
  pub plain_reference :
      (w : W) (reference : String) (content : Bytes)
      → Stored w reference content
      → (c.hex_length reference ≡ 64)
        × (length (c.platform.encode_text reference) ≡ 64)
        × (c.platform.decode_text (c.platform.encode_text reference) ≡ reference)
  pub put_keeps :
      (w w' : W) (put : PutFeedUpdate W)
      → CanPay put.stamp
      → c.feed.transport.put_feed_update put w ≡ (ok tt, w')
      → Keeps Stored w w'

pub record Dependable {W T Key : Type 0} (c : SlotContext W T Key) (Holds : W → List Bytes → Type 0)
    (CanPay : Stamp W → Type 0) (Room : List Bytes → Type 0) (Stored : W → String → Bytes → Type 0)
    (Good : Bytes → Type 0) : Type 0 where
  pub aes : AesGcm c.platform
  pub log : ServesLog c.feed Holds CanPay Room
  pub blobs : ServesBlobs c Holds CanPay Stored Good
  pub nonce_length : (n : ℕ) → length (c.random n) ≡ 12
  pub schema_byte : wanted c < 256
  pub decode-encode :
      (value : T) (bytes : Bytes)
      → c.options.codec.encode value ≡ ok bytes
      → c.options.codec.decode bytes ≡ ok value

-- If the value goes to a blob, the blob that is sealed with nonce `n` may be stored.
abbrev pub Storable :
    {W T Key : Type 0} → SlotContext W T Key → (Bytes → Type 0) → ℕ → Bytes → Type 0
Storable c Good n bytes =
    max_inline_bytes < length bytes
    → (blob : Bytes)
    → seal c.platform c.key bytes
        (record { aad = c.aad; schema = some (wanted c); mode = some inline_mode }) (c.random n)
      ≡ ok blob
    → Good blob
