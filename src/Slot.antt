-- ===== src/Slot.antt =====
-- packages/dappdata/src/slot/index.ts: one named piece of state. The codec, the callbacks `migrate` and
-- `merge` and the random nonces are parameters; the callbacks may throw. A slot's state is that of
-- its feed and the number of nonces drawn.
pub mod Serves
pub mod Rounds
pub mod Merges
pub mod Watch
pub mod Codecs
pub mod Memory
pub mod TestData
mod Examples
use text.Mathlib.Text.{◌==◌ as str_eq}
use dappdata.Base.{
  ℕ, ◌+◌, ◌≡◌, refl, Bool, true, false, String, Option, none, some, List, [], ◌∷◌, ltb, ◌==◌,
  if◌then◌else◌, Result, ok, err, Exec, continue, ◌>>=◌, ◌>>◌, pure, lift, length,
}
use dappdata.Errors.{
  Bytes, Failure, dapp_data_error, conflict_error, other_error, bad_envelope, too_large,
  unsupported,
}
use dappdata.Envelope.Frame.{inline_mode, ref_mode}
use dappdata.Envelope.{Platform, SealOptions, Opened, or_default, seal, open_frame}
use dappdata.Transport.{FeedUpdate, Stamp, batch, Transport}
use dappdata.Feed.{SequentialFeed, FeedState, within, latest, append}

-- One chunk, less the frame and the tag.
abbrev pub max_inline_bytes : ℕ
max_inline_bytes = 4064

pub record SlotValue (T : Type 0) : Type 0 where
  pub value : T
  pub index : ℕ
  pub schema : ℕ

pub record Codec (T : Type 0) : Type 0 where
  pub encode : T → Result Failure Bytes
  pub decode : Bytes → Result Failure T

pub record SlotOptions (W T : Type 0) : Type 0 where
  pub schema : Option ℕ
  pub migrate : Option (T → ℕ → Result Failure T)
  pub codec : Codec T
  pub stamp : Option (Stamp W)

pub record SetOptions (W T : Type 0) : Type 0 where
  pub expect_index : Option ℕ
  pub merge : Option (T → SlotValue T → Result Failure T)
  pub stamp : Option (Stamp W)

-- `hex_length` counts a text's characters behind an optional `0x`; `random` makes the nonces.
pub record SlotContext (W T Key : Type 0) : Type 0 where
  pub feed : SequentialFeed W
  pub transport : Transport W
  pub key : Key
  pub aad : String
  pub stamp : Option (Stamp W)
  pub options : SlotOptions W T
  pub platform : Platform Key
  pub hex_length : String → ℕ
  pub random : ℕ → Bytes

pub record SlotState (W : Type 0) : Type 0 where
  pub feed : FeedState W
  pub drawn : ℕ

abbrev pub in_feed : {W A : Type 0} → Exec (FeedState W) Failure A → Exec (SlotState W) Failure A
in_feed call s = let (r, feed) = call s.feed in (r, record s { feed = feed })

-- `a ?? b`
abbrev pub or_else : {A : Type 0} → Option A → Option A → Option A
or_else none b = b
or_else (some a) b = some a

module _ {W T Key : Type 0} (c : SlotContext W T Key) where
  abbrev pub wanted : ℕ
  wanted = or_default c.options.schema 0

  -- The blob behind a reference: a sealed envelope if the reference is that of a plain chunk tree.
  unfoldable pub unwrap : ℕ → Bytes → Bool → Exec W Failure (Bytes × ℕ)
  unwrap schema blob false = pure (blob, schema)
  unwrap schema blob true = do
    inner ← lift (open_frame c.platform c.key blob c.aad)
    pure (inner.value, inner.schema)

  unfoldable pub follow : ℕ → String → Exec W Failure (Bytes × ℕ)
  unfolding unwrap
  follow schema reference = do
    blob ← c.transport.get_blob reference
    unwrap schema blob (c.hex_length reference == 64)

  unfoldable pub resolve : Opened → Exec W Failure (Bytes × ℕ)
  unfolding follow
  resolve opened =
      if opened.mode == ref_mode
      then follow opened.schema (c.platform.decode_text opened.value)
      else pure (opened.value, opened.schema)

  decode_with : Bytes × ℕ → Exec W Failure (T × ℕ)
  decode_with (bytes, schema) = do value ← lift (c.options.codec.decode bytes); pure (value, schema)

  -- Open a payload, resolve it and decode it, as `get` and the conflict branch of `set` both do.
  unfoldable pub read_payload : Bytes → Exec W Failure (T × ℕ)
  unfolding resolve decode_with
  read_payload payload = do
    opened ← lift (open_frame c.platform c.key payload c.aad)
    resolved ← resolve opened
    decode_with resolved

  migrate_with : Option (T → ℕ → Result Failure T) → T → ℕ → Result Failure T
  migrate_with none value schema = err (dapp_data_error bad_envelope)
  migrate_with (some migrate) value schema = migrate value schema

  unfoldable pub to_wanted : T → ℕ → Result Failure T
  unfolding migrate_with
  to_wanted value schema =
      if schema == wanted then ok value else migrate_with c.options.migrate value schema

  migrated : ℕ → T × ℕ → Exec (FeedState W) Failure (Option (SlotValue T))
  unfolding to_wanted
  migrated index (old, schema) = do
    value ← lift (to_wanted old schema)
    pure (some (record { value = value; index = index; schema = schema }))

  unfoldable pub from_update : Option FeedUpdate → Exec (FeedState W) Failure (Option (SlotValue T))
  unfolding read_payload migrated
  from_update none = pure none
  from_update (some update) = do
    read ← within (read_payload update.payload)
    migrated update.index read

  unfoldable pub get : Exec (FeedState W) Failure (Option (SlotValue T))
  unfolding from_update
  get = do update ← latest c.feed; from_update update

  unfoldable pub seal_next : Bytes → ℕ → Exec (SlotState W) Failure Bytes
  seal_next value mode s = (
    seal c.platform c.key value (record { aad = c.aad; schema = some wanted; mode = some mode })
        (c.random s.drawn),
    record s { drawn = s.drawn + 1 },
  )

  unfoldable pub fits_chunk : Bytes → Exec (SlotState W) Failure Bytes
  fits_chunk sealed =
      if ltb 4096 (length sealed) then lift (err (dapp_data_error too_large)) else pure sealed

  unfoldable pub frame_blob : Bytes → Stamp W → Exec (SlotState W) Failure Bytes
  unfolding seal_next fits_chunk
  frame_blob bytes stamp = do
    blob ← seal_next bytes inline_mode
    reference ← in_feed (within (c.transport.put_blob blob stamp))
    sealed ← seal_next (c.platform.encode_text reference) ref_mode
    fits_chunk sealed

  unfoldable pub frame_bytes : Stamp W → Bytes → Exec (SlotState W) Failure Bytes
  unfolding frame_blob
  frame_bytes stamp bytes =
      if ltb max_inline_bytes (length bytes)
      then frame_blob bytes stamp
      else seal_next bytes inline_mode

  unfoldable pub frame : T → Stamp W → Exec (SlotState W) Failure Bytes
  unfolding frame_bytes
  frame value stamp = do bytes ← lift (c.options.codec.encode value); frame_bytes stamp bytes

  unfoldable pub write : T → Stamp W → Option ℕ → Exec (SlotState W) Failure ℕ
  unfolding frame
  write value stamp expect = do
    payload ← frame value stamp
    in_feed (append c.feed payload stamp expect)

  merge_read :
      (T → SlotValue T → Result Failure T) → T → ℕ → Stamp W → T × ℕ → Exec (SlotState W) Failure ℕ
  unfolding write
  merge_read merge value index stamp (theirs, schema) = do
    merged ← lift (merge value (record { value = theirs; index = index; schema = schema }))
    write merged stamp (some index)

  unfoldable pub merge_remote :
      (T → SlotValue T → Result Failure T) → T → ℕ → Bytes → Stamp W → Exec (SlotState W) Failure ℕ
  unfolding merge_read
  merge_remote merge value index payload stamp = do
    read ← in_feed (within (read_payload payload))
    merge_read merge value index stamp read

  -- The `catch` clause: a conflict is merged if there is a merge, and any other error is thrown again.
  unfoldable pub on_conflict :
      Option (T → SlotValue T → Result Failure T)
      → T
      → Stamp W
      → Result Failure ℕ × SlotState W
      → Result Failure ℕ × SlotState W
  unfolding merge_remote
  on_conflict (some merge) value stamp (err (conflict_error index payload), s) =
      merge_remote merge value index payload stamp s
  on_conflict _ value stamp r = r

  unfoldable pub set_stamped : T → SetOptions W T → Stamp W → Exec (SlotState W) Failure ℕ
  unfolding on_conflict
  set_stamped value options stamp s =
      on_conflict options.merge value stamp (write value stamp options.expect_index s)

  -- An empty batch id is no stamp either.
  unfoldable pub set_or_refuse :
      T → SetOptions W T → Option (Stamp W) → Exec (SlotState W) Failure ℕ
  unfolding set_stamped
  set_or_refuse value options none = lift (err (dapp_data_error unsupported))
  set_or_refuse value options (some (batch batch_id)) =
      if str_eq batch_id ""
      then lift (err (dapp_data_error unsupported))
      else set_stamped value options (batch batch_id)
  set_or_refuse value options (some stamp) = set_stamped value options stamp

  unfoldable pub set : T → SetOptions W T → Exec (SlotState W) Failure ℕ
  unfolding set_or_refuse
  set value options =
      set_or_refuse value options (or_else options.stamp (or_else c.options.stamp c.stamp))

-- A read does not depend on the stamp.
pub get-stamp :
    {W T Key : Type 0} (c : SlotContext W T Key) (stamp : Option (Stamp W))
    → get (record c { stamp = stamp }) ≡ get c
unfolding get from_update migrated migrate_with to_wanted read_payload decode_with resolve follow
    unwrap
get-stamp c stamp = refl
