-- ===== src/Transport/Blob.antt =====
-- packages/dappdata/src/transport/blob.ts: a blob is split into chunks, and each is handed to `put`
-- once. The splitter of core-sdk is a parameter: the chunks that it passes to its callback, in order,
-- and the root, each with its address and its bytes.
use dappdata.Base.{Bool, true, false, List, [], ◌∷◌, if◌then◌else◌, ok, Exec, ◌>>=◌, ◌>>◌, pure}
use dappdata.Base.Assoc.{same_bytes}
use dappdata.Errors.{Bytes, Failure}

pub record Chunk : Type 0 where
  pub address : Bytes
  pub bytes : Bytes

pub record Split : Type 0 where
  pub below : List Chunk
  pub root : Chunk

abbrev pub is_seen : List Bytes → Bytes → Bool
is_seen [] a = false
is_seen (b ∷ rest) a = if same_bytes b a then true else is_seen rest a

module _ {W : Type 0} (put : Bytes → Bytes → Exec W Failure (Unit {0})) where
  -- The result is the set `seen`.
  unfoldable pub upload : List Bytes → Chunk → Exec W Failure (List Bytes)
  upload seen chunk w =
      if is_seen seen chunk.address
      then (ok seen, w)
      else (do put chunk.address chunk.bytes; pure (chunk.address ∷ seen)) w

  unfoldable pub upload_all : List Bytes → List Chunk → Exec W Failure (List Bytes)
  unfolding upload
  upload_all seen [] = pure seen
  upload_all seen (chunk ∷ rest) = do seen' ← upload seen chunk; upload_all seen' rest

  -- The root comes last. The source returns its address as hexadecimal text.
  unfoldable pub split_blob : (Bytes → Split) → Bytes → Exec W Failure Bytes
  unfolding upload_all
  split_blob splitter content = do
    let split = splitter content
    seen ← upload_all [] split.below
    upload seen split.root
    pure split.root.address
