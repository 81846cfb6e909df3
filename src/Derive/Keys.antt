-- ===== src/Derive/Keys.antt =====
-- packages/dappdata/src/derive/kdf.ts: from a secret to a seed and to keys. HMAC-SHA256, `utf8.encode`,
-- Keccak, the public key of a private one and the decimal digits of a number are parameters.
pub mod Contexts
use dappdata.Base.{ℕ, String, Option, none, some, ◌++◌, drop}
use dappdata.Base.Hex.{Text, codes, hex_of_bytes}
use dappdata.Errors.{Bytes}
use dappdata.Derive.Scalar.{derive_scalar}

abbrev pub seed_context : Text
seed_context = codes "dappdata/seed/v1/"

abbrev pub feed_context : Text
feed_context = codes "dappdata/feed/v1"

abbrev pub enc_context : Text
enc_context = codes "dappdata/enc/v1"

abbrev pub sub_context : Text
sub_context = codes "dappdata/sub/v1/"

pub record FolderKeys : Type 0 where
  pub feed_key : Bytes
  pub feed_address : Text
  pub enc_key : Bytes

pub record SubKey : Type 0 where
  pub key : Bytes
  pub address : Text

-- `public_key` is the uncompressed point, 65 bytes.
pub record Hashes : Type 0 where
  pub order : ℕ
  pub hmac_sha256 : Bytes → Bytes → Bytes
  pub utf8 : Text → Bytes
  pub keccak : Bytes → Bytes
  pub public_key : Bytes → Bytes
  pub decimal : ℕ → Text

module _ (h : Hashes) where
  unfoldable pub kdf : Bytes → Text → Bytes
  kdf key context = h.hmac_sha256 key (h.utf8 context)

  unfoldable pub derive_seed : Bytes → Text → Bytes
  unfolding kdf
  derive_seed secret app = kdf secret (seed_context ++ app)

  -- `${context}/retry${round}`
  unfoldable pub retry : Text → ℕ → Text
  retry context round = context ++ (codes "/retry" ++ h.decimal round)

  unfoldable pub scalar : ℕ → Bytes → Text → Option Bytes
  unfolding derive_scalar kdf retry
  scalar fuel seed context = derive_scalar h.order kdf retry fuel seed context

  unfoldable pub address_of : Bytes → Text
  address_of private_key =
      codes "0x" ++ hex_of_bytes (drop 12 (h.keccak (drop 1 (h.public_key private_key))))

  unfoldable pub folder_keys_of : Bytes → Option Bytes → Option FolderKeys
  unfolding kdf address_of
  folder_keys_of seed none = none
  folder_keys_of seed (some feed_key) = some (record {
    feed_key = feed_key;
    feed_address = address_of feed_key;
    enc_key = kdf seed enc_context;
  })

  unfoldable pub derive_folder_keys : ℕ → Bytes → Option FolderKeys
  unfolding folder_keys_of scalar
  derive_folder_keys fuel seed = folder_keys_of seed (scalar fuel seed feed_context)

  unfoldable pub sub_key_of : Option Bytes → Option SubKey
  unfolding address_of
  sub_key_of none = none
  sub_key_of (some key) = some (record { key = key; address = address_of key })

  unfoldable pub derive_sub_key : ℕ → Bytes → Text → Option SubKey
  unfolding sub_key_of scalar
  derive_sub_key fuel seed purpose = sub_key_of (scalar fuel seed (sub_context ++ purpose))
