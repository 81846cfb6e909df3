-- ===== src/Folder.antt =====
-- packages/dappdata/src/dappdata.ts: the connected folder of one app and one user. A slot object is
-- known by its place in the list of the objects made so far; its index cache is the state of `Feed`.
-- A slot's value is of one type `T`, which stands for all values. The hashes, the texts of codes and
-- the platform of the envelope are parameters.
pub mod Slots
pub mod Devices
mod Examples
use text.Mathlib.Text.{◌==◌ as str_eq}
use text.Mathlib.TextEquality.{eq_iff}
use dappdata.Base.{
  ℕ, Bool, ◌+◌, String, Option, none, some, List, [], ◌∷◌, ◌++◌, Result, ok, err, Exec, ◌>>=◌, ◌>>◌,
  pure, lift, length,
}
use dappdata.Base.Assoc.{Eq, get_value, set_value}
use dappdata.Base.Hex.{Text, codes, hex_of_bytes}
use dappdata.Errors.{Bytes, Failure}
use dappdata.Envelope.{Platform, SealOptions, Opened, import_key, seal, open_frame}
use dappdata.Derive.Keys.{
  Hashes, FolderKeys, SubKey, derive_seed, derive_folder_keys, derive_sub_key,
}
use dappdata.Entropy.{EntropyResult, EntropySource}
use dappdata.Transport.{Stamp, Transport}
use dappdata.Feed.{SequentialFeed}
use dappdata.Funding.{FundOptions, FundResult, WriteBudget, Payer, fund, or_value}
use dappdata.Slot.{SlotContext, SlotOptions}
use dappdata.Stamper.Store.{CheckpointStore}
use dappdata.Stamper.{Device, StamperOptions, default_block, create_stamper}

-- `text_of` is the text of some codes. `hex_length` and `random` are those of a slot.
pub record Tools (Key : Type 0) : Type 0 where
  pub hashes : Hashes
  pub platform : Platform Key
  pub text_of : Text → String
  pub hex_length : String → ℕ
  pub random : ℕ → Bytes
  pub sign_stamp : Bytes → String → Bytes → ℕ → Bytes

pub record ConnectOptions (W : Type 0) : Type 0 where
  pub entropy : EntropySource W
  pub app : String
  pub transport : Transport W
  pub stamp : Option (Stamp W)

pub record DappData (W T Key : Type 0) : Type 0 where
  pub app : String
  pub address : String
  pub account : Option String
  pub seed : Bytes
  pub feed_key : Bytes
  pub enc_key : Key
  pub transport : Transport W
  pub stamp : Option (Stamp W)
  pub slots : List (String × ℕ)
  pub objects : List (SlotContext W T Key)

abbrev pub slot_names : Eq String
slot_names = record { same = str_eq; same_iff = eq_iff }

-- `fund`'s options, where the owner may be left out.
pub record FolderFundOptions : Type 0 where
  pub owner : Option String
  pub budget : Option WriteBudget
  pub depth : Option ℕ
  pub amount_per_chunk : Option ℕ
  pub immutable : Option Bool

pub record FolderStamperOptions (W : Type 0) : Type 0 where
  pub depth : ℕ
  pub block : Option ℕ
  pub store : CheckpointStore W

module _ {Key : Type 0} (t : Tools Key) where
  unfoldable pub slot_topic : String → String → Bytes
  slot_topic app name =
      t.hashes.keccak
        (t.hashes.utf8 (codes "dappdata/v1/" ++ (codes app ++ (codes "/" ++ codes name))))

module _ {W T Key : Type 0} (t : Tools Key) where
  folder_of : ConnectOptions W → Bytes → Option String → FolderKeys → Key → DappData W T Key
  folder_of o seed account keys enc_key = record {
    app = o.app;
    address = t.text_of keys.feed_address;
    account = account;
    seed = seed;
    feed_key = keys.feed_key;
    enc_key = enc_key;
    transport = o.transport;
    stamp = o.stamp;
    slots = [];
    objects = [];
  }

  with_key :
      ConnectOptions W
      → Bytes
      → Option String
      → FolderKeys
      → Result Failure Key
      → Result Failure (Option (DappData W T Key))
  unfolding folder_of
  with_key o seed account keys (err e) = err e
  with_key o seed account keys (ok enc_key) = ok (some (folder_of o seed account keys enc_key))

  with_keys :
      ConnectOptions W
      → Bytes
      → Option String
      → Option FolderKeys
      → Result Failure (Option (DappData W T Key))
  unfolding with_key import_key
  with_keys o seed account none = ok none
  with_keys o seed account (some keys) =
      with_key o seed account keys (import_key t.platform keys.enc_key)

  -- `none` where the fuel for the search of a scalar ran out.
  unfoldable pub connect : ℕ → ConnectOptions W → Exec W Failure (Option (DappData W T Key))
  unfolding with_keys derive_seed derive_folder_keys
  connect fuel o = do
    result ← o.entropy.secret o.app
    let seed = derive_seed t.hashes result.secret (codes o.app)
    lift (with_keys o seed result.account (derive_folder_keys t.hashes fuel seed))

  unfoldable pub new_slot : DappData W T Key → String → SlotOptions W T → SlotContext W T Key
  unfolding slot_topic
  new_slot dd name options = record {
    feed = record {
      transport = dd.transport;
      owner = dd.address;
      topic = slot_topic t dd.app name;
      signer = some dd.feed_key;
    };
    transport = dd.transport;
    key = dd.enc_key;
    aad = t.text_of (hex_of_bytes (slot_topic t dd.app name));
    stamp = dd.stamp;
    options = options;
    platform = t.platform;
    hex_length = t.hex_length;
    random = t.random;
  }

  unfoldable pub slot_or_new :
      Option ℕ → String → SlotOptions W T → DappData W T Key → ℕ × DappData W T Key
  unfolding new_slot
  slot_or_new (some existing) name options dd = (existing, dd)
  slot_or_new none name options dd = (
    length dd.objects,
    record dd {
      slots = set_value slot_names dd.slots name (length dd.objects);
      objects = dd.objects ++ new_slot dd name options ∷ [];
    },
  )

  -- The place of the slot's object, and the folder.
  unfoldable pub slot : String → SlotOptions W T → DappData W T Key → ℕ × DappData W T Key
  unfolding slot_or_new
  slot name options dd = slot_or_new (get_value slot_names dd.slots name) name options dd

  unfoldable pub derive_key : ℕ → DappData W T Key → Text → Option SubKey
  unfolding derive_sub_key
  derive_key fuel dd purpose = derive_sub_key t.hashes fuel dd.seed purpose

  -- The owner is this folder, unless the caller says otherwise.
  unfoldable pub folder_fund :
      Payer W → ℕ → (ℕ → ℕ) → DappData W T Key → FolderFundOptions → Exec W Failure FundResult
  folder_fund payer block_seconds depth_for_size dd options =
      fund dd.transport payer block_seconds depth_for_size (record {
        owner = or_value options.owner dd.address;
        budget = options.budget;
        depth = options.depth;
        amount_per_chunk = options.amount_per_chunk;
        immutable = options.immutable;
      })

  -- A stamper with a store of its own.
  unfoldable pub folder_stamper :
      DappData W T Key → String → FolderStamperOptions W → W → Result Failure (Device W) × W
  folder_stamper dd batch_id options = create_stamper (record {
    signer = dd.feed_key;
    batch_id = batch_id;
    depth = options.depth;
    block = or_value options.block default_block;
    store = some options.store;
    sign_stamp = t.sign_stamp;
  })

  -- The nonce is an argument, as in `Envelope`.
  unfoldable pub encrypt : DappData W T Key → Bytes → String → Bytes → Result Failure Bytes
  encrypt dd bytes aad nonce =
      seal t.platform dd.enc_key bytes (record { aad = aad; schema = none; mode = none }) nonce

  unfoldable pub decrypt : DappData W T Key → Bytes → String → Result Failure Opened
  decrypt dd frame aad = open_frame t.platform dd.enc_key frame aad
