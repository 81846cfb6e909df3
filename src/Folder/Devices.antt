-- ===== src/Folder/Devices.antt =====
-- Two devices that open one folder.
use dappdata.Base.{
  ℕ, ◌≡◌, ◌≢◌, ◌<◌, refl, sym, ap, ◌∙◌, String, Option, some, List, [], ok, ◌>>=◌, length,
}
use dappdata.Base.Hex.{codes, hex_of_bytes}
use dappdata.Errors.{Bytes}
use dappdata.Envelope.{import_key}
use dappdata.Derive.Signature.{to32}
use dappdata.Derive.Scalar.{scalar_at, derive_scalar-first, derive_scalar_same}
use dappdata.Derive.Keys.{
  FolderKeys, kdf, retry, scalar, feed_context, enc_context, address_of, folder_keys_of,
  derive_seed, derive_folder_keys,
}
use dappdata.Entropy.{EntropyResult}
use dappdata.Transport.{Stamp, Transport}
use dappdata.Feed.{new_feed, at_index, set_index}
use dappdata.Feed.Reads.{InStep}
use dappdata.Feed.Appends.{Expects}
use dappdata.Slot.{
  SlotContext, SlotOptions, SlotState, SetOptions, or_else, wanted, get, set, get-stamp,
}
use dappdata.Slot.Serves.{Dependable, Storable}
use dappdata.Slot.Rounds.{IsGiven, get-set_fresh}
use dappdata.Folder.{
  Tools, ConnectOptions, DappData, folder_of, with_key, with_keys, connect, slot_topic, new_slot,
}

module _ {Key : Type 0} (t : Tools Key) where
  keys_at : Bytes → Bytes → FolderKeys
  keys_at seed key = record {
    feed_key = key;
    feed_address = address_of t.hashes key;
    enc_key = kdf t.hashes seed enc_context;
  }

  derive_folder_keys-some :
      (fuel : ℕ) (seed key : Bytes)
      → scalar t.hashes fuel seed feed_context ≡ some key
      → derive_folder_keys t.hashes fuel seed ≡ some (keys_at seed key)
  unfolding derive_folder_keys folder_keys_of keys_at
  derive_folder_keys-some fuel seed key e = rw e refl

module _ {W T Key : Type 0} (t : Tools Key) where
  -- What a folder takes from the secret and from the options that it was opened with.
  pub record IsOpened (o : ConnectOptions W) (secret : Bytes) (dd : DappData W T Key) : Type 0 where
    pub app_is : dd.app ≡ o.app
    pub seed_is : dd.seed ≡ derive_seed t.hashes secret (codes o.app)
    pub transport_is : dd.transport ≡ o.transport
    pub stamp_is : dd.stamp ≡ o.stamp
    pub key_is : (fuel : ℕ) × (scalar t.hashes fuel dd.seed feed_context ≡ some dd.feed_key)
    pub address_is : dd.address ≡ t.text_of (address_of t.hashes dd.feed_key)
    pub enc_is : dd.enc_key ≡ t.platform.import_raw (kdf t.hashes dd.seed enc_context)
    pub no_slots : dd.slots ≡ []

  with_keys-some :
      (o : ConnectOptions W) (seed : Bytes) (account : Option String) (keys : FolderKeys)
      → length keys.enc_key ≡ 32
      → with_keys {W = W} {T = T} t o seed account (some keys)
        ≡ ok (some (folder_of t o seed account keys (t.platform.import_raw keys.enc_key)))
  unfolding with_keys with_key import_key
  with_keys-some o seed account keys size = rw size refl

  folder_of-IsOpened :
      (fuel : ℕ) (o : ConnectOptions W) (secret key : Bytes) (account : Option String)
      → scalar t.hashes fuel (derive_seed t.hashes secret (codes o.app)) feed_context ≡ some key
      → IsOpened o secret (
          folder_of t o
            (derive_seed t.hashes secret (codes o.app))
            account
            (keys_at t (derive_seed t.hashes secret (codes o.app)) key)
            (t.platform.import_raw
              (kdf t.hashes (derive_seed t.hashes secret (codes o.app)) enc_context)))
  unfolding folder_of keys_at
  folder_of-IsOpened fuel o secret key account e = record {
    app_is = refl;
    seed_is = refl;
    transport_is = refl;
    stamp_is = refl;
    key_is = (fuel, e);
    address_is = refl;
    enc_is = refl;
    no_slots = refl;
  }

  -- If the entropy source gives a secret, HMAC-SHA256 makes 32 bytes, and a round of the search for
  -- the feed key within the fuel has a scalar that is not zero, then `connect` returns a folder.
  pub connect-IsOpened :
      (fuel gap : ℕ) (o : ConnectOptions W) (w w' : W) (result : EntropyResult)
      → ((k b : Bytes) → length (t.hashes.hmac_sha256 k b) ≡ 32)
      → o.entropy.secret o.app w ≡ (ok result, w')
      → ((i : ℕ)
          → i < gap
          → scalar_at t.hashes.order
              (kdf t.hashes)
              (retry t.hashes)
              (derive_seed t.hashes result.secret (codes o.app))
              feed_context
              i
            ≡ 0)
      → scalar_at t.hashes.order
          (kdf t.hashes)
          (retry t.hashes)
          (derive_seed t.hashes result.secret (codes o.app))
          feed_context
          gap
        ≢ 0
      → gap < fuel
      → (dd : DappData W T Key) × (connect t fuel o w ≡ (ok (some dd), w'))
        × IsOpened o result.secret dd
        × (dd.account ≡ result.account)
  unfolding connect ◌>>=◌ scalar folder_of keys_at kdf
  connect-IsOpened fuel gap o w w' result size gives zeros found enough =
      let seed : Bytes = derive_seed t.hashes result.secret (codes o.app) in
      let key : Bytes =
        to32 (scalar_at t.hashes.order (kdf t.hashes) (retry t.hashes) seed feed_context gap) in
      let derived : scalar t.hashes fuel seed feed_context ≡ some key =
        derive_scalar-first t.hashes.order (kdf t.hashes) (retry t.hashes) gap fuel seed
          feed_context zeros found enough in
      (
        folder_of t o seed result.account (keys_at t seed key)
            (t.platform.import_raw (kdf t.hashes seed enc_context)),
        rw
            (
              gives,
              derive_folder_keys-some t fuel seed key derived,
              with_keys-some o seed result.account (keys_at t seed key)
                  (size seed (t.hashes.utf8 enc_context)),
            )
            refl,
        folder_of-IsOpened fuel o result.secret key result.account derived,
        refl,
      )

  slot_of :
      String
      → String
      → Bytes
      → Key
      → Transport W
      → Option (Stamp W)
      → String
      → SlotOptions W T
      → SlotContext W T Key
  slot_of app address feed_key enc_key transport stamp name options = record {
    feed = record {
      transport = transport;
      owner = address;
      topic = slot_topic t app name;
      signer = some feed_key;
    };
    transport = transport;
    key = enc_key;
    aad = t.text_of (hex_of_bytes (slot_topic t app name));
    stamp = stamp;
    options = options;
    platform = t.platform;
    hex_length = t.hex_length;
    random = t.random;
  }

  slot_of-new_slot :
      (dd : DappData W T Key) (stamp : Option (Stamp W)) (name : String) (options : SlotOptions W T)
      → record (new_slot t dd name options) { stamp = stamp }
        ≡ slot_of dd.app dd.address dd.feed_key dd.enc_key dd.transport stamp name options
  unfolding slot_of new_slot
  slot_of-new_slot dd stamp name options = refl

  new_slot-slot_of :
      (dd : DappData W T Key) (name : String) (options : SlotOptions W T)
      → new_slot t dd name options
        ≡ slot_of dd.app dd.address dd.feed_key dd.enc_key dd.transport dd.stamp name options
  unfolding slot_of new_slot
  new_slot-slot_of dd name options = refl

  seeds_same :
      (o o' : ConnectOptions W) (secret : Bytes) (dd dd' : DappData W T Key)
      → o.app ≡ o'.app
      → IsOpened o secret dd
      → IsOpened o' secret dd'
      → dd'.seed ≡ dd.seed
  seeds_same o o' secret dd dd' app v v' =
      v'.seed_is
      ∙ (ap (λ (a : String). derive_seed t.hashes secret (codes a)) (sym app) ∙ sym v.seed_is)

  feed_keys_same :
      (dd dd' : DappData W T Key) (fuel fuel' : ℕ)
      → dd'.seed ≡ dd.seed
      → scalar t.hashes fuel dd.seed feed_context ≡ some dd.feed_key
      → scalar t.hashes fuel' dd'.seed feed_context ≡ some dd'.feed_key
      → dd'.feed_key ≡ dd.feed_key
  unfolding scalar
  feed_keys_same dd dd' fuel fuel' seeds e e' =
      derive_scalar_same t.hashes.order (kdf t.hashes) (retry t.hashes) fuel' fuel dd'.seed
        feed_context dd'.feed_key dd.feed_key e' (rw seeds e)

  -- Two folders that were opened with one secret for one app, on one transport, have the same slots:
  -- of a name, all but the stamp is the same.
  pub new_slot_same :
      (o o' : ConnectOptions W) (secret : Bytes) (dd dd' : DappData W T Key) (name : String)
      (options : SlotOptions W T)
      → o.app ≡ o'.app
      → o.transport ≡ o'.transport
      → IsOpened o secret dd
      → IsOpened o' secret dd'
      → new_slot t dd' name options ≡ record (new_slot t dd name options) { stamp = dd'.stamp }
  new_slot_same o o' secret dd dd' name options app transport v v' =
      let seeds = seeds_same o o' secret dd dd' app v v' in
      let (fuel, e) = v.key_is in
      let (fuel', e') = v'.key_is in
      let feed_keys = feed_keys_same dd dd' fuel fuel' seeds e e' in
      let apps : dd'.app ≡ dd.app = v'.app_is ∙ (sym app ∙ sym v.app_is) in
      let transports : dd'.transport ≡ dd.transport =
        v'.transport_is ∙ (sym transport ∙ sym v.transport_is) in
      let addresses : dd'.address ≡ dd.address =
        v'.address_is
        ∙ (ap (λ (k : Bytes). t.text_of (address_of t.hashes k)) feed_keys ∙ sym v.address_is) in
      let encs : dd'.enc_key ≡ dd.enc_key =
        v'.enc_is
        ∙ (ap (λ (k : Bytes). t.platform.import_raw (kdf t.hashes k enc_context)) seeds
            ∙ sym v.enc_is) in
      rw (new_slot-slot_of dd' name options, slot_of-new_slot dd dd'.stamp name options) (cc)

  module _ {Holds : W → List Bytes → Type 0} {CanPay : Stamp W → Type 0}
      {Room : List Bytes → Type 0} {Stored : W → String → Bytes → Type 0}
      {Good : Bytes → Type 0} where
    -- If a transport serves the feed of a slot, which has room for one more, and keeps blobs, and a device in step with the feed's
    -- log sets a value with a stamp that can pay, then another device, which opened the folder with
    -- the same secret for the same app over the same transport and has read nothing yet, gets that
    -- value from its own slot of the name, with the index that the first one was given.
    pub get-set_devices :
        (o o' : ConnectOptions W) (secret : Bytes) (dd dd' : DappData W T Key) (name : String)
        (options : SlotOptions W T) (stamp : Stamp W) (s : SlotState W) (l : List Bytes) (value : T)
        (bytes : Bytes) (set_options : SetOptions W T)
        → Dependable (new_slot t dd name options) Holds CanPay Room Stored Good
        → o.app ≡ o'.app
        → o.transport ≡ o'.transport
        → IsOpened o secret dd
        → IsOpened o' secret dd'
        → or_else set_options.stamp (or_else options.stamp dd.stamp) ≡ some stamp
        → CanPay stamp
        → IsGiven stamp
        → Holds s.feed.world l
        → InStep l s.feed
        → Expects l set_options.expect_index
        → Room l
        → options.codec.encode value ≡ ok bytes
        → Storable (new_slot t dd name options) Good s.drawn bytes
        → (s' : SlotState W) × (set (new_slot t dd name options) value set_options s
            ≡ (ok (length l), s'))
          × (get (new_slot t dd' name options) (new_feed s'.feed.world) ≡ (
            ok (
                some (record {
                  value = value;
                  index = length l;
                  schema = wanted (new_slot t dd name options);
                })),
            set_index (at_index (length l)) (new_feed s'.feed.world),
          ))
    unfolding new_slot
    get-set_devices o o' secret dd dd' name options stamp s l value bytes set_options d app
          transport v v' chosen pays given h step x room enc good =
        let c = new_slot t dd name options in
        let (s', done, read) =
          get-set_fresh c d dd.feed_key refl stamp pays s l value bytes set_options chosen given h
            step x room enc good in
        (
          s',
          done,
          rw
              (
                new_slot_same o o' secret dd dd' name options app transport v v',
                get-stamp c dd'.stamp,
              )
              read,
        )
