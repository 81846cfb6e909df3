-- ===== src/Folder/Examples.antt =====
-- The theorems about folders at concrete inputs: two devices over the in-memory transport, with hashes
-- that are easy to follow.
use dappdata.Base.{◌≡◌, ◌≢◌, refl, sym, Option, none, some, [], ◌∷◌, ◌++◌, arith, ok, pure}
use dappdata.Base.Hex.{codes}
use dappdata.Base.Assoc.{get_value}
use dappdata.Errors.{Bytes}
use dappdata.Entropy.{EntropyKind, EntropyResult}
use dappdata.Derive.Keys.{Hashes, kdf, retry, feed_context, derive_seed, address_of, scalar}
use dappdata.Derive.Signature.{big_int, to32}
use dappdata.Derive.Scalar.{scalar_at}
use dappdata.Transport.{Stamp}
use dappdata.Transport.Memory.{World, memory}
use dappdata.Transport.Memory.Serves.{Holds, CanPay, NoLimit}
use dappdata.Transport.Memory.Blobs.Stored.{Stored}
use dappdata.Feed.{new_feed, at_index, set_index}
use dappdata.Slot.Serves.{Dependable}
use dappdata.Slot.Memory.{memory-Dependable}
use dappdata.Slot.TestData.{
  IsTheBlob, tools, sdk, paid, no_world, zeros, platform, platform_laws, only_reference, options,
  no_world-Holds,
}
use dappdata.Slot.{SlotState, SetOptions, wanted, get, set}
use dappdata.Folder.{Tools, ConnectOptions, DappData, connect, new_slot, slot, slot_topic}
use dappdata.Folder.Slots.{IsFolder, run, slot-IsFolder, slot-slot}
use dappdata.Folder.Devices.{IsOpened, connect-IsOpened, get-set_devices}

abbrev hashes : Hashes
hashes = record {
  order = 23;
  hmac_sha256 = λ key b. 1 ∷ zeros 31;
  utf8 = λ t. t;
  keccak = λ b. 9 ∷ [];
  public_key = λ key. zeros 65;
  decimal = λ n. codes "1";
}

abbrev folder_tools : Tools Bytes
folder_tools = record {
  hashes = hashes;
  platform = platform;
  text_of = λ t. "0xa";
  hex_length = tools.hex_length;
  random = λ n. zeros 12;
  sign_stamp = λ key id address slot. [];
}

abbrev result : EntropyResult
result = record { secret = 5 ∷ []; account = none; method = "bip39" }

abbrev connecting : ConnectOptions (World Unit)
connecting = record {
  entropy = record { kind = EntropyKind.mnemonic; secret = λ app. pure result };
  app = "app";
  transport = memory tools;
  stamp = some paid;
}

nonzero :
    scalar_at 23
      (kdf hashes)
      (retry hashes)
      (derive_seed hashes (5 ∷ []) (codes "app"))
      feed_context
      0
    ≢ 0
unfolding scalar_at kdf big_int
nonzero e = absurd (omega arith)

connect-IsOpened_example :
    (dd : DappData (World Unit) Bytes Bytes) × (connect folder_tools 1 connecting no_world
      ≡ (ok (some dd), no_world))
    × IsOpened folder_tools connecting (5 ∷ []) dd
    × (dd.account ≡ none)
unfolding pure derive_seed kdf
connect-IsOpened_example =
    connect-IsOpened folder_tools 1 0 connecting no_world no_world result (λ k b. refl) refl
      (λ i h. absurd (omega arith)) nonzero (omega arith)

-- What that call returns.
abbrev device : Option (Stamp (World Unit)) → DappData (World Unit) Bytes Bytes
device stamp = record {
  app = "app";
  address = "0xa";
  account = none;
  seed = 1 ∷ zeros 31;
  feed_key = zeros 31 ++ 18 ∷ [];
  enc_key = platform.import_raw (1 ∷ zeros 31);
  transport = memory tools;
  stamp = stamp;
  slots = [];
  objects = [];
}

abbrev opening : Option (Stamp (World Unit)) → ConnectOptions (World Unit)
opening stamp = record connecting { stamp = stamp }

device-IsOpened :
    (stamp : Option (Stamp (World Unit)))
    → IsOpened folder_tools (opening stamp) (5 ∷ []) (device stamp)
unfolding derive_seed kdf address_of scalar to32
device-IsOpened stamp = record {
  app_is = refl;
  seed_is = refl;
  transport_is = refl;
  stamp_is = refl;
  key_is = (1, refl);
  address_is = refl;
  enc_is = refl;
  no_slots = refl;
}

device-IsFolder : (stamp : Option (Stamp (World Unit))) → IsFolder folder_tools (device stamp)
unfolding get_value
device-IsFolder stamp = record {
  object_of = λ name h e. absurd (cc);
  places = λ name h e. absurd (cc);
  apart = λ name name' h e e'. absurd (cc);
}

slot-IsFolder_example : IsFolder folder_tools ((slot folder_tools "notes" options (device none)).1)
slot-IsFolder_example =
    slot-IsFolder folder_tools "notes" options (device none) (device-IsFolder none)

slot-slot_example :
    slot folder_tools "notes" options
      (run folder_tools (("b", options) ∷ []) ((slot folder_tools "notes" options (device none)).1))
    ≡ (
      (slot folder_tools "notes" options (device none)).0,
      run folder_tools (("b", options) ∷ []) ((slot folder_tools "notes" options (device none)).1),
    )
slot-slot_example =
    slot-slot folder_tools "notes" options options (("b", options) ∷ []) (device none)

notes-Dependable :
    Dependable
      (new_slot folder_tools (device (some paid)) "notes" options)
      (Holds tools "0xa" (9 ∷ []))
      CanPay
      NoLimit
      (Stored tools sdk)
      IsTheBlob
unfolding new_slot slot_topic
notes-Dependable =
    memory-Dependable tools sdk "0xa" (9 ∷ []) (some (zeros 31 ++ 18 ∷ []))
      (platform.import_raw (1 ∷ zeros 31)) "0xa" (some paid) options platform (λ n. zeros 12)
      (λ key e. refl) platform_laws (λ n. refl) (omega arith) (λ value bytes e. sym e)
      (λ reference e. (refl, sym (only_reference reference e)))

abbrev fresh : SlotState (World Unit)
fresh = record { feed = new_feed no_world; drawn = 0 }

abbrev plainly : SetOptions (World Unit) Bytes
plainly = record { expect_index = none; merge = none; stamp = none }

-- The second device has no stamp of its own: it only reads.
get-set_devices_example :
    (s' : SlotState (World Unit)) × (set
        (new_slot folder_tools (device (some paid)) "notes" options)
        (104 ∷ [])
        plainly
        fresh
      ≡ (ok 0, s'))
    × (get (new_slot folder_tools (device none) "notes" options) (new_feed s'.feed.world) ≡ (
      ok (
          some (record {
            value = 104 ∷ [];
            index = 0;
            schema = wanted (new_slot folder_tools (device (some paid)) "notes" options);
          })),
      set_index (at_index 0) (new_feed s'.feed.world),
    ))
get-set_devices_example =
    get-set_devices folder_tools (opening (some paid)) (opening none) (5 ∷ []) (device (some paid))
      (device none) "notes" options paid fresh [] (104 ∷ []) (104 ∷ []) plainly notes-Dependable
      refl refl (device-IsOpened (some paid)) (device-IsOpened none) refl refl refl no_world-Holds
      (record { cache_holds = tt; mine_holds = tt }) tt tt refl (λ big. absurd (omega arith))
