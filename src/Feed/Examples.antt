-- ===== src/Feed/Examples.antt =====
-- Runs of a feed over the in-memory transport: a log of two updates, a device that knows the first,
-- and its reads and writes.
use dappdata.Base.{inr, ◌≡◌, refl, none, some, List, [], ◌∷◌, ◌++◌, arith, ok, err}
use dappdata.Errors.{Bytes, conflict_error, other_error}
use dappdata.Base.Assoc.{get_value}
use dappdata.Transport.{Stamp, batch}
use dappdata.Transport.Memory.{Tools, World, no_maps, store_update}
use dappdata.Transport.Memory.Serves.{
  Holds, CanPay, NoLimit, store_update-Holds, memory_feed, memory-ServesLog,
}
use dappdata.Feed.Log.{ServesLog}
use dappdata.Feed.Reads.{InStep, latest_last}
use dappdata.Feed.Appends.{append_extends, append_conflicts}
use dappdata.Feed.{SequentialFeed, FeedState, at_index, set_index, latest, append}

-- Addresses are a constant and the splitter and the joiner fail: a feed asks for neither.
abbrev tools : Tools
tools = record {
  address_of = λ key. "0xa";
  lower_case = λ s. s;
  chunk_address = λ owner topic index. index ∷ [];
  splitter = λ bytes. record { below = []; root = record { address = []; bytes = [] } };
  join = λ reference read. err other_error;
  to_hex = λ bytes. "";
  of_hex = λ s. [];
  hex_length = λ s. 0;
  plain_id = λ s. s;
}

abbrev paid : Stamp (World Unit)
paid = batch "b1"

abbrev no_world : World Unit
no_world = record { maps = no_maps; outside = tt }

abbrev one_update : List Bytes
one_update = (1 ∷ []) ∷ []

abbrev two_updates : List Bytes
two_updates = one_update ++ (2 ∷ []) ∷ []

abbrev one_world : World Unit
one_world =
    store_update tools
      (record { signer_key = 7 ∷ []; topic = 9 ∷ []; index = 0; payload = 1 ∷ []; stamp = paid })
      none no_world

abbrev two_worlds : World Unit
two_worlds =
    store_update tools
      (record { signer_key = 7 ∷ []; topic = 9 ∷ []; index = 1; payload = 2 ∷ []; stamp = paid })
      none one_world

no_world-Holds : Holds tools "0xa" (9 ∷ []) no_world []
unfolding get_value
no_world-Holds = record { holds_at = λ i. refl; holds_last = refl }

one_world-Holds : Holds tools "0xa" (9 ∷ []) one_world one_update
one_world-Holds =
    store_update-Holds tools "0xa" (9 ∷ []) no_world [] (7 ∷ []) (1 ∷ []) paid none refl
      no_world-Holds

two_worlds-Holds : Holds tools "0xa" (9 ∷ []) two_worlds two_updates
two_worlds-Holds =
    store_update-Holds tools "0xa" (9 ∷ []) one_world one_update (7 ∷ []) (2 ∷ []) paid none refl
      one_world-Holds

abbrev device : SequentialFeed (World Unit)
device = memory_feed tools "0xa" (9 ∷ []) (some (7 ∷ []))

memory-ServesLog_example : ServesLog device (Holds tools "0xa" (9 ∷ [])) CanPay NoLimit
memory-ServesLog_example = memory-ServesLog tools "0xa" (9 ∷ []) (some (7 ∷ [])) (λ key e. refl)

abbrev serves : ServesLog device (Holds tools "0xa" (9 ∷ [])) CanPay NoLimit
serves = memory-ServesLog tools "0xa" (9 ∷ []) (some (7 ∷ [])) (λ key e. refl)

-- The device read the first update, and another one wrote the second.
abbrev behind : FeedState (World Unit)
behind = record { index = at_index 0; last_written = none; world = two_worlds }

behind-InStep : InStep two_updates behind
behind-InStep = record { cache_holds = omega arith; mine_holds = tt }

-- The cache names an index that nobody wrote.
abbrev lost : FeedState (World Unit)
lost = record { index = at_index 7; last_written = none; world = two_worlds }

latest_last_example :
    latest device lost
    ≡ (ok (some (record { index = 1; payload = 2 ∷ [] })), set_index (at_index 1) lost)
latest_last_example =
    latest_last device serves two_updates lost two_worlds-Holds (inr (omega arith)) tt

append_extends_example :
    (s' : FeedState (World Unit)) × (append device (3 ∷ []) paid none behind ≡ (ok 2, s'))
    × Holds tools "0xa" (9 ∷ []) s'.world (two_updates ++ (3 ∷ []) ∷ [])
    × InStep (two_updates ++ (3 ∷ []) ∷ []) s'
append_extends_example =
    append_extends device serves two_updates behind two_worlds-Holds (7 ∷ []) (3 ∷ []) paid
      (omega arith) refl refl tt none behind-InStep tt

append_conflicts_example :
    append device (3 ∷ []) paid (some 0) behind ≡ (err (conflict_error 1 (2 ∷ [])), behind)
append_conflicts_example =
    append_conflicts device serves two_updates behind two_worlds-Holds (7 ∷ []) (3 ∷ []) (2 ∷ [])
      paid 0 refl refl
