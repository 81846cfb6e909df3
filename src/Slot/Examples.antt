-- ===== src/Slot/Examples.antt =====
-- A slot of bytes over the in-memory transport, on two devices, and the theorems about slots and blobs
-- at concrete inputs.
use text.Mathlib.Text.{◌==◌ as str_eq}
use text.Mathlib.TextEquality.{eq_iff}
use dappdata.Base.{
  true, false, ℕ, Option, err, ◌&&◌, ◌==◌, ◌≡◌, refl, ap, sym, String, none, some, List, [], ◌∷◌,
  ◌++◌, arith, if◌then◌else◌, Result, ok, ◌>>=◌,
}
use dappdata.Errors.{Bytes, Failure, other_error}
use dappdata.Envelope.Frame.{read_header, nonce_of, body_of, header_of, concat}
use dappdata.Envelope.{open_frame}
use dappdata.Transport.Memory.{World, store_update, put_blob, get_blob}
use dappdata.Transport.Memory.Serves.{Holds, CanPay, NoLimit, store_update-Holds}
use dappdata.Transport.Memory.Blobs.Stored.{Stored, Later, get_blob-put_blob}
use dappdata.Feed.Reads.{InStep}
use dappdata.Feed.{at_index, set_index}
use dappdata.Slot.TestData.{
  the_blob, IsTheBlob, tools, sdk, paid, no_world, zeros, platform, platform_laws, only_reference,
  options, no_world-Holds,
}
use dappdata.Slot.Serves.{Dependable}
use dappdata.Slot.Memory.{memory_slot, memory-Dependable}
use dappdata.Slot.Rounds.Frames.{ReadsFrom}
use dappdata.Slot.Rounds.{get-set}
use dappdata.Stamper.State.{StamperState}
use dappdata.Stamper.State.Wire.{ℤ, Wire, encode_state, sort_pairs}
use dappdata.Checkpoints.{save}
use dappdata.Checkpoints.Unnoticed.{save_unnoticed}
use dappdata.Slot.Merges.{Refused, Merged, set_conflicts, set_merges}
use dappdata.Slot.Watch.{Poll, nothing, failed, at_value, watch, run, Answers, finds, run-Answers}
use dappdata.Slot.{
  SlotContext, SlotOptions, SetOptions, SlotState, SlotValue, resolve, read_payload, get, set,
}

get_blob-put_blob_example :
    (reference : String) × (w' : World Unit) × (put_blob tools the_blob paid no_world
      ≡ (ok reference, w'))
    × ((w'' : World Unit)
        → Later tools sdk w' w''
        → get_blob tools reference w'' ≡ (ok the_blob, w''))
get_blob-put_blob_example = get_blob-put_blob tools sdk paid refl the_blob no_world refl

abbrev slot : SlotContext (World Unit) Bytes Bytes
slot =
    memory_slot tools sdk "0xa" (9 ∷ []) (some (7 ∷ [])) [] "topic" (some paid) options platform
      (λ n. zeros 12)

abbrev dependable :
    Dependable slot (Holds tools "0xa" (9 ∷ [])) CanPay NoLimit (Stored tools sdk) IsTheBlob
dependable =
    memory-Dependable tools sdk "0xa" (9 ∷ []) (some (7 ∷ [])) [] "topic" (some paid) options
      platform (λ n. zeros 12) (λ key e. refl) platform_laws (λ n. refl) (omega arith)
      (λ value bytes e. sym e) (λ reference e. (refl, sym (only_reference reference e)))

-- What the slot writes for a value of up to 4,064 bytes.
abbrev payload : Bytes → Bytes
payload value = 1 ∷ 1 ∷ 1 ∷ 0 ∷ zeros 12 ++ platform.encrypt [] [] [] value

abbrev first : Bytes
first = payload (104 ∷ [])

abbrev second : Bytes
second = payload (105 ∷ [])

abbrev one_update : List Bytes
one_update = first ∷ []

abbrev two_updates : List Bytes
two_updates = first ∷ second ∷ []

abbrev one_world : World Unit
one_world =
    store_update tools
      (record { signer_key = 7 ∷ []; topic = 9 ∷ []; index = 0; payload = first; stamp = paid })
      none no_world

abbrev two_worlds : World Unit
two_worlds =
    store_update tools
      (record { signer_key = 7 ∷ []; topic = 9 ∷ []; index = 1; payload = second; stamp = paid })
      none one_world

one_world-Holds : Holds tools "0xa" (9 ∷ []) one_world one_update
one_world-Holds =
    store_update-Holds tools "0xa" (9 ∷ []) no_world [] (7 ∷ []) first paid none refl no_world-Holds

two_worlds-Holds : Holds tools "0xa" (9 ∷ []) two_worlds two_updates
two_worlds-Holds =
    store_update-Holds tools "0xa" (9 ∷ []) one_world one_update (7 ∷ []) second paid none refl
      one_world-Holds

-- A device that read the first update; another one wrote the second.
abbrev behind : SlotState (World Unit)
behind = record {
  feed = record { index = at_index 0; last_written = none; world = two_worlds };
  drawn = 3;
}

behind-InStep : InStep two_updates behind.feed
behind-InStep = record { cache_holds = omega arith; mine_holds = tt }

abbrev own : Bytes
own = 106 ∷ []

abbrev no_merge : SetOptions (World Unit) Bytes
no_merge = record { expect_index = some 0; merge = none; stamp = none }

abbrev both : Bytes → SlotValue Bytes → Result Failure Bytes
both mine theirs = ok (mine ++ theirs.value)

abbrev merging : SetOptions (World Unit) Bytes
merging = record { expect_index = some 0; merge = some both; stamp = none }

abbrev up_to_date : SetOptions (World Unit) Bytes
up_to_date = record { expect_index = some 1; merge = none; stamp = none }

get-set_example :
    (s' : SlotState (World Unit)) × (set slot own up_to_date behind ≡ (ok 2, s'))
    × (get slot s'.feed ≡ (
      ok (some (record { value = own; index = 2; schema = 0 })),
      set_index (at_index 2) s'.feed,
    ))
get-set_example =
    get-set slot dependable (7 ∷ []) refl paid refl behind two_updates own own up_to_date refl refl
      two_worlds-Holds behind-InStep refl tt refl (λ big. absurd (omega arith))

set_conflicts_example :
    Refused slot dependable
      (7 ∷ [])
      refl
      paid
      refl
      behind
      two_updates
      own
      own
      second
      no_merge
      0
      refl
      refl
      two_worlds-Holds
      behind-InStep
      refl
      refl
      refl
      (λ big. absurd (omega arith))
      (set slot own no_merge behind)
set_conflicts_example =
    set_conflicts slot dependable (7 ∷ []) refl paid refl behind two_updates own own second no_merge
      0 refl refl two_worlds-Holds behind-InStep refl refl refl (λ big. absurd (omega arith)) refl

second-Reads : ReadsFrom slot dependable two_worlds second (105 ∷ [])
unfolding read_payload resolve open_frame read_header nonce_of body_of header_of concat ◌>>=◌
second-Reads = λ w k. refl

set_merges_example :
    Merged slot dependable
      (7 ∷ [])
      refl
      paid
      refl
      behind
      two_updates
      own
      own
      second
      merging
      0
      refl
      refl
      two_worlds-Holds
      behind-InStep
      refl
      refl
      refl
      (λ big. absurd (omega arith))
      (106 ∷ 105 ∷ [])
      (set slot own merging behind)
set_merges_example =
    set_merges slot dependable (7 ∷ []) refl paid refl behind two_updates own own second merging 0
      refl refl two_worlds-Holds behind-InStep refl refl refl (λ big. absurd (omega arith)) both
      (105 ∷ []) (106 ∷ 105 ∷ []) (106 ∷ 105 ∷ []) tt refl refl second-Reads refl refl
      (λ n big. absurd (omega arith))

abbrev polls : List Poll
polls = at_value 4 false ∷ nothing ∷ at_value 4 true ∷ failed ∷ at_value 5 true ∷ []

run-Answers_example : Answers none (finds polls) (run (watch 1000 15000) polls).0
run-Answers_example = run-Answers 1000 15000 polls

-- A codec of one checkpoint: the wire form of a new view of the batch "b" of depth 17.
abbrev the_view : StamperState
the_view = record { batch_id = "b"; depth = 17; generation = 2; reserved = [] }

abbrev encode_one :
    Option ℕ → Option String → Option ℕ → Option ℕ → Option (List (ℤ × ℤ)) → Result Failure Bytes
encode_one (some v) (some id) (some depth) (some generation) (some []) =
    if (v == 1 && str_eq id "b") && (depth == 17 && generation == 2)
    then ok (1 ∷ [])
    else err other_error
encode_one (some v) (some id) (some depth) (some generation) (some (p ∷ rest)) = err other_error
encode_one (some v) (some id) (some depth) (some generation) none = err other_error
encode_one (some v) (some id) (some depth) none r = err other_error
encode_one (some v) (some id) none g r = err other_error
encode_one (some v) none depth g r = err other_error
encode_one none id depth g r = err other_error

abbrev the_wire : Wire
the_wire = record {
  v = some 1;
  batch_id = some "b";
  depth = some 17;
  generation = some 2;
  reserved = some [];
}

decode-encode_one :
    (v : Option ℕ) (id : Option String) (depth generation : Option ℕ) (r : Option (List (ℤ × ℤ)))
    {bytes : Bytes}
    → encode_one v id depth generation r ≡ ok bytes
    → the_wire
      ≡ record { v = v; batch_id = id; depth = depth; generation = generation; reserved = r }
decode-encode_one (some v) (some id) (some depth) (some generation) (some []) e =
    ground (arith, eq_iff id "b")
decode-encode_one (some v) (some id) (some depth) (some generation) (some (p ∷ rest)) e = cc
decode-encode_one (some v) (some id) (some depth) (some generation) none e = cc
decode-encode_one (some v) (some id) (some depth) none r e = cc
decode-encode_one (some v) (some id) none g r e = cc
decode-encode_one (some v) none depth g r e = cc
decode-encode_one none id depth g r e = cc

abbrev checkpoint_options : SlotOptions (World Unit) Wire
checkpoint_options = record {
  schema = none;
  migrate = none;
  codec = record {
    encode = λ w. encode_one w.v w.batch_id w.depth w.generation w.reserved;
    decode = λ bytes. ok the_wire;
  };
  stamp = none;
}

abbrev checkpoint_slot : SlotContext (World Unit) Wire Bytes
checkpoint_slot =
    memory_slot tools sdk "0xa" (9 ∷ []) (some (7 ∷ [])) [] "topic" (some paid) checkpoint_options
      platform (λ n. zeros 12)

abbrev checkpoint_dependable :
    Dependable checkpoint_slot
      (Holds tools "0xa" (9 ∷ []))
      CanPay
      NoLimit
      (Stored tools sdk)
      IsTheBlob
checkpoint_dependable =
    memory-Dependable tools sdk "0xa" (9 ∷ []) (some (7 ∷ [])) [] "topic" (some paid)
      checkpoint_options platform (λ n. zeros 12) (λ key e. refl) platform_laws (λ n. refl)
      (omega arith)
      (λ w bytes e. ap ok (decode-encode_one w.v w.batch_id w.depth w.generation w.reserved e))
      (λ reference e. (refl, sym (only_reference reference e)))

their_checkpoint-Reads : ReadsFrom checkpoint_slot checkpoint_dependable two_worlds second the_wire
unfolding read_payload resolve open_frame read_header nonce_of body_of header_of concat ◌>>=◌
their_checkpoint-Reads = λ w k. refl

save_unnoticed_example :
    (s' : SlotState (World Unit)) × (save checkpoint_slot
        (λ index. index ∷ [])
        the_view
        (some paid)
        behind
      ≡ (ok tt, s'))
    × (get checkpoint_slot s'.feed ≡ (
      ok (some (record { value = the_wire; index = 2; schema = 0 })),
      set_index (at_index 2) s'.feed,
    ))
unfolding encode_state sort_pairs
save_unnoticed_example =
    save_unnoticed checkpoint_slot checkpoint_dependable (λ index. index ∷ []) (7 ∷ []) paid behind
      one_update second (1 ∷ []) the_wire the_view refl refl refl two_worlds-Holds behind-InStep tt
      their_checkpoint-Reads refl (λ big. absurd (omega arith))
