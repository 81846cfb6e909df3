-- ===== src/Stamper/Examples.antt =====
-- Runs of the stamper over a store that keeps the last checkpoint, and the theorems at concrete
-- inputs.
use dappdata.Base.{
  ◌≤◌, ℕ, ◌+◌, ◌≡◌, refl, false, Option, none, some, List, [], ◌∷◌, arith, ok, err, ◌>>=◌,
}
use dappdata.Errors.{Bytes, dapp_data_error, too_large, other_error}
use dappdata.Stamper.State.{
  StamperState, bucket_of, bucket_capacity, blank_state, merge_state, merge_heights,
}
use dappdata.Stamper.State.Heights.{height, set_height, has_key}
use dappdata.Stamper.State.Merge.{IsBehind, merge_state_join}
use dappdata.Stamper.State.Wire.{encode_state, decode_state}
use dappdata.Stamper.State.Wire.Roundtrip.{decode_state-encode_state}
use dappdata.Stamper.Store.{
  done, ask, failed, CheckpointStore, store_load, store_save, store_upcoming,
}
use dappdata.Stamper.Fresh.{Call, stamps, handed_out}
use dappdata.Stamper.Reserve.Stamp.{Reserved, stamp_slot-Reserved}
use dappdata.Stamper.Restore.{AboveLines, handed_out-AboveLines}
use dappdata.Stamper.Limits.{stamp_slot_full}
use dappdata.Stamper.Races.{absorb_leaks, unpublished_slot}
use dappdata.Stamper.Interleaving.{Reach, here, next, test, in_flight_bound, in_flight_overrun}
use dappdata.Stamper.{
  StamperOptions, Device, line, absorb, take_slot, prepare, commit, stamp, stamp_saving, stamp_slot,
  checkpoint, create_stamper,
}

-- The checkpoint that was saved last.
abbrev Kept : Type 0
Kept = Option StamperState

abbrev keeping : CheckpointStore Kept
keeping = record { load = λ w. (ok w, w); save = λ s w. done (ok tt) (some s); upcoming = none }

abbrev options : StamperOptions Kept
options = record {
  signer = [];
  batch_id = "b1";
  depth = 20;
  block = 4;
  store = some keeping;
  sign_stamp = λ signer batch_id address slot. slot ∷ [];
}

abbrev blank : StamperState
blank = record { batch_id = "b1"; depth = 20; reserved = []; generation = 0 }

abbrev fresh : Device Kept
fresh = record { state = blank; used = []; saving = false; world = none; handed = [] }

abbrev in_bucket_5 : Bytes
in_bucket_5 = 0 ∷ 5 ∷ []

-- To unfold `run` is to unfold all that a run of these examples calls.
run : List Call → Device Kept → List (ℕ × ℕ)
unfolding handed_out stamp_slot checkpoint create_stamper bucket_of ◌>>=◌ height store_load
    bucket_capacity store_upcoming store_save set_height merge_state merge_heights blank_state stamp
    stamp_saving
run calls d = handed_out options calls d

-- Two devices that begin from the empty store: the first stamps in bucket 5, and the second then
-- stamps in bucket 7, which reads the checkpoint, and in bucket 5. Both hand out slot 0 of bucket 5.
abbrev first_done : Device Kept
unfolding run
first_done = (stamp_slot options in_bucket_5 fresh).1

abbrev second : Device Kept
unfolding run
second = record fresh { world = first_done.world }

-- A checkpoint that reserves slots 0 to 3 of bucket 5.
abbrev stored : StamperState
stored = record { batch_id = "b1"; depth = 20; reserved = (5, 4) ∷ []; generation = 1 }

abbrev restored : Device Kept
restored = record {
  state = stored;
  used = (5, 4) ∷ [];
  saving = false;
  world = some stored;
  handed = [];
}

-- A store whose save has the stamper sign an address of bucket 5 first, and an address of bucket 6.
abbrev signing : CheckpointStore Kept
signing = record {
  load = λ w. (ok w, w);
  save = λ s w. ask in_bucket_5 (λ r. ask (0 ∷ 6 ∷ []) (λ q. done (ok tt) (some s)));
  upcoming = some (λ w. (ok (in_bucket_5 ∷ (0 ∷ 6 ∷ []) ∷ []), w));
}

abbrev self_paid : StamperOptions Kept
self_paid = record options { store = some signing }

stamp_slot-Reserved_example : Reserved options 5 0 fresh (stamp_slot options in_bucket_5 fresh).1
unfolding run
stamp_slot-Reserved_example =
    stamp_slot-Reserved options (λ s w. tt) in_bucket_5 5 0 fresh
      (stamp_slot options in_bucket_5 fresh).1 refl refl

create_restored : create_stamper options (some stored) ≡ (ok restored, some stored)
unfolding run
create_restored = refl

handed_out-AboveLines_example :
    AboveLines stored.reserved (run (stamps in_bucket_5 ∷ stamps in_bucket_5 ∷ []) restored)
unfolding run
handed_out-AboveLines_example =
    handed_out-AboveLines options (some stored) (some stored) (some stored) restored stored
      (stamps in_bucket_5 ∷ stamps in_bucket_5 ∷ []) refl (unfold has_key in (refl, tt))
      create_restored

-- Bucket 5 is spent up to its 16 slots.
abbrev used_up : Device Kept
used_up = record restored { used = (5, 16) ∷ [] }

stamp_slot_full_example :
    ((stamp_slot options in_bucket_5 used_up).0 ≡ err (dapp_data_error too_large))
    × ((stamp_slot options in_bucket_5 used_up).1.world ≡ some stored)
unfolding run
stamp_slot_full_example =
    stamp_slot_full options in_bucket_5 5 used_up (some stored) (some stored) refl refl
      (omega arith) (omega arith) refl refl

merge_state_join_example :
    (m : StamperState) × (merge_state blank stored ≡ ok m)
    × IsBehind blank m
    × IsBehind stored m
    × ((u : StamperState) → IsBehind blank u → IsBehind stored u → IsBehind m u)
merge_state_join_example = merge_state_join blank stored refl (unfold has_key in (refl, tt))

decode_state-encode_state_example :
    (t : StamperState) × (decode_state (some (encode_state stored)) ≡ ok t)
    × (t.batch_id ≡ stored.batch_id)
    × (t.depth ≡ stored.depth)
    × (t.generation ≡ stored.generation)
    × ((bucket : ℕ) → height t.reserved bucket ≡ height stored.reserved bucket)
decode_state-encode_state_example =
    decode_state-encode_state stored (unfold has_key in (refl, tt)) (omega arith)

-- The second device takes in the first one's checkpoint for bucket 7, and has slot 0 of bucket 5.
absorb_leaks_example :
    (e f : Device Kept) × (absorb stored (7 ∷ []) fresh ≡ (ok tt, e))
    × (stamp_slot options in_bucket_5 e ≡ (ok 0, f))
    × (f.world ≡ none)
unfolding run
absorb_leaks_example =
    absorb_leaks options stored (7 ∷ []) in_bucket_5 5 fresh refl (unfold has_key in (refl, tt))
      ((omega arith), tt) (omega arith) refl

-- A store whose writes fail.
abbrev broken : StamperOptions Kept
broken = record options {
  store = some (record keeping { save = λ s w. done (err (failed other_error)) w });
}

unpublished_slot_example :
    (g h : Device Kept) × (commit broken (some (5, 4)) fresh ≡ (err other_error, g))
    × (stamp_slot broken in_bucket_5 g ≡ (ok 0, h))
    × (h.world ≡ none)
unfolding run prepare
unpublished_slot_example =
    unpublished_slot broken in_bucket_5 5 4 (5 ∷ []) fresh (prepare broken (some (5, 4)) fresh).1
      other_error none refl (omega arith) refl refl

-- One slot of bucket 5 is left below the line.
abbrev one_left : Device Kept
one_left = record restored { used = (5, 3) ∷ [] }

in_flight_bound_example : (slot : ℕ) × ((take_slot 5 one_left).0 ≡ ok slot) × (slot + 1 ≤ 4 + 2)
unfolding run
in_flight_bound_example =
    in_flight_bound options 5 2 0 4 one_left one_left (omega arith) (omega arith)
      (next here (test one_left 0 (omega arith) refl) (omega arith))

in_flight_overrun_example :
    (e : Device Kept) × Reach options 5 2 4 one_left 0 e 1
    × ((take_slot 5 e).0 ≡ ok 4)
    × (line e 5 ≡ 4)
unfolding run
in_flight_overrun_example = in_flight_overrun options 5 one_left (omega arith)
