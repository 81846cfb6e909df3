-- ===== src/Stamper.antt =====
-- packages/dappdata/src/stamper/index.ts: a client-side stamper and its checkpoint.
--
-- The variables that the closures of `createStamper` share (`state`, `used`, `saving`) are the record
-- `Device`, with the world that the store lives in. A store is a parameter. Its `save` may ask the
-- stamper itself for stamps before it ends, so it is a `Script`: it ends, or it asks to have an
-- address signed and goes on with the answer. `saving` is true throughout, so such a call never
-- writes a checkpoint of its own: it is `stamp_saving`, and the children prove that it is `stamp`
-- there. `signStamp` and the marshalling of its envelope are the parameter `sign_stamp`.
-- The calls of one device are taken one after the other here; `Stamper.Interleaving` is about calls
-- whose awaits interleave.
pub mod State
pub mod Store
mod Keeps
mod Grows
pub mod Fresh
pub mod Handed
pub mod Reserve
pub mod Restore
pub mod Limits
pub mod Races
pub mod Interleaving
pub mod Usage
mod Examples
use Prim.Native.Nat.{pred}
use text.Mathlib.Text.{◌==◌ as str_eq}
use dappdata.Base.{
  ℕ, zero, suc, ◌+◌, ◌-◌, min, max, String, Bool, true, false, Option, none, some, List, [], ◌∷◌,
  ltb, leb, ◌==◌, if◌then◌else◌, Result, ok, err, Exec, continue, ◌>>=◌, ◌>>◌, lift, pure,
}
use dappdata.Errors.{Bytes, Failure, dapp_data_error, too_large, unsupported, conflict_code}
use State.{StamperState, bucket_capacity, bucket_of, blank_state, merge_state}
use State.Heights.{HeightMap, height, set_height}
use Store.{
  Script, done, ask, SaveFailure, moved, failed, CheckpointStore, store_load, store_upcoming,
  store_save,
}

abbrev pub default_block : ℕ
default_block = 4

-- How often a checkpoint write may lose to another device before we give up.
abbrev pub max_commit_attempts : ℕ
max_commit_attempts = 8

pub record StamperOptions (W : Type 0) : Type 0 where
  pub signer : Bytes
  pub batch_id : String
  pub depth : ℕ
  pub block : ℕ
  pub store : Option (CheckpointStore W)
  pub sign_stamp : Bytes → String → Bytes → ℕ → Bytes

-- `handed` is no variable of the program: nothing reads it. It is the (bucket, slot) pairs that were
-- taken on this device, the last one first, by whatever call of `stamp`, also one that a store's `save`
-- makes.
pub record Device (W : Type 0) : Type 0 where
  pub state : StamperState
  pub used : HeightMap
  pub saving : Bool
  pub world : W
  pub handed : List (ℕ × ℕ)

abbrev pub line : {W : Type 0} → Device W → ℕ → ℕ
line d bucket = height d.state.reserved bucket

abbrev pub spent : {W : Type 0} → Device W → ℕ → ℕ
spent d bucket = height d.used bucket

abbrev pub set_line : {W : Type 0} → ℕ → ℕ → Device W → Device W
set_line bucket h d = record d {
  state = record d.state { reserved = set_height d.state.reserved bucket h };
}

abbrev pub set_spent : {W : Type 0} → ℕ → ℕ → Device W → Device W
set_spent bucket h d = record d { used = set_height d.used bucket h }

abbrev pub has_room : {W : Type 0} → ℕ → Device W → Bool
has_room bucket d = ltb (spent d bucket) (line d bucket)

-- How an attempt of `commit` that does not throw ends: the checkpoint is written, or the loop goes
-- on with what is left of `extension`.
pub data Attempt (E : Type 0) : Type 0 where
  published : Attempt E
  again : E → Attempt E

-- The loop of `absorb`.
pub mark_spent : {W : Type 0} → List ℕ → Device W → Device W
mark_spent [] d = d
mark_spent (bucket ∷ rest) d =
    mark_spent rest (if has_room bucket d then set_spent bucket (line d bucket) d else d)

pub merge_in : {W : Type 0} → StamperState → List ℕ → Exec (Device W) Failure (Unit {0})
unfolding mark_spent
merge_in merged buckets d = (ok tt, mark_spent buckets (record d { state = merged }))

pub absorb : {W : Type 0} → StamperState → List ℕ → Exec (Device W) Failure (Unit {0})
unfolding merge_in
absorb remote buckets d = (do merged ← lift (merge_state d.state remote); merge_in merged buckets) d

-- The last three lines of `stamp`, which spend the next slot; the slot is returned unsigned.
pub take_slot : {W : Type 0} → ℕ → Exec (Device W) Failure ℕ
take_slot bucket d = (
  ok (spent d bucket),
  record (set_spent bucket (spent d bucket + 1) d) { handed = (bucket, spent d bucket) ∷ d.handed },
)

module _ {W : Type 0} (o : StamperOptions W) where
  pub capacity : ℕ
  capacity = bucket_capacity o.depth

  pub signed : Bytes → ℕ → Bytes
  signed address slot = o.sign_stamp o.signer o.batch_id address slot

  pub take_reserved : ℕ → Exec (Device W) Failure ℕ
  unfolding take_slot
  take_reserved bucket d =
      if has_room bucket d then take_slot bucket d else (err (dapp_data_error unsupported), d)

  -- `stamp` in the branch that `ensureRoom` takes while `saving` is true.
  pub stamp_saving : Bytes → Exec (Device W) Failure Bytes
  unfolding take_reserved signed
  stamp_saving address = do
    bucket ← lift (bucket_of address)
    slot ← take_reserved bucket
    pure (signed address slot)

  -- `options.store?.save(state)`.
  pub run_script : Script W → Exec (Device W) SaveFailure (Unit {0})
  run_script (done r w) d = (r, record d { world = w })
  run_script (ask address next) d = let (r, d') = stamp_saving address d in run_script (next r) d'

  -- What `commit` does first in an attempt: move the line of the bucket that is out of room. The
  -- result is the set `tentative`.
  pub extend_line : Option (ℕ × ℕ) → Exec (Device W) Failure (List ℕ)
  unfolding capacity
  extend_line none d = (ok [], d)
  extend_line (some (bucket, want)) d =
      if leb (line d bucket) (spent d bucket)
      then (let want' = min (max want (spent d bucket + o.block)) capacity in
          if leb want' (spent d bucket)
          then (err (dapp_data_error too_large), d)
          else (ok (bucket ∷ []), set_line bucket want' d))
      else (ok [], d)

  -- How many of the addresses fall in each bucket: the map `need`.
  pub count_needs : HeightMap → List Bytes → Exec (Device W) Failure HeightMap
  count_needs need [] = pure need
  count_needs need (address ∷ rest) = do
    bucket ← lift (bucket_of address)
    count_needs (set_height need bucket (height need bucket + 1)) rest

  -- Lookahead: a line with room for every chunk that the store announces. The test
  -- `line - spent >= count` is over the integers.
  pub reserve_needs : HeightMap → List ℕ → Exec (Device W) Failure (List ℕ)
  unfolding capacity
  reserve_needs [] tentative d = (ok tentative, d)
  reserve_needs ((bucket, count) ∷ rest) tentative d =
      let enough = reserve_needs rest tentative d in
      let raised =
        reserve_needs rest (bucket ∷ tentative) (set_line bucket (spent d bucket + count) d) in
      if leb (spent d bucket + count) (line d bucket)
      then enough
      else if ltb capacity (spent d bucket + count)
      then (err (dapp_data_error too_large), d)
      else raised

  pub ask_upcoming : Exec (Device W) Failure (List Bytes)
  ask_upcoming d = let (r, w) = store_upcoming o.store d.world in (r, record d { world = w })

  -- All that an attempt does before the write: the set `tentative`, with the lines raised.
  pub prepare : Option (ℕ × ℕ) → Exec (Device W) Failure (List ℕ)
  unfolding extend_line count_needs reserve_needs ask_upcoming
  prepare extension = do
    tentative ← extend_line extension
    addresses ← ask_upcoming
    need ← count_needs [] addresses
    reserve_needs need tentative

  -- `state = { ...state, generation: state.generation + 1 }; saving = true`
  pub begin_save : Device W → Device W
  begin_save d = record d {
    state = record (d.state) { generation = d.state.generation + 1 };
    saving = true;
  }

  -- `state = { ...state, reserved: before, generation: state.generation - 1 }`
  pub withdraw : HeightMap → Device W → Device W
  withdraw before d = record d {
    state = record (d.state) { reserved = before; generation = d.state.generation - 1 };
  }

  pub end_save : {A : Type 0} → A × Device W → A × Device W
  end_save (r, d) = (r, record d { saving = false })

  pub still_wanted : Option (ℕ × ℕ) → Device W → Option (ℕ × ℕ)
  still_wanted none d = none
  still_wanted (some (bucket, want)) d = if has_room bucket d then none else some (bucket, want)

  pub retry : Option (ℕ × ℕ) → Exec (Device W) Failure (Attempt (Option (ℕ × ℕ)))
  unfolding still_wanted
  retry extension d = (ok (again (still_wanted extension d)), d)

  pub lost_to :
      HeightMap
      → Option (ℕ × ℕ)
      → List ℕ
      → StamperState
      → Exec (Device W) Failure (Attempt (Option (ℕ × ℕ)))
  unfolding absorb withdraw retry
  lost_to before extension tentative remote d =
      (do absorb remote tentative; retry extension) (withdraw before d)

  -- The `try`, its `catch` and its `finally`.
  pub after_save :
      HeightMap
      → Option (ℕ × ℕ)
      → List ℕ
      → Result SaveFailure (Unit {0}) × Device W
      → Result Failure (Attempt (Option (ℕ × ℕ))) × Device W
  unfolding lost_to end_save
  after_save before extension tentative (ok _, d) = end_save (ok published, d)
  after_save before extension tentative (err (failed e), d) = end_save (err e, d)
  after_save before extension tentative (err (moved remote), d) =
      end_save (lost_to before extension tentative remote d)

  pub save_now : Exec (Device W) SaveFailure (Unit {0})
  unfolding run_script begin_save
  save_now d = run_script (store_save o.store (begin_save d).state d.world) (begin_save d)

  pub write :
      HeightMap → Option (ℕ × ℕ) → List ℕ → Exec (Device W) Failure (Attempt (Option (ℕ × ℕ)))
  unfolding after_save save_now
  write before extension tentative d = after_save before extension tentative (save_now d)

  -- One round of the loop in `commit`.
  pub attempt : Option (ℕ × ℕ) → Exec (Device W) Failure (Attempt (Option (ℕ × ℕ)))
  unfolding prepare write
  attempt extension d =
      (do tentative ← prepare extension; write d.state.reserved extension tentative) d

  pub next_attempt :
      (Option (ℕ × ℕ) → Exec (Device W) Failure (Unit {0}))
      → Attempt (Option (ℕ × ℕ))
      → Exec (Device W) Failure (Unit {0})
  next_attempt loop published = pure tt
  next_attempt loop (again extension) = loop extension

  pub commit_loop : ℕ → Option (ℕ × ℕ) → Exec (Device W) Failure (Unit {0})
  unfolding attempt next_attempt
  commit_loop zero extension = lift (err (dapp_data_error conflict_code))
  commit_loop (suc attempts) extension = do
    outcome ← attempt extension
    next_attempt (commit_loop attempts) outcome

  pub commit : Option (ℕ × ℕ) → Exec (Device W) Failure (Unit {0})
  unfolding commit_loop
  commit extension = commit_loop max_commit_attempts extension

  -- `const stored = await options.store?.load()`
  pub ask_load : Exec (Device W) Failure (Option StamperState)
  ask_load d = let (r, w) = store_load o.store d.world in (r, record d { world = w })

  pub absorb_stored : ℕ → Option StamperState → Exec (Device W) Failure (Unit {0})
  unfolding absorb
  absorb_stored bucket none = pure tt
  absorb_stored bucket (some stored) = absorb stored (bucket ∷ [])

  -- The end of `ensureRoom`, after the checkpoint was read again.
  pub extend : ℕ → Exec (Device W) Failure (Unit {0})
  unfolding commit
  extend bucket d =
      if has_room bucket d then (ok tt, d) else commit (some (bucket, spent d bucket + o.block)) d

  pub reload : ℕ → Exec (Device W) Failure (Unit {0})
  unfolding ask_load absorb_stored extend
  reload bucket = do stored ← ask_load; absorb_stored bucket stored; extend bucket

  pub ensure_room : ℕ → Exec (Device W) Failure (Unit {0})
  unfolding reload
  ensure_room bucket d =
      if has_room bucket d
      then (ok tt, d)
      else if d.saving
      then (err (dapp_data_error unsupported), d)
      else reload bucket d

  -- `stamp` up to the choice of the slot.
  pub stamp_slot : Bytes → Exec (Device W) Failure ℕ
  unfolding ensure_room take_slot
  stamp_slot address = do bucket ← lift (bucket_of address); ensure_room bucket; take_slot bucket

  pub stamp : Bytes → Exec (Device W) Failure Bytes
  unfolding stamp_slot signed
  stamp address = do slot ← stamp_slot address; pure (signed address slot)

  -- The loop of `checkpoint`, over the entries of `used`.
  pub raise_lines : HeightMap → Device W → Device W
  raise_lines [] d = d
  raise_lines ((bucket, h) ∷ rest) d = raise_lines rest (set_line bucket (max (line d bucket) h) d)

  pub checkpoint : Exec (Device W) Failure (Unit {0})
  unfolding raise_lines commit
  checkpoint d = commit none (raise_lines d.used d)

  pub start : Device W → Option StamperState → Result Failure (Device W)
  start blank none = ok blank
  start blank (some stored) =
      if str_eq stored.batch_id o.batch_id
      then (elim (merge_state blank.state stored) [
        | ok merged ↦ ok (record blank { state = merged; used = merged.reserved })
        | err e ↦ err e
      ])
      else err (dapp_data_error unsupported)

  pub create_from : StamperState → W → Result Failure (Device W) × W
  unfolding start
  create_from blank w =
      let (loaded, w') = store_load o.store w in
      elim loaded [
        | ok stored ↦ (
          start (record { state = blank; used = []; saving = false; world = w'; handed = [] })
              stored,
          w',
        )
        | err e ↦ (err e, w')
      ]

  pub create_stamper : W → Result Failure (Device W) × W
  unfolding create_from
  create_stamper w =
      if ltb o.block 1
      then (err (dapp_data_error unsupported), w)
      else elim (blank_state o.batch_id o.depth) [
        | ok blank ↦ create_from blank w
        | err e ↦ (err e, w)
      ]
