-- ===== src/Stamper/Store.antt =====
-- `CheckpointStore` of packages/dappdata/src/stamper/index.ts, as the stamper sees it.
use dappdata.Base.{Option, none, some, List, [], Result, ok}
use dappdata.Errors.{Bytes, Failure}
use dappdata.Stamper.State.{StamperState}

-- What `save` throws: a `CheckpointConflictError` with the winner's state, or anything else.
pub data SaveFailure : Type 0 where
  moved : StamperState → SaveFailure
  failed : Failure → SaveFailure

-- A run of `save`: it ends with a result and a new world, or has the stamper sign an address.
pub data Script (W : Type 0) : Type 0 where
  done : Result SaveFailure (Unit {0}) → W → Script W
  ask : Bytes → (Result Failure Bytes → Script W) → Script W

-- `upcoming` may be missing.
pub record CheckpointStore (W : Type 0) : Type 0 where
  pub load : W → Result Failure (Option StamperState) × W
  pub save : StamperState → W → Script W
  pub upcoming : Option (W → Result Failure (List Bytes) × W)

-- `options.store?.load()`, `options.store?.upcoming?.() ?? []` and `options.store?.save(state)`.
module _ {W : Type 0} where
  unfoldable pub store_load :
      Option (CheckpointStore W) → W → Result Failure (Option StamperState) × W
  store_load none w = (ok none, w)
  store_load (some store) w = store.load w

  announced : Option (W → Result Failure (List Bytes) × W) → W → Result Failure (List Bytes) × W
  announced none w = (ok [], w)
  announced (some upcoming) w = upcoming w

  unfoldable pub store_upcoming : Option (CheckpointStore W) → W → Result Failure (List Bytes) × W
  unfolding announced
  store_upcoming none w = (ok [], w)
  store_upcoming (some store) w = announced store.upcoming w

  unfoldable pub store_save : Option (CheckpointStore W) → StamperState → W → Script W
  store_save none state w = done (ok tt) w
  store_save (some store) state w = store.save state w
