-- ===== src/Checkpoints.antt =====
-- `#slotCheckpointStore` of packages/dappdata/src/dappdata.ts: the stamper's checkpoints in a slot. The
-- slot holds the wire form of a checkpoint; the addresses of its feed are a parameter.
pub mod Unnoticed
use dappdata.Base.{
  ℕ, ◌+◌, Option, none, some, List, [], ◌∷◌, Result, ok, err, Exec, ◌>>=◌, pure, lift,
}
use dappdata.Errors.{Bytes, Failure, dapp_data_error, conflict_error, unsupported}
use dappdata.Transport.{Stamp}
use dappdata.Feed.{FeedState}
use dappdata.Stamper.State.{StamperState}
use dappdata.Stamper.State.Wire.{Wire, encode_state, decode_state}
use dappdata.Stamper.Store.{SaveFailure, moved, failed}
use dappdata.Slot.{SlotContext, SlotState, SlotValue, get, set, in_feed}

abbrev pub index_of : Option (SlotValue Wire) → Option ℕ
index_of none = none
index_of (some current) = some current.index

unfoldable pub next_of : Option ℕ → ℕ
next_of none = 0
next_of (some current) = current + 1

unfoldable pub decode_loaded : Option (SlotValue Wire) → Result Failure (Option StamperState)
decode_loaded none = ok none
decode_loaded (some checkpoint) = elim (decode_state (some checkpoint.value)) [
  | ok state ↦ ok (some state)
  | err e ↦ err e
]

unfoldable pub as_failure : Result Failure StamperState → SaveFailure
as_failure (ok winner) = moved winner
as_failure (err e) = failed e

module _ {W Key : Type 0} (c : SlotContext W Wire Key) (address_at : ℕ → Bytes) where
  unfoldable pub head : Exec (FeedState W) Failure (Option ℕ)
  head = do current ← get c; pure (index_of current)

  unfoldable pub load : Exec (FeedState W) Failure (Option StamperState)
  unfolding decode_loaded
  load = do checkpoint ← get c; lift (decode_loaded checkpoint)

  -- The write about to happen, and the one after it.
  unfoldable pub upcoming : Exec (FeedState W) Failure (List Bytes)
  unfolding head next_of
  upcoming = do
    current ← head
    pure (address_at (next_of current) ∷ address_at (next_of current + 1) ∷ [])

  unfoldable pub write_at : StamperState → Stamp W → Option ℕ → Exec (SlotState W) Failure ℕ
  write_at state stamp expect =
      set c (encode_state state)
        (record { expect_index = expect; merge = none; stamp = some stamp })

  unfoldable pub write_wire : StamperState → Stamp W → Exec (SlotState W) Failure ℕ
  unfolding head write_at
  write_wire state stamp = do expect ← in_feed head; write_at state stamp expect

  -- The checkpoint that won: the error is thrown again if the slot is empty.
  winner_of : Failure → Result Failure (Option (SlotValue Wire)) → SaveFailure
  unfolding as_failure
  winner_of thrown (err e) = failed e
  winner_of thrown (ok none) = failed thrown
  winner_of thrown (ok (some winner)) = as_failure (decode_state (some winner.value))

  unfoldable pub after_write :
      Result Failure ℕ × SlotState W → Result SaveFailure (Unit {0}) × SlotState W
  unfolding winner_of
  after_write (ok index, s) = (ok tt, s)
  after_write (err (conflict_error index payload), s) =
      let (winner, s') = in_feed (get c) s in
      (err (winner_of (conflict_error index payload) winner), s')
  after_write (err e, s) = (err (failed e), s)

  unfoldable pub save : StamperState → Option (Stamp W) → Exec (SlotState W) SaveFailure (Unit {0})
  unfolding write_wire after_write
  save state none s = (err (failed (dapp_data_error unsupported)), s)
  save state (some stamp) s = after_write (write_wire state stamp s)
