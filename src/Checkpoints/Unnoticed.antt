-- ===== src/Checkpoints/Unnoticed.antt =====
-- What `save` of packages/dappdata/src/dappdata.ts notices of another device's checkpoint.
use dappdata.Base.{
  ℕ, ◌≡◌, refl, String, none, some, List, [], ◌∷◌, ◌++◌, arith, ok, length, length-append, ◌>>=◌,
  pure,
}
use dappdata.Errors.{Bytes}
use dappdata.Transport.{Stamp}
use dappdata.Feed.Reads.{InStep}
use dappdata.Feed.{at_index, set_index}
use dappdata.Stamper.State.{StamperState}
use dappdata.Stamper.State.Wire.{Wire, encode_state}
use dappdata.Slot.Serves.{Dependable, Storable}
use dappdata.Slot.Rounds.Frames.{ReadsFrom}
use dappdata.Slot.Rounds.{IsGiven, get_last, get-set}
use dappdata.Slot.{SlotContext, SlotState, wanted, get}
use dappdata.Checkpoints.{head, write_at, write_wire, after_write, save}

module _ {W Key : Type 0} (c : SlotContext W Wire Key) {Holds : W → List Bytes → Type 0}
    {CanPay : Stamp W → Type 0} {Room : List Bytes → Type 0} {Stored : W → String → Bytes → Type 0}
    {Good : Bytes → Type 0} (d : Dependable c Holds CanPay Room Stored Good)
    (address_at : ℕ → Bytes) where
  -- Whatever checkpoint the device loaded before, and whatever other devices wrote since: if the last
  -- checkpoint in the slot can be read, and its feed has room for one more, `save` writes after it and reports no lost race, and the slot
  -- then holds this device's checkpoint, which was made without the other one.
  pub save_unnoticed :
      (key : Bytes) (stamp : Stamp W) (s : SlotState W) (l : List Bytes) (p bytes : Bytes)
      (theirs : Wire) (state : StamperState)
      → c.feed.signer ≡ some key
      → CanPay stamp
      → IsGiven stamp
      → Holds s.feed.world (l ++ p ∷ [])
      → InStep (l ++ p ∷ []) s.feed
      → Room (l ++ p ∷ [])
      → ReadsFrom c d s.feed.world p theirs
      → c.options.codec.encode (encode_state state) ≡ ok bytes
      → Storable c Good s.drawn bytes
      → (s' : SlotState W) × (save c address_at state (some stamp) s ≡ (ok tt, s'))
        × (get c s'.feed ≡ (
          ok (
              some (record {
                value = encode_state state;
                index = length (l ++ p ∷ []);
                schema = wanted c;
              })),
          set_index (at_index (length (l ++ p ∷ []))) s'.feed,
        ))
  unfolding save write_wire write_at after_write head ◌>>=◌ pure
  save_unnoticed key stamp s l p bytes theirs state signs pays given h v room reads enc good =
      let reached : SlotState W = record s { feed = set_index (at_index (length l)) s.feed } in
      let step : InStep (l ++ p ∷ []) reached.feed = record {
        cache_holds = omega (arith, length-append l (p ∷ []));
        mine_holds = v.mine_holds;
      } in
      let (s', done, reads_back) =
        get-set c d key signs stamp pays reached (l ++ p ∷ []) (encode_state state) bytes
          (record { expect_index = some (length l); merge = none; stamp = some stamp }) refl given h
          step (omega (arith, length-append l (p ∷ []))) room enc good in
      (s', rw (get_last c d s.feed l p theirs h v reads, done) refl, reads_back)
