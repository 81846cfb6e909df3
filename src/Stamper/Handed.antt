-- ===== src/Stamper/Handed.antt =====
-- The slots that a device of packages/dappdata/src/stamper/index.ts takes, by its calls of `stamp` and by
-- those that a store makes while it saves: none is taken twice.
mod Saves
use dappdata.Base.{
  ◌∙◌, refl, ap, ◌<◌, ltb, leb, min, List, [], ◌∷◌, arith, ==_iff, ◌>>=◌, lift, pure,
}
use dappdata.Stamper.State.{bucket_of, merge_state}
use dappdata.Stamper.State.Heights.{height, set_height, height-set_height}
use dappdata.Stamper.Store.{Script, done, ask, store_save}
use dappdata.Stamper.Grows.{Grows, mark_spent-Grows, take_slot-Grows}
use dappdata.Stamper.Fresh.{Call, stamps, checkpoints, Misses}
use dappdata.Stamper.Keeps.{Preorder, bind-R, lift-R, pure-R}
use dappdata.Stamper.{
  StamperOptions, Device, mark_spent, take_slot, stamp_saving, run_script, extend_line, count_needs,
  reserve_needs, ask_upcoming, begin_save, stamp_slot, checkpoint, capacity, merge_in,
  take_reserved, set_spent,
}
use dappdata.Stamper.Handed.Saves.{Intact}

module _ {W : Type 0} (o : StamperOptions W) where
  -- The device after a history of calls. After one that throws, the caller goes on.
  abbrev pub after : List Call → Device W → Device W
  after [] d = d
  after (stamps address ∷ rest) d = after rest (stamp_slot o address d).1
  after (checkpoints ∷ rest) d = after rest (checkpoint o d).1
