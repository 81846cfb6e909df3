-- ===== src/Stamper/Fresh.antt =====
-- The slots that one device hands out, over any history of its calls.
use dappdata.Base.{
  ℕ, suc, ◌+◌, ◌≤◌, ◌≡◌, refl, ap, List, [], ◌∷◌, arith, ==_iff, Result, ok, err, ◌>>=◌, continue,
}
use dappdata.Errors.{Bytes, Failure}
use dappdata.Stamper.State.{bucket_of}
use dappdata.Stamper.State.Heights.{height-set_height}
use dappdata.Stamper.Grows.{Grows, ensure_room-Grows, stamp_slot-Grows, checkpoint-Grows}
use dappdata.Stamper.{StamperOptions, Device, spent, take_slot, ensure_room, stamp_slot, checkpoint}

pub data Call : Type 0 where
  stamps : Bytes → Call
  checkpoints : Call

abbrev with_slot : Result Failure ℕ → Result Failure ℕ → List (ℕ × ℕ) → List (ℕ × ℕ)
with_slot (ok bucket) (ok slot) rest = (bucket, slot) ∷ rest
with_slot _ _ rest = rest

-- Every pair in the list has another bucket or another slot.
abbrev pub Misses : ℕ → ℕ → List (ℕ × ℕ) → Type 0
Misses bucket slot [] = Unit {0}
Misses bucket slot ((b, s) ∷ rest) = ¬ ((b ≡ bucket) × (s ≡ slot)) × Misses bucket slot rest

abbrev pub NoRepeat : List (ℕ × ℕ) → Type 0
NoRepeat [] = Unit {0}
NoRepeat ((b, s) ∷ rest) = Misses b s rest × NoRepeat rest

module _ {W : Type 0} (o : StamperOptions W) where
  -- The (bucket, slot) pairs that a history of calls hands out to its callers; what a store's save is
  -- given on the way is in Stamper.Handed. A call that throws hands out none,
  -- and the caller goes on.
  unfoldable pub handed_out : List Call → Device W → List (ℕ × ℕ)
  handed_out [] d = []
  handed_out (stamps address ∷ rest) d =
      let (r, d') = stamp_slot o address d in with_slot (bucket_of address) r (handed_out rest d')
  handed_out (checkpoints ∷ rest) d = handed_out rest (checkpoint o d).1

  spend_after :
      (d d' : Device W) (b slot : ℕ) (r : Result Failure (Unit {0}) × Device W)
      → Grows d r.1
      → continue r (λ _. take_slot b) ≡ (ok slot, d')
      → (spent d b ≤ slot) × (spent d' b ≡ suc slot)
  unfolding take_slot
  spend_after d d' b slot (ok u, e) g h =
      ground (arith, g b, height-set_height e.used b (spent e b + 1) b, ==_iff b b)
  spend_after d d' b slot (err f, e) g h = cc

  stamp_slot_spends :
      (address : Bytes) (d d' : Device W) (bucket slot : ℕ)
      → bucket_of address ≡ ok bucket
      → stamp_slot o address d ≡ (ok slot, d')
      → (spent d bucket ≤ slot) × (spent d' bucket ≡ suc slot)
  unfolding stamp_slot ◌>>=◌
  stamp_slot_spends address d d' b slot e h =
      spend_after d d' b slot (ensure_room o b d) ((ensure_room-Grows o b).at d)
        (rw (e, stamp_slot) at h)

  abbrev pub Above : Device W → List (ℕ × ℕ) → Type 0
  Above d [] = Unit {0}
  Above d ((b, s) ∷ rest) = (spent d b ≤ s) × Above d rest

  Above-Grows : (d e : Device W) (l : List (ℕ × ℕ)) → Grows d e → Above e l → Above d l
  Above-Grows d e [] g a = tt
  Above-Grows d e ((b, s) ∷ rest) g a = (omega (arith, g b), Above-Grows d e rest g a.1)

  Above-Misses :
      (d : Device W) (b s : ℕ) (l : List (ℕ × ℕ)) → spent d b ≡ suc s → Above d l → Misses b s l
  Above-Misses d b s [] e a = tt
  Above-Misses d b s ((c, t) ∷ rest) e a =
      ((λ same. absurd (omega (arith, ap (λ x. spent d x) same.0))), Above-Misses d b s rest e a.1)

  -- What is handed out from a device on lies at or above its spent heights, and never repeats.
  abbrev pub IsFresh : Device W → List (ℕ × ℕ) → Type 0
  IsFresh d l = Above d l × NoRepeat l

  with_slot-IsFresh :
      (address : Bytes) (d : Device W) (bucket r : Result Failure ℕ) (d' : Device W)
      (rest : List (ℕ × ℕ))
      → bucket_of address ≡ bucket
      → stamp_slot o address d ≡ (r, d')
      → Grows d d'
      → IsFresh d' rest
      → IsFresh d (with_slot bucket r rest)
  with_slot-IsFresh address d (ok b) (ok s) d' rest e h g a =
      let (low, spends) = stamp_slot_spends address d d' b s e h in
      ((low, Above-Grows d d' rest g a.0), (Above-Misses d' b s rest spends a.0, a.1))
  with_slot-IsFresh address d (ok b) (err f) d' rest e h g a = (Above-Grows d d' rest g a.0, a.1)
  with_slot-IsFresh address d (err f) r d' rest e h g a = (Above-Grows d d' rest g a.0, a.1)

  pub handed_out-IsFresh : (calls : List Call) (d : Device W) → IsFresh d (handed_out calls d)
  unfolding handed_out
  handed_out-IsFresh [] d = (tt, tt)
  handed_out-IsFresh (stamps address ∷ rest) d =
      let (r, d') = stamp_slot o address d in
      with_slot-IsFresh address d (bucket_of address) r d' (handed_out rest d') refl refl
        ((stamp_slot-Grows o address).at d) (handed_out-IsFresh rest d')
  handed_out-IsFresh (checkpoints ∷ rest) d =
      let d' = (checkpoint o d).1 in
      let (above, fresh) = handed_out-IsFresh rest d' in
      (Above-Grows d d' _ ((checkpoint-Grows o).at d) above, fresh)
