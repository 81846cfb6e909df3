-- ===== src/Stamper/Restore.antt =====
-- A device that starts from a stored checkpoint: `createStamper`, and what it hands out from then on.
use dappdata.Base.{
  ℕ, ◌≤◌, ◌≡◌, refl, ap, Bool-cases, inl, inr, some, List, [], ◌∷◌, arith, ltb, Result, ok, err,
  false,
}
use dappdata.Errors.{Failure}
use dappdata.Stamper.State.{StamperState, blank_state, merge_state}
use dappdata.Stamper.State.Heights.{HeightMap, Distinct, height}
use dappdata.Stamper.State.Merge.{height-merge_heights}
use dappdata.Stamper.Store.{store_load}
use dappdata.Stamper.Fresh.{Call, Above, handed_out, handed_out-IsFresh}
use dappdata.Stamper.{StamperOptions, Device, spent, line, start, create_from, create_stamper}

-- Every slot of the list lies at or above the line of its bucket.
abbrev pub AboveLines : HeightMap → List (ℕ × ℕ) → Type 0
AboveLines m [] = Unit {0}
AboveLines m ((bucket, slot) ∷ rest) = (height m bucket ≤ slot) × AboveLines m rest

module _ {W : Type 0} (o : StamperOptions W) where
  start-spent :
      (blank d : Device W) (s : StamperState)
      → Distinct s.reserved
      → start o blank (some s) ≡ ok d
      → (bucket : ℕ)
      → (height s.reserved bucket ≤ spent d bucket) × (spent d bucket ≡ line d bucket)
  unfolding start merge_state
  start-spent blank d s distinct e b =
      ground (arith, height-merge_heights blank.state.reserved s.reserved b distinct)

  create_from-spent :
      (blank : StamperState) (w w' w'' : W) (d : Device W) (s : StamperState)
      → store_load o.store w ≡ (ok (some s), w')
      → Distinct s.reserved
      → create_from o blank w ≡ (ok d, w'')
      → (bucket : ℕ)
      → (height s.reserved bucket ≤ spent d bucket) × (spent d bucket ≡ line d bucket)
  unfolding create_from
  create_from-spent blank w w' w'' d s load distinct e =
      start-spent
        (record {
          state = blank;
          used = [];
          saving = false;
          world = (store_load o.store w).1;
          handed = [];
        })
        d s distinct (ap (λ (p : Result Failure (Device W) × W). p.0) (rw (load, create_from) at e))

  -- A device created from a stored checkpoint has nothing left below the stored lines: in every
  -- bucket its spent height is its line, which is no lower than the stored one.
  pub create_stamper-spent :
      (w w' w'' : W) (d : Device W) (s : StamperState)
      → store_load o.store w ≡ (ok (some s), w')
      → Distinct s.reserved
      → create_stamper o w ≡ (ok d, w'')
      → (bucket : ℕ)
      → (height s.reserved bucket ≤ spent d bucket) × (spent d bucket ≡ line d bucket)
  unfolding create_stamper
  create_stamper-spent w w' w'' d s load distinct e = elim (Bool-cases (ltb o.block 1)) [
    | inl small ↦ absurd (ground arith)
    | inr large ↦ from_blank (blank_state o.batch_id o.depth) refl (ground arith)
  ]
    where
      Created : Result Failure StamperState → Type 0
      Created r =
          ◌≡◌ {A = Result Failure (Device W) × W}
            (elim r [ ok blank ↦ create_from o blank w | err f ↦ (err f, w) ]) (ok d, w'')

      from_blank :
          (r : Result Failure StamperState)
          → blank_state o.batch_id o.depth ≡ r
          → Created r
          → (bucket : ℕ)
          → (height s.reserved bucket ≤ spent d bucket) × (spent d bucket ≡ line d bucket)
      from_blank (ok blank) same h = create_from-spent blank w w' w'' d s load distinct h
      from_blank (err f) same h = cc

  Above-AboveLines :
      (m : HeightMap) (d : Device W) (l : List (ℕ × ℕ))
      → ((bucket : ℕ) → height m bucket ≤ spent d bucket)
      → Above o d l
      → AboveLines m l
  Above-AboveLines m d [] h a = tt
  Above-AboveLines m d ((b, s) ∷ rest) h (low, a) =
      (omega (arith, h b), Above-AboveLines m d rest h a)

  -- A device that restores a checkpoint never hands out, in any history of its calls, a slot below
  -- a line of that checkpoint, so none that the device which wrote it was allowed to use.
  pub handed_out-AboveLines :
      (w w' w'' : W) (d : Device W) (s : StamperState) (calls : List Call)
      → store_load o.store w ≡ (ok (some s), w')
      → Distinct s.reserved
      → create_stamper o w ≡ (ok d, w'')
      → AboveLines s.reserved (handed_out o calls d)
  handed_out-AboveLines w w' w'' d s calls load distinct e =
      Above-AboveLines s.reserved d (handed_out o calls d)
        (λ b. (create_stamper-spent w w' w'' d s load distinct e b).0)
        (handed_out-IsFresh o calls d).0
