-- ===== src/Transport/Fetch/Batches.antt =====
-- packages/dappdata/src/transport/fetch.ts: what `getBatch` says, by the two routes that it asks.
use dappdata.Base.{
  ◌≡◌, refl, sym, ◌↔◌, ◌⊎◌, inl, inr, String, Option, none, some, ◌++◌, Result, ok, err, ◌>>=◌,
  >>=-eq-ok,
}
use dappdata.Base.Hex.{Text, codes, strip_0x}
use dappdata.Errors.{Bytes, Failure}
use dappdata.Transport.Fetch.Absent.{IsAbsent, ask_maybe-none}
use dappdata.Transport.Fetch.{
  Thrown, get_request, Response, Tools, FetchOptions, GlobalBatch, ask_maybe, global_status,
  global_in, own_in, get_batch,
}

Result-cases :
    {A : Type 0} (r : Result Failure A) → ((a : A) × (r ≡ ok a)) ⊎ ((e : Failure) × (r ≡ err e))
Result-cases (ok a) = inl (a, refl)
Result-cases (err e) = inr (e, refl)

module _ {W : Type 0} (t : Tools W) (url : String) (o : FetchOptions) where
  -- What a route says of a batch: nothing, or a batch that its body describes.
  abbrev Silent : Text → W → W → Type 0
  Silent path w w' = ask_maybe t url o path none w ≡ (ok none, w')

  abbrev Describes : {J : Type 0} → (Bytes → Result Failure J) → Text → J → W → W → Type 0
  Describes read path b w w' =
      (r : Response) × (body : Bytes) × (ask_maybe t url o path none w ≡ (ok (some r), w'))
      × (r.body ≡ ok body)
      × (read body ≡ ok b)

  global-status :
      (path : Text) (b : GlobalBatch) (w w' : W)
      → Describes t.global_json path b w w'
      → (ask_maybe t url o path none >>= global_in t url o) w
        ≡ (ok (some (global_status t url o b)), w')
  unfolding ◌>>=◌ global_in
  global-status path b w w' (r, body, a, e, j) = rw (a, e, j) refl

  global_in-none :
      (r : Option Response) (v w' : W)
      → global_in t url o r v ≡ (ok none, w')
      → (r ≡ none) × (v ≡ w')
  unfolding global_in ◌>>=◌
  global_in-none none v w' h = (refl, cc)
  global_in-none (some r) v w' h = elim (Result-cases r.body) [
    | inl (body, b) ↦ elim (Result-cases (t.global_json body)) [
      | inl (batch, g) ↦ absurd (let e = (rw (b, g) at h) in cc)
      | inr (x, g) ↦ absurd (let e = (rw (b, g) at h) in cc)
    ]
    | inr (x, b) ↦ absurd (let e = (rw b at h) in cc)
  ]

  batches-Silent :
      (id : Text) (v w' : W)
      → (ask_maybe t url o (codes "/batches/" ++ id) none >>= global_in t url o) v ≡ (ok none, w')
      → Silent (codes "/batches/" ++ id) v w'
  batches-Silent id v w' h =
      let (r, u, a, g) =
        >>=-eq-ok (ask_maybe t url o (codes "/batches/" ++ id) none) (global_in t url o) v h in
      let (e, f) = global_in-none r u w' g in rw (sym e, sym f) a

  own_in-none :
      (id : Text) (r : Option Response) (v w' : W)
      → own_in t url o id r v ≡ (ok none, w')
      → (r ≡ none) × Silent (codes "/batches/" ++ id) v w'
  unfolding own_in ◌>>=◌
  own_in-none id none v w' h = (refl, batches-Silent id v w' h)
  own_in-none id (some r) v w' h = elim (Result-cases r.body) [
    | inl (body, b) ↦ elim (Result-cases (t.own_json body)) [
      | inl (batch, g) ↦ absurd (let e = (rw (b, g) at h) in cc)
      | inr (x, g) ↦ absurd (let e = (rw (b, g) at h) in cc)
    ]
    | inr (x, b) ↦ absurd (let e = (rw b at h) in cc)
  ]

  -- A batch that `/stamps` does not know is described by `/batches`: with no utilization, and usable
  -- if it has time left.
  pub get_batch-global :
      (id : String) (b : GlobalBatch) (w v w' : W)
      → Silent (codes "/stamps/" ++ strip_0x (codes id)) w v
      → Describes t.global_json (codes "/batches/" ++ strip_0x (codes id)) b v w'
      → get_batch t url o id w ≡ (ok (some (global_status t url o b)), w')
  unfolding get_batch ◌>>=◌ own_in
  get_batch-global id b w v w' s h =
      rw s (global-status (codes "/batches/" ++ strip_0x (codes id)) b v w' h)

  -- The answer to a request for a path is a timeout, a 404, or a 500 that says that a chunk is missing.
  abbrev pub Unknown : Text → W → W → Type 0
  Unknown path w w' =
      (r : Result Thrown Response) × (t.fetch (get_request t url o path none) w ≡ (r, w'))
      × IsAbsent t r

  get_batch-Silent :
      (id : String) (w w' : W)
      → (get_batch t url o id w ≡ (ok none, w')) ↔ (
          (v : W) × Silent (codes "/stamps/" ++ strip_0x (codes id)) w v
          × Silent (codes "/batches/" ++ strip_0x (codes id)) v w')
  unfolding get_batch ◌>>=◌ global_in own_in
  get_batch-Silent id w w' = (
    λ h.
        let (r, v, a, g) =
          >>=-eq-ok (ask_maybe t url o (codes "/stamps/" ++ strip_0x (codes id)) none)
            (own_in t url o (strip_0x (codes id))) w h in
        let (e, s) = own_in-none (strip_0x (codes id)) r v w' g in (v, rw (sym e) a, s),
    λ h. let (v, s, g) = h in rw (s, g) refl,
  )

  -- `getBatch` says that a batch does not exist, exactly where first the answer to `/stamps`, and then
  -- the one to `/batches`, is a timeout, a 404, or a 500 with a body in which one of the four texts of a
  -- missing chunk stands.
  pub get_batch-none :
      (id : String) (w w' : W)
      → (get_batch t url o id w ≡ (ok none, w')) ↔ (
          (v : W) × Unknown (codes "/stamps/" ++ strip_0x (codes id)) w v
          × Unknown (codes "/batches/" ++ strip_0x (codes id)) v w')
  get_batch-none id w w' =
      let stamps = codes "/stamps/" ++ strip_0x (codes id) in
      let batches = codes "/batches/" ++ strip_0x (codes id) in
      let (says, said) = get_batch-Silent id w w' in
      (
        λ h.
            let (v, a, b) = says h in
            (
              v,
              (ask_maybe-none t url o stamps none w v).0 a,
              (ask_maybe-none t url o batches none v w').0 b,
            ),
        λ h.
            let (v, a, b) = h in
            said (
              v,
              (ask_maybe-none t url o stamps none w v).1 a,
              (ask_maybe-none t url o batches none v w').1 b,
            ),
      )
