-- ===== src/Transport/Fetch/Absent.antt =====
-- What packages/dappdata/src/transport/fetch.ts takes for an absent answer, and what it throws.
use dappdata.Base.{
  ℕ, ◌≡◌, refl, ap, false, Bool-cases, ◌↔◌, ◌⊎◌, inl, inr, String, Option, none, arith, Result, ok,
  err,
}
use dappdata.Base.Hex.{Text}
use dappdata.Errors.{Bytes, Failure}
use dappdata.Transport.Missing.{is_missing_chunk_response}
use dappdata.Transport.Missing.Patterns.{SaysMissing, is_missing_chunk_response_iff}
use dappdata.Transport.Fetch.{
  Response, Thrown, timeout_error, thrown, Tools, FetchOptions, is_ok, get_request, judged, maybe,
  ask_maybe,
}

-- An answer that a read takes for an absent chunk: a timeout, a 404, or a 500 that says so.
abbrev pub IsAbsent : {W : Type 0} → Tools W → Result Thrown Response → Type 0
IsAbsent t r =
    (r ≡ err timeout_error)
    ⊎ ((a : Response) × (body : Bytes) × (r ≡ ok a)
        × (a.body ≡ ok body)
        × ((a.status ≡ 404) ⊎ ((a.status ≡ 500) × SaysMissing (t.decode_text body))))

module _ {W : Type 0} (t : Tools W) (url : String) (o : FetchOptions) where
  judged-none :
      (status : ℕ) (b : Result Failure Bytes)
      → judged t url o status b ≡ ok none
      → (body : Bytes) × (b ≡ ok body)
        × ((status ≡ 404) ⊎ ((status ≡ 500) × SaysMissing (t.decode_text body)))
  unfolding judged
  judged-none status (err e) h = absurd (cc)
  judged-none status (ok body) h =
      elim (Bool-cases (is_missing_chunk_response status (t.decode_text body))) [
        | inl m ↦ (body, refl, (is_missing_chunk_response_iff status (t.decode_text body)).0 m)
        | inr m ↦ absurd (ground (arith, h, m))
      ]

  none-judged :
      (status : ℕ) (body : Bytes)
      → (status ≡ 404) ⊎ ((status ≡ 500) × SaysMissing (t.decode_text body))
      → judged t url o status (ok body) ≡ ok none
  unfolding judged
  none-judged status body m =
      rw ((is_missing_chunk_response_iff status (t.decode_text body)).1 m) refl

  not_ok : (status : ℕ) (S : Type 0) → (status ≡ 404) ⊎ ((status ≡ 500) × S) → is_ok status ≡ false
  not_ok status S (inl e) = rw e refl
  not_ok status S (inr (e, s)) = rw e refl

  maybe-none :
      (r : Result Thrown Response) (w w' : W)
      → maybe t url o (r, w) ≡ (ok none, w')
      → IsAbsent t r × (w ≡ w')
  unfolding maybe
  maybe-none (err timeout_error) w w' h = (inl refl, cc)
  maybe-none (err (thrown e)) w w' h = absurd (cc)
  maybe-none (ok a) w w' h = elim (Bool-cases (is_ok a.status)) [
    | inl k ↦ absurd (ground (arith, h, k))
    | inr k ↦
        let j : judged t url o a.status a.body ≡ ok none = ground (arith, h, k) in
        let (body, b, m) = judged-none a.status a.body j in (inr (a, body, refl, b, m), cc)
  ]

  none-maybe :
      (r : Result Thrown Response) (w : W) → IsAbsent t r → maybe t url o (r, w) ≡ (ok none, w)
  unfolding maybe
  none-maybe r w (inl e) = rw e refl
  none-maybe r w (inr (a, body, e, b, m)) =
      rw (e, not_ok a.status (SaysMissing (t.decode_text body)) m, b, none-judged a.status body m)
        refl

  pub ask_maybe-none :
      (path : Text) (timeout : Option ℕ) (w w' : W)
      → (ask_maybe t url o path timeout w ≡ (ok none, w')) ↔ (
          (r : Result Thrown Response) × (t.fetch (get_request t url o path timeout) w ≡ (r, w'))
          × IsAbsent t r)
  unfolding ask_maybe
  ask_maybe-none path timeout w w' = (
    λ h.
        let (r, v) = t.fetch (get_request t url o path timeout) w in
        let (a, e) = maybe-none r v w' h in (r, ap (λ (x : W). (r, x)) e, a),
    λ h. let (r, e, a) = h in rw e (none-maybe r w' a),
  )
