-- ===== src/Feed/Appends.antt =====
-- `append` of packages/dappdata/src/feed/index.ts over a transport that serves a log.
use dappdata.Base.{
  ℕ, zero, suc, ◌+◌, ◌≡◌, ◌≤◌, refl, sym, subst, Option, none, some, List, [], ◌∷◌, ◌++◌, arith,
  Result, ok, err, length, length-append, get_elem?, ◌>>=◌,
}
use dappdata.Errors.{Bytes, Failure, conflict_error}
use dappdata.Transport.{Stamp, PutFeedUpdate}
use dappdata.Feed.Log.{last_update, ServesLog}
use dappdata.Feed.Reads.{
  get_elem?-lt, get_elem?-length, last_update_at, cached, InStep, after_head-last_update, at-Holds,
  latest_in_step,
}
use dappdata.Feed.{
  SequentialFeed, FeedState, Cached, at_index, set_index, latest, target, refuse_taken, remember,
  wrote, put, append_with, append_as, append,
}

get_elem?-append :
    (l : List Bytes) (p : Bytes) (i : ℕ) {q : Bytes}
    → get_elem? l i ≡ some q
    → get_elem? (l ++ p ∷ []) i ≡ some q
get_elem?-append [] p i e = cc
get_elem?-append (x ∷ l) p zero e = e
get_elem?-append (x ∷ l) p (suc i) e = get_elem?-append l p i e

get_elem?-append_last : (l : List Bytes) (p : Bytes) → get_elem? (l ++ p ∷ []) (length l) ≡ some p
get_elem?-append_last [] p = refl
get_elem?-append_last (x ∷ l) p = get_elem?-append_last l p

past_end : (l : List Bytes) (p : Bytes) → get_elem? (l ++ p ∷ []) (suc (length l)) ≡ none
past_end [] p = refl
past_end (x ∷ l) p = past_end l p

pub last_update-append :
    (l : List Bytes) (p : Bytes)
    → last_update (l ++ p ∷ []) ≡ some (record { index = length l; payload = p })
last_update-append l p =
    last_update_at (l ++ p ∷ []) (length l) p (get_elem?-append_last l p) (past_end l p)

-- The caller read the head of this log, or none of an empty one, or leaves the index open.
abbrev pub Expects : List Bytes → Option ℕ → Type 0
Expects l none = Unit {0}
Expects l (some e) = e + 1 ≡ length l

module _ {W : Type 0} (f : SequentialFeed W) {Holds : W → List Bytes → Type 0}
    {CanPay : Stamp W → Type 0} {Room : List Bytes → Type 0}
    (serves : ServesLog f Holds CanPay Room) (l : List Bytes) (s : FeedState W)
    (h : Holds s.world l) where
  target_end :
      (expect : Option ℕ)
      → InStep l s
      → Expects l expect
      → (c : Cached) × (target f expect s ≡ (ok (length l), set_index c s))
  unfolding target ◌>>=◌
  target_end none v e =
      (cached (last_update l), rw (latest_in_step f serves l s h v, after_head-last_update l))
  target_end (some n) v e = (s.index, rw e)

  module _ (key payload : Bytes) (stamp : Stamp W) (fits : length payload ≤ 4096)
      (pays : CanPay stamp) (signs : f.signer ≡ some key) (room : Room l) where
    -- What a write at the end of the log leaves, and the transport's put that it made.
    abbrev pub Extended : Result Failure ℕ × FeedState W → Type 0
    Extended r =
        (s' : FeedState W) × (r ≡ (ok (length l), s'))
        × Holds s'.world (l ++ payload ∷ [])
        × InStep (l ++ payload ∷ []) s'
        × ((p : PutFeedUpdate W) × CanPay p.stamp
            × (f.transport.put_feed_update p s.world ≡ (ok tt, s'.world)))

    append_at_end :
        (expect : Option ℕ) (c : Cached)
        → target f expect s ≡ (ok (length l), set_index c s)
        → Extended (append_with f key payload stamp expect s)
    unfolding append_with refuse_taken wrote remember put ◌>>=◌
    append_at_end expect c e =
        let (w', done, holds) =
          serves.put_next s.world l key payload stamp h signs fits pays room in
        let here = at-Holds f serves l (length l) (set_index c s) h (omega arith) in
        (
          record {
            index = at_index (length l);
            last_written = some (record { index = length l; payload = payload });
            world = w';
          },
          rw (e, here, get_elem?-length l, done),
          holds,
          record {
            cache_holds = omega (arith, length-append l (payload ∷ []));
            mine_holds = get_elem?-append_last l payload;
          },
          (_, pays, done),
        )

    pub append_puts :
        (expect : Option ℕ)
        → InStep l s
        → Expects l expect
        → Extended (append f payload stamp expect s)
    unfolding append append_as
    append_puts expect v e =
        let (c, reached) = target_end expect v e in
        subst (λ k. Extended (append_as f k payload stamp expect s)) (sym signs)
          (append_at_end expect c reached)

    -- A write whose caller read the head, or named no index, goes to the end of a log with room for one
    -- more, and the feed is in step with the longer log.
    pub append_extends :
        (expect : Option ℕ)
        → InStep l s
        → Expects l expect
        → (s' : FeedState W) × (append f payload stamp expect s ≡ (ok (length l), s'))
          × Holds s'.world (l ++ payload ∷ [])
          × InStep (l ++ payload ∷ []) s'
    append_extends expect v e =
        let (s', done, holds, step, put) = append_puts expect v e in (s', done, holds, step)

    -- Then the feed reads back what was written, at the index that `append` returned.
    pub latest-append :
        (expect : Option ℕ)
        → InStep l s
        → Expects l expect
        → (s' s'' : FeedState W) × (append f payload stamp expect s ≡ (ok (length l), s'))
          × (latest f s' ≡ (ok (some (record { index = length l; payload = payload })), s''))
          × (s''.world ≡ s'.world)
    latest-append expect v e =
        let (s', done, holds, step) = append_extends expect v e in
        let l' = l ++ payload ∷ [] in
        (
          s',
          set_index (cached (last_update l')) s',
          done,
          subst (λ u. latest f s' ≡ (ok u, set_index (cached (last_update l')) s'))
              (last_update-append l payload) (latest_in_step f serves l' s' holds step),
          refl,
        )

  -- A write for an index that the log already holds throws the conflict with the update that won, and
  -- changes nothing: no write of another device is overwritten.
  pub append_conflicts :
      (key payload taken : Bytes) (stamp : Stamp W) (e : ℕ)
      → f.signer ≡ some key
      → get_elem? l (e + 1) ≡ some taken
      → append f payload stamp (some e) s ≡ (err (conflict_error (e + 1) taken), s)
  unfolding append append_as append_with target refuse_taken ◌>>=◌
  append_conflicts key payload taken stamp e signs there =
      rw (
        signs,
        at-Holds f serves l (e + 1) s h (omega (arith, get_elem?-lt l (e + 1) there)),
        there,
      )
