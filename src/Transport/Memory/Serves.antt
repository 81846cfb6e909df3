-- ===== src/Transport/Memory/Serves.antt =====
-- The feeds of packages/dappdata/src/transport/memory.ts as a log.
use text.Mathlib.Text.{◌==◌ as str_eq}
use dappdata.Base.{
  ℕ, ◌≡◌, suc, zero, ap, sym, ◌≤◌, refl, true, false, String, Option, none, some, List, [], ◌∷◌,
  ◌++◌, arith, ◌==◌, le→ltb, if◌then◌else◌, ok, ◌>>=◌, length, length-append, get_elem?,
}
use dappdata.Base.Assoc.{get_value, get_value-set_value}
use dappdata.Errors.{Bytes}
use dappdata.Transport.{Stamp, batch, marshalled, signer, stamp_batch_id}
use dappdata.Feed.{SequentialFeed}
use dappdata.Feed.Reads.{last_from-payload, last_from_zero}
use dappdata.Feed.Log.{last_update, ServesLog}
use dappdata.Transport.Memory.{
  head_keys, slot_keys, same_slot, same_head_iff, World, Tools, is_newer, head_key, slot_key,
  ask_stamp, store_update, finish_put, put_feed_update, get_feed_update, as_update, update_at,
  find_latest, memory,
}

-- The index of a log's last entry.
abbrev pub last_index : List Bytes → Option ℕ
last_index [] = none
last_index (payload ∷ rest) = some (length rest)

last_index-snoc : (l : List Bytes) (p : Bytes) → last_index (l ++ p ∷ []) ≡ some (length l)
last_index-snoc [] p = refl
last_index-snoc (x ∷ l) p = ground (arith, length-append l (p ∷ []))

is_newer_last : (l : List Bytes) → is_newer (last_index l) (length l) ≡ true
unfolding is_newer
is_newer_last [] = refl
is_newer_last (x ∷ l) = ground arith

get_elem?-snoc :
    (l : List Bytes) (p : Bytes) (i : ℕ)
    → get_elem? (l ++ p ∷ []) i ≡ (if length l == i then some p else get_elem? l i)
get_elem?-snoc [] p zero = refl
get_elem?-snoc [] p (suc i) = ground arith
get_elem?-snoc (x ∷ l) p zero = ground arith
get_elem?-snoc (x ∷ l) p (suc i) = ground (arith, get_elem?-snoc l p i)

-- There is always room for one more.
abbrev pub NoLimit : List Bytes → Type 0
NoLimit l = Unit {0}

-- A stamp that the transport takes: it names a batch, and if it is a signer, the signer stamps every
-- address and leaves the transport's maps alone.
abbrev pub CanPay : {A : Type 0} → Stamp (World A) → Type 0
CanPay (batch batch_id) = str_eq batch_id "" ≡ false
CanPay (marshalled batch_id bytes) = str_eq batch_id "" ≡ false
CanPay {A} (signer batch_id sign) =
    (str_eq batch_id "" ≡ false)
    × ((address : Bytes) (w : World A)
        → (stamped : Bytes) × (after : A) × (sign address w
            ≡ (ok stamped, record w { outside = after })))

module _ (t : Tools) (owner : String) (topic : Bytes) where
  slot_key_same :
      (i j : ℕ) → same_slot (slot_key t owner topic i) (slot_key t owner topic j) ≡ i == j
  unfolding same_slot
  slot_key_same i j =
      rw ((same_head_iff (head_key t owner topic) (head_key t owner topic)).1 refl) refl

module _ {A : Type 0} (t : Tools) (owner : String) (topic : Bytes) where
  pub record Holds (w : World A) (l : List Bytes) : Type 0 where
    pub holds_at :
        (i : ℕ) → get_value slot_keys w.maps.feeds (slot_key t owner topic i) ≡ get_elem? l i
    pub holds_last : get_value head_keys w.maps.latest (head_key t owner topic) ≡ last_index l

  find_latest-Holds :
      (w : World A) (l : List Bytes)
      → Holds w l
      → find_latest t owner topic w ≡ (ok (last_update l), w)
  unfolding find_latest update_at as_update
  find_latest-Holds w [] h = rw (h.holds_last) refl
  find_latest-Holds w (p ∷ l) h =
      rw (h.holds_last, h.holds_at (length l), last_from-payload 0 p l, sym (last_from_zero p l))
        refl

  pub store_update-Holds :
      (w : World A) (l : List Bytes) (key payload : Bytes) (stamp : Stamp (World A))
      (stamped : Option Bytes)
      → t.lower_case (t.address_of key) ≡ t.lower_case owner
      → Holds w l
      → Holds
          (store_update t
            (record {
              signer_key = key;
              topic = topic;
              index = length l;
              payload = payload;
              stamp = stamp;
            })
            stamped
            w)
          (l ++ payload ∷ [])
  unfolding store_update
  store_update-Holds w l key payload stamp stamped same h = record {
    holds_at = λ i.
        rw
          (
            same,
            get_value-set_value slot_keys w.maps.feeds (slot_key t owner topic (length l)) payload
                (slot_key t owner topic i),
            h.holds_at i,
            get_elem?-snoc l payload i,
          )
          (ap (λ b. if b then some payload else get_elem? l i)
            (slot_key_same t owner topic (length l) i));
    holds_last =
        rw
          (
            same,
            h.holds_last,
            is_newer_last l,
            get_value-set_value head_keys w.maps.latest (head_key t owner topic) (length l)
                (head_key t owner topic),
            last_index-snoc l payload,
          )
          (ap
            (λ b.
              if b
              then some (length l)
              else get_value head_keys w.maps.latest (head_key t owner topic))
            ((same_head_iff (head_key t owner topic) (head_key t owner topic)).1 refl));
  }

  outside_Holds :
      (w : World A) (l : List Bytes) (after : A)
      → Holds w l
      → Holds (record w { outside = after }) l
  outside_Holds w l after h = record { holds_at = h.holds_at; holds_last = h.holds_last }

  put_next-Holds :
      (w : World A) (l : List Bytes) (key payload : Bytes) (stamp : Stamp (World A))
      → t.lower_case (t.address_of key) ≡ t.lower_case owner
      → Holds w l
      → length payload ≤ 4096
      → CanPay stamp
      → (w' : World A) × (put_feed_update t
            (record {
              signer_key = key;
              topic = topic;
              index = length l;
              payload = payload;
              stamp = stamp;
            })
            w
          ≡ (ok tt, w'))
        × Holds w' (l ++ payload ∷ [])
  unfolding put_feed_update ask_stamp finish_put stamp_batch_id ◌>>=◌
  put_next-Holds w l key payload (batch id) same h fits pays = (
    _,
    rw (pays, le→ltb 4096 (length payload) fits) refl,
    store_update-Holds w l key payload (batch id) none same h,
  )
  put_next-Holds w l key payload (marshalled id bytes) same h fits pays = (
    _,
    rw (pays, le→ltb 4096 (length payload) fits) refl,
    store_update-Holds w l key payload (marshalled id bytes) none same h,
  )
  put_next-Holds w l key payload (signer id sign) same h fits (named, signs) =
      let (stamped, after, done) = signs (t.chunk_address (t.address_of key) topic (length l)) w in
      (
        _,
        rw (named, le→ltb 4096 (length payload) fits, done) refl,
        store_update-Holds (record w { outside = after }) l key payload (signer id sign)
            (some stamped) same (outside_Holds w l after h),
      )

  abbrev pub memory_feed : Option Bytes → SequentialFeed (World A)
  memory_feed key = record { transport = memory t; owner = owner; topic = topic; signer = key }

  -- A feed over the in-memory transport, of an owner whose key it signs with: the transport serves its
  -- log, whatever the other feeds in the maps hold.
  pub memory-ServesLog :
      (mine : Option Bytes)
      → ((key : Bytes) → mine ≡ some key → t.lower_case (t.address_of key) ≡ t.lower_case owner)
      → ServesLog (memory_feed mine) Holds CanPay NoLimit
  unfolding get_feed_update
  memory-ServesLog mine same = record {
    get_at = λ w l i h in_log. rw (h.holds_at i) refl;
    find_last = find_latest-Holds;
    put_next = λ w l key payload stamp h signs fits pays room.
        put_next-Holds w l key payload stamp (same key signs) h fits pays;
  }
