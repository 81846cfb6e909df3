-- ===== src/Transport/Fetch/Serves.antt =====
-- The transport of packages/dappdata/src/transport/fetch.ts, before a node that keeps a feed's chunks, as
-- one that serves a log.
use dappdata.Base.{
  ℕ, ◌^◌, ◌≤◌, ◌<◌, ◌≡◌, refl, sym, String, Option, none, some, List, [], ◌∷◌, ◌++◌, ◌⊎◌, inl, inr,
  arith, ok, ◌>>=◌, length, get_elem?,
}
use dappdata.Base.Hex.{Text, hex_digits, pad_start, hex_of_bytes, read_hex}
use dappdata.Base.Hex.Numbers.{read_hex-padded}
use dappdata.Errors.{Bytes}
use dappdata.Feed.Address.{feed_identifier}
use dappdata.Feed.Log.{last_update, ServesLog}
use dappdata.Transport.{FeedUpdate, Stamp, batch, marshalled, signer, PutFeedUpdate}
use dappdata.Transport.Fetch.Absent.{ask_maybe-none}
use dappdata.Transport.Fetch.RoundTrip.{SdkLaws, ask-ok, ask_maybe-ok, payload_in-ok, get-of}
use dappdata.Transport.Fetch.{
  upload_headers, Header, Soc, Tools, FetchOptions, or_2000, get_request, upload_request, soc_path,
  stamp_header, ask_maybe, accepted, payload_in, update_at, update_with, update_in, put_feed_update,
  get_feed_update, find_latest, fetch_transport,
}
use dappdata.Transport.Fetch.Promises.{
  Room64, Has, here, there, Postage, identifier_at, chunk_path, feed_path, AnswersNone, Answers,
  IsPaid, Uploads, KeepsFeed, Pays, Makes,
}

module _ {W : Type 0} (t : Tools W) (url : String) (o : FetchOptions) (owner : String)
    (topic : Bytes) where
  -- The header that `stamp_header` makes of a stamp that pays.
  made_header :
      (p : Postage) (Holds : W → List Bytes → Type 0) (stamp : Stamp W) (address : Bytes) (w : W)
      (l : List Bytes)
      → Pays t url o owner topic p Holds stamp
      → Holds w l
      → (headers : List Header) × (v : W) × (stamp_header stamp address w ≡ (ok headers, v))
        × IsPaid t url o owner topic p address headers
        × Holds v l
  unfolding stamp_header ◌>>=◌
  made_header p Holds (batch id) address w l pays h = (_, w, refl, inl (id, pays, here), h)
  made_header p Holds (marshalled id bytes) address w l pays h =
      (_, w, refl, inr (bytes, pays address, here), h)
  made_header p Holds (signer id sign) address w l pays h =
      let (bytes, v, signed, valid, h') = pays address w l h in
      (
        record { name = "swarm-postage-stamp"; value = hex_of_bytes bytes } ∷ [],
        v,
        rw signed refl,
        inr (bytes, valid, here),
        h',
      )

  Has-behind :
      (front headers : List Header) (header : Header)
      → Has header headers
      → Has header (front ++ headers)
  Has-behind [] headers header h = h
  Has-behind (x ∷ front) headers header h = there (Has-behind front headers header h)

  IsPaid-behind :
      (p : Postage) (address : Bytes) (front headers : List Header)
      → IsPaid t url o owner topic p address headers
      → IsPaid t url o owner topic p address (front ++ headers)
  IsPaid-behind p address front headers (inl (id, usable, h)) =
      inl (id, usable, Has-behind front headers _ h)
  IsPaid-behind p address front headers (inr (stamp, valid, h)) =
      inr (stamp, valid, Has-behind front headers _ h)

  upload-Uploads :
      (p : Postage) (put : PutFeedUpdate W) (soc : Soc) (headers : List Header)
      → IsPaid t url o owner topic p soc.address headers
      → Uploads t url o owner topic p put.signer_key
          (feed_identifier t.keccak t.soc_address put.topic put.index)
          soc
          (upload_request t url o (soc_path t url o put soc) headers (soc.span ++ soc.payload))
  unfolding upload_request
  upload-Uploads p put soc headers paid = record {
    posts = refl;
    path_is = refl;
    content_is = refl;
    is_octets = here;
    paid = IsPaid-behind p soc.address (_ ∷ upload_headers o) headers paid;
  }

  absent :
      (path : Text) (time : Option ℕ) (w : W)
      → AnswersNone t url o owner topic path w
      → ask_maybe t url o path time w ≡ (ok none, w)
  absent path time w a =
      (ask_maybe-none t url o path time w w).1 (a (get_request t url o path time) (refl, refl))

  update_at-read :
      (index : Text) (n : ℕ) (payload : Bytes) (w : W)
      → read_hex index ≡ some n
      → update_at t url o (some index) (ok payload) w
        ≡ (ok (some (record { index = n; payload = payload })), w)
  unfolding update_at update_with read_hex ◌>>=◌
  update_at-read [] n payload w e = absurd (cc)
  update_at-read (c ∷ index) n payload w e = rw e refl

  find_latest-some :
      (u : FeedUpdate) (w : W)
      → Answers t url o owner topic
          (feed_path t url o owner topic)
          u.payload
          (some (pad_start 16 (hex_digits u.index)))
          w
      → find_latest t url o owner topic w ≡ (ok (some u), w)
  unfolding find_latest update_in ◌>>=◌
  find_latest-some u w a =
      let (r, e, s, b, i) =
        a (get_request t url o (feed_path t url o owner topic) none) (refl, refl) in
      rw (ask_maybe-ok t url o (feed_path t url o owner topic) none r w w e s, b, i)
        (update_at-read (pad_start 16 (hex_digits u.index)) u.index u.payload w
          (read_hex-padded 16 u.index (omega arith)))

  find_latest-none :
      (w : W)
      → AnswersNone t url o owner topic (feed_path t url o owner topic) w
      → find_latest t url o owner topic w ≡ (ok none, w)
  unfolding find_latest update_in ◌>>=◌
  find_latest-none w a = rw (absent (feed_path t url o owner topic) none w a) refl

  get-none :
      (index : ℕ) (w : W)
      → AnswersNone t url o owner topic (chunk_path t url o owner topic index) w
      → get_feed_update t url o (record { owner = owner; topic = topic; index = index }) w
        ≡ (ok none, w)
  unfolding get_feed_update payload_in ◌>>=◌
  get-none index w a =
      rw (absent (chunk_path t url o owner topic index) (some (or_2000 o.probe_timeout)) w a) refl

  module _ {wire : Bytes → Soc → Bytes} {p : Postage} {Holds : W → List Bytes → Type 0}
      (laws : SdkLaws t wire) (node : KeepsFeed t url o owner topic wire p Holds)
      (makes : Makes t url o owner topic) where
    get-some :
        (w : W) (l : List Bytes) (index : ℕ) (payload : Bytes)
        → Holds w l
        → get_elem? l index ≡ some payload
        → get_feed_update t url o (record { owner = owner; topic = topic; index = index }) w
          ≡ (ok (some payload), w)
    unfolding get_feed_update
    get-some w l index payload h e =
        let time = some (or_2000 o.probe_timeout) in
        let (key, soc, owns, made, a) = node.has_chunk w l index payload h e in
        let (r, f, s, b, i) =
          a (get_request t url o (chunk_path t url o owner topic index) time) (refl, refl) in
        let address = t.soc_address (identifier_at t url o owner topic index) owner in
        let same : soc.address ≡ address =
          rw (sym owns)
            (laws.address_of_soc (identifier_at t url o owner topic index) key payload soc made) in
        get-of t url o (identifier_at t url o owner topic index) address payload owner r w
          (ask_maybe-ok t url o (chunk_path t url o owner topic index) time r w w f s)
          (payload_in-ok t url o address (wire (identifier_at t url o owner topic index) soc)
            payload r w b
            (rw (sym same)
              (laws.unmarshal-wire (identifier_at t url o owner topic index) key payload soc made)))
          refl

    get_at_index :
        (w : W) (l : List Bytes) (index : ℕ) (found : Option Bytes)
        → Holds w l
        → (index ≤ length l) ⊎ (index < 2 ^ 64)
        → get_elem? l index ≡ found
        → get_feed_update t url o (record { owner = owner; topic = topic; index = index }) w
          ≡ (ok found, w)
    get_at_index w l index none h b e = get-none index w (node.has_no_chunk w l index h b e)
    get_at_index w l index (some payload) h b e = get-some w l index payload h e

    find_last_of :
        (w : W) (l : List Bytes) (last : Option FeedUpdate)
        → Holds w l
        → last_update l ≡ last
        → find_latest t url o owner topic w ≡ (ok last, w)
    find_last_of w l none h e = find_latest-none w (node.has_no_last w l h e)
    find_last_of w l (some u) h e = find_latest-some u w (node.has_last w l u h e)

    put_at_end :
        (w : W) (l : List Bytes) (key payload : Bytes) (stamp : Stamp W)
        → t.owner_of key ≡ owner
        → Holds w l
        → length payload ≤ 4096
        → Pays t url o owner topic p Holds stamp
        → Room64 l
        → (w' : W) × (put_feed_update t url o
              (record {
                signer_key = key;
                topic = topic;
                index = length l;
                payload = payload;
                stamp = stamp;
              })
              w
            ≡ (ok tt, w'))
          × Holds w' (l ++ payload ∷ [])
    unfolding put_feed_update accepted ◌>>=◌
    put_at_end w l key payload stamp owns h fits pays room =
        let (soc, made) = makes (identifier_at t url o owner topic (length l)) key payload fits in
        let (headers, v, stamped, paid, h') = made_header p Holds stamp soc.address w l pays h in
        let put : PutFeedUpdate W = record {
          signer_key = key;
          topic = topic;
          index = length l;
          payload = payload;
          stamp = stamp;
        } in
        let (w', created, sent, status, holds) =
          node.takes_next v l key payload soc
            (upload_request t url o (soc_path t url o put soc) headers (soc.span ++ soc.payload)) h'
            room owns made (upload-Uploads p put soc headers paid) in
        (w', rw (made, stamped, ask-ok t url o _ created v w' sent status, status) refl, holds)

    -- If core-sdk keeps its laws and makes a chunk of what fits one, and a node keeps the chunks of a
    -- feed, whose owner's key is the feed's signer where it has one, and takes the next chunk where its
    -- upload is posted to the chunk's path with the signature, holds the span and the payload, and
    -- carries a header that pays, then the transport over `fetch` serves the feed's log, as long as its
    -- indices fit in 64 bits and stamps pay.
    pub fetch-ServesLog :
        (mine : Option Bytes)
        → ((key : Bytes) → mine ≡ some key → t.owner_of key ≡ owner)
        → ServesLog
            (record {
              transport = fetch_transport t url o;
              owner = owner;
              topic = topic;
              signer = mine;
            })
            Holds
            (Pays t url o owner topic p Holds)
            Room64
    fetch-ServesLog mine same = record {
      get_at = λ w l index h b. get_at_index w l index (get_elem? l index) h b refl;
      find_last = λ w l h. find_last_of w l (last_update l) h refl;
      put_next = λ w l key payload stamp h signs fits pays room.
          put_at_end w l key payload stamp (same key signs) h fits pays room;
    }
