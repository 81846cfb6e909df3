-- ===== src/Transport/Fetch/RoundTrip.antt =====
-- An update that packages/dappdata/src/transport/fetch.ts writes, read back.
use dappdata.Base.{ℕ, ◌≡◌, refl, sym, String, Option, some, List, ◌++◌, ok, ◌>>=◌}
use dappdata.Base.Hex.{Text, codes}
use dappdata.Errors.{Bytes}
use dappdata.Feed.Address.{feed_identifier}
use dappdata.Transport.{PutFeedUpdate}
use dappdata.Transport.Fetch.{
  Header, Request, Response, Soc, Tools, FetchOptions, or_2000, get_request, upload_request,
  soc_path, stamp_header, ask, checked, ask_maybe, maybe, accepted, payload_in, put_feed_update,
  get_feed_update,
}

-- What core-sdk promises of a chunk that it made: its address is that of its identifier and owner,
-- and the chunk's bytes at that address hold the payload. `wire` is what a node answers for a chunk.
pub record SdkLaws {W : Type 0} (t : Tools W) (wire : Bytes → Soc → Bytes) : Type 0 where
  pub address_of_soc :
      (identifier key payload : Bytes) (soc : Soc)
      → t.make_soc identifier key payload ≡ ok soc
      → soc.address ≡ t.soc_address identifier (t.owner_of key)
  pub unmarshal-wire :
      (identifier key payload : Bytes) (soc : Soc)
      → t.make_soc identifier key payload ≡ ok soc
      → t.unmarshal (wire identifier soc) soc.address ≡ ok payload

module _ {W : Type 0} (t : Tools W) (url : String) (o : FetchOptions) where
  -- What a node promises: it takes a single-owner chunk that is posted with the headers of its stamp,
  -- and from then on answers for the chunk's address with the chunk.
  abbrev pub Takes : (Bytes → Soc → Bytes) → Type 0
  Takes wire =
      (put : PutFeedUpdate W) (soc : Soc) (headers : List Header) (w : W)
      → t.make_soc (feed_identifier t.keccak t.soc_address put.topic put.index) put.signer_key
          put.payload
        ≡ ok soc
      → (w' : W) × (made : Response) × (t.fetch
            (upload_request t url o (soc_path t url o put soc) headers (soc.span ++ soc.payload)) w
          ≡ (ok made, w'))
        × (made.status ≡ 201)
        × ((time : Option ℕ)
            → (got : Response) × (got.status ≡ 200)
              × (got.body
                  ≡ ok (wire (feed_identifier t.keccak t.soc_address put.topic put.index) soc))
              × (t.fetch
                    (get_request t url o (codes "/chunks/" ++ codes (t.to_hex soc.address)) time) w'
                  ≡ (ok got, w')))

  pub ask-ok :
      (request : Request) (r : Response) (w w' : W)
      → t.fetch request w ≡ (ok r, w')
      → r.status ≡ 201
      → ask t url o request w ≡ (ok r, w')
  unfolding ask checked
  ask-ok request r w w' e s = rw (e, s) refl

  pub ask_maybe-ok :
      (path : Text) (time : Option ℕ) (r : Response) (w w' : W)
      → t.fetch (get_request t url o path time) w ≡ (ok r, w')
      → r.status ≡ 200
      → ask_maybe t url o path time w ≡ (ok (some r), w')
  unfolding ask_maybe maybe
  ask_maybe-ok path time r w w' e s = rw (e, s) refl

  pub payload_in-ok :
      (address body payload : Bytes) (r : Response) (w : W)
      → r.body ≡ ok body
      → t.unmarshal body address ≡ ok payload
      → payload_in t url o address (some r) w ≡ (ok (some payload), w)
  unfolding payload_in ◌>>=◌
  payload_in-ok address body payload r w e u = rw (e, u) refl

  pub get-of :
      (identifier address payload : Bytes) (owner : String) (r : Response) (w : W)
      → ask_maybe t url o
          (codes "/chunks/" ++ codes (t.to_hex address))
          (some (or_2000 o.probe_timeout))
          w
        ≡ (ok (some r), w)
      → payload_in t url o address (some r) w ≡ (ok (some payload), w)
      → address ≡ t.soc_address identifier owner
      → (ask_maybe t url o
              (codes "/chunks/" ++ codes (t.to_hex (t.soc_address identifier owner)))
              (some (or_2000 o.probe_timeout))
            >>= payload_in t url o (t.soc_address identifier owner))
          w
        ≡ (ok (some payload), w)
  unfolding ◌>>=◌
  get-of identifier address payload owner r w a p e = rw (sym e, a, p) refl

  -- If core-sdk makes a chunk of the update, its stamp is given, and the node keeps what it takes,
  -- then the write succeeds, and a read of the index by the key's address gets the payload.
  pub get-put_feed_update :
      (wire : Bytes → Soc → Bytes) (put : PutFeedUpdate W) (soc : Soc) (headers : List Header)
      (w v : W)
      → SdkLaws t wire
      → Takes wire
      → t.make_soc
          (feed_identifier t.keccak t.soc_address put.topic put.index)
          put.signer_key
          put.payload
        ≡ ok soc
      → stamp_header put.stamp soc.address w ≡ (ok headers, v)
      → (w' : W) × (put_feed_update t url o put w ≡ (ok tt, w'))
        × (get_feed_update t url o
              (record { owner = t.owner_of put.signer_key; topic = put.topic; index = put.index })
              w'
            ≡ (ok (some put.payload), w'))
  unfolding put_feed_update accepted get_feed_update ◌>>=◌
  get-put_feed_update wire put soc headers w v laws takes makes pays =
      let (w', made, sent, created, answers) = takes put soc headers v makes in
      let (got, fine, body, served) = answers (some (or_2000 o.probe_timeout)) in
      let got_ok =
        ask_maybe-ok (codes "/chunks/" ++ codes (t.to_hex soc.address))
          (some (or_2000 o.probe_timeout)) got w' w' served fine in
      let identifier = feed_identifier t.keccak t.soc_address put.topic put.index in
      (
        w',
        rw (makes, pays, ask-ok _ made v w' sent created, created) refl,
        get-of identifier soc.address put.payload (t.owner_of put.signer_key) got w' got_ok
            (payload_in-ok soc.address (wire identifier soc) put.payload got w' body
              (laws.unmarshal-wire identifier put.signer_key put.payload soc makes))
            (laws.address_of_soc identifier put.signer_key put.payload soc makes),
      )
