-- ===== src/Transport/Fetch/Promises.antt =====
-- What a node behind packages/dappdata/src/transport/fetch.ts promises that keeps a feed's chunks: which
-- requests it answers with what, and which uploads it takes.
use dappdata.Base.{
  ℕ, ◌+◌, ◌^◌, ◌≤◌, ◌<◌, ◌≡◌, String, Option, none, some, List, [], ◌∷◌, ◌++◌, ◌⊎◌, Result, ok,
  length, get_elem?,
}
use dappdata.Base.Hex.{Text, codes, strip_0x, hex_digits, pad_start, hex_of_bytes}
use dappdata.Errors.{Bytes}
use dappdata.Feed.Address.{feed_identifier}
use dappdata.Feed.Log.{last_update}
use dappdata.Transport.{FeedUpdate, Stamp, batch, marshalled, signer}
use dappdata.Transport.Fetch.Absent.{IsAbsent}
use dappdata.Transport.Fetch.{
  get, post, Request, strip_slashes, Header, Response, Thrown, Soc, Tools, FetchOptions,
}

-- An index is written in 64 bits, and the index after the last entry is read as well.
abbrev pub Room64 : List Bytes → Type 0
Room64 l = length l + 1 < 2 ^ 64

pub data Has {A : Type 0} (a : A) : List A → Type 0 where
  here : {l : List A} → Has a (a ∷ l)
  there : {b : A} {l : List A} → Has a l → Has a (b ∷ l)

-- Whom a node takes an upload from: what it judges of the id of a batch of its own, and of the stamp
-- of an address, behind its marshalling.
pub record Postage : Type 1 where
  pub Usable : String → Type 0
  pub Valid : Bytes → Bytes → Type 0

module _ {W : Type 0} (t : Tools W) (url : String) (o : FetchOptions) (owner : String)
    (topic : Bytes) where
  abbrev pub identifier_at : ℕ → Bytes
  identifier_at index = feed_identifier t.keccak t.soc_address topic index

  abbrev pub chunk_path : ℕ → Text
  chunk_path index =
      codes "/chunks/" ++ codes (t.to_hex (t.soc_address (identifier_at index) owner))

  abbrev pub feed_path : Text
  feed_path = codes "/feeds/" ++ strip_0x (codes owner) ++ codes "/" ++ hex_of_bytes topic

  -- A request that gets a path.
  abbrev pub Gets : Text → Request → Type 0
  Gets path request = (request.method ≡ get) × (request.path ≡ strip_slashes (codes url) ++ path)

  -- The answer to such a request is one that a read takes for absent, and the world stays as it is.
  abbrev pub AnswersNone : Text → W → Type 0
  AnswersNone path w =
      (request : Request)
      → Gets path request
      → (r : Result Thrown Response) × (t.fetch request w ≡ (r, w)) × IsAbsent t r

  abbrev pub Answers : Text → Bytes → Option Text → W → Type 0
  Answers path body index w =
      (request : Request)
      → Gets path request
      → (r : Response) × (t.fetch request w ≡ (ok r, w))
        × (r.status ≡ 200)
        × (r.body ≡ ok body)
        × (r.feed_index ≡ index)

  -- The headers pay for a chunk: they name a batch of the node's, or carry a stamp of the address.
  abbrev pub IsPaid : Postage → Bytes → List Header → Type 0
  IsPaid p address headers =
      ((id : String) × p.Usable id
        × Has (record { name = "swarm-postage-batch-id"; value = codes id }) headers)
      ⊎ ((stamp : Bytes) × p.Valid address stamp
          × Has (record { name = "swarm-postage-stamp"; value = hex_of_bytes stamp }) headers)

  -- The upload of a single-owner chunk: it is posted to the owner's and the identifier's path with the
  -- signature as a parameter, its content is the span and the payload, and its headers pay.
  pub record Uploads (p : Postage) (key identifier : Bytes) (soc : Soc) (request : Request)
      : Type 0 where
    pub posts : request.method ≡ post
    pub path_is :
        request.path
        ≡ strip_slashes (codes url)
          ++ (codes "/soc/"
              ++ codes (t.owner_of key)
              ++ codes "/"
              ++ codes (t.to_hex identifier)
              ++ codes "?sig="
              ++ codes (t.to_hex soc.signature))
    pub content_is : request.content ≡ soc.span ++ soc.payload
    pub is_octets :
        Has
          (record { name = "content-type"; value = codes "application/octet-stream" })
          request.headers
    pub paid : IsPaid p soc.address request.headers

  -- What a node promises that keeps the single-owner chunks of the feed, one for each entry of the
  -- log: what it answers a read of an index and a lookup, and that it takes the chunk after the last, if
  -- its upload is well formed and paid.
  pub record KeepsFeed (wire : Bytes → Soc → Bytes) (p : Postage) (Holds : W → List Bytes → Type 0)
      : Type 0 where
    pub has_chunk :
        (w : W) (l : List Bytes) (index : ℕ) (payload : Bytes)
        → Holds w l
        → get_elem? l index ≡ some payload
        → (key : Bytes) × (soc : Soc) × (t.owner_of key ≡ owner)
          × (t.make_soc (identifier_at index) key payload ≡ ok soc)
          × Answers (chunk_path index) (wire (identifier_at index) soc) none w
    pub has_no_chunk :
        (w : W) (l : List Bytes) (index : ℕ)
        → Holds w l
        → (index ≤ length l) ⊎ (index < 2 ^ 64)
        → get_elem? l index ≡ none
        → AnswersNone (chunk_path index) w
    pub has_last :
        (w : W) (l : List Bytes) (u : FeedUpdate)
        → Holds w l
        → last_update l ≡ some u
        → Answers feed_path u.payload (some (pad_start 16 (hex_digits u.index))) w
    pub has_no_last :
        (w : W) (l : List Bytes) → Holds w l → last_update l ≡ none → AnswersNone feed_path w
    pub takes_next :
        (w : W) (l : List Bytes) (key payload : Bytes) (soc : Soc) (request : Request)
        → Holds w l
        → Room64 l
        → t.owner_of key ≡ owner
        → t.make_soc (identifier_at (length l)) key payload ≡ ok soc
        → Uploads p key (identifier_at (length l)) soc request
        → (w' : W) × (made : Response) × (t.fetch request w ≡ (ok made, w'))
          × (made.status ≡ 201)
          × Holds w' (l ++ payload ∷ [])

  -- A stamp that the node takes: a batch of its own, or a stamp of every address, whose signer leaves
  -- the feed alone.
  abbrev pub Pays : Postage → (W → List Bytes → Type 0) → Stamp W → Type 0
  Pays p Holds (batch id) = p.Usable id
  Pays p Holds (marshalled id bytes) = (address : Bytes) → p.Valid address bytes
  Pays p Holds (signer id sign) =
      (address : Bytes) (w : W) (l : List Bytes)
      → Holds w l
      → (bytes : Bytes) × (v : W) × (sign address w ≡ (ok bytes, v))
        × p.Valid address bytes
        × Holds v l

  -- core-sdk makes a chunk of what fits one.
  abbrev pub Makes : Type 0
  Makes =
      (identifier key payload : Bytes)
      → length payload ≤ 4096
      → (soc : Soc) × (t.make_soc identifier key payload ≡ ok soc)
