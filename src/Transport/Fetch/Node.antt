-- ===== src/Transport/Fetch/Node.antt =====
-- A node that keeps the chunks of one feed, behind packages/dappdata/src/transport/fetch.ts: its world
-- is the feed's log. The hexadecimal text of an address is as long as the index that it is made from.
use dappdata.Base.{
  ℕ, zero, suc, ◌+◌, ◌-◌, ◌*◌, ◌^◌, ◌<◌, ◌≤◌, ◌≡◌, refl, sym, ap, ◌∙◌, true, false, ◌==◌,
  if◌then◌else◌, String, Option, none, some, List, [], ◌∷◌, ◌++◌, arith, Result, ok, err, length,
  length-append, get_elem?, drop, inl, inr, ◌⊎◌,
}
use dappdata.Base.Hex.{Text, codes, hex_digits, pad_start}
use dappdata.Errors.{Bytes, other_error}
use dappdata.Feed.Address.{big_endian_64, feed_identifier, identifier_input}
use dappdata.Feed.Log.{last_update, ServesLog}
use dappdata.Transport.{FeedUpdate}
use dappdata.Transport.Fetch.RoundTrip.{SdkLaws}
use dappdata.Transport.Fetch.Promises.{
  Postage, Gets, feed_path, Room64, identifier_at, chunk_path, KeepsFeed, Pays,
}
use dappdata.Transport.Fetch.Serves.{fetch-ServesLog}
use dappdata.Transport.Fetch.{
  Method, get, post, Request, Response, Thrown, Soc, Tools, FetchOptions, get_request,
  fetch_transport,
}

abbrev value_of : ℕ → Bytes → ℕ
value_of acc [] = acc
value_of acc (b ∷ rest) = value_of (acc * 256 + b) rest

value_of-big_endian_64 : (i : ℕ) → i < 2 ^ 64 → value_of 0 (big_endian_64 i) ≡ i
unfolding big_endian_64
value_of-big_endian_64 i h = omega (arith, h)

abbrev text_of_length : ℕ → String
text_of_length zero = ""
text_of_length (suc n) = String.◌∷◌ "a" (text_of_length n)

length-codes : (n : ℕ) → length (codes (text_of_length n)) ≡ n
length-codes zero = refl
length-codes (suc n) = ap suc (length-codes n)

abbrev chunk_answer : Option Bytes → Response
chunk_answer none = record { status = 404; body = ok []; feed_index = none }
chunk_answer (some payload) = record { status = 200; body = ok payload; feed_index = none }

abbrev lookup_answer : Option FeedUpdate → Response
lookup_answer none = record { status = 404; body = ok []; feed_index = none }
lookup_answer (some u) = record {
  status = 200;
  body = ok u.payload;
  feed_index = some (pad_start 16 (hex_digits u.index));
}

-- A path is a chunk's where `c` stands behind the base and a slash, and its index is what is left of
-- its length.
abbrev read_answer : Text → Text → List Bytes → Response
read_answer [] path log = lookup_answer (last_update log)
read_answer (c ∷ rest) path log =
    if c == 99
    then chunk_answer (get_elem? log (length path - 18))
    else lookup_answer (last_update log)

abbrev answer : Method → Text → Bytes → List Bytes → Result Thrown Response × List Bytes
answer get path content log = (ok (read_answer (drop 11 path) path log), log)
answer post path content log =
    (ok (record { status = 201; body = ok []; feed_index = none }), log ++ drop 8 content ∷ [])

abbrev soc_of : Bytes → Bytes → Soc
soc_of identifier payload = record {
  address = identifier;
  span = 0 ∷ 0 ∷ 0 ∷ 0 ∷ 0 ∷ 0 ∷ 0 ∷ 0 ∷ [];
  payload = payload;
  signature = [];
}

abbrev node : Tools (List Bytes)
node = record {
  fetch = λ request log. answer request.method request.path request.content log;
  keccak = λ b. b;
  make_soc = λ identifier key payload. ok (soc_of identifier payload);
  owner_of = λ key. "0xa";
  soc_address = λ identifier owner. identifier;
  unmarshal = λ bytes address. ok bytes;
  splitter = λ bytes. record { below = []; root = record { address = []; bytes = bytes } };
  to_hex = λ b. text_of_length (value_of 0 (drop 1 b));
  decode_text = λ b. b;
  own_json = λ b. err other_error;
  global_json = λ b. err other_error;
  chain_json = λ b. err other_error;
  big_int = λ s. err other_error;
}

abbrev options : FetchOptions
options = record { deferred = true; pin = false; probe_timeout = none }

abbrev wire : Bytes → Soc → Bytes
wire identifier soc = soc.payload

abbrev Holds : List Bytes → List Bytes → Type 0
Holds w l = (w ≡ l) × (length l < 2 ^ 64)

node-SdkLaws : SdkLaws node wire
node-SdkLaws = record {
  address_of_soc = λ identifier key payload soc e.
      (let same : soc_of identifier payload ≡ soc = cc in rw (sym same) refl);
  unmarshal-wire = λ identifier key payload soc e.
      (let same : soc_of identifier payload ≡ soc = cc in rw (sym same) refl);
}

length-chunk_path :
    (i : ℕ)
    → i < 2 ^ 64
    → length (codes "http://bee" ++ chunk_path node "http://bee" options "0xa" (9 ∷ []) i) - 18 ≡ i
unfolding feed_identifier identifier_input
length-chunk_path i h = rw (value_of-big_endian_64 i h) (omega (arith, length-codes i))

fetch_chunk :
    (l : List Bytes) (i : ℕ) (time : Option ℕ) (found : Option Bytes)
    → i < 2 ^ 64
    → get_elem? l i ≡ found
    → node.fetch
        (get_request node "http://bee" options
          (chunk_path node "http://bee" options "0xa" (9 ∷ []) i)
          time)
        l
      ≡ (ok (chunk_answer found), l)
fetch_chunk l i time found h e =
    ap (λ j. (ok (chunk_answer (get_elem? l j)), l)) (length-chunk_path i h)
    ∙ ap (λ c. (ok (chunk_answer c), l)) e

get_elem?-some : (l : List Bytes) (i : ℕ) (p : Bytes) → get_elem? l i ≡ some p → i < length l
get_elem?-some [] i p e = absurd (cc)
get_elem?-some (x ∷ l) zero p e = omega arith
get_elem?-some (x ∷ l) (suc i) p e = omega (arith, get_elem?-some l i p e)

-- A batch of the node's is "b1", and a stamp is valid where it holds the address.
abbrev postage : Postage
postage = record { Usable = λ id. id ≡ "b1"; Valid = λ address stamp. stamp ≡ address }

-- A request for a chunk of the feed, whatever else it holds.
get_chunk :
    (l : List Bytes) (i : ℕ) (found : Option Bytes) (request : Request)
    → i < 2 ^ 64
    → get_elem? l i ≡ found
    → Gets node "http://bee" options "0xa"
        (9 ∷ [])
        (chunk_path node "http://bee" options "0xa" (9 ∷ []) i)
        request
    → node.fetch request l ≡ (ok (chunk_answer found), l)
get_chunk l i found request h e (m, p) = rw (m, p) (fetch_chunk l i none found h e)

get_head :
    (l : List Bytes) (u : Option FeedUpdate) (request : Request)
    → last_update l ≡ u
    → Gets node "http://bee" options "0xa"
        (9 ∷ [])
        (feed_path node "http://bee" options "0xa" (9 ∷ []))
        request
    → node.fetch request l ≡ (ok (lookup_answer u), l)
get_head l u request e (m, p) = rw (m, p) (ap (λ u. (ok (lookup_answer u), l)) e)

short_index :
    (l : List Bytes) (i : ℕ) → length l < 2 ^ 64 → (i ≤ length l) ⊎ (i < 2 ^ 64) → i < 2 ^ 64
short_index l i h (inl b) = omega (arith, h, b)
short_index l i h (inr b) = b

keeps_feed : KeepsFeed node "http://bee" options "0xa" (9 ∷ []) wire postage Holds
keeps_feed = record {
  has_chunk = λ w l i payload h e.
      let (same, short) = h in
      (
        7 ∷ [],
        soc_of (identifier_at node "http://bee" options "0xa" (9 ∷ []) i) payload,
        refl,
        refl,
        λ request g. (
          chunk_answer (some payload),
          rw same (
              get_chunk l i (some payload) request
                (omega (arith, short, get_elem?-some l i payload e)) e g),
          refl,
          refl,
          refl,
        ),
      );
  has_no_chunk = λ w l i h b e request g.
      let (same, short) = h in
      (
        ok (chunk_answer none),
        rw same (get_chunk l i none request (short_index l i short b) e g),
        inr (chunk_answer none, [], refl, refl, inl refl),
      );
  has_last = λ w l u h e request g.
      let (same, short) = h in
      (lookup_answer (some u), rw same (get_head l (some u) request e g), refl, refl, refl);
  has_no_last = λ w l h e request g.
      let (same, short) = h in
      (
        ok (lookup_answer none),
        rw same (get_head l none request e g),
        inr (lookup_answer none, [], refl, refl, inl refl),
      );
  takes_next = λ w l key payload soc request h room owns made u.
      let (same, short) = h in
      let is : soc_of (identifier_at node "http://bee" options "0xa" (9 ∷ []) (length l)) payload
          ≡ soc =
        cc in
      (
        l ++ payload ∷ [],
        record { status = 201; body = ok []; feed_index = none },
        rw (same, u.posts, u.content_is, sym is) refl,
        refl,
        (refl, omega (arith, room, length-append l (payload ∷ []))),
      );
}

fetch-ServesLog_example :
    ServesLog
      (record {
        transport = fetch_transport node "http://bee" options;
        owner = "0xa";
        topic = 9 ∷ [];
        signer = some (7 ∷ []);
      })
      Holds
      (Pays node "http://bee" options "0xa" (9 ∷ []) postage Holds)
      Room64
fetch-ServesLog_example =
    fetch-ServesLog node "http://bee" options "0xa" (9 ∷ []) node-SdkLaws keeps_feed
      (λ identifier key payload fits. (soc_of identifier payload, refl)) (some (7 ∷ []))
      (λ key e. refl)
