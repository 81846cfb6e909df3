-- ===== src/Folder/Slots.antt =====
-- The slots of a folder.
use text.Mathlib.Text.{◌==◌ as str_eq}
use text.Mathlib.TextEquality.{eq_iff}
use dappdata.Base.{
  ℕ, zero, suc, ◌<◌, ◌≡◌, refl, sym, ◌∙◌, Bool-cases, ◌⊎◌, inl, inr, String, Option, none, some,
  List, [], ◌∷◌, ◌++◌, arith, length, length-append, get_elem?,
}
use dappdata.Base.Assoc.{get_value, set_value, get_value-set_value}
use dappdata.Base.Hex.{codes, hex_of_bytes}
use dappdata.Errors.{Bytes}
use dappdata.Slot.{SlotOptions, SlotContext}
use dappdata.Folder.{Tools, DappData, slot_names, slot_topic, new_slot, slot_or_new, slot}

get_elem?-front :
    {A : Type 0} (l m : List A) (i : ℕ) → i < length l → get_elem? (l ++ m) i ≡ get_elem? l i
get_elem?-front [] m i h = absurd (omega arith)
get_elem?-front (x ∷ l) m zero h = refl
get_elem?-front (x ∷ l) m (suc i) h = get_elem?-front l m i (omega arith)

get_elem?-end : {A : Type 0} (l : List A) (a : A) → get_elem? (l ++ a ∷ []) (length l) ≡ some a
get_elem?-end [] a = refl
get_elem?-end (x ∷ l) a = get_elem?-end l a

set-cases :
    (m : List (String × ℕ)) (name : String) (n : ℕ) (name' : String) (h : ℕ)
    → get_value slot_names (set_value slot_names m name n) name' ≡ some h
    → ((name ≡ name') × (n ≡ h)) ⊎ (get_value slot_names m name' ≡ some h)
set-cases m name n name' h e =
    let both = get_value-set_value slot_names m name n name' in
    elim (Bool-cases (str_eq name name')) [
      | inl b ↦ let got = (rw (both, b) at e) in inl ((eq_iff name name').0 b, cc)
      | inr b ↦ inr (let got = (rw (both, b) at e) in got)
    ]

module _ {W T Key : Type 0} (t : Tools Key) where
  -- The topic of a name's feed.
  abbrev pub topic_of : DappData W T Key → String → Bytes
  topic_of dd name =
      t.hashes.keccak
        (t.hashes.utf8 (codes "dappdata/v1/" ++ (codes dd.app ++ (codes "/" ++ codes name))))

  -- The object reads and writes the feed of the name, at the folder's address over its transport, signs
  -- with its feed key, and seals with its encryption key under the name's own associated data.
  pub record IsSlotOf (dd : DappData W T Key) (name : String) (object : SlotContext W T Key)
      : Type 0 where
    pub topic_is : object.feed.topic ≡ topic_of dd name
    pub owner_is : object.feed.owner ≡ dd.address
    pub signer_is : object.feed.signer ≡ some dd.feed_key
    pub feed_is : object.feed.transport ≡ dd.transport
    pub blobs_are : object.transport ≡ dd.transport
    pub key_is : object.key ≡ dd.enc_key
    pub aad_is : object.aad ≡ t.text_of (hex_of_bytes (topic_of dd name))
    pub stamp_is : object.stamp ≡ dd.stamp

  new_slot-IsSlotOf :
      (dd : DappData W T Key) (name : String) (options : SlotOptions W T)
      → IsSlotOf dd name (new_slot t dd name options)
  unfolding new_slot slot_topic
  new_slot-IsSlotOf dd name options = record {
    topic_is = refl;
    owner_is = refl;
    signer_is = refl;
    feed_is = refl;
    blobs_are = refl;
    key_is = refl;
    aad_is = refl;
    stamp_is = refl;
  }

  -- The same folder but for its objects has the same slots.
  IsSlotOf-kept :
      (dd : DappData W T Key) (slots : List (String × ℕ)) (objects : List (SlotContext W T Key))
      (name : String) (object : SlotContext W T Key)
      → IsSlotOf dd name object
      → IsSlotOf (record dd { slots = slots; objects = objects }) name object
  IsSlotOf-kept dd slots objects name object v = record {
    topic_is = v.topic_is;
    owner_is = v.owner_is;
    signer_is = v.signer_is;
    feed_is = v.feed_is;
    blobs_are = v.blobs_are;
    key_is = v.key_is;
    aad_is = v.aad_is;
    stamp_is = v.stamp_is;
  }

  -- Each name has an object of its own, which is a slot of the name.
  pub record IsFolder (dd : DappData W T Key) : Type 0 where
    pub object_of :
        (name : String) (h : ℕ)
        → get_value slot_names dd.slots name ≡ some h
        → (object : SlotContext W T Key) × (get_elem? dd.objects h ≡ some object)
          × IsSlotOf dd name object
    pub places :
        (name : String) (h : ℕ)
        → get_value slot_names dd.slots name ≡ some h
        → h < length dd.objects
    pub apart :
        (name name' : String) (h : ℕ)
        → get_value slot_names dd.slots name ≡ some h
        → get_value slot_names dd.slots name' ≡ some h
        → name ≡ name'

  abbrev after : (String × SlotOptions W T) → DappData W T Key → DappData W T Key
  after (name, options) dd = (slot t name options dd).1

  -- Calls of `slot`, in order.
  abbrev pub run : List (String × SlotOptions W T) → DappData W T Key → DappData W T Key
  run [] dd = dd
  run (call ∷ calls) dd = run calls (after call dd)

  slot_or_new-IsFolder :
      (o : Option ℕ) (name : String) (options : SlotOptions W T) (dd : DappData W T Key)
      → get_value slot_names dd.slots name ≡ o
      → IsFolder dd
      → IsFolder ((slot_or_new t o name options dd).1)
  unfolding slot_or_new new_slot
  slot_or_new-IsFolder (some h) name options dd e v = v
  slot_or_new-IsFolder none name options dd e v = record {
    object_of = λ name' h k. elim (set-cases dd.slots name (length dd.objects) name' h k) [
      | inl (same, place) ↦ (
        new_slot t dd name options,
        rw (sym place) (get_elem?-end dd.objects (new_slot t dd name options)),
        rw (sym same) (
            IsSlotOf-kept dd (set_value slot_names dd.slots name (length dd.objects))
              (dd.objects ++ new_slot t dd name options ∷ []) name (new_slot t dd name options)
              (new_slot-IsSlotOf dd name options)),
      )
      | inr old ↦
          let (object, is, slot_of) = v.object_of name' h old in
          (
            object,
            rw
                (get_elem?-front dd.objects (new_slot t dd name options ∷ []) h
                  (v.places name' h old))
                is,
            IsSlotOf-kept dd (set_value slot_names dd.slots name (length dd.objects))
                (dd.objects ++ new_slot t dd name options ∷ []) name' object slot_of,
          )
    ];
    places = λ name' h k. elim (set-cases dd.slots name (length dd.objects) name' h k) [
      | inl (same, place) ↦
          omega (arith, length-append dd.objects (new_slot t dd name options ∷ []))
      | inr old ↦
          omega (
            arith,
            v.places name' h old,
            length-append dd.objects (new_slot t dd name options ∷ []),
          )
    ];
    apart = λ name' name'' h k l. elim (set-cases dd.slots name (length dd.objects) name' h k) [
      | inl (same, place) ↦ elim (set-cases dd.slots name (length dd.objects) name'' h l) [
        | inl (same', place') ↦ sym same ∙ same'
        | inr old ↦ absurd (let low = v.places name'' h old in omega (arith, low, place))
      ]
      | inr old ↦ elim (set-cases dd.slots name (length dd.objects) name'' h l) [
        | inl (same', place') ↦
            absurd (let low = v.places name' h old in omega (arith, low, place'))
        | inr old' ↦ v.apart name' name'' h old old'
      ]
    ];
  }

  -- A call of `slot` keeps the folder well formed: every name has one object of its own, which reads
  -- and writes the name's feed, signed and sealed with the folder's keys.
  pub slot-IsFolder :
      (name : String) (options : SlotOptions W T) (dd : DappData W T Key)
      → IsFolder dd
      → IsFolder ((slot t name options dd).1)
  unfolding slot
  slot-IsFolder name options dd v =
      slot_or_new-IsFolder (get_value slot_names dd.slots name) name options dd refl v

  kept :
      (name : String) (h : ℕ) (o : Option ℕ) (name' : String) (options : SlotOptions W T)
      (dd : DappData W T Key)
      → get_value slot_names dd.slots name' ≡ o
      → get_value slot_names dd.slots name ≡ some h
      → get_value slot_names (slot_or_new t o name' options dd).1.slots name ≡ some h
  unfolding slot_or_new
  kept name h (some x) name' options dd q e = e
  kept name h none name' options dd q e = elim (Bool-cases (str_eq name' name)) [
    | inl b ↦ let same = (eq_iff name' name).0 b in absurd (let k = (rw same at q) in cc)
    | inr b ↦ rw (get_value-set_value slot_names dd.slots name' (length dd.objects) name, b) e
  ]

  run-kept :
      (calls : List (String × SlotOptions W T)) (name : String) (h : ℕ) (dd : DappData W T Key)
      → get_value slot_names dd.slots name ≡ some h
      → get_value slot_names (run calls dd).slots name ≡ some h
  unfolding slot
  run-kept [] name h dd e = e
  run-kept ((name', options) ∷ calls) name h dd e =
      run-kept calls name h ((slot t name' options dd).1)
        (kept name h (get_value slot_names dd.slots name') name' options dd refl e)

  known :
      (o : Option ℕ) (name : String) (options : SlotOptions W T) (dd : DappData W T Key)
      → get_value slot_names dd.slots name ≡ o
      → get_value slot_names (slot_or_new t o name options dd).1.slots name
        ≡ some ((slot_or_new t o name options dd).0)
  unfolding slot_or_new
  known (some h) name options dd e = e
  known none name options dd e =
      rw
        (
          get_value-set_value slot_names dd.slots name (length dd.objects) name,
          (eq_iff name name).1 refl,
        )
        refl

  -- The same name gives the same object: once `slot` was called with a name, a later call with it
  -- returns the object of the first call and makes none, with whatever options, and whatever calls of
  -- `slot` were between.
  pub slot-slot :
      (name : String) (options options' : SlotOptions W T) (calls : List (String × SlotOptions W T))
      (dd : DappData W T Key)
      → slot t name options' (run calls ((slot t name options dd).1))
        ≡ ((slot t name options dd).0, run calls ((slot t name options dd).1))
  unfolding slot slot_or_new
  slot-slot name options options' calls dd =
      rw
        (run-kept calls name ((slot t name options dd).0) ((slot t name options dd).1)
          (known (get_value slot_names dd.slots name) name options dd refl))
        refl
