-- ===== src/Idempotency/SameRequest.antt =====
-- Requests that one client library and another write differently, to `requestFingerprint`
-- (src/idempotency/request-fingerprint.ts).
use overbook.Base.{
  ◌≡◌, refl, sym, ap, ◌∙◌, inl, inr, Bool, true, false, not, String, List, [], ◌∷◌, if◌then◌else◌,
  Bool-cases,
}
use overbook.Idempotency.Fingerprint.{
  Canon, Value, undefined, array, object, Items, no_items, item, Fields, field, is_defined,
  insert_entry, sort_entries, stable_stringify, item_texts, entries, request_fingerprint,
}

module _ (C : Canon) where
  -- The order tells the keys apart: exactly one of them is first.
  abbrev pub Apart : String → String → Type 0
  Apart k l = C.locale_le k l ≡ not (C.locale_le l k)

  -- The same value: in an object neighbours may change places, at any depth, and a field without a
  -- value may be left out.
  mutual
    pub data Same : Value → Value → Type 0 where
      same_value : (v : Value) → Same v v
      same_array : {xs ys : Items} → SameItems xs ys → Same (array xs) (array ys)
      same_object : {fs gs : Fields} → SameFields fs gs → Same (object fs) (object gs)

    pub data SameItems : Items → Items → Type 0 where
      same_end : SameItems no_items no_items
      same_item :
          {v w : Value} {vs ws : Items}
          → Same v w
          → SameItems vs ws
          → SameItems (item v vs) (item w ws)

    pub data SameFields : Fields → Fields → Type 0 where
      as_they_are : (fs : Fields) → SameFields fs fs
      same_field :
          (k : String) {v w : Value} {fs gs : Fields}
          → Same v w
          → SameFields fs gs
          → SameFields (field k v fs) (field k w gs)
      exchange :
          (k l : String) (v w : Value) (fs : Fields)
          → Apart k l
          → SameFields (field k v (field l w fs)) (field l w (field k v fs))
      left_out : (k : String) (fs : Fields) → SameFields (field k undefined fs) fs
      in_turn : {fs gs hs : Fields} → SameFields fs gs → SameFields gs hs → SameFields fs hs

  first_goes_first :
      (a b : String × String) (es : List (String × String))
      → C.locale_le a.0 b.0 ≡ true
      → C.locale_le b.0 a.0 ≡ false
      → insert_entry C a (insert_entry C b es) ≡ insert_entry C b (insert_entry C a es)
  unfolding insert_entry
  first_goes_first a b [] ab ba = rw (ab, ba) refl
  first_goes_first a b (e ∷ es) ab ba = elim (Bool-cases (C.locale_le b.0 e.0)) [
    | inl be ↦ rw (be, C.locale_le_trans a.0 b.0 e.0 ab be, ab, ba, be) refl
    | inr be ↦ elim (Bool-cases (C.locale_le a.0 e.0)) [
      | inl ae ↦ rw (be, ae, ba, be) refl
      | inr ae ↦ rw (be, ae, be) (ap (λ l. e ∷ l) (first_goes_first a b es ab ba))
    ]
  ]

  insert_entry_comm :
      (a b : String × String) (es : List (String × String))
      → Apart a.0 b.0
      → insert_entry C a (insert_entry C b es) ≡ insert_entry C b (insert_entry C a es)
  insert_entry_comm a b es h = elim (Bool-cases (C.locale_le b.0 a.0)) [
    | inl ba ↦ sym (first_goes_first b a es ba (h ∙ ap not ba))
    | inr ba ↦ first_goes_first a b es (h ∙ ap not ba) ba
  ]

  Same-is_defined : {v w : Value} → Same v w → is_defined v ≡ is_defined w
  Same-is_defined (same_value v) = refl
  Same-is_defined (same_array h) = refl
  Same-is_defined (same_object h) = refl

  abbrev add_entry : Bool → String × String → List (String × String) → List (String × String)
  add_entry d e es = if d then e ∷ es else es

  -- Neighbouring entries that the filter lets through or not, in either order.
  sort_exchanged :
      (d d' : Bool) (a b : String × String) (es : List (String × String))
      → Apart a.0 b.0
      → sort_entries C (add_entry d a (add_entry d' b es))
        ≡ sort_entries C (add_entry d' b (add_entry d a es))
  unfolding sort_entries
  sort_exchanged true true a b es h = insert_entry_comm a b (sort_entries C es) h
  sort_exchanged true false a b es h = refl
  sort_exchanged false true a b es h = refl
  sort_exchanged false false a b es h = refl

  sort_added :
      (d : Bool) (e : String × String) (xs ys : List (String × String))
      → sort_entries C xs ≡ sort_entries C ys
      → sort_entries C (add_entry d e xs) ≡ sort_entries C (add_entry d e ys)
  unfolding sort_entries
  sort_added true e xs ys h = ap (insert_entry C e) h
  sort_added false e xs ys h = h

  mutual
    unfolding stable_stringify item_texts entries

    Same-stable_stringify : {v w : Value} → Same v w → stable_stringify C v ≡ stable_stringify C w
    Same-stable_stringify (same_value v) = refl
    Same-stable_stringify (same_array h) = rw (SameItems-item_texts h) refl
    Same-stable_stringify (same_object h) = rw (SameFields-entries h) refl

    SameItems-item_texts : {xs ys : Items} → SameItems xs ys → item_texts C xs ≡ item_texts C ys
    SameItems-item_texts same_end = refl
    SameItems-item_texts (same_item h hs) =
        rw (Same-stable_stringify h, SameItems-item_texts hs) refl

    SameFields-entries :
        {fs gs : Fields}
        → SameFields fs gs
        → sort_entries C (entries C fs) ≡ sort_entries C (entries C gs)
    SameFields-entries (as_they_are fs) = refl
    SameFields-entries (same_field k {v = v} {w = w} {fs = fs} {gs = gs} h hs) =
        rw (Same-is_defined h, Same-stable_stringify h)
          (sort_added (is_defined w) (k, stable_stringify C w) (entries C fs) (entries C gs)
            (SameFields-entries hs))
    SameFields-entries (exchange k l v w fs apart) =
        sort_exchanged (is_defined v) (is_defined w) (k, stable_stringify C v)
          (l, stable_stringify C w) (entries C fs) apart
    SameFields-entries (left_out k fs) = refl
    SameFields-entries (in_turn h hs) = SameFields-entries h ∙ SameFields-entries hs

  -- The same request has one fingerprint, however the client writes its objects.
  pub request_fingerprint_lem :
      (method path : String) {body other : Value}
      → Same body other
      → request_fingerprint C method path body ≡ request_fingerprint C method path other
  unfolding request_fingerprint
  request_fingerprint_lem method path h = rw (request_fingerprint, Same-stable_stringify h) refl
