-- ===== src/Idempotency/Fingerprint.antt =====
-- `requestFingerprint` and `stableStringify` (src/idempotency/request-fingerprint.ts). The hash of
-- node:crypto, `localeCompare` (whose order depends on the locale) and JSON.stringify of a scalar
-- are a parameter.
use overbook.Base.{ℕ, ◌≡◌, Bool, true, false, String, List, [], ◌∷◌, map, if◌then◌else◌}
use Prim.Native.String.{◌++◌ as text_append}

pub record Canon : Type 0 where
  -- `createHash('sha256').update(text).digest('hex')`
  pub sha256 : String → String
  pub to_upper_case : String → String
  pub stringify_string : String → String
  pub stringify_number : ℕ → String
  -- `a.localeCompare(b) <= 0`
  pub locale_le : String → String → Bool
  pub locale_le_trans :
      (a b c : String) → locale_le a b ≡ true → locale_le b c ≡ true → locale_le a c ≡ true

-- The values of `body: unknown`: a number stands for those that JSON has, of which only the text is
-- used.
mutual
  -- `Object.entries`, in the object's own order
  pub data Fields : Type 0 where
    no_fields : Fields
    field : String → Value → Fields → Fields

  pub data Items : Type 0 where
    item : Value → Items → Items
    no_items : Items

  pub data Value : Type 0 where
    undefined null : Value
    object : Fields → Value
    array : Items → Value
    string : String → Value
    bool : Bool → Value
    number : ℕ → Value

-- `v !== undefined`
abbrev pub is_defined : Value → Bool
is_defined undefined = false
is_defined _ = true

-- `texts.join(',')`
abbrev pub join : List String → String
join [] = ""
join (t ∷ []) = t
join (t ∷ u ∷ ts) = text_append t (text_append "," (join (u ∷ ts)))

module _ (C : Canon) where
  -- `.sort(([a], [b]) => a.localeCompare(b))`: stable, an entry goes before those it is not after
  unfoldable pub insert_entry : String × String → List (String × String) → List (String × String)
  insert_entry e [] = e ∷ []
  insert_entry e (f ∷ fs) = if C.locale_le e.0 f.0 then e ∷ f ∷ fs else f ∷ insert_entry e fs

  unfoldable pub sort_entries : List (String × String) → List (String × String)
  unfolding insert_entry
  sort_entries [] = []
  sort_entries (e ∷ es) = insert_entry e (sort_entries es)

  -- `${JSON.stringify(k)}:${stableStringify(v)}`
  abbrev pub entry_text : String × String → String
  entry_text (k, text) = text_append (C.stringify_string k) (text_append ":" text)

  -- The comparison reads the keys alone, so a value's text is made before the entries are sorted.
  unfoldable mutual
    unfolding sort_entries insert_entry

    pub stable_stringify : Value → String
    stable_stringify undefined = "null"
    stable_stringify null = "null"
    stable_stringify (bool true) = "true"
    stable_stringify (bool false) = "false"
    stable_stringify (number n) = C.stringify_number n
    stable_stringify (string s) = C.stringify_string s
    stable_stringify (array xs) = text_append "[" (text_append (join (item_texts xs)) "]")
    stable_stringify (object fs) =
        text_append "{" (text_append (join (map entry_text (sort_entries (entries fs)))) "}")

    pub item_texts : Items → List String
    item_texts no_items = []
    item_texts (item v vs) = stable_stringify v ∷ item_texts vs

    -- `.filter(([, v]) => v !== undefined)`, each value with its text
    pub entries : Fields → List (String × String)
    entries no_fields = []
    entries (field k v fs) =
        let rest = entries fs in if is_defined v then (k, stable_stringify v) ∷ rest else rest

  unfoldable pub request_fingerprint : String → String → Value → String
  unfolding stable_stringify item_texts entries sort_entries insert_entry
  request_fingerprint method path body = C.sha256 (
      text_append (C.to_upper_case method)
        (text_append " " (text_append path (text_append " " (stable_stringify body)))))
