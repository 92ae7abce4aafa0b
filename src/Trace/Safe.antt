-- ===== src/Trace/Safe.antt =====
-- What `resolveTraceId` (src/common/trace/resolve-trace-id.ts) answers.
use overbook.Base.{
  ℕ, ◌+◌, ◌≤◌, ◌<◌, ◌⊎◌, ◌≡◌, refl, sym, ap, inl, inr, Bool, true, false, not, ◌&&◌, leb, Option,
  none, some, String, arith, Bool-cases,
}
use Prim.Native.Char.{code}
use overbook.Trace.Resolve.{
  is_space, is_empty, trim_start, trim_end, trim, utf16_length, is_safe_char, all_safe, safe_test,
  max_length, one, Headers, trace_header, pick, candidate, checked, resolve_trace_id, Request,
  Response, set_header, use_trace,
}

-- A letter, a digit, or one of `-`, `.`, `:` and `_`, by its code.
abbrev pub IsSafeChar : ℕ → Type 0
IsSafeChar c =
    ((65 ≤ c) × (c < 91))
    ⊎ (((97 ≤ c) × (c < 123)) ⊎ (((48 ≤ c) × (c < 59)) ⊎ ((c ≡ 45) ⊎ ((c ≡ 46) ⊎ (c ≡ 95)))))

abbrev pub HasSafeChars : String → Type 0
HasSafeChars String.[] = Unit {0}
HasSafeChars (String.◌∷◌ c s) = IsSafeChar (code c) × HasSafeChars s

-- how many characters a text has
abbrev pub size : String → ℕ
size String.[] = 0
size (String.◌∷◌ _ s) = 1 + size s

-- Fit for a log line: from 1 to 128 characters, each of them safe.
abbrev pub IsSafe : String → Type 0
IsSafe s = (0 < size s) × (size s ≤ 128) × HasSafeChars s

-- the test that the code makes
abbrev pub IsPassed : String → Type 0
IsPassed s = (leb (utf16_length s) max_length && safe_test s) ≡ true

both : (a b : Bool) → (a && b) ≡ true → (a ≡ true) × (b ≡ true)
both true true h = (refl, refl)
both true false h = cc h
both false b h = cc h

is_safe_char_lem : (c : ℕ) → is_safe_char c ≡ true → IsSafeChar c
is_safe_char_lem c h = ground arith

IsSafeChar-is_safe_char : (c : ℕ) → IsSafeChar c → is_safe_char c ≡ true
IsSafeChar-is_safe_char c h = ground arith

all_safe-HasSafeChars : (s : String) → all_safe s ≡ true → HasSafeChars s
all_safe-HasSafeChars String.[] h = tt
all_safe-HasSafeChars (String.◌∷◌ c s) h =
    let (here, rest) = both (is_safe_char (code c)) (all_safe s) h in
    (is_safe_char_lem (code c) here, all_safe-HasSafeChars s rest)

HasSafeChars-all_safe : (s : String) → HasSafeChars s → all_safe s ≡ true
HasSafeChars-all_safe String.[] h = refl
HasSafeChars-all_safe (String.◌∷◌ c s) (here, rest) =
    rw (IsSafeChar-is_safe_char (code c) here, HasSafeChars-all_safe s rest) refl

-- Safe characters take one UTF-16 unit each.
utf16_length-size : (s : String) → HasSafeChars s → utf16_length s ≡ size s
utf16_length-size String.[] h = refl
utf16_length-size (String.◌∷◌ c s) (here, rest) = ground (arith, here, utf16_length-size s rest)

not_empty-size : (s : String) → not (is_empty s) ≡ true → 0 < size s
not_empty-size String.[] h = cc h
not_empty-size (String.◌∷◌ c s) h = omega arith

size-not_empty : (s : String) → 0 < size s → not (is_empty s) ≡ true
size-not_empty String.[] h = absurd (omega (arith, h))
size-not_empty (String.◌∷◌ c s) h = refl

pub IsPassed-IsSafe : (s : String) → IsPassed s → IsSafe s
IsPassed-IsSafe s h =
    let (short, good) = both (leb (utf16_length s) max_length) (safe_test s) h in
    let (full, safe) = both (not (is_empty s)) (all_safe s) good in
    let chars = all_safe-HasSafeChars s safe in
    (not_empty-size s full, ground (arith, short, utf16_length-size s chars), chars)

IsSafe-IsPassed : (s : String) → IsSafe s → IsPassed s
IsSafe-IsPassed s (full, short, chars) =
    let fits : leb (utf16_length s) max_length ≡ true =
      ground (arith, short, utf16_length-size s chars) in
    rw (fits, size-not_empty s full, HasSafeChars-all_safe s chars) refl

safe_not_space : (c : ℕ) → is_safe_char c ≡ true → is_space c ≡ false
safe_not_space c h = ground arith

checked-IsSafe : (o : Option String) (uuid : String) → IsSafe uuid → IsSafe (checked o uuid)
checked-IsSafe none uuid h = h
checked-IsSafe (some s) uuid h =
    elim (Bool-cases (leb (utf16_length s) max_length && safe_test s)) [
      | inl good ↦ rw good (IsPassed-IsSafe s good)
      | inr bad ↦ rw bad h
    ]

trim_start_safe : (s : String) → all_safe s ≡ true → trim_start s ≡ s
trim_start_safe String.[] h = refl
trim_start_safe (String.◌∷◌ c s) h =
    rw (safe_not_space (code c) (both (is_safe_char (code c)) (all_safe s) h).0) refl

trim_end_safe : (s : String) → all_safe s ≡ true → trim_end s ≡ s
trim_end_safe String.[] h = refl
trim_end_safe (String.◌∷◌ c s) h =
    let (hc, hs) = both (is_safe_char (code c)) (all_safe s) h in
    rw (safe_not_space (code c) hc, trim_end_safe s hs) refl

-- A safe text passes through `pick` and the check as it is.
picked : (s : String) → IsPassed s → pick (some (one s)) ≡ some s
unfolding pick trim
picked s h =
    let (_, good) = both (leb (utf16_length s) max_length) (safe_test s) h in
    let (full, safe) = both (not (is_empty s)) (all_safe s) good in
    rw (trim_start_safe s safe, trim_end_safe s safe, not_empty s full) refl
  where
    not_empty : (s : String) → not (is_empty s) ≡ true → is_empty s ≡ false
    not_empty s h = elim (Bool-cases (is_empty s)) [ inl e ↦ cc (ap not e, h) | inr e ↦ e ]

-- Whatever the headers, the id has from 1 to 128 characters, each a letter, a digit or one of `-`, `.`,
-- `:` and `_`, where the generated one has.
pub resolve_trace_id-IsSafe :
    (headers : Option Headers) (uuid : String)
    → IsSafe uuid
    → IsSafe (resolve_trace_id headers uuid)
unfolding resolve_trace_id
resolve_trace_id-IsSafe none uuid h = h
resolve_trace_id-IsSafe (some headers) uuid h = checked-IsSafe (candidate headers) uuid h

next_hop :
    (s uuid : String) (headers : Headers)
    → IsPassed s
    → resolve_trace_id (some (set_header trace_header s headers)) uuid ≡ s
unfolding resolve_trace_id candidate
next_hop s uuid headers h = rw (picked s h, h) refl

-- The id that the middleware stores is the one that the next service, and the client from the
-- answer, resolve to from the headers that are passed on, whatever id they would generate.
pub use_trace-resolve_trace_id :
    (req : Request) (res : Response) (uuid uuid' : String)
    → IsSafe uuid
    → (((use_trace req res uuid).0.trace_id
          ≡ some (resolve_trace_id (some (use_trace req res uuid).0.headers) uuid'))
        × ((use_trace req res uuid).0.trace_id
            ≡ some (resolve_trace_id (some (use_trace req res uuid).1.headers) uuid')))
unfolding use_trace
use_trace-resolve_trace_id req res uuid uuid' h =
    let safe = IsSafe-IsPassed _ (resolve_trace_id-IsSafe (some req.headers) uuid h) in
    (
      ap some (sym (next_hop _ uuid' req.headers safe)),
      ap some (sym (next_hop _ uuid' res.headers safe)),
    )
