-- ===== src/Trace/Resolve.antt =====
-- `resolveTraceId` (src/common/trace/resolve-trace-id.ts) and the middleware that stores its answer
-- (src/common/trace/trace-id.middleware.ts). `randomUUID` is a parameter: the id it gives.
use overbook.Base.{
  ℕ, ◌+◌, Bool, true, false, not, ◌&&◌, ◌||◌, ◌==◌, leb, Option, none, some, String, List, [], ◌∷◌,
  str_eq, if◌then◌else◌,
}
use Prim.Native.Char.{code}

-- the characters that `trim` removes: WhiteSpace and LineTerminator of the language
abbrev pub is_space : ℕ → Bool
is_space c =
    leb 9 c && leb c 13
    || c == 32
    || c == 160
    || c == 5760
    || leb 8192 c && leb c 8202
    || c == 8232
    || c == 8233
    || c == 8239
    || c == 8287
    || c == 12288
    || c == 65279

abbrev pub is_empty : String → Bool
is_empty String.[] = true
is_empty (String.◌∷◌ _ _) = false

abbrev pub trim_start : String → String
trim_start String.[] = ""
trim_start (String.◌∷◌ c s) =
    let rest = trim_start s in if is_space (code c) then rest else String.◌∷◌ c s

abbrev pub trim_end : String → String
trim_end String.[] = ""
trim_end (String.◌∷◌ c s) =
    let rest = trim_end s in if is_space (code c) && is_empty rest then "" else String.◌∷◌ c rest

unfoldable pub trim : String → String
trim s = trim_end (trim_start s)

-- `s.length`: UTF-16 units, two for a character past U+FFFF
abbrev pub utf16_length : String → ℕ
utf16_length String.[] = 0
utf16_length (String.◌∷◌ c s) = (if leb (code c) 65535 then 1 else 2) + utf16_length s

-- `[A-Za-z0-9._:-]`
abbrev pub is_safe_char : ℕ → Bool
is_safe_char c =
    leb 65 c && leb c 90
    || leb 97 c && leb c 122
    || leb 48 c && leb c 57
    || c == 46
    || c == 95
    || c == 58
    || c == 45

abbrev pub all_safe : String → Bool
all_safe String.[] = true
all_safe (String.◌∷◌ c s) = is_safe_char (code c) && all_safe s

-- `SAFE.test(candidate)`
abbrev pub safe_test : String → Bool
safe_test s = not (is_empty s) && all_safe s

abbrev pub max_length : ℕ
max_length = 128

-- `string | string[] | undefined` is an Option of this
pub data HeaderValue : Type 0 where
  one : String → HeaderValue
  many : List String → HeaderValue

abbrev pub Headers : Type 0
Headers = String → Option HeaderValue

abbrev pub trace_header : String
trace_header = "x-request-id"

abbrev pub trace_header_alt : String
trace_header_alt = "x-trace-id"

-- `text || undefined`
abbrev pub or_undefined : String → Option String
or_undefined s = if is_empty s then none else some s

unfoldable pub pick : Option HeaderValue → Option String
unfolding trim
pick none = none
pick (some (one s)) = or_undefined (trim s)
pick (some (many [])) = none
pick (some (many (s ∷ _))) = or_undefined (trim s)

-- `a ?? b`
abbrev pub or_else : Option String → Option String → Option String
or_else none b = b
or_else (some a) b = some a

unfoldable pub candidate : Headers → Option String
unfolding pick trim
candidate headers = or_else (pick (headers trace_header)) (pick (headers trace_header_alt))

abbrev pub checked : Option String → String → String
checked none uuid = uuid
checked (some s) uuid = if leb (utf16_length s) max_length && safe_test s then s else uuid

-- `headers` may be undefined
unfoldable pub resolve_trace_id : Option Headers → String → String
unfolding candidate pick trim
resolve_trace_id none uuid = uuid
resolve_trace_id (some headers) uuid = checked (candidate headers) uuid

pub record Request : Type 0 where
  pub headers : Headers
  pub trace_id : Option String

pub record Response : Type 0 where
  pub headers : Headers

abbrev pub set_header : String → String → Headers → Headers
set_header name value headers = λ key. if str_eq name key then some (one value) else headers key

-- `use`: what is left when `next` is called
unfoldable pub use_trace : Request → Response → String → Request × Response
unfolding resolve_trace_id candidate pick trim
use_trace req res uuid =
    let trace_id = resolve_trace_id (some req.headers) uuid in
    (
      record { headers = set_header trace_header trace_id req.headers; trace_id = some trace_id },
      record { headers = set_header trace_header trace_id res.headers },
    )
