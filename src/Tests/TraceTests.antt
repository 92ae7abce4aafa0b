-- ===== src/Tests/TraceTests.antt =====
-- Trace ids of src/common/trace/resolve-trace-id.spec.ts, and the theorems at them.
use overbook.Base.{◌≡◌, refl, none, some, String, [], ◌∷◌, str_eq, if◌then◌else◌}
use overbook.Trace.Resolve.{
  HeaderValue, one, many, Headers, trace_header, trace_header_alt, resolve_trace_id, Request,
  Response, use_trace,
}
use overbook.Trace.Safe.{
  IsSafe, IsPassed-IsSafe, resolve_trace_id-IsSafe, use_trace-resolve_trace_id,
}

abbrev uuid : String
uuid = "0b2c8a34-11aa-4bce-9d01-aa55cc77ee99"

uuid-IsSafe : IsSafe uuid
uuid-IsSafe = IsPassed-IsSafe uuid refl

abbrev next_uuid : String
next_uuid = "ffffffff-11aa-4bce-9d01-aa55cc77ee99"

abbrev no_headers : Headers
no_headers = λ name. none

abbrev with : String → HeaderValue → Headers
with name value = λ key. if str_eq name key then some value else none

inbound_id_is_kept : resolve_trace_id (some (with trace_header (one " abc-123 "))) uuid ≡ "abc-123"
unfolding resolve_trace_id
inbound_id_is_kept = refl

second_header : resolve_trace_id (some (with trace_header_alt (one "trace:9"))) uuid ≡ "trace:9"
unfolding resolve_trace_id
second_header = refl

bad_id_is_refused : resolve_trace_id (some (with trace_header (one "bad id\nINJECTED"))) uuid ≡ uuid
unfolding resolve_trace_id
bad_id_is_refused = refl

first_of_two :
    resolve_trace_id (some (with trace_header (many ("first" ∷ "second" ∷ [])))) uuid ≡ "first"
unfolding resolve_trace_id
first_of_two = refl

resolve_trace_id_example :
    IsSafe (resolve_trace_id (some (with trace_header (one "bad id\nINJECTED"))) uuid)
resolve_trace_id_example =
    resolve_trace_id-IsSafe (some (with trace_header (one "bad id\nINJECTED"))) uuid uuid-IsSafe

abbrev req : Request
req = record { headers = with trace_header_alt (one "trace:9"); trace_id = none }

abbrev res : Response
res = record { headers = no_headers }

use_trace_example :
    ((use_trace req res uuid).0.trace_id
      ≡ some (resolve_trace_id (some (use_trace req res uuid).0.headers) next_uuid))
    × ((use_trace req res uuid).0.trace_id
        ≡ some (resolve_trace_id (some (use_trace req res uuid).1.headers) next_uuid))
use_trace_example = use_trace-resolve_trace_id req res uuid next_uuid uuid-IsSafe
