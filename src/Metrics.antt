-- ===== src/Metrics.antt =====
-- `HttpMetricsInterceptor` (src/metrics/http-metrics.interceptor.ts), around the requests that an
-- instance serves at the same time.
use overbook.Base.{
  ℕ, ◌+◌, ◌≡◌, refl, ap, Option, none, some, String, List, [], ◌∷◌, ◌++◌, arith, length,
  length-append, if◌then◌else◌, str_eq,
}

-- what is read of a request: `route?.path`, `originalUrl` and `method`
pub record HttpRequest : Type 0 where
  pub method : String
  pub path : Option String
  pub original_url : Option String

-- `context.getType()`
pub data ContextType : Type 0 where
  http rpc ws : ContextType

-- `split('?')[0]`
unfoldable pub before_query : String → String
before_query String.[] = ""
before_query (String.◌∷◌ ch s) =
    let rest = before_query s in if str_eq (String.◌∷◌ ch "") "?" then "" else String.◌∷◌ ch rest

abbrev or_unknown : Option String → String
or_unknown none = "unknown"
or_unknown (some url) = before_query url

-- the path of the route, unless there is none or it is empty
abbrev from_path : Option String → Option String → String
from_path (some (String.◌∷◌ ch s)) url = String.◌∷◌ ch s
from_path (some String.[]) url = or_unknown url
from_path none url = or_unknown url

unfoldable pub route_of : HttpRequest → String
unfolding before_query
route_of r = from_path r.path r.original_url

pub data HttpEffect : Type 0 where
  in_flight_inc in_flight_dec : HttpEffect
  -- the duration, and the total: method, route and status
  timed counted : String → String → String → HttpEffect

-- what a handler emits
pub data Signal : Type 0 where
  emits fails completes : Signal

-- `record`
unfoldable pub record_response : HttpRequest → String → List HttpEffect → List HttpEffect
record_response r status t =
    in_flight_dec ∷ counted r.method (route_of r) status ∷ timed r.method (route_of r) status ∷ t

-- `tap({ next: record, error: record })`, with the status of the response at that time
unfoldable pub tap : HttpRequest → String → Signal → List HttpEffect → List HttpEffect
unfolding record_response
tap r status emits t = record_response r status t
tap r status fails t = record_response r status t
tap r status completes t = t

-- `intercept` up to `next.handle()`
unfoldable pub intercept : ContextType → List HttpEffect → List HttpEffect
intercept http t = in_flight_inc ∷ t
intercept rpc t = t
intercept ws t = t

-- The requests that an instance serves, how many it has answered, and what the metrics were told.
pub record Instance : Type 0 where
  pub open_requests : List HttpRequest
  pub answered : ℕ
  pub effects : List HttpEffect

-- Requests arrive; the handler of one emits its answer or fails, once; what is not HTTP passes through.
pub data Step (s : Instance) : Instance → Type 0 where
  arrives :
      (r : HttpRequest)
      → Step s
          (record s { open_requests = r ∷ s.open_requests; effects = intercept http s.effects })
  passes : Step s (record s { effects = intercept rpc s.effects })
  answers :
      (before after : List HttpRequest) (r : HttpRequest) (status : String)
      → s.open_requests ≡ before ++ (r ∷ after)
      → Step s (record {
        open_requests = before ++ after;
        answered = s.answered + 1;
        effects = tap r status completes (tap r status emits s.effects);
      })
  throws :
      (before after : List HttpRequest) (r : HttpRequest) (status : String)
      → s.open_requests ≡ before ++ (r ∷ after)
      → Step s (record {
        open_requests = before ++ after;
        answered = s.answered + 1;
        effects = tap r status fails s.effects;
      })

pub data Reach : Instance → Type 0 where
  start : Reach (record { open_requests = []; answered = 0; effects = [] })
  next : {s s' : Instance} → Reach s → Step s s' → Reach s'

unfoldable pub increments : List HttpEffect → ℕ
increments [] = 0
increments (in_flight_inc ∷ t) = 1 + increments t
increments (in_flight_dec ∷ t) = increments t
increments (timed _ _ _ ∷ t) = increments t
increments (counted _ _ _ ∷ t) = increments t

unfoldable pub decrements : List HttpEffect → ℕ
decrements [] = 0
decrements (in_flight_inc ∷ t) = decrements t
decrements (in_flight_dec ∷ t) = 1 + decrements t
decrements (timed _ _ _ ∷ t) = decrements t
decrements (counted _ _ _ ∷ t) = decrements t

unfoldable pub responses : List HttpEffect → ℕ
responses [] = 0
responses (in_flight_inc ∷ t) = responses t
responses (in_flight_dec ∷ t) = responses t
responses (timed _ _ _ ∷ t) = responses t
responses (counted _ _ _ ∷ t) = 1 + responses t

-- What the metrics say of an instance.
abbrev pub IsCounted : Instance → Type 0
IsCounted s =
    (increments s.effects ≡ decrements s.effects + length s.open_requests)
    × (responses s.effects ≡ s.answered)
    × (decrements s.effects ≡ s.answered)

step-IsCounted : {s s' : Instance} → Step s s' → IsCounted s → IsCounted s'
unfolding intercept tap record_response increments decrements responses
step-IsCounted (arrives r) (open_count, total, down) = (omega (arith, open_count), total, down)
step-IsCounted passes counts = counts
step-IsCounted (answers before after r status is) (open_count, total, down) =
    let one = length-append before (r ∷ after) in
    let rest = length-append before after in
    (ground (arith, ap length is, one, rest, open_count), omega (arith, total), omega (arith, down))
step-IsCounted (throws before after r status is) (open_count, total, down) =
    let one = length-append before (r ∷ after) in
    let rest = length-append before after in
    (ground (arith, ap length is, one, rest, open_count), omega (arith, total), omega (arith, down))

-- However the requests of an instance overlap, the gauge of requests in flight is the number of those
-- that are not answered yet, and each one that was answered or failed has been counted once.
pub reach-IsCounted : {s : Instance} → Reach s → IsCounted s
unfolding increments decrements responses
reach-IsCounted start = (refl, refl, refl)
reach-IsCounted (next r step) = step-IsCounted step (reach-IsCounted r)
