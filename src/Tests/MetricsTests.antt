-- ===== src/Tests/MetricsTests.antt =====
-- Two requests that overlap; the first one fails.
use overbook.Base.{◌≡◌, refl, some, none, List, [], ◌∷◌}
use overbook.Metrics.{
  HttpRequest, HttpEffect, route_of, before_query, intercept, http, tap, fails, Instance, start,
  next, arrives, throws, IsCounted, reach-IsCounted,
}

abbrev booking : HttpRequest
booking = record {
  method = "POST";
  path = some "/v1/events/:id";
  original_url = some "/v1/events/7";
}

abbrev unrouted : HttpRequest
unrouted = record { method = "GET"; path = none; original_url = some "/x?a=1" }

url-label : route_of unrouted ≡ "/x"
unfolding route_of before_query
url-label = refl

abbrev two_open : List HttpEffect
two_open = intercept http (intercept http [])

abbrev one_failed : Instance
one_failed = record {
  open_requests = unrouted ∷ [];
  answered = 1;
  effects = tap booking "201" fails two_open;
}

reach-IsCounted_example : IsCounted one_failed
reach-IsCounted_example = reach-IsCounted (
    next (next (next start (arrives booking)) (arrives unrouted))
      (throws (unrouted ∷ []) [] booking "201" refl))
