-- ===== src/Tests/ListingTests.antt =====
-- A table of one booking, and a client that asks for five.
use overbook.Base.{◌≡◌, refl, inl, some, none, String, List, [], ◌∷◌, take, filter, str_eq}
use overbook.Failure.{failed, Result, ok, err}
use overbook.Entities.{BookingEntity, confirmed}
use overbook.Booking.Listing.{
  JsNumber, nan, infinite, whole, between, negative, BookingReads, number_of, get_bookings,
  or_default, at_most_200,
}

abbrev booking : BookingEntity
booking = record {
  id = "b1";
  event_id = "e1";
  user_id = "u1";
  quantity = 2;
  status = confirmed;
  idempotency_key = none;
  created_at = 5;
  updated_at = 5;
}

abbrev found : String → JsNumber → List BookingEntity → Result (List BookingEntity)
found id (whole n) rows = ok (take n (filter (λ b. str_eq b.event_id id) rows))
found id nan rows = err (failed "LIMIT")
found id infinite rows = err (failed "LIMIT")
found id (between n) rows = err (failed "LIMIT")
found id (negative text) rows = err (failed "LIMIT must not be negative")

abbrev reads : BookingReads
reads = record {
  Db = List BookingEntity;
  newest = λ rows. rows;
  booking = λ id rows. none;
  find_one = λ id rows. (ok none, rows);
  find = λ id n rows. (found id n rows, rows);
  find_one_law = λ id rows. inl refl;
  find_law = λ id n rows. inl refl;
  find_refused = λ id text rows. ("LIMIT must not be negative", refl);
}

abbrev five : String → JsNumber
five _ = whole 5

first_page :
    get_bookings five reads "e1" (some "5") (booking ∷ []) ≡ (ok (booking ∷ []), booking ∷ [])
unfolding get_bookings or_default at_most_200 number_of
first_page = refl
