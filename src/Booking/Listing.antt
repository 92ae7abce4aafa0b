-- ===== src/Booking/Listing.antt =====
-- Reading bookings: `findOne` and `listByEvent` of src/bookings/bookings.service.ts, and the routes of
-- src/bookings/bookings.controller.ts in front of them.
use overbook.Base.{
  ℕ, zero, suc, ◌≤◌, ◌≡◌, ◌≢◌, ◌⊎◌, refl, inl, inr, Option, none, some, String, List, take, filter,
  ltb, leb, str_eq, Bool-cases, if◌then◌else◌, arith,
}
use overbook.Failure.{not_found, Result, ok, Action, ◌>>=◌, or_throw}
use overbook.Entities.{BookingEntity}
use overbook.Database.{Reads, Fails}

-- What `Number` makes of a text. `between n` is a fraction above n and below n + 1, and a number below
-- zero is kept as its text.
pub data JsNumber : Type 0 where
  nan infinite : JsNumber
  whole between : ℕ → JsNumber
  negative : String → JsNumber

-- What the reads rely on of PostgreSQL: `newest` is the table, ORDER BY created_at DESC. A LIMIT
-- below zero is refused.
pub record BookingReads : Type 1 where
  pub Db : Type 0
  pub newest : Db → List BookingEntity
  pub booking : String → Db → Option BookingEntity
  pub find_one : String → Action Db (Option BookingEntity)
  pub find : String → JsNumber → Action Db (List BookingEntity)
  pub find_one_law : (id : String) (db : Db) → Reads (find_one id db) (booking id db) db
  pub find_law :
      (id : String) (n : ℕ) (db : Db)
      → Reads (find id (whole n) db) (take n (filter (λ b. str_eq b.event_id id) (newest db))) db
  pub find_refused : (id text : String) (db : Db) → Fails (find id (negative text) db) db

-- `n || 50`
unfoldable pub or_default : JsNumber → JsNumber
or_default nan = whole 50
or_default (whole zero) = whole 50
or_default (whole (suc n)) = whole (suc n)
or_default infinite = infinite
or_default (between n) = between n
or_default (negative text) = negative text

-- `Math.min(n, 200)`
unfoldable pub at_most_200 : JsNumber → JsNumber
at_most_200 nan = nan
at_most_200 infinite = whole 200
at_most_200 (whole n) = if leb n 200 then whole n else whole 200
at_most_200 (between n) = if ltb n 200 then between n else whole 200
at_most_200 (negative text) = negative text

module _ (number : String → JsNumber) where
  -- `Number(limit)`
  unfoldable pub number_of : Option String → JsNumber
  number_of none = nan
  number_of (some text) = number text

  -- `Math.min(Number(limit) || 50, 200)`
  unfoldable pub limit_of : Option String → JsNumber
  unfolding number_of or_default at_most_200
  limit_of limit = at_most_200 (or_default (number_of limit))

  module _ (S : BookingReads) where
    open S use {Db, find_one, find}

    unfoldable pub find_booking : String → Action Db BookingEntity
    find_booking id = do found ← find_one id; or_throw found (not_found "Booking" id)

    unfoldable pub list_by_event : String → JsNumber → Action Db (List BookingEntity)
    list_by_event id limit = find id limit

    -- the route GET events/:eventId/bookings, once the id is known to be a UUID
    unfoldable pub get_bookings : String → Option String → Action Db (List BookingEntity)
    unfolding limit_of list_by_event
    get_bookings id limit = list_by_event id (limit_of limit)

    -- From one to 200 of the newest bookings of the event, or an error.
    abbrev pub IsListing : String → S.Db → Result (List BookingEntity) × S.Db → Type 0
    IsListing id db r =
        ((n : ℕ) × (1 ≤ n)
          × (n ≤ 200)
          × (r ≡ (ok (take n (filter (λ b. str_eq b.event_id id) (S.newest db))), db)))
        ⊎ Fails r db

    abbrev IsWithin : JsNumber → JsNumber → Type 0
    IsWithin v limit =
        ((n : ℕ) × (1 ≤ n) × (n ≤ 200) × (limit ≡ whole n))
        ⊎ ((text : String) × (v ≡ negative text) × (limit ≡ negative text))

    whole-IsWithin : (n : ℕ) → IsWithin (whole (suc n)) (at_most_200 (whole (suc n)))
    unfolding at_most_200
    whole-IsWithin n = elim (Bool-cases (leb (suc n) 200)) [
      | inl small ↦ inl (suc n, omega arith, ground (arith, small), rw small refl)
      | inr large ↦ inl (200, omega arith, omega arith, rw large refl)
    ]

    limit-IsWithin :
        (v : JsNumber) → ((n : ℕ) → v ≢ between n) → IsWithin v (at_most_200 (or_default v))
    unfolding or_default at_most_200
    limit-IsWithin nan ne = inl (50, omega arith, omega arith, refl)
    limit-IsWithin infinite ne = inl (200, omega arith, omega arith, refl)
    limit-IsWithin (whole zero) ne = inl (50, omega arith, omega arith, refl)
    limit-IsWithin (whole (suc n)) ne = whole-IsWithin n
    limit-IsWithin (between n) ne = absurd (ne n refl)
    limit-IsWithin (negative text) ne = inr (text, refl, refl)

    -- Whatever limit the client names, unless it is a fraction: if it is below zero the route fails;
    -- otherwise it answers with the newest bookings of the event and of no other, one to 200 of them at
    -- most, or with an error.
    get_bookings_lem :
        (id : String) (limit : Option String) (db : S.Db)
        → ((n : ℕ) → number_of limit ≢ between n)
        → ((text : String) × (number_of limit ≡ negative text)
            × Fails (get_bookings id limit db) db)
          ⊎ IsListing id db (get_bookings id limit db)
    unfolding get_bookings limit_of list_by_event
    get_bookings_lem id limit db ne = elim (limit-IsWithin (number_of limit) ne) [
      | inr (text, is, refused) ↦ inl (text, is, rw refused (S.find_refused id text db))
      | inl (n, one, most, is) ↦ inr (
          rw is (elim (S.find_law id n db) [
            | inl found ↦ inl (n, one, most, found)
            | inr lost ↦ inr lost
          ]))
    ]
