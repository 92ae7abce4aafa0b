-- ===== src/Events/Service.antt =====
-- `EventsService` (src/events/events.service.ts).
use overbook.Base.{
  ℕ, ◌+◌, Bool, Option, none, some, String, List, [], ◌∷◌, map, ltb, length, take, if◌then◌else◌,
}
use overbook.Failure.{Failure, not_found, Result, ok, err, Action, pure, ◌>>=◌, or_throw}
use overbook.Entities.{EventEntity}
use overbook.Redis.Cache.{CacheEnvelope, CacheConfig, get_or_load}
use overbook.Events.Store.{NewEvent, EventStore}

pub record CreateEventDto : Type 0 where
  pub name : String
  pub venue : String
  pub total_seats : ℕ
  pub price_cents : ℕ
  pub starts_at : ℕ

pub record EventResponseDto : Type 0 where
  pub id : String
  pub name : String
  pub venue : String
  pub total_seats : ℕ
  pub available_seats : ℕ
  pub price_cents : ℕ
  pub starts_at : ℕ
  pub version : ℕ
  pub created_at : ℕ

unfoldable pub from : EventEntity → EventResponseDto
from event = record {
  id = event.id;
  name = event.name;
  venue = event.venue;
  total_seats = event.total_seats;
  available_seats = event.available_seats;
  price_cents = event.price_cents;
  starts_at = event.starts_at;
  version = event.version;
  created_at = event.created_at;
}

pub record ListEventsDto : Type 0 where
  pub cursor : Option String
  pub limit : ℕ

pub record EventPageDto : Type 0 where
  pub items : List EventResponseDto
  pub next_cursor : Option String

unfoldable pub new_event : CreateEventDto → NewEvent
new_event dto = record {
  name = dto.name;
  venue = dto.venue;
  total_seats = dto.total_seats;
  available_seats = dto.total_seats;
  price_cents = dto.price_cents;
  starts_at = dto.starts_at;
}

-- `items.at(-1)?.id ?? null`
unfoldable pub last_id : List EventEntity → Option String
last_id [] = none
last_id (e ∷ []) = some e.id
last_id (e ∷ f ∷ es) = last_id (f ∷ es)

-- the page made of the rows that were read, one more than the limit if there are more
unfoldable pub page_of : ℕ → List EventEntity → EventPageDto
page_of limit rows =
    let has_more = ltb limit (length rows) in
    let items = if has_more then take limit rows else rows in
    record { items = map from items; next_cursor = if has_more then last_id items else none }

abbrev pub event_not_found : String → Failure
event_not_found id = not_found "Event" id

-- the answer of the loader
abbrev pub dto_of : Option EventEntity → Option EventResponseDto
dto_of none = none
dto_of (some e) = some (from e)

module _ (S : EventStore) where
  open S use {Db, find_page, save}

  unfoldable pub create : CreateEventDto → Action Db EventResponseDto
  create dto = do saved ← save (new_event dto); pure (from saved)

  unfoldable pub list : ListEventsDto → Action Db EventPageDto
  list query = do rows ← find_page query.cursor (query.limit + 1); pure (page_of query.limit rows)

  unfoldable pub load_event : String → Action Db (Option EventResponseDto)
  load_event id = do event ← S.find_one id; pure (dto_of event)

  unfoldable pub find_one_uncached : String → Action Db EventResponseDto
  find_one_uncached id = do
    event ← S.find_one id
    row ← or_throw event (event_not_found id)
    pure (from row)

  -- `findOne`: `entry`, `won`, `read`, `now`, `k` and `d` are what the cache meets (Redis/Cache)
  unfoldable pub find_one :
      CacheConfig
      → Option (CacheEnvelope (Option EventResponseDto))
      → Result Bool
      → (ℕ → Option (CacheEnvelope (Option EventResponseDto)))
      → ℕ
      → ℕ
      → ℕ
      → String
      → Db
      → Result EventResponseDto
  find_one c entry won read now k d id db =
      elim ((get_or_load c (load_event id db).0 entry won read now k d).0) [
        | err e ↦ err e
        | ok none ↦ err (event_not_found id)
        | ok (some dto) ↦ ok dto
      ]
