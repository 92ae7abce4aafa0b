-- ===== src/Tests/EventsTests.antt =====
-- Three events, read two at a time, and one that is read through a cache that holds it.
use overbook.Base.{
  ℕ, ◌≡◌, ◌⊎◌, refl, inl, inr, Bool, true, false, Option, none, some, String, List, [], ◌∷◌, map,
  ltb, take, filter, str_eq, if◌then◌else◌, arith,
}
use overbook.Failure.{Failure, failed, ok, err}
use overbook.Entities.{EventEntity}
use overbook.Redis.Cache.{CacheEnvelope}
use overbook.Events.Store.{EventStore, beyond}
use overbook.Events.Service.{EventResponseDto, from, find_one, find_one_uncached}
use overbook.Events.Pages.{read_all, read_all_lem}
use overbook.Events.Reading.{IsTold, find_one_lem}
use overbook.Tests.CacheTests.{cache}

abbrev event_of : String → EventEntity
event_of id = record {
  id = id;
  name = "Arena";
  venue = "Hall";
  total_seats = 100;
  available_seats = 100;
  price_cents = 2500;
  starts_at = 9;
  version = 0;
  created_at = 1;
  updated_at = 1;
}

abbrev rank : String → ℕ
rank id = if str_eq id "a" then 0 else if str_eq id "b" then 1 else 2

abbrev after : String → String → Bool
after x y = ltb (rank y) (rank x)

after_asym : (x y : String) → after x y ≡ true → after y x ≡ false
after_asym x y h = ground arith

abbrev table : List EventEntity
table = event_of "a" ∷ event_of "b" ∷ event_of "c" ∷ []

abbrev sample_events : EventStore
sample_events = record {
  Db = Unit {0};
  after = after;
  after_asym = after_asym;
  rows = λ _. table;
  ascending = λ _. ((refl, (refl, tt)), ((refl, tt), (tt, tt)));
  event = λ id _. if str_eq id "a" then some (event_of "a") else none;
  find_one = λ id db. (ok (if str_eq id "a" then some (event_of "a") else none), db);
  find_page = λ cursor n db. (ok (take n (filter (beyond after cursor) table)), db);
  save = λ n db. (err (failed "read only"), db);
  find_one_law = λ id db. inl refl;
  find_page_law = λ cursor n db. inl refl;
  save_law = λ n db. inr ("read only", refl);
}

read_all_example : read_all sample_events 4 2 none tt ≡ (ok (map from table), tt)
read_all_example = read_all_lem sample_events 2 tt (omega arith) (λ cursor n. refl)

abbrev held : CacheEnvelope (Option EventResponseDto)
held = record { v = some (from (event_of "a")); fresh_until = 100 }

abbrev no_more : ℕ → Option (CacheEnvelope (Option EventResponseDto))
no_more _ = none

find_one_example :
    (IsTold sample_events "a" tt
        (find_one sample_events cache (some held) (ok false) no_more 50 1 2 "a" tt)
      ⊎ ((x : Failure) × (ok false ≡ err x)
          × (some held ≡ none)
          × (find_one sample_events cache (some held) (ok false) no_more 50 1 2 "a" tt ≡ err x)))
    × IsTold sample_events "a" tt (find_one_uncached sample_events "a" tt).0
find_one_example =
    find_one_lem sample_events cache (some held) (ok false) no_more 50 1 2 "a" tt
      λ e seen. elim seen [ inl is ↦ ground arith | inr (n, none_here) ↦ ground arith ]
