-- ===== src/Outbox/Ids.antt =====
-- Rows with distinct ids, and those that a query takes of them (src/outbox/outbox.relay.ts).
use overbook.Base.{
  ℕ, ◌≡◌, ◌≢◌, refl, sym, Bool, true, false, List, [], ◌∷◌, All, All-map, filter, take, zero, suc,
  if◌then◌else◌,
}
use overbook.Entities.{OutboxMessageEntity}
use overbook.Outbox.Delivery.{DistinctIds}

pub All-take :
    (P : OutboxMessageEntity → Type 0) (n : ℕ) (l : List OutboxMessageEntity)
    → All P l
    → All P (take n l)
All-take P zero l h = tt
All-take P (suc n) [] h = tt
All-take P (suc n) (m ∷ l) (h, hs) = (h, All-take P n l hs)

pub All-filter :
    (P : OutboxMessageEntity → Type 0) (test : OutboxMessageEntity → Bool)
    (l : List OutboxMessageEntity)
    → All P l
    → All P (filter test l)
All-filter P test [] h = tt
All-filter P test (m ∷ l) (h, hs) = kept (test m) (All-filter P test l hs)
  where
    kept :
        (b : Bool) → All P (filter test l) → All P (if b then m ∷ filter test l else filter test l)
    kept true rest = (h, rest)
    kept false rest = rest

pub take-DistinctIds :
    (n : ℕ) (l : List OutboxMessageEntity) → DistinctIds l → DistinctIds (take n l)
take-DistinctIds zero l d = tt
take-DistinctIds (suc n) [] d = tt
take-DistinctIds (suc n) (m ∷ l) (new, d) =
    (All-take (λ k. k.id ≢ m.id) n l new, take-DistinctIds n l d)

pub filter-DistinctIds :
    (test : OutboxMessageEntity → Bool) (l : List OutboxMessageEntity)
    → DistinctIds l
    → DistinctIds (filter test l)
filter-DistinctIds test [] d = tt
filter-DistinctIds test (m ∷ l) (new, d) = kept (test m) (filter-DistinctIds test l d)
  where
    kept :
        (b : Bool)
        → DistinctIds (filter test l)
        → DistinctIds (if b then m ∷ filter test l else filter test l)
    kept true rest = (All-filter (λ k. k.id ≢ m.id) test l new, rest)
    kept false rest = rest

-- Two rows with the same id are the same row.
abbrev pub IsOnly : OutboxMessageEntity → OutboxMessageEntity → Type 0
IsOnly m k = k.id ≡ m.id → k ≡ m

both_hold :
    (P Q : OutboxMessageEntity → Type 0) (l : List OutboxMessageEntity)
    → All P l
    → All Q l
    → All (λ k. P k × Q k) l
both_hold P Q [] h k = tt
both_hold P Q (m ∷ l) (h, hs) (k, ks) = ((h, k), both_hold P Q l hs ks)

pub DistinctIds-IsOnly :
    (l : List OutboxMessageEntity) → DistinctIds l → All (λ m. All (IsOnly m) l) l
DistinctIds-IsOnly [] d = tt
DistinctIds-IsOnly (m ∷ l) (new, d) = (
  (λ _. refl, All-map l (λ k ne e. absurd (ne e)) new),
  All-map l (λ k h. (λ e. absurd (h.0 (sym e)), h.1))
      (both_hold (λ k. k.id ≢ m.id) (λ k. All (IsOnly k) l) l new (DistinctIds-IsOnly l d)),
)
