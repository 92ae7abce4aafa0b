-- ===== src/Events/Pages.antt =====
-- `list` (src/events/events.service.ts), and a client that follows `nextCursor` to the end.
use overbook.Base.{
  ℕ, zero, suc, ◌+◌, ◌≤◌, ◌<◌, ◌≡◌, refl, sym, ap, subst, ◌∙◌, inl, inr, true, Option, none, some,
  String, List, [], ◌∷◌, ◌++◌, map, ltb, length, length-take, take, filter, All, arith, Bool-cases,
}
use mathlib.Core.List.{append_assoc}
use overbook.Failure.{failed, ok, err, Action}
use overbook.Entities.{EventEntity}
use overbook.Events.Store.{EventStore, beyond, IsAscending}
use overbook.Events.Service.{EventResponseDto, from, last_id, page_of, list}

-- the rows after the first `n`
abbrev drop : ℕ → List EventEntity → List EventEntity
drop zero es = es
drop (suc n) [] = []
drop (suc n) (e ∷ es) = drop n es

-- A long list, cut after `n + 1` elements: the last one before the cut.
abbrev Cut : ℕ → List EventEntity → Type 0
Cut n es =
    (before : List EventEntity) × (x : EventEntity) × (rest : List EventEntity) × (es
      ≡ before ++ (x ∷ rest))
    × (take (suc n) es ≡ before ++ (x ∷ []))
    × (length es ≡ suc n + length rest)

cut : (n : ℕ) (es : List EventEntity) → suc n < length es → Cut n es
cut n [] h = absurd (omega arith)
cut zero (e ∷ es) h = ([], e, es, refl, refl, omega arith)
cut (suc n) (e ∷ es) h =
    let (before, x, rest, split, first, len) = cut n es (omega arith) in
    (e ∷ before, x, rest, ap (λ l. e ∷ l) split, ap (λ l. e ∷ l) first, omega (arith, len))

last_id-append :
    (before : List EventEntity) (x : EventEntity) → last_id (before ++ (x ∷ [])) ≡ some x.id
unfolding last_id
last_id-append [] x = refl
last_id-append (e ∷ []) x = refl
last_id-append (e ∷ f ∷ before) x = last_id-append (f ∷ before) x

map-append-from : (es fs : List EventEntity) → map from (es ++ fs) ≡ map from es ++ map from fs
map-append-from [] fs = refl
map-append-from (e ∷ es) fs = ap (λ l. from e ∷ l) (map-append-from es fs)

take_all : (n : ℕ) (es : List EventEntity) → length es ≤ n → take n es ≡ es
take_all zero [] h = refl
take_all (suc n) [] h = refl
take_all zero (e ∷ es) h = absurd (omega arith)
take_all (suc n) (e ∷ es) h = ap (λ l. e ∷ l) (take_all n es (omega arith))

take-take-suc : (n : ℕ) (es : List EventEntity) → take n (take (suc n) es) ≡ take n es
take-take-suc zero es = refl
take-take-suc (suc n) [] = refl
take-take-suc (suc n) (e ∷ es) = ap (λ l. e ∷ l) (take-take-suc n es)

show_suc : (n : ℕ) → suc n + 1 ≡ suc (suc n)
show_suc n = omega arith

-- The last page: everything that is left.
page-last :
    (limit : ℕ) (es : List EventEntity)
    → length es ≤ limit
    → page_of limit (take (limit + 1) es) ≡ record { items = map from es; next_cursor = none }
unfolding page_of
page-last limit es h = rw (take_all (limit + 1) es (omega arith)) (ground arith)

-- A page before the last: up to the cut.
page-more :
    (n : ℕ) (es before rest : List EventEntity) (x : EventEntity)
    → suc n < length es
    → take (suc n) es ≡ before ++ (x ∷ [])
    → page_of (suc n) (take (suc n + 1) es)
      ≡ record { items = map from (before ++ (x ∷ [])); next_cursor = some x.id }
unfolding page_of
page-more n es before rest x h first =
    let more : length (take (suc n + 1) es) ≡ suc n + 1 =
      omega (arith, length-take (suc n + 1) es) in
    let same : take (suc n) (take (suc n + 1) es) ≡ before ++ (x ∷ []) =
      rw (show_suc n) (take-take-suc (suc n) es ∙ first) in
    ground (arith, more, same, last_id-append before x)

module _ (S : EventStore) where
  open S use {Db, after, rows}

  filter-all :
      (x : EventEntity) (es : List EventEntity)
      → All (λ f. after f.id x.id ≡ true) es
      → filter (beyond after (some x.id)) es ≡ es
  filter-all x [] h = refl
  filter-all x (e ∷ es) h = ground (arith, h.0, filter-all x es h.1)

  -- `after f.id e.id` for all `f` in `es`, so for the one at the cut.
  All-cut :
      (e x : EventEntity) (before rest : List EventEntity)
      → All (λ f. after f.id e.id ≡ true) (before ++ (x ∷ rest))
      → after x.id e.id ≡ true
  All-cut e x [] rest h = h.0
  All-cut e x (f ∷ before) rest h = All-cut e x before rest h.1

  -- The rows beyond a row of the table are those that stand after it.
  filter-cut :
      (before : List EventEntity) (x : EventEntity) (rest : List EventEntity)
      → IsAscending after (before ++ (x ∷ rest))
      → filter (beyond after (some x.id)) (before ++ (x ∷ rest)) ≡ rest
  filter-cut [] x rest h = elim (Bool-cases (after x.id x.id)) [
    | inl more ↦ absurd (cc (S.after_asym x.id x.id more))
    | inr same ↦ ground (arith, filter-all x rest h.0)
  ]
  filter-cut (e ∷ before) x rest h =
      ground
        (arith, S.after_asym x.id e.id (All-cut e x before rest h.0), filter-cut before x rest h.1)

  -- A client that follows `nextCursor`: at most as many pages as it has fuel.
  unfoldable pub read_all : ℕ → ℕ → Option String → Action Db (List EventResponseDto)
  read_all zero limit cursor db = (err (failed "out of fuel"), db)
  read_all (suc fuel) limit cursor db =
      let (r, db') = list S (record { cursor = cursor; limit = limit }) db in
      elim r [
        | err e ↦ (err e, db')
        | ok page ↦ elim page.next_cursor [
          | none ↦ (ok page.items, db')
          | some c ↦
              let (r', db'') = read_all fuel limit (some c) db' in
              elim r' [ ok items ↦ (ok (page.items ++ items), db'') | err e ↦ (err e, db'') ]
        ]
      ]

  -- Every page query is answered, and nobody writes meanwhile.
  abbrev pub IsResponsive : Db → Type 0
  IsResponsive db =
      (cursor : Option String) (n : ℕ)
      → S.find_page cursor n db ≡ (ok (take n (filter (beyond after cursor) (rows db))), db)

  list-responsive :
      (db : Db) (cursor : Option String) (limit : ℕ) (left : List EventEntity)
      → IsResponsive db
      → filter (beyond after cursor) (rows db) ≡ left
      → list S (record { cursor = cursor; limit = limit }) db
        ≡ (ok (page_of limit (take (limit + 1) left)), db)
  unfolding list
  list-responsive db cursor limit left answers e = ground (arith, answers cursor (limit + 1), e)

  -- one page, and the pages that follow it
  read_all-last :
      (fuel limit : ℕ) (cursor : Option String) (db : Db) (items : List EventResponseDto)
      → list S (record { cursor = cursor; limit = limit }) db
        ≡ (ok (record { items = items; next_cursor = none }), db)
      → read_all (suc fuel) limit cursor db ≡ (ok items, db)
  unfolding read_all
  read_all-last fuel limit cursor db items e = ground (arith, e)

  read_all-more :
      (fuel limit : ℕ) (cursor : Option String) (c : String) (db : Db)
      (items rest : List EventResponseDto)
      → list S (record { cursor = cursor; limit = limit }) db
        ≡ (ok (record { items = items; next_cursor = some c }), db)
      → read_all fuel limit (some c) db ≡ (ok rest, db)
      → read_all (suc fuel) limit cursor db ≡ (ok (items ++ rest), db)
  unfolding read_all
  read_all-more fuel limit cursor c db items rest e k = ground (arith, e, k)

  filter_at :
      (db : Db) (before : List EventEntity) (x : EventEntity) (rest : List EventEntity)
      → rows db ≡ before ++ (x ∷ rest)
      → filter (beyond after (some x.id)) (rows db) ≡ rest
  filter_at db before x rest e =
      ap (filter (beyond after (some x.id))) e
      ∙ filter-cut before x rest (subst (IsAscending after) e (S.ascending db))

  read_from :
      (fuel n : ℕ) (cursor : Option String) (db : Db) (done left : List EventEntity)
      → IsResponsive db
      → rows db ≡ done ++ left
      → filter (beyond after cursor) (rows db) ≡ left
      → length left < fuel
      → read_all fuel (suc n) cursor db ≡ (ok (map from left), db)
  read_from zero n cursor db done left answers e f h = absurd (omega arith)
  read_from (suc fuel) n cursor db done left answers e f h =
      let page = list-responsive db cursor (suc n) left answers f in
      elim (Bool-cases (ltb (suc n) (length left))) [
        | inr few ↦
            read_all-last fuel (suc n) cursor db (map from left)
              (page ∙ ap (λ p. (ok p, db)) (page-last (suc n) left (ground (arith, few))))
        | inl many ↦
            let (before, x, rest, split, first, len) = cut n left (ground (arith, many)) in
            let whole : rows db ≡ (done ++ before) ++ (x ∷ rest) =
              e ∙ ap (λ l. done ++ l) split ∙ sym (append_assoc done before (x ∷ rest)) in
            let next =
              read_from fuel n (some x.id) db ((done ++ before) ++ (x ∷ [])) rest answers
                (whole ∙ sym (append_assoc (done ++ before) (x ∷ []) rest))
                (filter_at db (done ++ before) x rest whole) (omega (arith, len)) in
            read_all-more fuel (suc n) cursor x.id db (map from (before ++ (x ∷ [])))
              (map from rest)
              (page
                ∙ ap (λ p. (ok p, db))
                    (page-more n left before rest x (ground (arith, many)) first))
              next
            ∙ ap (λ l. (ok l, db))
                (sym (map-append-from (before ++ (x ∷ [])) rest)
                  ∙ ap (map from) (append_assoc before (x ∷ []) rest ∙ sym split))
      ]

  filter-none : (es : List EventEntity) → filter (beyond after none) es ≡ es
  filter-none [] = refl
  filter-none (e ∷ es) = ap (λ l. e ∷ l) (filter-none es)

  -- A client that starts without a cursor and follows `nextCursor`, while every query is answered and
  -- nobody writes, comes to an end and has read every event exactly once, in the order of the ids,
  -- whatever the limit (at least one); it needs no more pages than there are events, and one.
  pub read_all_lem :
      (limit : ℕ) (db : Db)
      → 1 ≤ limit
      → IsResponsive db
      → read_all (length (rows db) + 1) limit none db ≡ (ok (map from (rows db)), db)
  read_all_lem zero db pos answers = absurd (omega arith)
  read_all_lem (suc n) db pos answers =
      read_from (length (rows db) + 1) n none db [] (rows db) answers refl (filter-none (rows db))
        (omega arith)
