-- ===== src/Outbox/Stats.antt =====
-- `stats` (src/outbox/outbox.controller.ts) against the rows of the table.
use overbook.Base.{
  ℕ, ◌+◌, ◌≡◌, refl, sym, ap, ◌∙◌, ◌⊎◌, inl, inr, Bool, true, false, Option, none, some, List, [],
  ◌∷◌, All, suc, subst, Bool-cases, Option-cases, length, filter, if◌then◌else◌, arith,
}
use overbook.Failure.{ok, err, Action, pure, ◌>>=◌}
use overbook.Entities.{OutboxMessageEntity, OutboxStatus, pending, published, failed}
use overbook.Outbox.Store.{OutboxStore}
use overbook.Database.{Reads, Fails}

abbrev pub same_status : OutboxStatus → OutboxStatus → Bool
same_status pending pending = true
same_status published published = true
same_status failed failed = true
same_status _ _ = false

-- one group of the query: a status, COUNT(*) and MIN(created_at)
pub record StatusRow : Type 0 where
  pub status : OutboxStatus
  pub count : ℕ
  pub oldest : ℕ

pub record OutboxStats : Type 0 where
  pub pending : ℕ
  pub published : ℕ
  pub failed : ℕ
  pub oldest_pending_at : Option ℕ

abbrev pub latest : OutboxStatus → StatusRow → Option StatusRow → Option StatusRow
latest s r (some later) = some later
latest s r none = if same_status r.status s then some r else none

-- `byStatus.get(status)`: of a Map made of a list the last entry of a key stays
abbrev pub by_status : OutboxStatus → List StatusRow → Option StatusRow
by_status s [] = none
by_status s (r ∷ rs) = latest s r (by_status s rs)

-- `Number(byStatus.get(status)?.count ?? 0)`
abbrev pub count_of : Option StatusRow → ℕ
count_of none = 0
count_of (some r) = r.count

abbrev pub oldest_of : Option StatusRow → Option ℕ
oldest_of none = none
oldest_of (some r) = some r.oldest

abbrev pub stats_of : List StatusRow → OutboxStats
stats_of rs = record {
  pending = count_of (by_status pending rs);
  published = count_of (by_status published rs);
  failed = count_of (by_status failed rs);
  oldest_pending_at = oldest_of (by_status pending rs);
}

abbrev pub with_status : OutboxStatus → List OutboxMessageEntity → List OutboxMessageEntity
with_status s rows = filter (λ m. same_status m.status s) rows

-- What a GROUP BY answers: a group stands for all rows of its status, and each row has a group.
pub record Groups (rows : List OutboxMessageEntity) (rs : List StatusRow) : Type 0 where
  pub counted : All (λ r. r.count ≡ length (with_status r.status rows)) rs
  pub complete : (s : OutboxStatus) → by_status s rs ≡ none → with_status s rows ≡ []

module _ (S : OutboxStore) (grouped : Action S.Db (List StatusRow)) where
  unfoldable pub stats : Action S.Db OutboxStats
  stats = do rows ← grouped; pure (stats_of rows)

  same : (s t : OutboxStatus) → same_status s t ≡ true → s ≡ t
  same pending pending h = refl
  same published published h = refl
  same failed failed h = refl
  same pending published h = cc h
  same pending failed h = cc h
  same published pending h = cc h
  same published failed h = cc h
  same failed pending h = cc h
  same failed published h = cc h

  found :
      (rows : List OutboxMessageEntity) (s : OutboxStatus) (rs : List StatusRow) (r : StatusRow)
      → All (λ r. r.count ≡ length (with_status r.status rows)) rs
      → by_status s rs ≡ some r
      → r.count ≡ length (with_status s rows)
  found rows s [] r h e = cc e
  found rows s (g ∷ rs) r (h, hs) e = elim (Option-cases (by_status s rs)) [
    | inr (later, present) ↦ found rows s rs r hs (present ∙ sym (ap (latest s g) present) ∙ e)
    | inl absent ↦ elim (Bool-cases (same_status g.status s)) [
      | inl mine ↦
          let is_g = sym (ap (latest s g) absent ∙ ap (λ b. if b then some g else none) mine) ∙ e in
          let equal : g ≡ r = cc is_g in
          subst (λ x. x.count ≡ length (with_status s rows)) equal
            (h ∙ ap (λ t. length (with_status t rows)) (same g.status s mine))
      | inr other ↦
          cc (sym (ap (latest s g) absent ∙ ap (λ b. if b then some g else none) other) ∙ e)
    ]
  ]

  counts :
      (rows : List OutboxMessageEntity) (rs : List StatusRow) (s : OutboxStatus)
      → Groups rows rs
      → count_of (by_status s rs) ≡ length (with_status s rows)
  counts rows rs s g = elim (Option-cases (by_status s rs)) [
    | inl absent ↦ rw (absent, g.complete s absent) refl
    | inr (r, present) ↦ rw present (found rows s rs r g.counted present)
  ]

  one_more :
      (m : OutboxMessageEntity) (s : OutboxStatus) (a b c : List OutboxMessageEntity)
      → length (if same_status s pending then m ∷ a else a)
          + length (if same_status s published then m ∷ b else b)
          + length (if same_status s failed then m ∷ c else c)
        ≡ suc (length a + length b + length c)
  one_more m pending a b c = omega arith
  one_more m published a b c = omega arith
  one_more m failed a b c = omega arith

  every_row :
      (rows : List OutboxMessageEntity)
      → length (with_status pending rows)
          + length (with_status published rows)
          + length (with_status failed rows)
        ≡ length rows
  every_row [] = refl
  every_row (m ∷ rows) =
      one_more m m.status (with_status pending rows) (with_status published rows)
        (with_status failed rows)
      ∙ ap suc (every_row rows)

  -- The counts are those of the table's rows and add up to all of them, unless the query fails.
  stats_lem :
      (db : S.Db) (rs : List StatusRow)
      → Reads (grouped db) rs db
      → Groups (S.rows db) rs
      → ((answer : OutboxStats) × (stats db ≡ (ok answer, db))
          × (answer.pending ≡ length (with_status pending (S.rows db)))
          × (answer.published ≡ length (with_status published (S.rows db)))
          × (answer.failed ≡ length (with_status failed (S.rows db)))
          × (answer.pending + answer.published + answer.failed ≡ length (S.rows db)))
        ⊎ Fails (stats db) db
  unfolding stats
  stats_lem db rs (inr (x, fails)) g =
      inr (x, ap (λ r. elim r.0 [ ok a ↦ (ok (stats_of a), r.1) | err e ↦ (err e, r.1) ]) fails)
  stats_lem db rs (inl reads) g =
      let p = counts (S.rows db) rs pending g in
      let q = counts (S.rows db) rs published g in
      let f = counts (S.rows db) rs failed g in
      inl (
        stats_of rs,
        ap (λ r. elim r.0 [ ok a ↦ (ok (stats_of a), r.1) | err e ↦ (err e, r.1) ]) reads,
        p,
        q,
        f,
        rw (p, q, f) (every_row (S.rows db)),
      )
