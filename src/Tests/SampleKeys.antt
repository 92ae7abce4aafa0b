-- ===== src/Tests/SampleKeys.antt =====
-- A table of idempotency keys that never fails, as a function from keys to rows. The clock stands at 5.
use overbook.Base.{
  ℕ, ◌≡◌, ◌≢◌, refl, ap, inl, inr, Option, none, some, String, List, [], ◌∷◌, str_eq, str_eq_iff,
  if◌then◌else◌, Bool-cases,
}
use overbook.Failure.{Result, ok}
use overbook.Idempotency.Table.{IdempotencyKeyEntity, in_progress, KeyTable, unexpired, map_row}

module _ (B : Type 0) where
  abbrev Rows : Type 0
  Rows = String → Option (IdempotencyKeyEntity B)

  abbrev set : String → Option (IdempotencyKeyEntity B) → Rows → Rows
  set key r rows other = if str_eq other key then r else rows other

  abbrev new_row : String → String → String → ℕ → IdempotencyKeyEntity B
  new_row key endpoint hash expires = record {
    key = key;
    endpoint = endpoint;
    request_hash = hash;
    status = in_progress;
    response_status = none;
    response_body = none;
    created_at = 5;
    expires_at = expires;
  }

  abbrev set-same :
      (key : String) (r : Option (IdempotencyKeyEntity B)) (rows : Rows) → set key r rows key ≡ r
  set-same key r rows = rw ((str_eq_iff key key).1 refl) refl

  abbrev set-other :
      (key other : String) (r : Option (IdempotencyKeyEntity B)) (rows : Rows)
      → other ≢ key
      → set key r rows other ≡ rows other
  set-other key other r rows ne = elim (Bool-cases (str_eq other key)) [
    | inl same ↦ absurd (ne ((str_eq_iff other key).0 same))
    | inr different ↦ rw different refl
  ]

  abbrev insert_row :
      String
      → String
      → String
      → ℕ
      → Option (IdempotencyKeyEntity B)
      → Rows
      → Result (List String) × Rows
  insert_row key endpoint hash expires none rows =
      (ok (key ∷ []), set key (some (new_row key endpoint hash expires)) rows)
  insert_row key endpoint hash expires (some e) rows = (ok [], rows)

  abbrev pub keys_of : KeyTable B
  keys_of = record {
    Db = Rows;
    row = λ key rows. rows key;
    now = λ _. 5;
    insert_or_ignore =
        λ key endpoint hash expires rows. insert_row key endpoint hash expires (rows key) rows;
    find_one = λ key rows. (ok (rows key), rows);
    update_key = λ key put rows. (ok tt, set key (map_row put (rows key)) rows);
    delete_key = λ key rows. (ok tt, set key none rows);
    delete_expired = λ date rows. (ok 0, λ key. unexpired date (rows key));
    insert_new = λ key endpoint hash expires rows free. inl (
      set key (some (new_row key endpoint hash expires)) rows,
      new_row key endpoint hash expires,
      ap (λ r. insert_row key endpoint hash expires r rows) free,
      (refl, refl, refl, refl, refl, refl, refl),
      set-same key _ rows,
      λ other ne. set-other key other _ rows ne,
    );
    insert_taken = λ key endpoint hash expires rows e found.
        inl (ap (λ r. insert_row key endpoint hash expires r rows) found);
    find_one_law = λ key rows. inl refl;
    update_key_law = λ key put rows. inl (
      set key (map_row put (rows key)) rows,
      refl,
      set-same key _ rows,
      λ other ne. set-other key other _ rows ne,
    );
    delete_key_law = λ key rows.
        inl
          (set key none rows, refl, set-same key _ rows, λ other ne. set-other key other _ rows ne);
    delete_expired_law = λ date rows. inl ((λ key. unexpired date (rows key)), 0, refl, λ _. refl);
  }

abbrev pub sample_keys : KeyTable ℕ
sample_keys = keys_of ℕ
