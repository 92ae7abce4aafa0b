-- ===== src/Redis/Staleness.antt =====
-- How old the answers of the cache can be (src/redis/cache.service.ts).
use overbook.Base.{
  ℕ, suc, ◌+◌, ◌*◌, ◌≤◌, ◌<◌, ◌≡◌, ◌⊎◌, inl, inr, refl, sym, ap, subst, ◌∙◌, max, Option, none,
  some, List, ◌++◌, ltb, All, All-middle, All-map, Bool-cases, if◌then◌else◌, arith, Bool,
}
use overbook.Failure.{Failure, Result, ok, err}
use overbook.Redis.Cache.{CacheEnvelope, CacheConfig, ttl_with_jitter, write_entry, get_or_load}
use overbook.Redis.CacheServes.{ttl_with_jitter_lem, get_or_load_lem}
use overbook.Redis.CacheSystem.{
  Stored, Loaded, Shared, read_entry, set_entry, write, invalidate, Step, passes, commits,
  reads_row, writes, gives_up, invalidates, Reach, start, next, Had, now_has, before_had,
}

-- for how many milliseconds an entry is kept at most
abbrev pub kept_for : CacheConfig → ℕ
kept_for c = (max 1 (c.ttl_seconds + c.ttl_jitter_seconds) + c.stale_seconds) * 1000

module _ {T : Type 0} (c : CacheConfig) (longest : ℕ) where
  -- Every load has read the row, and so has the load that the entry is of, not long before it expires.
  record IsTraced {s : Shared T} (r : Reach T c longest s) : Type 0 where
    loaded_row : All (λ x. Had T c longest x.at x.value s r) s.loads
    stored_row :
        (e : Stored T)
        → s.entry ≡ some e
        → (t : ℕ) × Had T c longest t e.envelope.v s r × (e.expires_at ≤ t + longest + kept_for c)

  written_lem :
      (s : Shared T) (x : Loaded T) (k d : ℕ) (rest : List (Loaded T)) (e : Stored T)
      → k < d
      → s.now ≤ x.at + longest
      → (write T c k d x rest s).entry ≡ some e
      → (e.envelope.v ≡ x.value) × (e.expires_at ≤ x.at + longest + kept_for c)
  unfolding write write_entry set_entry
  written_lem s x k d rest e h soon is =
      let fresh = (ttl_with_jitter_lem c.ttl_seconds c.ttl_jitter_seconds k d h).2 in
      let made : Stored T = record {
        envelope = record {
          v = x.value;
          fresh_until = s.now + ttl_with_jitter c.ttl_seconds c.ttl_jitter_seconds k d * 1000;
        };
        expires_at =
            s.now
            + (ttl_with_jitter c.ttl_seconds c.ttl_jitter_seconds k d + c.stale_seconds) * 1000;
      } in
      let same : made ≡ e = cc is in
      subst (λ e. (e.envelope.v ≡ x.value) × (e.expires_at ≤ x.at + longest + kept_for c)) same
        (refl, omega (arith, fresh, soon))

  same_traces :
      {s s' : Shared T} (r : Reach T c longest s) (step : Step T c longest s s')
      → IsTraced r
      → All (λ x. Had T c longest x.at x.value s r) s'.loads
      → ((e : Stored T) → s'.entry ≡ some e → s.entry ≡ some e)
      → IsTraced (next r step)
  same_traces {s} {s'} r step v loaded kept = record {
    loaded_row = All-map s'.loads (λ x. before_had step) loaded;
    stored_row =
        λ e is. let (t, had, soon) = v.stored_row e (kept e is) in (t, before_had step had, soon);
  }

  step-IsTraced :
      {s s' : Shared T} (r : Reach T c longest s) (step : Step T c longest s s')
      → IsTraced r
      → IsTraced (next r step)
  unfolding invalidate write
  step-IsTraced r (passes ms) v = same_traces r (passes ms) v v.loaded_row (λ e is. is)
  step-IsTraced r (commits row) v = same_traces r (commits row) v v.loaded_row (λ e is. is)
  step-IsTraced {s} r reads_row v = record {
    loaded_row = (
      before_had reads_row (now_has r refl refl),
      All-map s.loads (λ x. before_had reads_row) v.loaded_row,
    );
    stored_row =
        λ e is. let (t, had, soon) = v.stored_row e is in (t, before_had reads_row had, soon);
  }
  step-IsTraced {s} r (writes before after x k d is soon h) v =
      let step = writes before after x k d is soon h in
      let (had, rest) =
        All-middle (λ x. Had T c longest x.at x.value s r) before x after
          (subst (All (λ x. Had T c longest x.at x.value s r)) is v.loaded_row) in
      record {
        loaded_row = All-map (before ++ after) (λ y. before_had step) rest;
        stored_row = λ e put.
            let (same, bound) = written_lem s x k d (before ++ after) e h soon put in
            (
              x.at,
              subst (λ v. Had T c longest x.at v _ (next r step)) (sym same) (before_had step had),
              bound,
            );
      }
  step-IsTraced {s} r (gives_up before after x is) v =
      let (had, rest) =
        All-middle (λ x. Had T c longest x.at x.value s r) before x after
          (subst (All (λ x. Had T c longest x.at x.value s r)) is v.loaded_row) in
      same_traces r (gives_up before after x is) v rest (λ e is. is)
  step-IsTraced r invalidates v = same_traces r invalidates v v.loaded_row (λ e is. cc is)

  reach-IsTraced : {s : Shared T} (r : Reach T c longest s) → IsTraced r
  reach-IsTraced (start now row) = record { loaded_row = tt; stored_row = λ e is. cc is }
  reach-IsTraced (next r step) = step-IsTraced r step (reach-IsTraced r)

  -- an entry that is read is one that has not expired
  read_lem :
      (now : ℕ) (entry : Option (Stored T)) (e : CacheEnvelope T)
      → read_entry T now entry ≡ some e
      → (st : Stored T) × (entry ≡ some st) × (st.envelope ≡ e) × (now < st.expires_at)
  unfolding read_entry
  read_lem now none e is = cc is
  read_lem now (some st) e is = elim (Bool-cases (ltb now st.expires_at)) [
    | inl before ↦
        let answer : Bool → Option (CacheEnvelope T) = λ b. if b then some st.envelope else none in
        let found : some st.envelope ≡ some e = sym (ap answer before) ∙ is in
        (st, refl, cc found, ground arith)
    | inr after ↦
        let answer : Bool → Option (CacheEnvelope T) = λ b. if b then some st.envelope else none in
        let found : none ≡ some e = sym (ap answer after) ∙ is in absurd (cc found)
  ]

  abbrev pub reading : Shared T → Option (CacheEnvelope T)
  reading s = read_entry T s.now s.entry

  reading_lem :
      {s : Shared T} (r : Reach T c longest s) (e : CacheEnvelope T)
      → reading s ≡ some e
      → (t : ℕ) × Had T c longest t e.v s r × (s.now < t + longest + kept_for c)
  reading_lem {s} r e is =
      let (st, there, same, early) = read_lem s.now s.entry e is in
      let (t, had, soon) = (reach-IsTraced r).stored_row st there in
      (t, subst (λ e. Had T c longest t e.v s r) same had, omega (arith, early, soon))

  -- What the cache answers is no older than an entry lasts. While callers read, write and delete one
  -- entry in any order, and each load is written within `longest` ms of reading the row or not at all,
  -- the answer of getOrLoad is that of its own load, or a value that the row had less than `longest`
  -- and the longest lifetime of an entry before the read that answered it; or no entry was found and
  -- it throws what acquireLock threw. The first read and each later one may find any state that the
  -- callers can reach.
  pub get_or_load_age :
      (states : ℕ → Shared T) (run : (n : ℕ) → Reach T c longest (states n)) (load : Result T)
      (won : Result Bool) (now k d : ℕ)
      → let r =
          (get_or_load c load (reading (states 0)) won (λ n. reading (states (suc n))) now k d).0 in
        (r ≡ load)
        ⊎ (((n : ℕ) × (t : ℕ) × (v : T) × (r ≡ ok v)
              × Had T c longest t v (states n) (run n)
              × ((states n).now < t + longest + kept_for c))
            ⊎ ((x : Failure) × (won ≡ err x) × (reading (states 0) ≡ none) × (r ≡ err x)))
  get_or_load_age states run load won now k d =
      elim (get_or_load_lem c load (reading (states 0)) won (λ n. reading (states (suc n))) now k
        d).0 [
          | inl (inl (own, _)) ↦ inl own
          | inl (inr (e, inl first, is, _)) ↦
              let (t, had, young) = reading_lem (run 0) e first in
              inr (inl (0, t, e.v, is, had, young))
          | inl (inr (e, inr (n, later), is, _)) ↦
              let (t, had, young) = reading_lem (run (suc n)) e later in
              inr (inl (suc n, t, e.v, is, had, young))
          | inr (x, threw, missing, _, _, is, _) ↦ inr (inr (x, threw, missing, is))
        ]
