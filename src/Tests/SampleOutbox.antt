-- ===== src/Tests/SampleOutbox.antt =====
-- An outbox table in memory that meets the interface: statements never fail.
use overbook.Base.{filter, ℕ, ◌≡◌, refl, inl, false, not, ◌&&◌, List, length, arith, leb, take}
use overbook.Failure.{Failure, ok, err, Action}
use overbook.Entities.{OutboxMessageEntity}
use overbook.Outbox.Store.{OutboxStore, is_pending, update_where}

pub record Table : Type 0 where
  pub messages : List OutboxMessageEntity
  pub clock : ℕ

abbrev pub run_transaction : (T A : Type 0) → Action (Table × T) A → Action (Table × T) A
run_transaction T A body (db, t) = elim (body (db, t)).0 [
  | ok a ↦ body (db, t)
  | err e ↦ (err e, (db, (body (db, t)).1.1))
]

pub run_transaction_ok :
    (T A : Type 0) (body : Action (Table × T) A) (db db' : Table) (t t' : T) (a : A)
    → body (db, t) ≡ (ok a, (db', t'))
    → run_transaction T A body (db, t) ≡ (ok a, (db', t'))
run_transaction_ok T A body db db' t t' a h = ground arith

pub run_transaction_err :
    (T A : Type 0) (body : Action (Table × T) A) (db db' : Table) (t t' : T) (e : Failure)
    → body (db, t) ≡ (err e, (db', t'))
    → run_transaction T A body (db, t) ≡ (err e, (db, t'))
run_transaction_err T A body db db' t t' e h = ground arith

abbrev pub sample_outbox : OutboxStore
sample_outbox = record {
  Db = Table;
  rows = λ s. s.messages;
  is_locked = λ s m. false;
  now = λ s. s.clock;
  date_now = λ s. s.clock;
  claim = λ limit s. (
    ok (
        take limit (
          filter (λ m. is_pending m.status && leb m.available_at s.clock && not false) s.messages)),
    s,
  );
  update_messages = λ test put s. (ok tt, record s { messages = update_where test put s.messages });
  count_pending = λ s. (ok (length (filter (λ m. is_pending m.status) s.messages)), s);
  transaction = run_transaction;
  claim_law = λ limit s. inl refl;
  update_messages_law =
      λ test put s. inl (record s { messages = update_where test put s.messages }, refl, refl);
  count_pending_law = λ s. inl refl;
  transaction_ok = λ T A body db db' t t' a h. inl (run_transaction_ok T A body db db' t t' a h);
  transaction_err =
      λ T A body db db' t t' e h. (e, t', run_transaction_err T A body db db' t t' e h);
}
