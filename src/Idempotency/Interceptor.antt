-- ===== src/Idempotency/Interceptor.antt =====
-- `IdempotencyInterceptor` (src/idempotency/idempotency.interceptor.ts).
use overbook.Base.{
  ℕ, ◌+◌, ◌*◌, Bool, true, false, Option, none, some, String, List, [], ◌∷◌, str_eq, if◌then◌else◌,
}
use overbook.Failure.{
  Failure, conflict, unprocessable, Result, ok, err, Action, pure, throw, ◌>>=◌, ◌>>◌, catch,
}
use overbook.Idempotency.Table.{
  IdempotencyStatus, in_progress, completed, IdempotencyKeyEntity, KeyTable,
}

abbrev pub ttl_hours : ℕ
ttl_hours = 24

abbrev pub expiry : ℕ → ℕ
expiry now = now + ttl_hours * 3600 * 1000

pub data Claim (B : Type 0) : Type 0 where
  proceed : Claim B
  replay : ℕ → Option B → Claim B

-- the status and the body that the client gets, and whether `Idempotent-Replay` is set
pub record Answer (B : Type 0) : Type 0 where
  pub status : ℕ
  pub body : Option B
  pub replayed : Bool

abbrev pub key_reused : Failure
key_reused = unprocessable "This Idempotency-Key was already used with a different request body"

abbrev pub still_in_progress : Failure
still_in_progress =
    conflict "A request with this Idempotency-Key is still in progress, retry shortly"

module _ {B : Type 0} where
  -- `existing.status === 'completed' && existing.responseStatus !== null`
  unfoldable pub stored_response : IdempotencyStatus → Option ℕ → Option B → Result (Claim B)
  stored_response completed (some status) body = ok (replay status body)
  stored_response completed none body = err still_in_progress
  stored_response in_progress status body = err still_in_progress

  -- `claim`, from the answer of findOne on
  unfoldable pub judge : String → Option (IdempotencyKeyEntity B) → Result (Claim B)
  judge fingerprint none = ok proceed
  judge fingerprint (some e) =
      if str_eq e.request_hash fingerprint
      then stored_response e.status e.response_status e.response_body
      else err key_reused

  -- the columns that `complete` sets
  unfoldable pub completed_row : ℕ → Option B → IdempotencyKeyEntity B → IdempotencyKeyEntity B
  completed_row status body e = record e {
    status = completed;
    response_status = some status;
    response_body = body;
  }

module _ {B : Type 0} (T : KeyTable B) where
  open T use {Db, now, insert_or_ignore, find_one, update_key, delete_key}

  -- the INSERT of `claim`
  unfoldable pub insert_claim : String → String → String → Action Db (List String)
  insert_claim key endpoint fingerprint db =
      insert_or_ignore key endpoint fingerprint (expiry (now db)) db

  -- the findOne of `claim`, and what follows it
  unfoldable pub claim_existing : String → String → Action Db (Claim B)
  claim_existing key fingerprint db =
      (find_one key >>= λ existing db'. (judge fingerprint existing, db')) db

  unfoldable pub claim : String → String → String → Action Db (Claim B)
  claim key endpoint fingerprint = do
    inserted ← insert_claim key endpoint fingerprint
    elim inserted [ _ ∷ _ ↦ pure proceed | [] ↦ claim_existing key fingerprint ]

  unfoldable pub complete : String → ℕ → Option B → Action Db (Unit {0})
  complete key status body db = catch (update_key key (completed_row status body)) (λ _. pure tt) db

  unfoldable pub release : String → Action Db (Unit {0})
  release key db = catch (delete_key key) (λ _. pure tt) db

  -- `tap` on the answer of the handler
  unfoldable pub after_handler : String → Result (ℕ × Option B) → Action Db (Answer B)
  after_handler key (ok (status, body)) = do
    complete key status body
    pure (record { status = status; body = body; replayed = false })
  after_handler key (err e) = do release key; throw e

  -- the answer without a key: the client accepted the risk of duplicates
  abbrev pub answer_of : ℕ × Option B → Answer B
  answer_of (status, body) = record { status = status; body = body; replayed = false }

  abbrev pub unkeyed : Result (ℕ × Option B) → Action Db (Answer B)
  unkeyed (ok r) = pure (answer_of r)
  unkeyed (err e) = throw e

  -- what follows the claim
  unfoldable pub after_claim : String → Result (ℕ × Option B) → Claim B → Action Db (Answer B)
  after_claim key handler proceed = after_handler key handler
  after_claim key handler (replay status body) =
      pure (record { status = status; body = body; replayed = true })

  unfoldable pub intercept :
      Option String → String → String → Result (ℕ × Option B) → Action Db (Answer B)
  intercept none endpoint fingerprint handler = unkeyed handler
  intercept (some key) endpoint fingerprint handler = do
    c ← claim key endpoint fingerprint
    after_claim key handler c
