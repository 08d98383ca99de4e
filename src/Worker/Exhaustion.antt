-- ===== src/Worker/Exhaustion.antt =====
-- How often the provider is called for one job.
use mirror_mirage.Prelude.{
  ℕ, suc, ◌+◌, ◌-◌, ◌≡◌, refl, ap, subst, ◌∙◌, some_inj, ◌≢◌, ◌≤◌, true, ◌&&◌, Option, none, some,
  List, [], ◌∷◌, arith, inl, inr, ltb, ◌==◌, ==_iff, if◌then◌else◌, Bool-cases, Option-cases, max,
}
use mirror_mirage.Text.{Text}
use mirror_mirage.Config.{Seconds, RetryConfig}
use mirror_mirage.Outcome.{Outcome, value, raised, ◌>>=◌}
use mirror_mirage.Backoff.{exponential_backoff}
use mirror_mirage.Queue.{Status, pending, Row, Db, Job, claim_ready, enqueue, reschedule}
use mirror_mirage.Queue.Rows.{find_row}
use mirror_mirage.Queue.Enqueue.{new_row, find_row-enqueue}
use mirror_mirage.Queue.Validity.{
  enqueue-IsValid, IsValid, claim_ready-IsValid, mark_done-IsValid, mark_failed-IsValid,
  reschedule-IsValid, find_row_self,
}
use mirror_mirage.Worker.{
  PurgeResult, Answer, result_of, settle, Round, slept, settled, died, ended, work_on, worker_round,
}
use mirror_mirage.Worker.Rounds.{
  Fate, purged, retried, gave_up, Worked, worker_round-Worked, worker_round_idle,
}

-- The provider's behaviour and the two readings of the clock in one round.
pub record Input : Type 0 where
  pub purge : List Text → Answer
  pub claimed_at : Seconds
  pub settled_at : Seconds

abbrev pub db_of : Round → Db
db_of (slept db) = db
db_of (settled db) = db
db_of (died e db) = db

-- One if the round works on the job.
abbrev works_on : ℕ → Option Job → ℕ
works_on i none = 0
works_on i (some job) = if job.id == i then 1 else 0

-- The number of the provider's calls for the job `i` in a sequence of rounds of the CDN's worker.
unfoldable pub calls_for : RetryConfig → Text → ℕ → List Input → Db → ℕ
calls_for retry cdn i [] db = 0
calls_for retry cdn i (x ∷ xs) db =
    works_on i (claim_ready cdn x.claimed_at db).0
    + calls_for retry cdn i xs (db_of (worker_round retry cdn x.purge x.claimed_at x.settled_at db))

-- The table after the rounds.
unfoldable pub after_rounds : RetryConfig → Text → List Input → Db → Db
after_rounds retry cdn [] db = db
after_rounds retry cdn (x ∷ xs) db =
    after_rounds retry cdn xs (db_of (worker_round retry cdn x.purge x.claimed_at x.settled_at db))

-- How many calls a row may still cause.
abbrev pending_calls : RetryConfig → Status → ℕ → ℕ
pending_calls retry pending attempts = suc (retry.max_attempts - suc attempts)
pending_calls retry _ attempts = 0

abbrev pub calls_left : RetryConfig → Option Row → ℕ
calls_left retry none = 0
calls_left retry (some r) = pending_calls retry r.status r.attempts

-- A call uses one of them up.
Fate-calls_left :
    (retry : RetryConfig) (now : Seconds) (result : PurgeResult) (r s : Row)
    → r.status ≡ pending
    → Fate retry now result r s
    → suc (calls_left retry (some s)) ≤ calls_left retry (some r)
Fate-calls_left retry now result r s p (purged ok e) = rw (e, p) (omega arith)
Fate-calls_left retry now result r s p (retried ok again lt e) = rw (e, p) (omega arith)
Fate-calls_left retry now result r s p (gave_up ok why e) = rw (e, p) (omega arith)

backoff-IsValid :
    (job : Job) (now : Seconds) (db : Db) (attempt : ℕ) (o : Outcome Seconds) (claimed : Db)
    → IsValid db
    → IsValid claimed
    → IsValid (db_of (ended claimed (o >>= λ b. value (reschedule job.id attempt (now + b) db))))
backoff-IsValid job now db attempt (value b) claimed v w =
    reschedule-IsValid db v job.id attempt (now + b)
backoff-IsValid job now db attempt (raised e) claimed v w = w

settle-IsValid :
    (retry : RetryConfig) (now : Seconds) (job : Job) (result : PurgeResult) (db : Db)
    → IsValid db
    → IsValid (db_of (ended db (settle retry now job result db)))
unfolding settle
settle-IsValid retry now job result db v = elim (Bool-cases result.ok) [
  | inl ok ↦ rw ok (mark_done-IsValid db v job.id)
  | inr bad ↦ elim (Bool-cases (result.retryable && ltb (job.attempts + 1) retry.max_attempts)) [
    | inl again ↦
        rw (bad, again)
          (backoff-IsValid job now db (job.attempts + 1)
            (exponential_backoff (job.attempts + 1) retry.initial_backoff_seconds
              retry.max_backoff_seconds)
            db v v)
    | inr no_more ↦ rw (bad, no_more) (mark_failed-IsValid db v job.id result.message)
  ]
]

work_on-IsValid :
    (retry : RetryConfig) (now : Seconds) (purge : List Text → Answer) (o : Option Job) (db : Db)
    → IsValid db
    → IsValid (db_of (work_on retry now purge (o, db)))
work_on-IsValid retry now purge none db v = v
work_on-IsValid retry now purge (some job) db v =
    settle-IsValid retry now job (result_of (purge job.urls)) db v

-- A round keeps the table valid, however it ends.
pub worker_round-IsValid :
    (retry : RetryConfig) (cdn : Text) (x : Input) (db : Db)
    → IsValid db
    → IsValid (db_of (worker_round retry cdn x.purge x.claimed_at x.settled_at db))
unfolding worker_round
worker_round-IsValid retry cdn x db v =
    work_on-IsValid retry x.settled_at x.purge (claim_ready cdn x.claimed_at db).0
      (claim_ready cdn x.claimed_at db).1 (claim_ready-IsValid cdn x.claimed_at db v)

module _ (retry : RetryConfig) (cdn : Text) (i : ℕ) (bound : retry.max_attempts ≤ 1025) where
  Worked-calls_left :
      (x : Input) (db : Db) (job : Job)
      → IsValid db
      → Worked retry cdn x.purge x.claimed_at x.settled_at db job
      → works_on i (some job)
          + calls_left retry (
              find_row i (db_of (worker_round retry cdn x.purge x.claimed_at x.settled_at db)).rows)
        ≤ calls_left retry (find_row i db.rows)
  Worked-calls_left x db job valid w = elim (Bool-cases (w.before.id == i)) [
    | inl e ↦
        let seen : find_row i db.rows ≡ some w.before =
          subst (λ k. find_row k db.rows ≡ some w.before) ((==_iff w.before.id i).0 e)
            (find_row_self db.last_id db.rows w.before valid w.selected.stored) in
        let used =
          Fate-calls_left retry x.settled_at (result_of (x.purge w.before.urls)) w.before w.after
            w.selected.ready.is_pending w.fate in
        rw (w.ends, w.table i, ap (λ (j : Job). j.id) w.columns, e, seen) (omega (arith, used))
    | inr e ↦ rw (w.ends, w.table i, ap (λ (j : Job). j.id) w.columns, e) (omega arith)
  ]

  round-calls_left :
      (x : Input) (db : Db)
      → IsValid db
      → works_on i (claim_ready cdn x.claimed_at db).0
          + calls_left retry (
              find_row i (db_of (worker_round retry cdn x.purge x.claimed_at x.settled_at db)).rows)
        ≤ calls_left retry (find_row i db.rows)
  round-calls_left x db valid = elim (Option-cases (claim_ready cdn x.claimed_at db).0) [
    | inl e ↦
        rw (e, worker_round_idle retry cdn x.purge x.claimed_at x.settled_at db e) (omega arith)
    | inr (job, e) ↦ rw e (
        Worked-calls_left x db job valid
          (worker_round-Worked retry cdn x.purge x.claimed_at x.settled_at db job valid bound e))
  ]

  calls_for-le :
      (xs : List Input) (db : Db)
      → IsValid db
      → calls_for retry cdn i xs db
          + calls_left retry (find_row i (after_rounds retry cdn xs db).rows)
        ≤ calls_left retry (find_row i db.rows)
  unfolding calls_for after_rounds
  calls_for-le [] db valid = omega arith
  calls_for-le (x ∷ xs) db valid =
      let next = db_of (worker_round retry cdn x.purge x.claimed_at x.settled_at db) in
      let later = calls_for-le xs next (worker_round-IsValid retry cdn x db valid) in
      let now = round-calls_left x db valid in omega arith

-- A job that still waits has a call left.
one_left : (retry : RetryConfig) (s : Row) → s.status ≡ pending → calls_left retry (some s) ≢ 0
one_left retry s p h = absurd (omega (arith, rw p at h))

same_self : (i : ℕ) → (i == i) ≡ true
same_self i = ground arith

calls_left_none :
    (retry : RetryConfig) (o : Option Row) (r : Row)
    → o ≡ some r
    → calls_left retry o ≡ 0
    → r.status ≢ pending
calls_left_none retry none r e h p = cc
calls_left_none retry (some s) r e h p =
    let same : s ≡ r = some_inj e in
    let now_pending : s.status ≡ pending = rw same p in absurd (one_left retry s now_pending h)

module _ (retry : RetryConfig) (cdn : Text) (now : Seconds) (urls : List Text) (db : Db)
    (xs : List Input) (valid : IsValid db) (bound : retry.max_attempts ≤ 1025) where
  all_calls :
      calls_for retry cdn (suc db.last_id) xs (enqueue now cdn urls db).1
        + calls_left retry
            (find_row (suc db.last_id) (after_rounds retry cdn xs (enqueue now cdn urls db).1).rows)
      ≤ max 1 retry.max_attempts
  all_calls =
      let enqueue_id : (enqueue now cdn urls db).0 ≡ suc db.last_id = unfold enqueue in refl in
      let i = suc db.last_id in
      let db' = (enqueue now cdn urls db).1 in
      let fresh : find_row i db'.rows ≡ some (new_row i now cdn urls) =
        find_row-enqueue now cdn urls db i valid ∙ rw (enqueue_id, same_self i) in
      let total : calls_left retry (find_row i db'.rows) ≡ max 1 retry.max_attempts =
        rw fresh (omega arith) in
      let le = calls_for-le retry cdn i bound xs db' (enqueue-IsValid db valid now cdn urls) in
      omega arith

  -- However many rounds a worker runs after a job was enqueued in a valid table, and whatever the
  -- provider answers and the clock says: it calls the provider for that job at most `max_attempts`
  -- times, or once if that is 0. At most 1025 attempts may be configured.
  pub provider_calls-le :
      calls_for retry cdn (suc db.last_id) xs (enqueue now cdn urls db).1 ≤ max 1 retry.max_attempts
  provider_calls-le = omega (arith, all_calls)

  -- When the rounds after the job was enqueued have called the provider for it as often as is
  -- allowed, its row is no longer pending, so no further round takes it. The table has to be valid
  -- and at most 1025 attempts may be configured.
  pub provider_calls-exhausted :
      (r : Row)
      → calls_for retry cdn (suc db.last_id) xs (enqueue now cdn urls db).1
        ≡ max 1 retry.max_attempts
      → find_row (suc db.last_id) (after_rounds retry cdn xs (enqueue now cdn urls db).1).rows
        ≡ some r
      → r.status ≢ pending
  provider_calls-exhausted r all seen =
      calls_left_none retry
        (find_row (suc db.last_id) (after_rounds retry cdn xs (enqueue now cdn urls db).1).rows) r
        seen (omega (arith, all_calls))
