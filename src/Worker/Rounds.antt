-- ===== src/Worker/Rounds.antt =====
-- What one round of a worker does, on every branch.
use mirror_mirage.Prelude.{
  ℕ, suc, ◌+◌, ◌*◌, ◌^◌, ◌≡◌, refl, ap, ◌∙◌, ◌≤◌, ◌<◌, true, false, ◌&&◌, Option, none, some, List,
  arith, min, ltb, ◌⊎◌, Bool-cases, inl, inr,
}
use mirror_mirage.Text.{Text}
use mirror_mirage.Config.{Seconds, RetryConfig}
use mirror_mirage.Outcome.{Outcome, value}
use mirror_mirage.Backoff.{exponential_backoff_value}
use mirror_mirage.Queue.{
  Row, Db, Job, pending, done, failed, in_flight, claim_ready, job_of, to_status, mark_done,
  mark_failed, reschedule, failed_with, rescheduled,
}
use mirror_mirage.Queue.Validity.{IsValid}
use mirror_mirage.Queue.Claim.{Selected, claim_ready-Claimed, claim_ready-misses}
use mirror_mirage.Worker.{
  PurgeResult, Answer, result_of, settle, slept, settled, ended, work_on, worker_round,
}
use mirror_mirage.Worker.Settle.{Replaced, Replaced-update}

-- The delay before the attempt that follows the attempt `n + 1`.
abbrev pub delay : RetryConfig → ℕ → Seconds
delay retry n = min (retry.initial_backoff_seconds * 2 ^ n) retry.max_backoff_seconds

-- What becomes of the row of a job that the provider was called for.
pub data Fate (retry : RetryConfig) (now : Seconds) (result : PurgeResult) (r s : Row)
    : Type 0 where
  purged : result.ok ≡ true → s ≡ record r { status = done } → Fate retry now result r s
  retried :
      result.ok ≡ false
      → result.retryable ≡ true
      → r.attempts + 1 < retry.max_attempts
      → s ≡ record r {
        status = pending;
        attempts = r.attempts + 1;
        next_attempt_at = now + delay retry r.attempts;
      }
      → Fate retry now result r s
  gave_up :
      result.ok ≡ false
      → (result.retryable ≡ false) ⊎ (retry.max_attempts ≤ r.attempts + 1)
      → s ≡ record r { status = failed; message = some result.message }
      → Fate retry now result r s

-- The end of a round over the job that the row `r` of `old` holds.
pub record Settled (retry : RetryConfig) (now : Seconds) (result : PurgeResult) (r : Row) (old : Db)
    (o : Outcome Db) : Type 0 where
  pub db : Db
  pub row : Row
  pub ends : o ≡ value db
  pub fate : Fate retry now result r row
  pub table : Replaced r.id row old.rows db.rows

module _ (retry : RetryConfig) (now : Seconds) (result : PurgeResult) (r : Row) (old db : Db)
    (table : Replaced r.id (to_status in_flight r) old.rows db.rows) where
  settle_ok :
      result.ok ≡ true → Settled retry now result r old (settle retry now (job_of r) result db)
  unfolding settle mark_done
  settle_ok h = record {
    db = mark_done r.id db;
    row = record r { status = done };
    ends = rw h;
    fate = purged h refl;
    table =
        Replaced-update (to_status done) (to_status in_flight r) r.id old.rows db.rows (λ s. refl)
          refl table;
  }

  settle_failed :
      result.ok ≡ false
      → (result.retryable && ltb (r.attempts + 1) retry.max_attempts) ≡ false
      → Settled retry now result r old (settle retry now (job_of r) result db)
  unfolding settle mark_failed
  settle_failed h k = record {
    db = mark_failed r.id result.message db;
    row = record r { status = failed; message = some result.message };
    ends = rw (h, k);
    fate = gave_up h (ground arith) refl;
    table =
        Replaced-update (failed_with result.message) (to_status in_flight r) r.id old.rows db.rows
          (λ s. refl) refl table;
  }

  retry_ends :
      result.ok ≡ false
      → (result.retryable && ltb (r.attempts + 1) retry.max_attempts) ≡ true
      → r.attempts < 1024
      → settle retry now (job_of r) result db
        ≡ value (reschedule r.id (r.attempts + 1) (now + delay retry r.attempts) db)
  unfolding settle
  retry_ends h k small =
      let e : r.attempts + 1 ≡ suc r.attempts = omega arith in
      rw (
        h,
        k,
        e,
        exponential_backoff_value r.attempts retry.initial_backoff_seconds retry.max_backoff_seconds
            small,
      )

  settle_retried :
      result.ok ≡ false
      → (result.retryable && ltb (r.attempts + 1) retry.max_attempts) ≡ true
      → r.attempts < 1024
      → Settled retry now result r old (settle retry now (job_of r) result db)
  unfolding settle reschedule
  settle_retried h k small = record {
    db = reschedule r.id (r.attempts + 1) (now + delay retry r.attempts) db;
    row = rescheduled (r.attempts + 1) (now + delay retry r.attempts) r;
    ends = retry_ends h k small;
    fate = retried h (ground arith) (ground arith) refl;
    table =
        Replaced-update (rescheduled (r.attempts + 1) (now + delay retry r.attempts))
          (to_status in_flight r) r.id old.rows db.rows (λ s. refl) refl table;
  }

  settle-Settled :
      (r.attempts < 1024) ⊎ (retry.max_attempts ≤ 1025)
      → Settled retry now result r old (settle retry now (job_of r) result db)
  settle-Settled bound = elim (Bool-cases result.ok) [
    | inl h ↦ settle_ok h
    | inr h ↦ elim (Bool-cases (result.retryable && ltb (r.attempts + 1) retry.max_attempts)) [
      | inl k ↦ settle_retried h k (ground arith)
      | inr k ↦ settle_failed h k
    ]
  ]

-- A round over the claimed job.
pub record Worked (retry : RetryConfig) (cdn : Text) (purge : List Text → Answer)
    (claimed_at settled_at : Seconds) (db : Db) (job : Job) : Type 0 where
  pub before : Row
  pub selected : Selected cdn claimed_at db.rows before
  pub columns : job ≡ job_of before
  pub after : Row
  pub fate : Fate retry settled_at (result_of (purge before.urls)) before after
  pub final : Db
  pub ends : worker_round retry cdn purge claimed_at settled_at db ≡ settled final
  pub table : Replaced before.id after db.rows final.rows

with_first : (x : Option Job × Db) {o : Option Job} → x.0 ≡ o → x ≡ (o, x.1)
with_first x h = λ i. (h i, x.1)

module _ (retry : RetryConfig) (cdn : Text) (purge : List Text → Answer)
    (claimed_at settled_at : Seconds) (db : Db) where
  worker_round_job :
      (job : Job)
      → (claim_ready cdn claimed_at db).0 ≡ some job
      → worker_round retry cdn purge claimed_at settled_at db
        ≡ ended (claim_ready cdn claimed_at db).1 (
            settle retry settled_at job
              (result_of (purge job.urls))
              (claim_ready cdn claimed_at db).1)
  unfolding worker_round
  worker_round_job job h =
      ap (work_on retry settled_at purge) (with_first (claim_ready cdn claimed_at db) h)

  -- A round in which the claim, on a valid table, returns a job calls the provider with the URLs of
  -- the ready row with the least id, and then marks that row done, or makes it pending again with
  -- one more attempt and the delay before it, or marks it failed with the message, as the result
  -- and the number of attempts say; every other row stays as it was. At most 1025 attempts may be
  -- configured.
  pub worker_round-Worked :
      (job : Job)
      → IsValid db
      → retry.max_attempts ≤ 1025
      → (claim_ready cdn claimed_at db).0 ≡ some job
      → Worked retry cdn purge claimed_at settled_at db job
  worker_round-Worked job valid bound h =
      let c = claim_ready-Claimed cdn claimed_at db job valid h in
      let s =
        settle-Settled retry settled_at (result_of (purge c.row.urls)) c.row db
          (claim_ready cdn claimed_at db).1 c.table (inr bound) in
      record {
        before = c.row;
        selected = c.selected;
        columns = c.columns;
        after = s.row;
        fate = s.fate;
        final = s.db;
        ends =
            worker_round_job job h
            ∙ ap
                (λ (j : Job). ended (claim_ready cdn claimed_at db).1 (
                  settle retry settled_at j (result_of (purge j.urls))
                    (claim_ready cdn claimed_at db).1))
                c.columns
            ∙ ap (ended (claim_ready cdn claimed_at db).1) s.ends;
        table = s.table;
      }

  -- A round without a ready job only sleeps.
  pub worker_round_idle :
      (claim_ready cdn claimed_at db).0 ≡ none
      → worker_round retry cdn purge claimed_at settled_at db ≡ slept db
  unfolding worker_round
  worker_round_idle h =
      ap (work_on retry settled_at purge) (with_first (claim_ready cdn claimed_at db) h)
      ∙ ap slept (claim_ready-misses cdn claimed_at db h).0
