-- ===== src/Worker.antt =====
-- `_queue_worker` of src/mirror_mirage/daemon.py and `PurgeResult` of
-- src/mirror_mirage/providers/base.py. One round of its loop is a claim, a call of the provider,
-- and the statement that settles the job.
pub mod Settle
pub mod Rounds
pub mod Exhaustion
use mirror_mirage.Prelude.{
  ℕ, suc, ◌+◌, Bool, true, false, ◌&&◌, Option, none, some, List, ◌++◌, ltb, if◌then◌else◌,
}
use mirror_mirage.Text.{Text, codes}
use mirror_mirage.Config.{Seconds, RetryConfig}
use mirror_mirage.Outcome.{Exception, Outcome, value, raised, ◌>>=◌}
use mirror_mirage.Backoff.{exponential_backoff}
use mirror_mirage.Queue.{Db, Job, claim_ready, mark_done, mark_failed, reschedule}

pub record PurgeResult : Type 0 where
  pub ok : Bool
  pub retryable : Bool
  pub message : Text

-- What `await provider.purge(urls)` gives the worker: a result, or an exception with its text.
pub data Answer : Type 0 where
  returned : PurgeResult → Answer
  threw : Text → Answer

-- The `except Exception` of the worker.
unfoldable pub result_of : Answer → PurgeResult
result_of (returned result) = result
result_of (threw e) = record {
  ok = false;
  retryable = true;
  message = codes "provider raised: " ++ e;
}

-- From the provider's result to the end of the round, at the time `now`.
unfoldable pub settle : RetryConfig → Seconds → Job → PurgeResult → Db → Outcome Db
settle retry now job result db =
    let attempt = job.attempts + 1 in
    if result.ok
    then value (mark_done job.id db)
    else if result.retryable && ltb attempt retry.max_attempts
    then (do
      backoff ← exponential_backoff attempt retry.initial_backoff_seconds retry.max_backoff_seconds
      value (reschedule job.id attempt (now + backoff) db))
    else value (mark_failed job.id result.message db)

-- How a round ends: with nothing to do, after settling a job, or by an exception that ends the
-- worker's task and leaves the table as it is.
pub data Round : Type 0 where
  slept : Db → Round
  settled : Db → Round
  died : Exception → Db → Round

abbrev ended : Db → Outcome Db → Round
ended claimed (value db) = settled db
ended claimed (raised e) = died e claimed

abbrev work_on : RetryConfig → Seconds → (List Text → Answer) → Option Job × Db → Round
work_on retry now purge (none, db) = slept db
work_on retry now purge (some job, db) =
    ended db (settle retry now job (result_of (purge job.urls)) db)

-- One round: the claim reads the clock as `claimed_at`, the settling as `settled_at`.
unfoldable pub worker_round :
    RetryConfig → Text → (List Text → Answer) → Seconds → Seconds → Db → Round
worker_round retry cdn_name purge claimed_at settled_at db =
    work_on retry settled_at purge (claim_ready cdn_name claimed_at db)
