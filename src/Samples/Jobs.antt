-- ===== src/Samples/Jobs.antt =====
-- A queue with two jobs, and a worker on it.
use mirror_mirage.Prelude.{
  map, ◌+◌, ◌≡◌, refl, ◌≢◌, ◌≤◌, true, false, none, some, List, [], ◌∷◌, ◌++◌, arith, inl, inr, max,
}
use mirror_mirage.Text.{Text, codes}
use mirror_mirage.Config.{RetryConfig}
use mirror_mirage.Outcome.{value, overflow_error}
use mirror_mirage.Backoff.{exponential_backoff}
use mirror_mirage.Queue
use mirror_mirage.Queue.{
  Db, Row, Job, pending, in_flight, done, failed, empty, enqueue, claim_ready, job_of,
  reset_in_flight, stats,
}
use mirror_mirage.Queue.Rows.{find_row}
use mirror_mirage.Queue.Enqueue.{new_row}
use mirror_mirage.Queue.Validity.{IsValid, empty-IsValid}
use mirror_mirage.Queue.Claim.{Claimed, IsReady, claim_ready-Claimed, claim_ready-none}
use mirror_mirage.Queue.Recovery.{recovered, stats-reset_in_flight}
use mirror_mirage.Queue.Work
use mirror_mirage.Queue.Work.{run, batches, enqueued, batches-run}
use mirror_mirage.Queue.Race
use mirror_mirage.Queue.Race.{System, idle, selected, holding, holders, holders-le-one}
use mirror_mirage.Worker.{
  PurgeResult, Answer, returned, threw, result_of, worker_round, died, settled,
}
use mirror_mirage.Worker.Rounds.{Worked, worker_round-Worked}
use mirror_mirage.Worker.Exhaustion.{
  Input, calls_for, after_rounds, provider_calls-le, provider_calls-exhausted,
}

abbrev edge : Text
edge = codes "edge"

abbrev retry : RetryConfig
retry = record { max_attempts = 2; initial_backoff_seconds = 5; max_backoff_seconds = 60 }

abbrev urls : List Text
urls = codes "https://m/a" ∷ codes "https://m/b" ∷ []

abbrev first_row : Row
first_row = new_row 1 100 edge urls

abbrev second_row : Row
second_row = new_row 2 110 edge (codes "https://m/c" ∷ [])

abbrev two_jobs : Db
two_jobs = record { rows = first_row ∷ second_row ∷ []; last_id = 2 }

two_jobs-IsValid : IsValid two_jobs
two_jobs-IsValid = ground arith

-- The two jobs are what two calls of `enqueue` leave.
enqueue_twice :
    (enqueue 110 edge (codes "https://m/c" ∷ []) (enqueue 100 edge urls empty).1).1 ≡ two_jobs
unfolding enqueue
enqueue_twice = refl

abbrev busy : PurgeResult
busy = record { ok = false; retryable = true; message = codes "HTTP 503" }

abbrev always_busy : List Text → Answer
always_busy us = returned busy

claim_first : (claim_ready edge 120 two_jobs).0 ≡ some (job_of first_row)
unfolding claim_ready Queue.claim_row Queue.select_ready Queue.is_ready Queue.claim_update
    Queue.status_eq mirror_mirage.Text.text_eq
claim_first = refl

worker_round-Worked_example : Worked retry edge always_busy 120 121 two_jobs (job_of first_row)
worker_round-Worked_example =
    worker_round-Worked retry edge always_busy 120 121 two_jobs (job_of first_row) two_jobs-IsValid
      (omega arith) claim_first

claim_ready-Claimed_example :
    Claimed edge 120 two_jobs (job_of first_row) (claim_ready edge 120 two_jobs).1
claim_ready-Claimed_example =
    claim_ready-Claimed edge 120 two_jobs (job_of first_row) two_jobs-IsValid claim_first

-- Before the first job is due there is nothing to claim.
claim_early : (claim_ready edge 99 two_jobs).0 ≡ none
unfolding claim_ready Queue.claim_row Queue.select_ready Queue.is_ready Queue.claim_update
    Queue.status_eq mirror_mirage.Text.text_eq
claim_early = refl

claim_ready-none_example :
    ((claim_ready edge 99 two_jobs).1 ≡ two_jobs) × (¬ IsReady edge 99 second_row)
claim_ready-none_example = claim_ready-none edge 99 two_jobs second_row (inr (inl refl)) claim_early

abbrev five_calls : List Input
five_calls =
    record { purge = always_busy; claimed_at = 120; settled_at = 121 }
    ∷ record { purge = always_busy; claimed_at = 125; settled_at = 125 }
    ∷ record { purge = always_busy; claimed_at = 200; settled_at = 201 }
    ∷ record { purge = always_busy; claimed_at = 300; settled_at = 301 }
    ∷ record { purge = always_busy; claimed_at = 400; settled_at = 401 }
    ∷ []

provider_calls-le_example :
    calls_for retry edge 1 five_calls (enqueue 100 edge urls empty).1 ≤ max 1 retry.max_attempts
provider_calls-le_example =
    provider_calls-le retry edge 100 urls empty five_calls empty-IsValid (omega arith)

-- Two of the five rounds call the provider, and the second failure is final.
abbrev given_up : Row
given_up = record first_row {
  urls = urls;
  attempts = 1;
  next_attempt_at = 126;
  status = failed;
  message = some (codes "HTTP 503");
}

two_calls :
    calls_for retry edge 1 five_calls (enqueue 100 edge urls empty).1 ≡ max 1 retry.max_attempts
unfolding calls_for enqueue worker_round mirror_mirage.Worker.settle mirror_mirage.Worker.result_of
    claim_ready Queue.claim_row Queue.select_ready Queue.is_ready Queue.claim_update Queue.update
    Queue.status_eq Queue.reschedule Queue.mark_failed exponential_backoff
    mirror_mirage.Text.text_eq
two_calls = refl

left_failed :
    find_row 1 (after_rounds retry edge five_calls (enqueue 100 edge urls empty).1).rows
    ≡ some given_up
unfolding after_rounds enqueue worker_round mirror_mirage.Worker.settle
    mirror_mirage.Worker.result_of claim_ready Queue.claim_row Queue.select_ready Queue.is_ready
    Queue.claim_update Queue.update Queue.status_eq Queue.reschedule Queue.mark_failed
    exponential_backoff mirror_mirage.Text.text_eq find_row
left_failed = refl

provider_calls-exhausted_example : given_up.status ≢ pending
provider_calls-exhausted_example =
    provider_calls-exhausted retry edge 100 urls empty five_calls empty-IsValid (omega arith)
      given_up two_calls left_failed

-- A job after 1024 attempts, under a configuration that allows 2000.
abbrev old_row : Row
old_row = record first_row { attempts = 1024 }

abbrev old_job : Db
old_job = record { rows = old_row ∷ []; last_id = 1 }

abbrev long_retry : RetryConfig
long_retry = record retry { max_attempts = 2000 }

-- The retry's delay is too large for a float: the worker dies, and the job stays in flight.
overflow_kills :
    worker_round long_retry edge always_busy 120 121 old_job
    ≡ died overflow_error
        (record { rows = record old_row { status = in_flight } ∷ []; last_id = 1 })
unfolding worker_round mirror_mirage.Worker.settle mirror_mirage.Worker.result_of claim_ready
    Queue.claim_row Queue.select_ready Queue.is_ready Queue.claim_update Queue.update
    Queue.status_eq exponential_backoff mirror_mirage.Text.text_eq
overflow_kills = refl

abbrev a_day : List Work.Op
a_day =
    Work.enqueue 130 edge urls
    ∷ Work.claim_ready edge 140
    ∷ Work.reschedule 1 1 150
    ∷ Work.claim_ready edge 160
    ∷ Work.mark_done 1
    ∷ Work.claim_ready edge 170
    ∷ Work.reset_in_flight
    ∷ []

batches-run_example : batches (run a_day two_jobs).rows ≡ batches two_jobs.rows ++ enqueued 2 a_day
batches-run_example = batches-run a_day two_jobs

-- Two claimers that both saw the first job, before either of them took it.
abbrev race_start : System
race_start = record { db = two_jobs; claimers = idle ∷ idle ∷ [] }

select_first : Queue.select_ready edge 120 two_jobs.rows ≡ some first_row
unfolding Queue.select_ready Queue.is_ready Queue.status_eq mirror_mirage.Text.text_eq
select_first = refl

abbrev race_end : System
race_end = record {
  db = (Queue.claim_update 1 (Queue.claim_update 1 two_jobs).1).1;
  claimers = holding 1 ∷ idle ∷ [];
}

race : Race.Reach race_start race_end
unfolding Queue.claim_update Queue.update Queue.status_eq
race =
    Race.next
      (Race.next
        (Race.next
          (Race.next Race.here
            (Race.select two_jobs [] (idle ∷ []) edge 120 first_row select_first))
          (Race.select two_jobs (selected 1 ∷ []) [] edge 120 first_row select_first))
        (Race.take two_jobs [] (selected 1 ∷ []) 1))
      (Race.take (Queue.claim_update 1 two_jobs).1 (holding 1 ∷ []) [] 1)

race_start-Inv : Race.Inv race_start
unfolding Queue.status_eq
race_start-Inv = record { valid = two_jobs-IsValid; held = λ i. ground arith }

holders-le-one_example : holders 1 race_end ≤ 1
holders-le-one_example = holders-le-one race_start-Inv race 1

-- One job in flight and one pending.
abbrev after_crash : Db
after_crash = record {
  rows = record first_row { status = in_flight; attempts = 1 } ∷ second_row ∷ [];
  last_id = 2;
}

stats-reset_in_flight_example :
    ((reset_in_flight after_crash).1.rows ≡ map recovered after_crash.rows)
    × ((reset_in_flight after_crash).1.last_id ≡ 2)
    × (stats (reset_in_flight after_crash).1 pending
        ≡ stats after_crash pending + (reset_in_flight after_crash).0)
    × (stats (reset_in_flight after_crash).1 in_flight ≡ 0)
    × (stats (reset_in_flight after_crash).1 done ≡ stats after_crash done)
    × (stats (reset_in_flight after_crash).1 failed ≡ stats after_crash failed)
stats-reset_in_flight_example = stats-reset_in_flight after_crash

fourth_delay : exponential_backoff 4 5 60 ≡ value 40
unfolding exponential_backoff
fourth_delay = refl
