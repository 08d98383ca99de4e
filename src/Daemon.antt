-- ===== src/Daemon.antt =====
-- The tasks that `run` of src/mirror_mirage/daemon.py starts, together: the pipeline, the batcher's
-- debounce tasks and one worker for each CDN, over one batcher and one queue.
pub mod Stored
pub mod Delivery
use mirror_mirage.Prelude.{ℕ, ◌≡◌, Option, none, some, List, [], ◌∷◌, In}
use mirror_mirage.Text.{Text}
use mirror_mirage.FilePath.{FilePath, text_keys}
use mirror_mirage.Dict
use mirror_mirage.Outcome.{value}
use mirror_mirage.Config.{Seconds, Config, WatchConfig, DaemonConfig}
use mirror_mirage.Filter.{event_filter}
use mirror_mirage.Mapper.{PurgeTarget, mapper, pipeline_targets}
use mirror_mirage.Batcher
use mirror_mirage.Batcher.{Batcher, Batch, flush_locked, new}
use mirror_mirage.Queue
use mirror_mirage.Queue.{Db, Job, claim_ready, reset_in_flight}
use mirror_mirage.Worker.{Answer, result_of, settle}

-- An event that the pipeline took from the watcher, with the last id of the table at that time.
pub record Seen : Type 0 where
  pub mask : Text
  pub path : FilePath
  pub last_id : ℕ

-- `todo` holds the targets of the pipeline's event that are not submitted yet, `held` the jobs that
-- workers took.
pub record Daemon : Type 0 where
  pub batcher : Batcher
  pub db : Db
  pub todo : List PurgeTarget
  pub seen : List Seen
  pub held : List Job

-- `run(cfg)` on the queue's file: recovery, then the tasks.
unfoldable pub started : Db → Daemon
started db = record { batcher = new; db = (reset_in_flight db).1; todo = []; seen = []; held = [] }

-- `await self._queue.enqueue(cdn, urls)` of a flush
unfoldable pub hand_over : Seconds → Option Batch → Db → Db
hand_over now none db = db
hand_over now (some (cdn, urls)) db = (Queue.enqueue now cdn urls db).1

abbrev pub held_after : Option Job → List Job → List Job
held_after none jobs = jobs
held_after (some job) jobs = job ∷ jobs

module _ (cfg : Config) where
  -- The events and the answers of the CDNs come in any order, with any readings of the two clocks:
  -- `loop` is the event loop's clock, `now` the wall clock.
  pub data Step (s : Daemon) : Daemon → Type 0 where
    event :
        (mask : Text) (p : FilePath) (targets : List PurgeTarget)
        → s.todo ≡ []
        → pipeline_targets (event_filter cfg.watches) (mapper cfg.watches) mask p ≡ some targets
        → Step s (record s {
          todo = targets;
          seen = record { mask = mask; path = p; last_id = s.db.last_id } ∷ s.seen;
        })
    submit :
        (t : PurgeTarget) (rest : List PurgeTarget) (loop now : Seconds)
        → s.todo ≡ t ∷ rest
        → Step s (record s {
          batcher = (Batcher.submit cfg.daemon loop t s.batcher).0;
          db = hand_over now (Batcher.submit cfg.daemon loop t s.batcher).1 s.db;
          todo = rest;
        })
    flush :
        (cdn : Text) (now : Seconds)
        → Step s (record s {
          batcher = (flush_locked cdn s.batcher).0;
          db = hand_over now (flush_locked cdn s.batcher).1 s.db;
        })
    debounce :
        (b : Batcher)
        → b.buffers ≡ s.batcher.buffers
        → b.first_added ≡ s.batcher.first_added
        → b.last_added ≡ s.batcher.last_added
        → Step s (record s { batcher = b })
    claim :
        (cdn : Text) (now : Seconds)
        → Step s (record s {
          db = (claim_ready cdn now s.db).1;
          held = held_after (claim_ready cdn now s.db).0 s.held;
        })
    settle_job :
        (job : Job) (answer : Answer) (now : Seconds) (db : Db)
        → In job s.held
        → settle cfg.daemon.retry now job (result_of answer) s.db ≡ value db
        → Step s (record s { db = db })

  pub data Reach (s : Daemon) : Daemon → Type 0 where
    here : Reach s s
    next : {t u : Daemon} → Reach s t → Step t u → Reach s u
