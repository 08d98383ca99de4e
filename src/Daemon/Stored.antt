-- ===== src/Daemon/Stored.antt =====
-- A target of the pipeline in a batcher's buffer or in the table of jobs, under what the tasks of
-- `run` in src/mirror_mirage/daemon.py do to both.
use mirror_mirage.Prelude.{
  ℕ, suc, ◌+◌, ◌≡◌, refl, sym, ap, subst, ◌&&◌, Option, none, some, List, [], ◌∷◌, ◌⊎◌, inl, inr,
  In, ◌≤◌, ◌<◌, arith, In-append_left, In-append_right, Bool-cases, ltb, leb, length,
}
use mirror_mirage.Text.{Text, text_eq, text_eq_iff}
use mirror_mirage.FilePath.{text_keys}
use mirror_mirage.Dict
use mirror_mirage.Outcome.{Outcome, value, raised, value_inj, raised_ne_value, ◌>>=◌}
use mirror_mirage.Backoff.{exponential_backoff}
use mirror_mirage.Config.{Seconds, Config, RetryConfig}
use mirror_mirage.Mapper.{PurgeTarget}
use mirror_mirage.Batcher.{Batcher, Batch, Urls, add, buffer_of}
use mirror_mirage.Batcher.Slot.{
  Slot, slot, Refines, flush_buffer, flush_slot, ensure_slot, recorded, record_slot, submit_slot,
}
use mirror_mirage.Batcher.Steps.{urls_of}
use mirror_mirage.Batcher.Kept.{Held}
use mirror_mirage.Queue.{Db, Job, claim_ready, reschedule}
use mirror_mirage.Queue.Work
use mirror_mirage.Queue.Work.{Op, run, batches, enqueued, batches-run, last_id-run}
use mirror_mirage.Worker.{PurgeResult, settle}
use mirror_mirage.Daemon.{hand_over}

-- A job of the table, created after the one with the id `n`, has the target among its URLs.
pub record Stored (t : PurgeTarget) (n : ℕ) (db : Db) : Type 0 where
  pub id : ℕ
  pub urls : List Text
  pub job : In (id, t.cdn_name, urls) (batches db.rows)
  pub url : In t.url urls
  pub later : n < id

-- A target waits in its CDN's buffer, or a later job of the table has it.
abbrev pub Safe : PurgeTarget → ℕ → Batcher → Db → Type 0
Safe t n b db = In t.url (buffer_of (Dict.get t.cdn_name b.buffers)) ⊎ Stored t n db

-- Statements of the queue keep the jobs.
Stored-run :
    (t : PurgeTarget) (n : ℕ) (ops : List Op) (db : Db) → Stored t n db → Stored t n (run ops db)
Stored-run t n ops db k = record {
  id = k.id;
  urls = k.urls;
  job =
      rw (batches-run ops db) (
        In-append_left (k.id, t.cdn_name, k.urls) (batches db.rows) (enqueued db.last_id ops)
          k.job);
  url = k.url;
  later = k.later;
}

Stored-enqueued :
    (t : PurgeTarget) (n : ℕ) (now : Seconds) (urls : List Text) (db : Db)
    → In t.url urls
    → n ≤ db.last_id
    → Stored t n (run (Work.enqueue now t.cdn_name urls ∷ []) db)
Stored-enqueued t n now urls db m le = record {
  id = suc db.last_id;
  urls = urls;
  job = rw (batches-run (Work.enqueue now t.cdn_name urls ∷ []) db) (
      In-append_right (suc db.last_id, t.cdn_name, urls) (batches db.rows)
        ((suc db.last_id, t.cdn_name, urls) ∷ []) (inl refl));
  url = m;
  later = omega arith;
}

-- A batch that is for the CDN.
abbrev IsFor : Text → Option Batch → Type 0
IsFor cdn none = Unit
IsFor cdn (some (c, urls)) = c ≡ cdn

Stored-hand_over :
    (t : PurgeTarget) (n : ℕ) (now : Seconds) (o : Option Batch) (db : Db)
    → Stored t n db
    → Stored t n (hand_over now o db)
unfolding hand_over run Work.apply
Stored-hand_over t n now none db k = k
Stored-hand_over t n now (some (c, urls)) db k = Stored-run t n (Work.enqueue now c urls ∷ []) db k

Stored-handed :
    (t : PurgeTarget) (n : ℕ) (now : Seconds) (o : Option Batch) (db : Db)
    → IsFor t.cdn_name o
    → In t.url (urls_of o)
    → n ≤ db.last_id
    → Stored t n (hand_over now o db)
unfolding hand_over run Work.apply
Stored-handed t n now none db f m le = absurd m
Stored-handed t n now (some (c, urls)) db f m le =
    subst (λ (x : Text). Stored t n (run (Work.enqueue now x urls ∷ []) db)) (sym f)
      (Stored-enqueued t n now urls db m le)

pub last_id-hand_over :
    (now : Seconds) (o : Option Batch) (db : Db) → db.last_id ≤ (hand_over now o db).last_id
unfolding hand_over run Work.apply
last_id-hand_over now none db = omega arith
last_id-hand_over now (some (c, urls)) db = last_id-run (Work.enqueue now c urls ∷ []) db

flush_buffer-IsFor : (cdn : Text) (o : Option Urls) (s : Slot) → IsFor cdn (flush_buffer cdn o s).1
flush_buffer-IsFor cdn none s = tt
flush_buffer-IsFor cdn (some []) s = tt
flush_buffer-IsFor cdn (some (u ∷ us)) s = refl

pub flush_slot-IsFor : (cdn : Text) (s : Slot) → IsFor cdn (flush_slot cdn s).1
unfolding flush_slot
flush_slot-IsFor cdn s = flush_buffer-IsFor cdn s.buffer s

pub submit_slot-IsFor :
    (cfg : Config) (now : Seconds) (t : PurgeTarget) (s : Slot)
    → IsFor t.cdn_name (submit_slot cfg.daemon now t s).1
unfolding submit_slot record_slot
submit_slot-IsFor cfg now t s =
    let buf = buffer_of (ensure_slot s).buffer in
    elim (Bool-cases (leb cfg.daemon.batch_max_size (length (add t.url buf)))) [
      | inl e ↦ rw e (flush_slot-IsFor t.cdn_name (recorded now t.url buf (ensure_slot s)))
      | inr e ↦ rw e tt
    ]

-- An operation on one CDN's slot that keeps the URLs of the slot's buffer loses no target.
module _ (cdn : Text) (now : Seconds) (b : Batcher) (db : Db) (f : Slot × Option Batch)
    (r : Batcher × Option Batch) (refines : Refines cdn b f r) (for_cdn : IsFor cdn f.1) where
  pub Held-Safe :
      (t : PurgeTarget) (n : ℕ)
      → cdn ≡ t.cdn_name
      → n ≤ db.last_id
      → Held t.url f
      → Safe t n r.0 (hand_over now r.1 db)
  unfolding slot
  Held-Safe t n same le (inl m) =
      let own = refines.slots t.cdn_name in
      inl (rw (ap (λ (s : Slot). s.buffer) (rw ((text_eq_iff cdn t.cdn_name).1 same) at own)) m)
  Held-Safe t n same le (inr m) = inr (
      rw refines.batch
        (Stored-handed t n now f.1 db (subst (λ (c : Text). IsFor c f.1) same for_cdn) m le))

  pub refined-Safe :
      ((u : Text) → In u (buffer_of (slot cdn b).buffer) → Held u f)
      → (t : PurgeTarget) (n : ℕ) → n ≤ db.last_id
      → Safe t n b db
      → Safe t n r.0 (hand_over now r.1 db)
  unfolding slot
  refined-Safe keeps t n le (inr k) = inr (Stored-hand_over t n now r.1 db k)
  refined-Safe keeps t n le (inl m) = elim (Bool-cases (text_eq cdn t.cdn_name)) [
    | inl e ↦
        let same = (text_eq_iff cdn t.cdn_name).0 e in
        Held-Safe t n same le (keeps t.url (rw same m))
    | inr e ↦
        let other = refines.slots t.cdn_name in
        inl (rw (ap (λ (s : Slot). s.buffer) (rw e at other)) m)
  ]

-- Settling a job is one statement of the queue.
settle-Op :
    (retry : RetryConfig) (now : Seconds) (job : Job) (result : PurgeResult) (db db' : Db)
    → settle retry now job result db ≡ value db'
    → (op : Op) × (run (op ∷ []) db ≡ db')
unfolding settle run Work.apply
settle-Op retry now job result db db' h = elim (Bool-cases result.ok) [
  | inl ok ↦ (Work.mark_done job.id, value_inj (rw ok at h))
  | inr bad ↦ elim (Bool-cases (result.retryable && ltb (job.attempts + 1) retry.max_attempts)) [
    | inl again ↦
        rescheduling
          (exponential_backoff (job.attempts + 1) retry.initial_backoff_seconds
            retry.max_backoff_seconds)
          (rw (bad, again) at h)
    | inr no_more ↦ (Work.mark_failed job.id result.message, value_inj (rw (bad, no_more) at h))
  ]
]
  where
    rescheduling :
        (o : Outcome Seconds)
        → (o >>= λ d. value (reschedule job.id (job.attempts + 1) (now + d) db)) ≡ value db'
        → (op : Op) × (run (op ∷ []) db ≡ db')
    rescheduling (value d) e = (Work.reschedule job.id (job.attempts + 1) (now + d), value_inj e)
    rescheduling (raised x) e = absurd (raised_ne_value e)

module _ (t : PurgeTarget) (n : ℕ) where
  pub Stored-settle :
      (retry : RetryConfig) (now : Seconds) (job : Job) (result : PurgeResult) (db db' : Db)
      → settle retry now job result db ≡ value db'
      → Stored t n db
      → Stored t n db'
  Stored-settle retry now job result db db' h k =
      let (op, same) = settle-Op retry now job result db db' h in
      subst (Stored t n) same (Stored-run t n (op ∷ []) db k)

  pub Stored-claim :
      (cdn : Text) (now : Seconds) (db : Db) → Stored t n db → Stored t n (claim_ready cdn now db).1
  unfolding run Work.apply
  Stored-claim cdn now db k = Stored-run t n (Work.claim_ready cdn now ∷ []) db k

pub last_id-settle :
    (retry : RetryConfig) (now : Seconds) (job : Job) (result : PurgeResult) (db db' : Db)
    → settle retry now job result db ≡ value db'
    → db.last_id ≤ db'.last_id
last_id-settle retry now job result db db' h =
    let (op, same) = settle-Op retry now job result db db' h in
    subst (λ (x : Db). db.last_id ≤ x.last_id) same (last_id-run (op ∷ []) db)

pub last_id-claim :
    (cdn : Text) (now : Seconds) (db : Db) → db.last_id ≤ (claim_ready cdn now db).1.last_id
unfolding run Work.apply
last_id-claim cdn now db = last_id-run (Work.claim_ready cdn now ∷ []) db
