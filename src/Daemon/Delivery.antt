-- ===== src/Daemon/Delivery.antt =====
-- What becomes of an event's targets, from the pipeline to the queue.
use mirror_mirage.Prelude.{
  ℕ, ◌≡◌, sym, ap, subst, some, List, ◌⊎◌, inl, inr, In, ◌≤◌, some_inj, ◌∙◌, arith,
}
use mirror_mirage.FilePath.{text_keys}
use mirror_mirage.Config.{Seconds, Config}
use mirror_mirage.Filter.{event_filter}
use mirror_mirage.Mapper.{PurgeTarget, mapper, pipeline_targets}
use mirror_mirage.Batcher.{Batcher, Batch, Urls, add, buffer_of, flush_locked}
use mirror_mirage.Batcher
use mirror_mirage.Batcher.Slot.{slot, flush_slot, submit_slot, flush_locked-Refines}
use mirror_mirage.Batcher.Kept.{Held, flush-Held, submit-Held_new, submit-Held_old}
use mirror_mirage.Batcher.Submit.{submit-Refines}
use mirror_mirage.Queue.{Db}
use mirror_mirage.Worker.{result_of}
use mirror_mirage.Daemon.{
  Daemon, Seen, started, hand_over, Step, event, submit, flush, debounce, claim, settle_job, Reach,
  here, next,
}
use mirror_mirage.Daemon.Stored.{
  Safe, Held-Safe, refined-Safe, submit_slot-IsFor, flush_slot-IsFor, Stored-settle, Stored-claim,
  last_id-hand_over, last_id-settle, last_id-claim,
}

-- It is still to be submitted, or safe.
abbrev pub NotLost : PurgeTarget → ℕ → Daemon → Type 0
NotLost t n s = In t s.todo ⊎ Safe t n s.batcher s.db

module _ (cfg : Config) where
  last_id-Step : {s s' : Daemon} → Step cfg s s' → s.db.last_id ≤ s'.db.last_id
  last_id-Step (event mask p targets idle e) = omega arith
  last_id-Step {s = s} (submit t rest loop now e) =
      last_id-hand_over now (Batcher.submit cfg.daemon loop t s.batcher).1 s.db
  last_id-Step {s = s} (flush cdn now) = last_id-hand_over now (flush_locked cdn s.batcher).1 s.db
  last_id-Step (debounce b e f l) = omega arith
  last_id-Step {s = s} (claim cdn now) = last_id-claim cdn now s.db
  last_id-Step {s = s} (settle_job job answer now db m h) =
      last_id-settle cfg.daemon.retry now job (result_of answer) s.db db h

  submitted-Safe :
      (u : PurgeTarget) (loop now : Seconds) (b : Batcher) (db : Db) (t : PurgeTarget) (n : ℕ)
      → n ≤ db.last_id
      → (u ≡ t) ⊎ Safe t n b db
      → Safe t n
          (Batcher.submit cfg.daemon loop u b).0
          (hand_over now (Batcher.submit cfg.daemon loop u b).1 db)
  submitted-Safe u loop now b db t n le c =
      let f = submit_slot cfg.daemon loop u (slot u.cdn_name b) in
      let r = Batcher.submit cfg.daemon loop u b in
      let refines = submit-Refines cfg.daemon loop u b in
      let for_cdn = submit_slot-IsFor cfg loop u (slot u.cdn_name b) in
      elim c [
        | inl same ↦
            Held-Safe u.cdn_name now b db f r refines for_cdn t n
              (ap (λ (x : PurgeTarget). x.cdn_name) same) le
              (subst (λ (x : PurgeTarget). Held x.url f) same
                (submit-Held_new cfg.daemon loop u (slot u.cdn_name b)))
        | inr k ↦
            refined-Safe u.cdn_name now b db f r refines for_cdn
              (λ x m. submit-Held_old x cfg.daemon loop u (slot u.cdn_name b) m) t n le k
      ]

  -- A step loses no target of the events before it.
  Step-NotLost :
      {s s' : Daemon} (t : PurgeTarget) (n : ℕ)
      → Step cfg s s'
      → n ≤ s.db.last_id
      → NotLost t n s
      → NotLost t n s'
  Step-NotLost t n (event mask p targets idle e) le (inl m) = absurd (rw idle at m)
  Step-NotLost t n (event mask p targets idle e) le (inr k) = inr k
  Step-NotLost {s = s} t n (submit u rest loop now e) le (inl m) = elim (rw e at m) [
    | inl same ↦ inr (submitted-Safe u loop now s.batcher s.db t n le (inl (sym same)))
    | inr k ↦ inl k
  ]
  Step-NotLost {s = s} t n (submit u rest loop now e) le (inr k) =
      inr (submitted-Safe u loop now s.batcher s.db t n le (inr k))
  Step-NotLost t n (flush cdn now) le (inl m) = inl m
  Step-NotLost {s = s} t n (flush cdn now) le (inr k) = inr (
      refined-Safe cdn now s.batcher s.db (flush_slot cdn (slot cdn s.batcher))
        (flush_locked cdn s.batcher) (flush_locked-Refines cdn s.batcher)
        (flush_slot-IsFor cdn (slot cdn s.batcher)) (λ x m. flush-Held x cdn (slot cdn s.batcher) m)
        t n le k)
  Step-NotLost t n (debounce b e f l) le (inl m) = inl m
  Step-NotLost t n (debounce b e f l) le (inr k) = inr (rw e k)
  Step-NotLost t n (claim cdn now) le (inl m) = inl m
  Step-NotLost t n (claim cdn now) le (inr (inl m)) = inr (inl m)
  Step-NotLost {s = s} t n (claim cdn now) le (inr (inr k)) =
      inr (inr (Stored-claim t n cdn now s.db k))
  Step-NotLost t n (settle_job job answer now db m h) le (inl b) = inl b
  Step-NotLost t n (settle_job job answer now db m h) le (inr (inl b)) = inr (inl b)
  Step-NotLost {s = s} t n (settle_job job answer now db m h) le (inr (inr k)) =
      inr (inr (Stored-settle t n cfg.daemon.retry now job (result_of answer) s.db db h k))

  -- What an event that the pipeline took asks for is not lost.
  abbrev Delivered : Daemon → Seen → Type 0
  Delivered s e =
      (e.last_id ≤ s.db.last_id)
      × ((targets : List PurgeTarget) (t : PurgeTarget)
          → pipeline_targets (event_filter cfg.watches) (mapper cfg.watches) e.mask e.path
            ≡ some targets
          → In t targets
          → NotLost t e.last_id s)

  Step-Delivered : {s s' : Daemon} (e : Seen) → Step cfg s s' → Delivered s e → Delivered s' e
  Step-Delivered e st (le, k) =
      let grows = last_id-Step st in
      (omega arith, λ targets t same m. Step-NotLost t e.last_id st le (k targets t same m))

  abbrev AllDelivered : Daemon → Type 0
  AllDelivered s = (e : Seen) → In e s.seen → Delivered s e

  -- An event that is seen after a step was seen before it, or is the one of the step.
  seen_since :
      {s s' : Daemon} (e : Seen) → Step cfg s s' → In e s'.seen → In e s.seen ⊎ Delivered s' e
  seen_since {s = s} e (event mask p targets idle same) (inl new) =
      inr (rw new (omega arith, λ others t again m. inl (rw (some_inj (sym again ∙ same)) at m)))
  seen_since e (event mask p targets idle same) (inr m) = inl m
  seen_since e (submit u rest loop now same) m = inl m
  seen_since e (flush cdn now) m = inl m
  seen_since e (debounce b x f l) m = inl m
  seen_since e (claim cdn now) m = inl m
  seen_since e (settle_job job answer now db n h) m = inl m

  Step-AllDelivered : {s s' : Daemon} → Step cfg s s' → AllDelivered s → AllDelivered s'
  Step-AllDelivered st k e m = elim (seen_since e st m) [
    | inl old ↦ Step-Delivered e st (k e old)
    | inr fresh ↦ fresh
  ]

  Reach-AllDelivered : {s s' : Daemon} → AllDelivered s → Reach cfg s s' → AllDelivered s'
  Reach-AllDelivered k here = k
  Reach-AllDelivered k (next r st) = Step-AllDelivered st (Reach-AllDelivered k r)

  -- From the start of the daemon on, as long as the queue accepts every statement, and however the
  -- pipeline's events and submissions, flushes, claims and settlings interleave: each target that
  -- filter and mapper give for an event that the pipeline took is still to be submitted, or waits in
  -- its CDN's buffer, or a job for that CDN that was created after the pipeline took the event has
  -- its URL. No claim, retry, failure or flush loses one, and no job from before the event counts.
  pub Reach-NotLost :
      (db : Db) {s : Daemon} (e : Seen) (targets : List PurgeTarget) (t : PurgeTarget)
      → Reach cfg (started db) s
      → In e s.seen
      → pipeline_targets (event_filter cfg.watches) (mapper cfg.watches) e.mask e.path
        ≡ some targets
      → In t targets
      → NotLost t e.last_id s
  unfolding started
  Reach-NotLost db e targets t r m same n =
      (Reach-AllDelivered (λ x absent. absurd absent) r e m).1 targets t same n
