-- ===== src/Batcher/Wakeups.antt =====
-- The invariant of a buffer and its task under the steps of the task and of its surroundings.
use mirror_mirage.Prelude.{
  ◌+◌, ◌≡◌, refl, sym, ap, subst, ◌≢◌, ◌<◌, Bool, false, Option, none, some, [], ◌∷◌, inl, inr, min,
  leb, Bool-cases,
}
use mirror_mirage.Text.{Text}
use mirror_mirage.Outcome.{value, value_inj}
use mirror_mirage.Config.{Seconds, DaemonConfig}
use mirror_mirage.Batcher.{
  Task, waiting, checking, due, expired, sleeping, Urls, buffer_of, after_check,
}
use mirror_mirage.Batcher.Slot.{Slot, flush_slot, flush_buffer}
use mirror_mirage.Batcher.Steps.{
  View, flushed_by, at_task, woken, check_slot, Step, move, submit, pass, flush_all, wake_up, look,
  flush_due, nudge, time_out, flush_expired, Reach, here, next,
}
use mirror_mirage.Batcher.Invariant.{
  Inv, flush-buffer, flush-Inv, ServedIf-Served, submit-Inv, Timed-later, Timed, ServedIf, IsAlive,
  looking, flushing, overdue, timed,
}

-- What the check of a non-empty buffer answers.
check_slot-Served :
    (cfg : DaemonConfig) (now : Seconds) (cdn : Text) (s : Slot) (o : Option Urls) (t : Task)
    → s.buffer ≡ o
    → Timed now (buffer_of o) s.first s.last
    → after_check cfg now cdn s.last s.first o ≡ value t
    → ServedIf cfg (at_task s t) (buffer_of o) × (t ≢ Task.dead)
check_slot-Served cfg now cdn s none t e st h = (tt, λ p. cc (value_inj h))
check_slot-Served cfg now cdn s (some []) t e st h = (tt, λ p. cc (value_inj h))
check_slot-Served cfg now cdn s (some (u ∷ us)) t e (f, l, ef, el, fl, ln) h =
    let until = min (l + cfg.batch_quiet_window_seconds) (f + cfg.batch_max_age_seconds) in
    elim (Bool-cases (leb until now)) [
      | inl over ↦
          let q : due ≡ t = value_inj (rw (el, ef, over) at h) in
          (flushing (ap some (sym q)), λ p. cc q)
      | inr more ↦
          let q : sleeping until ≡ t = value_inj (rw (el, ef, more) at h) in
          (timed until f l (ap some (sym q)) ef el refl, λ p. cc q)
    ]

IsAlive-any : (o : Option Urls) (x : Task) → x ≢ Task.dead → IsAlive o (some x)
IsAlive-any none x a = tt
IsAlive-any (some buf) x a = (x, refl, a)

-- With an empty buffer the task may stand anywhere.
Inv-retask :
    (cfg : DaemonConfig) (now : Seconds) (s : Slot) (t : Option Task)
    → Inv cfg now s
    → buffer_of s.buffer ≡ []
    → IsAlive s.buffer t
    → Inv cfg now (record s { task = t })
Inv-retask cfg now s t v e a = record {
  stamps = v.stamps;
  served = rw e tt;
  alive = a;
  small = v.small;
}

-- The task moves to `x`, which serves the buffer.
Inv-at :
    (cfg : DaemonConfig) (now : Seconds) (s : Slot) (w : Option Bool) (x : Task)
    → Inv cfg now s
    → ServedIf cfg (record s { wake = w; task = some x }) (buffer_of s.buffer)
    → x ≢ Task.dead
    → Inv cfg now (record s { wake = w; task = some x })
Inv-at cfg now s w x v served a = record {
  stamps = v.stamps;
  served = served;
  alive = IsAlive-any s.buffer x a;
  small = v.small;
}

flush-task_at : (cdn : Text) (o : Option Urls) (s : Slot) → (flush_buffer cdn o s).0.task ≡ s.task
flush-task_at cdn none s = refl
flush-task_at cdn (some []) s = refl
flush-task_at cdn (some (u ∷ us)) s = refl

flush-task : (cdn : Text) (s : Slot) → (flush_slot cdn s).0.task ≡ s.task
unfolding flush_slot
flush-task cdn s = flush-task_at cdn s.buffer s

module _ (cfg : DaemonConfig) (cdn : Text) (pos : 0 < cfg.batch_max_size) where
  flushed-Inv :
      (v : View) (t : Option Task)
      → Inv cfg v.clock v.state
      → IsAlive (flush_slot cdn v.state).0.buffer t
      → Inv cfg v.clock (flushed_by cdn t v).state
  flushed-Inv v t i a =
      Inv-retask cfg v.clock (flush_slot cdn v.state).0 t
        (flush-Inv cfg v.clock cdn v.state pos i.stamps i.alive) (flush-buffer cdn v.state) a

  Step-Inv : {v w : View} → Step cfg cdn v w → Inv cfg v.clock v.state → Inv cfg w.clock w.state
  Step-Inv {v = v} (move (wake_up t w)) i =
      Inv-at cfg v.clock v.state (some false) checking i
        (ServedIf-Served cfg (woken v.state) (buffer_of v.state.buffer) (looking refl)) (λ p. cc)
  Step-Inv {v = v} (move (look t e h)) i =
      let (s, a) =
        check_slot-Served cfg v.clock cdn v.state v.state.buffer t refl i.stamps
          (unfold check_slot in h) in
      Inv-at cfg v.clock v.state v.state.wake t i s a
  Step-Inv {v = v} (move (flush_due t)) i =
      flushed-Inv v (some waiting) i
        (IsAlive-any (flush_slot cdn v.state).0.buffer waiting (λ p. cc))
  Step-Inv {v = v} (move (nudge d t w)) i =
      Inv-at cfg v.clock v.state (some false) checking i
        (ServedIf-Served cfg (woken v.state) (buffer_of v.state.buffer) (looking refl)) (λ p. cc)
  Step-Inv {v = v} (move (time_out d t w)) i =
      Inv-at cfg v.clock v.state v.state.wake expired i
        (ServedIf-Served cfg (at_task v.state expired) (buffer_of v.state.buffer) (overdue refl))
        (λ p. cc)
  Step-Inv {v = v} (move (flush_expired t)) i =
      flushed-Inv v (some waiting) i
        (IsAlive-any (flush_slot cdn v.state).0.buffer waiting (λ p. cc))
  Step-Inv {v = v} (submit target e) i = submit-Inv cfg v.clock target v.state pos i
  Step-Inv {v = v} (pass n) i = record {
    stamps = Timed-later v.clock n (buffer_of v.state.buffer) v.state.first v.state.last i.stamps;
    served = i.served;
    alive = i.alive;
    small = i.small;
  }
  Step-Inv {v = v} flush_all i = flushed-Inv v v.state.task i (
      subst (IsAlive (flush_slot cdn v.state).0.buffer) (flush-task cdn v.state)
        (flush-Inv cfg v.clock cdn v.state pos i.stamps i.alive).alive)

  -- With a positive `batch_max_size`, and as long as the queue accepts every batch, every state
  -- reached from one with the invariant has it: a non-empty buffer has its two timestamps, it holds
  -- fewer URLs than `batch_max_size`, its task has not ended, and the task is sure to look at the
  -- buffer, since its event is set or the task is inside its inner loop and sleeps at most until
  -- the buffer's own deadline.
  pub Reach-Inv :
      {v w : View} → Inv cfg v.clock v.state → Reach cfg cdn v w → Inv cfg w.clock w.state
  Reach-Inv i here = i
  Reach-Inv i (next r st) = Step-Inv st (Reach-Inv i r)
