-- ===== src/Batcher/Deadline.antt =====
-- The task's own steps once the age cap or the quiet window of a buffer is over.
use mirror_mirage.Prelude.{
  ◌+◌, ◌≡◌, refl, sym, ap, subst, some_inj, ◌∙◌, ◌≤◌, some, List, [], ◌∷◌, ◌++◌, arith, min, le→leb,
}
use mirror_mirage.Text.{Text}
use mirror_mirage.Outcome.{value}
use mirror_mirage.Config.{Seconds, DaemonConfig}
use mirror_mirage.Batcher.{waiting, checking, due, expired, Urls, buffer_of}
use mirror_mirage.Batcher.Slot.{Slot, flush_slot, flush_buffer}
use mirror_mirage.Batcher.Steps.{
  View, urls_of, flushed_by, at_task, woken, check_slot, Move, wake_up, look, flush_due, nudge,
  time_out, flush_expired, Moves, stop, go,
}
use mirror_mirage.Batcher.Invariant.{
  Inv, Served, signalled_waiting, signalled_sleeping, looking, flushing, overdue, timed,
  flush-buffer, ServedIf,
}

-- The earlier of the two deadlines of a non-empty buffer has come.
pub record IsOver (cfg : DaemonConfig) (v : View) (u : Text) (us : Urls) : Type 0 where
  pub first : Seconds
  pub last : Seconds
  pub holds : v.state.buffer ≡ some (u ∷ us)
  pub has_first : v.state.first ≡ some first
  pub has_last : v.state.last ≡ some last
  pub over :
      min (last + cfg.batch_quiet_window_seconds) (first + cfg.batch_max_age_seconds) ≤ v.clock

-- The task's own steps, with no time passing, empty the buffer into one batch for the queue.
pub record Flushes (cfg : DaemonConfig) (cdn : Text) (v : View) (urls : Urls) : Type 0 where
  pub after : View
  pub moves : Moves cfg cdn v after
  pub emptied : buffer_of after.state.buffer ≡ []
  pub sent : after.sent ≡ v.sent ++ urls

flush_slot-urls :
    (cdn : Text) (s : Slot) (u : Text) (us : Urls)
    → s.buffer ≡ some (u ∷ us)
    → urls_of (flush_slot cdn s).1 ≡ u ∷ us
unfolding flush_slot
flush_slot-urls cdn s u us e = ap (λ o. urls_of (flush_buffer cdn o s).1) e

module _ (cfg : DaemonConfig) (cdn : Text) (u : Text) (us : Urls) where
  by_flush :
      (v : View)
      → v.state.buffer ≡ some (u ∷ us)
      → Move cfg cdn v (flushed_by cdn (some waiting) v)
      → Flushes cfg cdn v (u ∷ us)
  by_flush v e m = record {
    after = flushed_by cdn (some waiting) v;
    moves = go m stop;
    emptied = flush-buffer cdn v.state;
    sent = ap (λ urls. v.sent ++ urls) (flush_slot-urls cdn v.state u us e);
  }

  from_Move :
      (v w : View)
      → Move cfg cdn v w
      → w.sent ≡ v.sent
      → Flushes cfg cdn w (u ∷ us)
      → Flushes cfg cdn v (u ∷ us)
  from_Move v w m e f = record {
    after = f.after;
    moves = go m f.moves;
    emptied = f.emptied;
    sent = f.sent ∙ ap (λ (l : List Text). l ++ u ∷ us) e;
  }

  check_slot-due : (v : View) → IsOver cfg v u us → check_slot cfg v.clock cdn v.state ≡ value due
  unfolding check_slot
  check_slot-due v o = rw (o.holds, o.has_last, o.has_first, le→leb _ _ o.over)

  from_looking :
      (v : View) → IsOver cfg v u us → v.state.task ≡ some checking → Flushes cfg cdn v (u ∷ us)
  from_looking v o t =
      from_Move v (record v { state = at_task v.state due }) (look due t (check_slot-due v o)) refl
        (by_flush (record v { state = at_task v.state due }) o.holds (flush_due refl))

  from_woken :
      (v : View)
      → IsOver cfg v u us
      → Move cfg cdn v (record v { state = woken v.state })
      → Flushes cfg cdn v (u ∷ us)
  from_woken v o m =
      from_Move v (record v { state = woken v.state }) m refl
        (from_looking (record v { state = woken v.state })
          (record {
            first = o.first;
            last = o.last;
            holds = o.holds;
            has_first = o.has_first;
            has_last = o.has_last;
            over = o.over;
          })
          refl)

  Served-Flushes : (v : View) → IsOver cfg v u us → Served cfg v.state → Flushes cfg cdn v (u ∷ us)
  Served-Flushes v o (signalled_waiting w t) = from_woken v o (wake_up t w)
  Served-Flushes v o (signalled_sleeping d w t) = from_woken v o (nudge d t w)
  Served-Flushes v o (looking t) = from_looking v o t
  Served-Flushes v o (flushing t) = by_flush v o.holds (flush_due t)
  Served-Flushes v o (overdue t) = by_flush v o.holds (flush_expired t)
  Served-Flushes v o (timed d f l t ef el ed) =
      let same_first : o.first ≡ f = some_inj (sym o.has_first ∙ ef) in
      let same_last : o.last ≡ l = some_inj (sym o.has_last ∙ el) in
      let over = o.over in
      let in_time : d ≤ v.clock = omega (arith, over) in
      from_Move v (record v { state = at_task v.state expired }) (time_out d t in_time) refl
        (by_flush (record v { state = at_task v.state expired }) o.holds (flush_expired refl))

  -- In a state with the batcher's invariant, when the quiet window or the age cap of a non-empty
  -- buffer is over, then whatever the task is doing its own next steps, without any further event
  -- and before time passes, flush the whole buffer to the queue as one batch.
  pub deadline-Flushes :
      (v : View) → Inv cfg v.clock v.state → IsOver cfg v u us → Flushes cfg cdn v (u ∷ us)
  deadline-Flushes v i o =
      Served-Flushes v o (subst (λ b. ServedIf cfg v.state (buffer_of b)) o.holds i.served)
