-- ===== src/Batcher/Steps.antt =====
-- One CDN's buffer and debounce task as a state machine: a block of `submit`, of `flush_all` or of
-- `_debounce_loop` is one step, and the clock may advance between any two.
use mirror_mirage.Prelude.{
  ℕ, ◌+◌, ◌≡◌, refl, ◌≤◌, true, false, Option, none, some, List, [], ◌∷◌, ◌++◌,
}
use mirror_mirage.Text.{Text}
use mirror_mirage.FilePath.{text_keys}
use mirror_mirage.Outcome.{Outcome, value}
use mirror_mirage.Config.{Seconds, DaemonConfig}
use mirror_mirage.Mapper.{PurgeTarget}
use mirror_mirage.Batcher.{
  Batcher, Task, waiting, checking, due, expired, sleeping, Batch, after_check, check,
}
use mirror_mirage.Batcher.Slot.{Slot, slot, flush_slot, submit_slot}

-- `sent` holds the URLs of the batches handed to the queue, `asked` those of the targets submitted.
pub record View : Type 0 where
  pub clock : Seconds
  pub state : Slot
  pub sent : List Text
  pub asked : List Text

abbrev pub urls_of : Option Batch → List Text
urls_of none = []
urls_of (some (cdn, urls)) = urls

-- The block that computes the deadlines, on the slot.
unfoldable pub check_slot : DaemonConfig → Seconds → Text → Slot → Outcome Task
check_slot cfg now cdn s = after_check cfg now cdn s.last s.first s.buffer

pub check-slot :
    (cfg : DaemonConfig) (now : Seconds) (cdn : Text) (b : Batcher)
    → check cfg now cdn b ≡ check_slot cfg now cdn (slot cdn b)
unfolding check check_slot slot
check-slot cfg now cdn b = refl

abbrev pub at_task : Slot → Task → Slot
at_task s t = record s { task = some t }

-- `wake.clear()`, and on to the top of the inner loop.
abbrev pub woken : Slot → Slot
woken s = record s { wake = some false; task = some checking }

abbrev pub submitted : DaemonConfig → PurgeTarget → View → View
submitted cfg target v = record v {
  state = (submit_slot cfg v.clock target v.state).0;
  sent = v.sent ++ urls_of (submit_slot cfg v.clock target v.state).1;
  asked = target.url ∷ v.asked;
}

-- A flush, after which the debounce task stands at `t`.
abbrev pub flushed_by : Text → Option Task → View → View
flushed_by cdn t v = record v {
  state = record (flush_slot cdn v.state).0 { task = t };
  sent = v.sent ++ urls_of (flush_slot cdn v.state).1;
}

module _ (cfg : DaemonConfig) (cdn : Text) where
  -- The steps of the debounce task.
  pub data Move (v : View) : View → Type 0 where
    wake_up :
        v.state.task ≡ some waiting
        → v.state.wake ≡ some true
        → Move v (record v { state = woken v.state })
    look :
        (t : Task)
        → v.state.task ≡ some checking
        → check_slot cfg v.clock cdn v.state ≡ value t
        → Move v (record v { state = at_task v.state t })
    flush_due : v.state.task ≡ some due → Move v (flushed_by cdn (some waiting) v)
    nudge :
        (d : Seconds)
        → v.state.task ≡ some (sleeping d)
        → v.state.wake ≡ some true
        → Move v (record v { state = woken v.state })
    time_out :
        (d : Seconds)
        → v.state.task ≡ some (sleeping d)
        → d ≤ v.clock
        → Move v (record v { state = at_task v.state expired })
    flush_expired : v.state.task ≡ some expired → Move v (flushed_by cdn (some waiting) v)

  -- The steps of the task and of its surroundings.
  pub data Step (v : View) : View → Type 0 where
    move : {w : View} → Move v w → Step v w
    submit : (target : PurgeTarget) → target.cdn_name ≡ cdn → Step v (submitted cfg target v)
    pass : (n : ℕ) → Step v (record v { clock = v.clock + n })
    flush_all : Step v (flushed_by cdn v.state.task v)

  pub data Reach (v : View) : View → Type 0 where
    here : Reach v v
    next : {w u : View} → Reach v w → Step w u → Reach v u

  pub data Moves : View → View → Type 0 where
    stop : {v : View} → Moves v v
    go : {v w u : View} → Move v w → Moves w u → Moves v u
