-- ===== src/Samples/Batches.antt =====
-- A CDN's buffer from its first URL to the flush.
use mirror_mirage.Prelude.{In, ◌≡◌, refl, true, false, none, some, [], ◌∷◌, arith, inl}
use mirror_mirage.Text.{Text, codes}
use mirror_mirage.Config.{DaemonConfig}
use mirror_mirage.Mapper.{PurgeTarget}
use mirror_mirage.Batcher.Shutdown
use mirror_mirage.Batcher.Shutdown.{Failing, Fate, shutdown, shutdown-Fate}
use mirror_mirage.Outcome.{storage_error}
use mirror_mirage.Batcher
use mirror_mirage.Batcher.{Task, waiting, checking, due, sleeping, Batcher, new, submit}
use mirror_mirage.Batcher.Slot
use mirror_mirage.Batcher.Slot.{Slot, Refines, slot, submit_slot}
use mirror_mirage.Batcher.Submit.{submit-Refines}
use mirror_mirage.Batcher.Steps
use mirror_mirage.Batcher.Steps.{
  View, submitted, woken, at_task, Reach, here, next, move, wake_up, look, pass,
}
use mirror_mirage.Batcher.Kept.{Kept, Reach-Kept}
use mirror_mirage.Batcher.Invariant.{Inv}
use mirror_mirage.Dict
use mirror_mirage.FilePath.{text_keys}
use mirror_mirage.Batcher.Drain.{Handed, flush_all-Handed}
use mirror_mirage.Batcher.Wakeups.{Reach-Inv}
use mirror_mirage.Batcher.Deadline.{IsOver, Flushes, deadline-Flushes}

abbrev edge : Text
edge = codes "edge"

abbrev pub cfg : DaemonConfig
cfg = record {
  batch_quiet_window_seconds = 2;
  batch_max_size = 3;
  batch_max_age_seconds = 10;
  queue_db = record { absolute = true; names = codes "queue.db" ∷ [] };
  retry = record { max_attempts = 2; initial_backoff_seconds = 5; max_backoff_seconds = 60 };
}

abbrev page : PurgeTarget
page = record { cdn_name = edge; url = codes "https://m/a" }

-- Nothing has been submitted for the CDN.
abbrev untouched : View
untouched = record {
  clock = 100;
  state = record { buffer = none; first = none; last = none; wake = none; task = none };
  sent = [];
  asked = [];
}

abbrev one_url : View
one_url = record {
  clock = 100;
  state = record {
    buffer = some (page.url ∷ []);
    first = some 100;
    last = some 100;
    wake = some true;
    task = some waiting;
  };
  sent = [];
  asked = page.url ∷ [];
}

abbrev asleep : View
asleep = record one_url {
  state = record {
    buffer = some (page.url ∷ []);
    first = some 100;
    last = some 100;
    wake = some false;
    task = some (sleeping 102);
  };
}

abbrev later : View
later = record asleep { clock = 103 }

to_one_url : Reach cfg edge untouched one_url
unfolding submit_slot Slot.ensure_slot Slot.record_slot Slot.recorded Batcher.add
to_one_url = next here (Steps.submit page refl)

to_asleep : Reach cfg edge untouched asleep
unfolding Steps.check_slot
to_asleep = next (next to_one_url (move (wake_up refl refl))) (move (look (sleeping 102) refl refl))

to_later : Reach cfg edge untouched later
to_later = next to_asleep (pass 3)

Reach-Kept_example : Kept page.url later
Reach-Kept_example =
    Reach-Kept cfg edge page.url {v = untouched} {w = later} refl to_later (inl refl)

untouched-Inv : Inv cfg untouched.clock untouched.state
untouched-Inv = record { stamps = (refl, refl); served = tt; alive = tt; small = omega arith }

later-Inv : Inv cfg later.clock later.state
later-Inv = Reach-Inv cfg edge (omega arith) untouched-Inv to_later

Reach-Inv_example : Inv cfg later.clock later.state
Reach-Inv_example = Reach-Inv cfg edge (omega arith) untouched-Inv to_later

later-IsOver : IsOver cfg later page.url []
later-IsOver = record {
  first = 100;
  last = 100;
  holds = refl;
  has_first = refl;
  has_last = refl;
  over = omega arith;
}

deadline-Flushes_example : Flushes cfg edge later (page.url ∷ [])
deadline-Flushes_example = deadline-Flushes cfg edge page.url [] later later-Inv later-IsOver

submit-Refines_example :
    Refines edge new (submit_slot cfg 100 page (slot edge new)) (submit cfg 100 page new)
submit-Refines_example = submit-Refines cfg 100 page new

abbrev full : Batcher
full = record new { buffers = (edge, page.url ∷ []) ∷ (codes "gcp", page.url ∷ []) ∷ [] }

second_buffer : In page.url (Batcher.buffer_of (Dict.get (codes "gcp") full.buffers))
unfolding Dict.get mirror_mirage.Text.text_eq
second_buffer = inl refl

flush_all-Handed_example :
    Handed (codes "gcp") page.url (Batcher.flush_all full).1
    × (Batcher.buffer_of (Dict.get (codes "gcp") (Batcher.flush_all full).0.buffers) ≡ [])
flush_all-Handed_example = flush_all-Handed full (codes "gcp") page.url second_buffer

-- The queue takes the first batch and raises on the second.
abbrev full_disk : Failing
full_disk [] batch = none
full_disk (_ ∷ _) batch = some (storage_error (codes "disk is full"))

second_lost :
    (shutdown full_disk full).lost
    ≡ some ((codes "gcp", page.url ∷ []), storage_error (codes "disk is full"))
unfolding shutdown Shutdown.drain Batcher.flush_locked Dict.get Dict.put Dict.pop
    mirror_mirage.Text.text_eq
second_lost = refl

shutdown-Fate_example : Fate (codes "gcp") page.url (shutdown full_disk full)
shutdown-Fate_example = shutdown-Fate full_disk full (codes "gcp") page.url second_buffer
