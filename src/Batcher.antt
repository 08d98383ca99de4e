-- ===== src/Batcher.antt =====
-- src/mirror_mirage/batcher.py. Each block under the batcher's lock is one function of the state; a
-- flush gives the batch that it hands to `queue.enqueue`. Where a debounce task stands between two
-- such blocks is its `Task`.
pub mod Slot
pub mod Submit
pub mod Steps
pub mod Kept
pub mod Invariant
pub mod Wakeups
pub mod Deadline
pub mod Drain
pub mod Shutdown
use mirror_mirage.Prelude.{
  ℕ, ◌+◌, Bool, true, false, Option, none, some, List, [], ◌∷◌, ◌++◌, min, leb, length, any,
  if◌then◌else◌,
}
use mirror_mirage.Text.{Text, text_eq}
use mirror_mirage.FilePath.{text_keys}
use mirror_mirage.Dict
use mirror_mirage.Dict.{Dict, keys}
use mirror_mirage.Outcome.{Outcome, value, raised, key_error}
use mirror_mirage.Config.{Seconds, DaemonConfig}
use mirror_mirage.Mapper.{PurgeTarget}

-- Where a run of `_debounce_loop` stands: at `await wake.wait()`, before the block that computes the
-- deadlines, before the flush of a buffer that is due, in `wait_for` until a time, before the flush
-- after its TimeoutError, or ended by an exception.
pub data Task : Type 0 where
  waiting checking due expired dead : Task
  sleeping : Seconds → Task

-- A set of URLs, each once.
abbrev pub Urls : Type 0
Urls = List Text

pub record Batcher : Type 0 where
  pub buffers : Dict Text Urls
  pub first_added : Dict Text Seconds
  pub last_added : Dict Text Seconds
  pub wake : Dict Text Bool
  pub tasks : Dict Text Task

-- `Batcher(queue, daemon_cfg)`
abbrev pub new : Batcher
new = record { buffers = []; first_added = []; last_added = []; wake = []; tasks = [] }

-- `buf.add(url)`
unfoldable pub add : Text → Urls → Urls
add url buf = if any (text_eq url) buf then buf else buf ++ url ∷ []

-- A batch on its way to `queue.enqueue(cdn, urls)`.
abbrev pub Batch : Type 0
Batch = Text × Urls

abbrev clear : Text → Option Urls → Batcher → Batcher × Option Batch
clear cdn none b = (b, none)
clear cdn (some []) b = (b, none)
clear cdn (some (u ∷ us)) b = (
  record b {
    buffers = Dict.put cdn [] b.buffers;
    first_added = Dict.pop cdn b.first_added;
    last_added = Dict.pop cdn b.last_added;
  },
  some (cdn, u ∷ us),
)

-- `_flush_locked(cdn)`
unfoldable pub flush_locked : Text → Batcher → Batcher × Option Batch
flush_locked cdn b = clear cdn (Dict.get cdn b.buffers) b

abbrev ensure : Text → Option Urls → Batcher → Batcher
ensure cdn (some buf) b = b
ensure cdn none b = record b {
  buffers = Dict.put cdn [] b.buffers;
  wake = Dict.put cdn false b.wake;
  tasks = Dict.put cdn waiting b.tasks;
}

-- The first visit to a CDN makes its buffer, its event and its task.
unfoldable pub ensure_cdn : Text → Batcher → Batcher
ensure_cdn cdn b = ensure cdn (Dict.get cdn b.buffers) b

abbrev pub buffer_of : Option Urls → Urls
buffer_of none = []
buffer_of (some buf) = buf

-- `if not buf: self._first_added[cdn] = now`
abbrev pub start_age : Text → Seconds → Urls → Dict Text Seconds → Dict Text Seconds
start_age cdn now [] d = Dict.put cdn now d
start_age cdn now (_ ∷ _) d = d

abbrev flush_full : ℕ → Text → ℕ → Batcher → Batcher × Option Batch
flush_full max_size cdn size b = if leb max_size size then flush_locked cdn b else (b, none)

-- The rest of `submit`, on the buffer `buf` of the CDN.
unfoldable pub record_url :
    DaemonConfig → Seconds → PurgeTarget → Urls → Batcher → Batcher × Option Batch
record_url cfg now target buf b =
    flush_full cfg.batch_max_size target.cdn_name (length (add target.url buf)) (record b {
      buffers = Dict.put target.cdn_name (add target.url buf) b.buffers;
      first_added = start_age target.cdn_name now buf b.first_added;
      last_added = Dict.put target.cdn_name now b.last_added;
      wake = Dict.put target.cdn_name true b.wake;
    })

-- `submit(target)` at the time `now`
unfoldable pub submit : DaemonConfig → Seconds → PurgeTarget → Batcher → Batcher × Option Batch
submit cfg now target b =
    let b' = ensure_cdn target.cdn_name b in
    record_url cfg now target (buffer_of (Dict.get target.cdn_name b'.buffers)) b'

-- `flush_all()`: the CDNs in the order of the dictionary, with the batches in that order
unfoldable pub flush_each : List Text → Batcher → Batcher × List Batch
flush_each [] b = (b, [])
flush_each (cdn ∷ cdns) b =
    let (b', batch) = flush_locked cdn b in
    let (b'', batches) = flush_each cdns b' in
    (b'', elim batch [ none ↦ batches | some x ↦ x ∷ batches ])

unfoldable pub flush_all : Batcher → Batcher × List Batch
unfolding flush_each
flush_all b = flush_each (keys b.buffers) b

-- `self._last_added[cdn]` and `self._first_added[cdn]` raise KeyError if there is none.
abbrev at_deadline : DaemonConfig → Seconds → Text → Option Seconds → Option Seconds → Outcome Task
at_deadline cfg now cdn none first = raised (key_error cdn)
at_deadline cfg now cdn (some last) none = raised (key_error cdn)
at_deadline cfg now cdn (some last) (some first) =
    let until = min (last + cfg.batch_quiet_window_seconds) (first + cfg.batch_max_age_seconds) in
    value (if leb until now then due else sleeping until)

abbrev after_check :
    DaemonConfig → Seconds → Text → Option Seconds → Option Seconds → Option Urls → Outcome Task
after_check cfg now cdn last first none = value waiting
after_check cfg now cdn last first (some []) = value waiting
after_check cfg now cdn last first (some (u ∷ us)) = at_deadline cfg now cdn last first

-- The block of `_debounce_loop` that computes the deadlines: the task's next place.
unfoldable pub check : DaemonConfig → Seconds → Text → Batcher → Outcome Task
check cfg now cdn b =
    after_check cfg now cdn (Dict.get cdn b.last_added) (Dict.get cdn b.first_added)
      (Dict.get cdn b.buffers)
