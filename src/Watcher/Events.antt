-- ===== src/Watcher/Events.antt =====
-- `_iter` of src/mirror_mirage/watcher.py, turn by turn.
use mirror_mirage.Prelude.{Option, none, some, List, [], ◌∷◌, ◌++◌, ◌||◌, ◌≡◌, if◌then◌else◌}
use mirror_mirage.Text.{Text}
use mirror_mirage.FilePath.{FilePath, path_keys}
use mirror_mirage.Dict
use mirror_mirage.Config.{WatchConfig}
use mirror_mirage.Watcher.{Mask, mask_to_name, Event, Watcher, Kernel, add_dir_and_scan}
use mirror_mirage.Watcher.Files.{Tree}

-- What `self._inotify.get()` gives: the mask, the watch's path, and the event's path, each of which
-- may be missing. `found` is the tree at that path when the event is handled, and `kernel` answers
-- `add_watch` then.
pub record RawEvent : Type 0 where
  pub mask : Mask
  pub watch_dir : Option FilePath
  pub path : Option FilePath
  pub found : Tree
  pub kernel : Kernel

abbrev pub forget : FilePath → Watcher → Watcher
forget path w = record w {
  dir_to_root = Dict.pop path w.dir_to_root;
  dir_to_config = Dict.pop path w.dir_to_config;
}

-- `wc = self._dir_to_config.get(watch_dir)`, and the call if there is one
abbrev pub created : RawEvent → FilePath → Option WatchConfig → Watcher → Watcher
created e path none w = w
created e path (some wc) w = add_dir_and_scan e.kernel wc path e.found w

abbrev pub on_directory : RawEvent → FilePath → Option FilePath → Watcher → Watcher
on_directory e watch_dir none w = w
on_directory e watch_dir (some path) w =
    if e.mask.create then created e path (Dict.get watch_dir w.dir_to_config) w else w

abbrev pub event_with : FilePath → Option FilePath → Option Text → Option Event
event_with path none name = none
event_with path (some root) none = none
event_with path (some root) (some name) = some (name, path, root)

abbrev pub on_file : RawEvent → FilePath → Option FilePath → Watcher → Option Event
on_file e watch_dir none w = none
on_file e watch_dir (some path) w =
    event_with path (Dict.get watch_dir w.dir_to_root) (mask_to_name e.mask)

-- The body of `_iter` on an event of a watch.
abbrev pub on_watch : RawEvent → FilePath → Watcher → Watcher × Option Event
on_watch e watch_dir w =
    if e.mask.ignored || (e.mask.delete_self || e.mask.move_self)
    then (forget watch_dir w, none)
    else if e.mask.is_dir
    then (on_directory e watch_dir e.path w, none)
    else (w, on_file e watch_dir e.path w)

abbrev pub on_event : RawEvent → Option FilePath → Watcher → Watcher × Option Event
on_event e none w = (w, none)
on_event e (some watch_dir) w = on_watch e watch_dir w

-- The body of `_iter` on one event, with what it yields.
unfoldable pub handle : RawEvent → Watcher → Watcher × Option Event
unfolding mask_to_name
handle e w = if e.mask.q_overflow then (w, none) else on_event e e.watch_dir w

abbrev pub yielded : Option Event → List Event
yielded none = []
yielded (some e) = e ∷ []

-- One turn of the loop of `_iter`: a synthetic event, or the next event of inotify. Every turn that
-- gives none goes on.
pub data Turn : Watcher → Watcher → List Event → Type 0 where
  synthesized :
      {w : Watcher} (e : Event) (rest : List Event)
      → w.synthetic ≡ e ∷ rest
      → Turn w (record w { synthetic = rest }) (e ∷ [])
  got :
      {w : Watcher} (e : RawEvent)
      → w.synthetic ≡ []
      → Turn w (handle e w).0 (yielded (handle e w).1)

-- The turns since the start, with all that was yielded, in order.
pub data Turns (w : Watcher) : Watcher → List Event → Type 0 where
  here : Turns w w []
  next :
      {v u : Watcher} {out now : List Event} → Turns w v out → Turn v u now → Turns w u (out ++ now)
