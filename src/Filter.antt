-- ===== src/Filter.antt =====
-- `EventFilter` of src/mirror_mirage/filter.py.
pub mod Owner
pub mod Outcomes
use mirror_mirage.Prelude.{
  ℕ, Bool, true, false, Option, none, some, List, [], ◌∷◌, ltb, length, any, if◌then◌else◌,
}
use mirror_mirage.Text.{Text, codes, text_eq}
use mirror_mirage.FilePath.{FilePath, parts, relative_to}
use mirror_mirage.Config.{WatchConfig}
use mirror_mirage.Glob.{matches_any_glob}

-- `_INVALIDATE_MASKS` and `_DELETE_MASKS`
abbrev pub invalidate_masks : List Text
invalidate_masks = codes "IN_MOVED_TO" ∷ codes "IN_CLOSE_WRITE" ∷ []

abbrev pub delete_masks : List Text
delete_masks = codes "IN_DELETE" ∷ codes "IN_MOVED_FROM" ∷ []

pub data EventKind : Type 0 where
  invalidate delete : EventKind

pub record FsEvent : Type 0 where
  pub kind : EventKind
  pub abs_path : FilePath
  pub watch_root : FilePath

-- The sort key: the number of parts of the watch's path.
abbrev pub depth : WatchConfig → ℕ
depth w = length (parts w.path)

-- `sorted(watches, key=depth, reverse=True)`, which keeps the order of watches of one depth.
insert_watch : WatchConfig → List WatchConfig → List WatchConfig
insert_watch w [] = w ∷ []
insert_watch w (v ∷ vs) = if ltb (depth w) (depth v) then v ∷ insert_watch w vs else w ∷ v ∷ vs

unfoldable pub sort_watches : List WatchConfig → List WatchConfig
unfolding insert_watch
sort_watches [] = []
sort_watches (w ∷ ws) = insert_watch w (sort_watches ws)

pub record EventFilter : Type 0 where
  pub watches : List WatchConfig

-- `EventFilter(watches)`
unfoldable pub event_filter : List WatchConfig → EventFilter
event_filter watches = record { watches = sort_watches watches }

-- The loop of `normalize`: the first watch to which the path is relative, with the relative path.
unfoldable pub owner : FilePath → List WatchConfig → Option (WatchConfig × FilePath)
owner abs_path [] = none
owner abs_path (w ∷ ws) = elim (relative_to abs_path w.path) [
  | none ↦ owner abs_path ws
  | some rel ↦ some (w, rel)
]

-- `mask_name in masks`
unfoldable pub is_one_of : List Text → Text → Bool
is_one_of masks mask_name = any (text_eq mask_name) masks

-- The event's kind; `none` for a mask without meaning here, or an unwanted deletion.
unfoldable pub kind_of : WatchConfig → Text → Option EventKind
kind_of watch mask_name =
    if is_one_of invalidate_masks mask_name
    then some invalidate
    else if is_one_of delete_masks mask_name
    then (if watch.flush_on_delete then some delete else none)
    else none

abbrev event_of : FilePath → FilePath → Option EventKind → Option FsEvent
event_of abs_path root none = none
event_of abs_path root (some kind) =
    some (record { kind = kind; abs_path = abs_path; watch_root = root })

abbrev checked : Text → FilePath → Option (WatchConfig × FilePath) → Option FsEvent
checked mask_name abs_path none = none
checked mask_name abs_path (some (watch, rel)) =
    if matches_any_glob (parts rel) watch.ignore
    then none
    else event_of abs_path watch.path (kind_of watch mask_name)

-- `normalize(mask_name, abs_path)`
unfoldable pub normalize : EventFilter → Text → FilePath → Option FsEvent
normalize f mask_name abs_path = checked mask_name abs_path (owner abs_path f.watches)
