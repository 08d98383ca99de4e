-- ===== src/Mapper.antt =====
-- src/mirror_mirage/mapper.py, and the step of `_pipeline` of src/mirror_mirage/daemon.py that
-- joins it to the filter.
pub mod Roots
pub mod Targets
pub mod Urls
use mirror_mirage.Prelude.{Option, none, some, List, [], ◌∷◌, ◌++◌, map}
use mirror_mirage.Text.{Text, codes, rstrip_slash}
use mirror_mirage.FilePath.{FilePath, relative_to, as_posix, path_keys}
use mirror_mirage.Dict
use mirror_mirage.Dict.{Dict}
use mirror_mirage.Config.{Binding, WatchConfig}
use mirror_mirage.Filter.{FsEvent, EventFilter, normalize}

pub record PurgeTarget : Type 0 where
  pub cdn_name : Text
  pub url : Text

pub record Mapper : Type 0 where
  pub by_root : Dict FilePath (List Binding)

-- `{w.path: list(w.bindings) for w in watches}`, onto a dictionary built so far
unfoldable pub add_roots :
    Dict FilePath (List Binding) → List WatchConfig → Dict FilePath (List Binding)
add_roots d [] = d
add_roots d (w ∷ ws) = add_roots (Dict.put w.path w.bindings d) ws

-- `Mapper(watches)`
unfoldable pub mapper : List WatchConfig → Mapper
mapper watches = record { by_root = add_roots [] watches }

unfoldable pub target : Text → Binding → PurgeTarget
target rel b = record { cdn_name = b.cdn; url = rstrip_slash b.url_prefix ++ (codes "/" ++ rel) }

abbrev targets_below : List Binding → Option FilePath → Option (List PurgeTarget)
targets_below bindings none = none
targets_below bindings (some rel) = some (map (target (as_posix rel)) bindings)

-- `bindings` missing or empty: no target.
abbrev pub targets_for : FsEvent → Option (List Binding) → Option (List PurgeTarget)
targets_for event none = some []
targets_for event (some []) = some []
targets_for event (some (b ∷ bs)) =
    targets_below (b ∷ bs) (relative_to event.abs_path event.watch_root)

-- `Mapper.map(event)`; `none` is the ValueError of `relative_to`.
unfoldable pub map_event : Mapper → FsEvent → Option (List PurgeTarget)
map_event m event = targets_for event (Dict.get event.watch_root m.by_root)

abbrev pub map_normalized : Mapper → Option FsEvent → Option (List PurgeTarget)
map_normalized m none = some []
map_normalized m (some event) = map_event m event

-- One round of `_pipeline`: the targets that it submits for an event of the watcher.
unfoldable pub pipeline_targets : EventFilter → Mapper → Text → FilePath → Option (List PurgeTarget)
pipeline_targets f m mask_name abs_path = map_normalized m (normalize f mask_name abs_path)
