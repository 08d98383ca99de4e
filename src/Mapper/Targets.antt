-- ===== src/Mapper/Targets.antt =====
-- The targets of an event.
use mirror_mirage.Prelude.{
  ◌≡◌, refl, ◌≢◌, some, List, [], ◌∷◌, ◌++◌, map, inl, inr, In, Option-cases,
}
use mirror_mirage.Text.{Text}
use mirror_mirage.FilePath.{FilePath, as_posix, relative_to, path_keys}
use mirror_mirage.Dict
use mirror_mirage.Config.{Binding, WatchConfig}
use mirror_mirage.Filter.{FsEvent, event_filter, normalize}
use mirror_mirage.Filter.Outcomes.{Accepted, normalize-Accepted}
use mirror_mirage.Mapper.{
  PurgeTarget, Mapper, mapper, target, targets_for, map_event, pipeline_targets,
}
use mirror_mirage.Mapper.Roots.{DistinctPaths, get-add_roots, get-add_roots_last}

targets_for-some :
    (event : FsEvent) (rel : FilePath) (bindings : List Binding)
    → relative_to event.abs_path event.watch_root ≡ some rel
    → targets_for event (some bindings) ≡ some (map (target (as_posix rel)) bindings)
targets_for-some event rel [] h = refl
targets_for-some event rel (b ∷ bs) h = rw h

map_event_found :
    (m : Mapper) (event : FsEvent) (rel : FilePath) (bindings : List Binding)
    → Dict.get event.watch_root m.by_root ≡ some bindings
    → relative_to event.abs_path event.watch_root ≡ some rel
    → map_event m event ≡ some (map (target (as_posix rel)) bindings)
unfolding map_event
map_event_found m event rel bindings g h = rw g (targets_for-some event rel bindings h)

Accepted-relative :
    {watches : List WatchConfig} {mask : Text} {p : FilePath} {ev : FsEvent}
    → (a : Accepted watches mask p ev) → relative_to ev.abs_path ev.watch_root ≡ some a.rel
Accepted-relative a = rw (a.same_path, a.same_root) a.owns.contains

-- With watches on distinct paths, an event that the filter accepts gives exactly one target for
-- each binding of the watch that owns its path, in the order of the bindings, each with the path
-- below that watch.
pub map_event-Accepted :
    (watches : List WatchConfig) (mask : Text) (p : FilePath) (ev : FsEvent)
    → DistinctPaths watches
    → (a : Accepted watches mask p ev)
    → map_event (mapper watches) ev ≡ some (map (target (as_posix a.rel)) a.watch.bindings)
unfolding mapper
map_event-Accepted watches mask p ev h a =
    map_event_found (mapper watches) ev a.rel a.watch.bindings
      (rw a.same_root (get-add_roots [] watches a.watch h a.owns.configured)) (Accepted-relative a)

map_event_total :
    (m : Mapper) (event : FsEvent) (rel : FilePath)
    → relative_to event.abs_path event.watch_root ≡ some rel
    → (ts : List PurgeTarget) × (map_event m event ≡ some ts)
unfolding map_event
map_event_total m event rel h = elim (Option-cases (Dict.get event.watch_root m.by_root)) [
  | inl e ↦ ([], rw e)
  | inr (bs, e) ↦ (map (target (as_posix rel)) bs, map_event_found m event rel bs e h)
]

-- Whatever the watches, the reported mask and path: the round of the pipeline ends with a list of
-- targets, so the mapper never raises on what the filter let through.
pub pipeline_targets_total :
    (watches : List WatchConfig) (mask : Text) (p : FilePath)
    → (ts : List PurgeTarget) × (pipeline_targets (event_filter watches) (mapper watches) mask p
        ≡ some ts)
unfolding pipeline_targets
pipeline_targets_total watches mask p =
    elim (Option-cases (normalize (event_filter watches) mask p)) [
      | inl e ↦ ([], rw e)
      | inr (ev, e) ↦
          let a = normalize-Accepted watches mask p ev e in
          rw e (map_event_total (mapper watches) ev a.rel (Accepted-relative a))
    ]

-- If no later watch is on the path of the watch `w`, an event that the filter accepted for a watch
-- on that path gives one target for each binding of `w` and none for the bindings of earlier
-- watches on the same path.
pub map_event-shadowed :
    (before after : List WatchConfig) (w : WatchConfig) (mask : Text) (p : FilePath) (ev : FsEvent)
    → ((v : WatchConfig) → In v after → v.path ≢ w.path)
    → (a : Accepted (before ++ w ∷ after) mask p ev) → a.watch.path ≡ w.path
    → map_event (mapper (before ++ w ∷ after)) ev ≡ some (map (target (as_posix a.rel)) w.bindings)
unfolding mapper
map_event-shadowed before after w mask p ev h a same =
    map_event_found (mapper (before ++ w ∷ after)) ev a.rel w.bindings
      (rw (a.same_root, same) (get-add_roots_last [] before w after h)) (Accepted-relative a)
