-- ===== src/Samples/Watching.antt =====
-- A watcher on a small tree: its start, a new directory, an event.
use mirror_mirage.Prelude.{
  All, ◌≤◌, ◌<◌, ◌≡◌, refl, true, false, none, some, List, [], ◌∷◌, inl, inr, ◌⊎◌, In, length, ltb,
  if◌then◌else◌,
}
use mirror_mirage.Text.{Text, codes, text_eq, text_eq_iff}
use mirror_mirage.Text
use mirror_mirage.FilePath.{FilePath, extend}
use mirror_mirage.FilePath
use mirror_mirage.Dict
use mirror_mirage.Config.{WatchConfig}
use mirror_mirage.Glob.{gm, matches_any_glob}
use mirror_mirage.Glob.Fnmatch
use mirror_mirage.Watcher
use mirror_mirage.Watcher.{
  Mask, Watcher, Event, Kernel, added, no_space, refused, Startup, started, limit_error, enter,
  needed_for, watched, add_dir_and_scan,
}
use mirror_mirage.Watcher.Events.{RawEvent, handle, Turns, here, next, got, synthesized}
use mirror_mirage.Watcher.Files.{Tree, file, dir, listed, Entries, end, entry}
use mirror_mirage.Watcher.Places.{At, HasDistinctNames, Clear}
use mirror_mirage.Watcher.Coverage.{Covered}
use mirror_mirage.Watcher.Fresh.{IsFresh}
use mirror_mirage.Watcher.Starting.{enter-Covered}
use mirror_mirage.Watcher.Budget.{IsReadable, enter_budget}
use mirror_mirage.Watcher.Scan.{lenient}
use mirror_mirage.Watcher.Exact.{Told, Seen, scan-Exact}
use mirror_mirage.Watcher.Tables.{IsSound, Meant}
use mirror_mirage.Watcher.Loop.{Turns-IsSound}

abbrev below_srv : List Text → FilePath
below_srv names = record { absolute = true; names = codes "srv" ∷ names }

abbrev srv : WatchConfig
srv = record {
  path = below_srv [];
  ignore = codes "tmp" ∷ [];
  flush_on_delete = true;
  bindings = [];
}

-- /srv/pool/f, and the ignored /srv/tmp
abbrev tree : Tree
tree = dir (
    listed (
      entry (codes "pool") (dir (listed (entry (codes "f") file end)))
        (entry (codes "tmp") (dir (listed end)) end)))

abbrev pub tree_of : FilePath → Tree
tree_of path = tree

abbrev willing : Kernel
willing table path = added

abbrev on_srv_and_pool : Watcher
on_srv_and_pool = record {
  dir_to_root = (below_srv [], below_srv []) ∷ (below_srv (codes "pool" ∷ []), below_srv []) ∷ [];
  dir_to_config = (below_srv [], srv) ∷ (below_srv (codes "pool" ∷ []), srv) ∷ [];
  synthetic = [];
}

differ : (a b : Text) → text_eq a b ≡ false → ¬ (a ≡ b)
differ a b f e = absurd (cc (f, (text_eq_iff a b).1 e))

tree-HasDistinctNames : HasDistinctNames tree
unfolding HasDistinctNames
tree-HasDistinctNames = (
  λ m. elim m [ inl e ↦ absurd (cc e) | inr absent ↦ absurd absent ],
  (λ absent. absent, tt, tt),
  (λ absent. absent, tt, tt),
)

started_on_srv : enter willing tree_of none (srv ∷ []) ≡ started on_srv_and_pool
unfolding enter Watcher.needed_for Watcher.count_watchable_dirs Watcher.count_listing
    Watcher.add_all Watcher.add_recursive Watcher.add_directory Watcher.is_skipped
    Watcher.is_ignored extend FilePath.relative_to FilePath.path_eq matches_any_glob
    Text.split_slash gm Fnmatch.fnmatchcase Fnmatch.on_suffixes Text.text_eq Dict.get Dict.put
started_on_srv = refl

pool-IsPlace : At true tree (codes "pool" ∷ []) × Clear srv.ignore [] (codes "pool" ∷ [])
unfolding At matches_any_glob Text.split_slash gm Fnmatch.fnmatchcase Fnmatch.on_suffixes
    Text.text_eq
pool-IsPlace = (inl (refl, refl), (refl, tt))

enter-Covered_example : Covered willing srv (codes "pool" ∷ []) on_srv_and_pool
enter-Covered_example =
    enter-Covered willing tree_of none (srv ∷ []) srv on_srv_and_pool (codes "pool" ∷ []) (tt, tt)
      (inl refl) tree-HasDistinctNames started_on_srv pool-IsPlace

-- inotify gives as many watches as its limit.
abbrev pub two_watches : Kernel
two_watches table path = if ltb (length table) 2 then added else no_space

enter_budget_example :
    ((w : Watcher) × (needed_for tree_of (srv ∷ []) ≤ 2)
      × (enter two_watches tree_of (some 2) (srv ∷ []) ≡ started w)
      × (length (watched w) ≤ needed_for tree_of (srv ∷ [])))
    ⊎ ((2 < needed_for tree_of (srv ∷ []))
        × (enter two_watches tree_of (some 2) (srv ∷ [])
            ≡ limit_error (needed_for tree_of (srv ∷ [])) 2))
unfolding IsReadable
enter_budget_example =
    enter_budget 2 two_watches (λ table path. refl) tree_of (srv ∷ []) (((tt, tt), (tt, tt)), tt)

-- A directory with a file and a subdirectory appears in /srv/pool.
abbrev found : Entries
found = entry (codes "g") file (entry (codes "d") (dir (listed end)) end)

abbrev new_dir : FilePath
new_dir = below_srv (codes "pool" ∷ codes "n" ∷ [])

new_dir-IsFresh : IsFresh (lenient willing) srv (codes "pool" ∷ codes "n" ∷ []) on_srv_and_pool
unfolding extend FilePath.path_eq Text.text_eq Dict.get
new_dir-IsFresh xs = refl

abbrev after_scan : Watcher
after_scan = add_dir_and_scan willing srv new_dir (dir (listed found)) on_srv_and_pool

scan-Exact_example :
    Seen willing srv false (codes "pool" ∷ codes "n" ∷ codes "g" ∷ []) after_scan
    × All (λ e. In e after_scan.synthetic) on_srv_and_pool.synthetic
    × All
        (λ e.
          In e on_srv_and_pool.synthetic
          ⊎ Told willing srv (codes "pool" ∷ codes "n" ∷ []) (At false (dir (listed found))) e)
        after_scan.synthetic
unfolding HasDistinctNames At extend matches_any_glob Text.split_slash gm Fnmatch.fnmatchcase
    Fnmatch.on_suffixes Text.text_eq
scan-Exact_example =
    scan-Exact willing srv new_dir (codes "pool" ∷ []) (codes "n") (listed found) on_srv_and_pool
      false (codes "g" ∷ []) refl refl
      (
        λ m. elim m [ inl e ↦ differ (codes "d") (codes "g") refl e | inr absent ↦ absurd absent ],
        tt,
        (λ absent. absent, tt, tt),
      )
      new_dir-IsFresh (inl (refl, refl)) (refl, tt)

abbrev no_bits : Mask
no_bits = record {
  moved_to = false;
  close_write = false;
  delete = false;
  moved_from = false;
  create = false;
  move_self = false;
  delete_self = false;
  ignored = false;
  is_dir = false;
  q_overflow = false;
}

-- /srv/pool/n is created, with a file in it by the time it is scanned.
abbrev mkdir : RawEvent
mkdir = record {
  mask = record no_bits { create = true; is_dir = true };
  watch_dir = some (below_srv (codes "pool" ∷ []));
  path = some new_dir;
  found = dir (listed (entry (codes "g") file end));
  kernel = willing;
}

abbrev g_event : Event
g_event = (codes "IN_MOVED_TO", below_srv (codes "pool" ∷ codes "n" ∷ codes "g" ∷ []), below_srv [])

mkdir_run :
    Turns on_srv_and_pool
      (record (handle mkdir on_srv_and_pool).0 { synthetic = [] })
      (g_event ∷ [])
unfolding handle add_dir_and_scan Watcher.scan_directory Watcher.announce Watcher.is_passed_over
    Watcher.is_ignored extend FilePath.relative_to FilePath.path_eq matches_any_glob
    Text.split_slash gm Fnmatch.fnmatchcase Fnmatch.on_suffixes Text.text_eq Dict.get Dict.put
mkdir_run = next (next here (got mkdir refl)) (synthesized g_event [] refl)

Turns-IsSound_example :
    IsSound (srv ∷ []) (record (handle mkdir on_srv_and_pool).0 { synthetic = [] })
    × All (Meant (srv ∷ [])) (g_event ∷ [])
Turns-IsSound_example =
    Turns-IsSound willing tree_of none (srv ∷ []) on_srv_and_pool
      (record (handle mkdir on_srv_and_pool).0 { synthetic = [] }) (g_event ∷ []) started_on_srv
      mkdir_run
