-- ===== src/Watcher.antt =====
-- `InotifyWatcher` of src/mirror_mirage/watcher.py. inotify is a parameter: what `add_watch` answers,
-- and the events that it reports. The directories that a call scans are a tree, which does not
-- change during the call.
pub mod Files
pub mod Places
pub mod Events
pub mod Growth
pub mod Only
pub mod Fresh
pub mod Coverage
pub mod Starting
pub mod Budget
pub mod Scan
pub mod Went
pub mod Announced
pub mod Exact
pub mod Tables
pub mod Loop
use mirror_mirage.Prelude.{
  ℕ, suc, ◌+◌, Bool, true, false, not, ◌&&◌, ◌||◌, Option, none, some, List, [], ◌∷◌, ◌++◌, ◌≡◌,
  length, ltb, if◌then◌else◌,
}
use mirror_mirage.Text.{Text, codes}
use mirror_mirage.FilePath.{FilePath, parts, path_eq, path_keys, relative_to, extend}
use mirror_mirage.Dict
use mirror_mirage.Dict.{Dict, keys}
use mirror_mirage.Config.{WatchConfig}
use mirror_mirage.Glob.{matches_any_glob}
use Files.{Tree, file, dir, Listing, locked, listed, Entries, end, entry, broken}

-- The bits of a `Mask`.
pub record Mask : Type 0 where
  pub moved_to : Bool
  pub close_write : Bool
  pub delete : Bool
  pub moved_from : Bool
  pub create : Bool
  pub move_self : Bool
  pub delete_self : Bool
  pub ignored : Bool
  pub is_dir : Bool
  pub q_overflow : Bool

-- `_mask_to_name(mask)`
unfoldable pub mask_to_name : Mask → Option Text
mask_to_name mask =
    if mask.moved_to
    then some (codes "IN_MOVED_TO")
    else if mask.close_write
    then some (codes "IN_CLOSE_WRITE")
    else if mask.delete
    then some (codes "IN_DELETE")
    else if mask.moved_from
    then some (codes "IN_MOVED_FROM")
    else none

-- What the watcher yields: the mask's name, the path, the watch root.
abbrev pub Event : Type 0
Event = Text × FilePath × FilePath

pub record Watcher : Type 0 where
  pub dir_to_root : Dict FilePath FilePath
  pub dir_to_config : Dict FilePath WatchConfig
  pub synthetic : List Event

-- `InotifyWatcher(watches)`, and what `__aexit__` leaves.
abbrev pub closed : Watcher
closed = record { dir_to_root = []; dir_to_config = []; synthetic = [] }

-- `add_watch` succeeds, or raises OSError with ENOSPC, or with another errno.
pub data Added : Type 0 where
  added no_space refused : Added

-- What `add_watch` answers for a path, when the watcher has watches on the paths of the list.
abbrev pub Kernel : Type 0
Kernel = List FilePath → FilePath → Added

-- A start that may raise InotifyLimitError.
pub data Startup {ℓ} (A : Type ℓ) : Type ℓ where
  started : A → Startup A
  limit_error : ℕ → ℕ → Startup A

infixl 5 ◌>>=◌
abbrev pub ◌>>=◌ {ℓ κ} : {A : Type ℓ} {B : Type κ} → Startup A → (A → Startup B) → Startup B
started a >>= f = f a
limit_error needed available >>= f = limit_error needed available

-- `_is_ignored(path, watch_root, ignore)`
unfoldable pub is_ignored : FilePath → FilePath → List Text → Bool
is_ignored path watch_root ignore = elim (relative_to path watch_root) [
  | none ↦ false
  | some rel ↦ matches_any_glob (parts rel) ignore
]

-- `path in self._dir_to_root`
abbrev pub is_watched : FilePath → Watcher → Bool
is_watched path w = elim (Dict.get path w.dir_to_root) [ none ↦ false | some root ↦ true ]

abbrev pub watched : Watcher → List FilePath
watched w = keys w.dir_to_root

abbrev pub register : FilePath → WatchConfig → Watcher → Watcher
register path wc w = record w {
  dir_to_root = Dict.put path wc.path w.dir_to_root;
  dir_to_config = Dict.put path wc w.dir_to_config;
}

-- `_count_watchable_dirs(root, ignore)`, from the directory `path` on. `os.walk` yields nothing for
-- a directory that it cannot list.
module _ (root : FilePath) (ignore : List Text) where
  unfoldable mutual
    pub count_listing : FilePath → Listing → ℕ
    count_listing path locked = 0
    count_listing path (listed es) = suc (count_entries path es)

    pub count_entries : FilePath → Entries → ℕ
    count_entries path end = 0
    count_entries path (entry name file es) = count_entries path es
    count_entries path (entry name (dir l) es) =
        let below = count_listing (extend path (name ∷ [])) l in
        (if is_ignored (extend path (name ∷ [])) root ignore then 0 else below)
        + count_entries path es
    count_entries path (broken es) = count_entries path es

unfoldable pub count_watchable_dirs : FilePath → Tree → List Text → ℕ
unfolding count_listing
count_watchable_dirs root file ignore = 0
count_watchable_dirs root (dir l) ignore = count_listing root ignore root l

module _ (kernel : Kernel) (wc : WatchConfig) where
  -- The two tests before `add_watch`.
  unfoldable pub is_skipped : FilePath → Watcher → Bool
  is_skipped path w =
      (not (path_eq path wc.path) && is_ignored path wc.path wc.ignore) || is_watched path w

  -- From there to `os.scandir`; `scan` is the rest of the call.
  abbrev pub watch_then : FilePath → (Watcher → Startup Watcher) → Watcher → Startup Watcher
  watch_then path scan w = elim (is_skipped path w) [
    | true ↦ started w
    | false ↦ elim (kernel (watched w) path) [
      | added ↦ scan (register path wc w)
      | no_space ↦ limit_error (suc (length (watched w))) (length (watched w))
      | refused ↦ started w
    ]
  ]

  -- `_add_recursive(path, wc)`, for a directory with what it lists.
  unfoldable mutual
    pub add_directory : FilePath → Listing → Watcher → Startup Watcher
    add_directory path locked w = watch_then path (λ w'. started w') w
    add_directory path (listed es) w = watch_then path (λ w'. add_entries path es w') w

    pub add_entries : FilePath → Entries → Watcher → Startup Watcher
    add_entries path end w = started w
    add_entries path (entry name file es) w = add_entries path es w
    add_entries path (entry name (dir l) es) w =
        add_directory (extend path (name ∷ [])) l w >>= λ w'. add_entries path es w'
    add_entries path (broken es) w = add_entries path es w

  unfoldable pub add_recursive : FilePath → Tree → Watcher → Startup Watcher
  unfolding add_directory
  add_recursive path file w = started w
  add_recursive path (dir l) w = add_directory path l w

  -- `self._synthetic.append(("IN_MOVED_TO", child, wc.path))`, unless the file is ignored
  unfoldable pub announce : FilePath → Watcher → Watcher
  announce path w =
      if is_ignored path wc.path wc.ignore
      then w
      else record w { synthetic = w.synthetic ++ (codes "IN_MOVED_TO", path, wc.path) ∷ [] }

  -- The tests before `add_watch` in `_add_dir_and_scan`.
  unfoldable pub is_passed_over : FilePath → Watcher → Bool
  is_passed_over path w = is_ignored path wc.path wc.ignore || is_watched path w

  -- From there to `os.scandir`; `scan` is the rest of the call.
  abbrev pub watch_and : FilePath → (Watcher → Watcher) → Watcher → Watcher
  watch_and path scan w = elim (is_passed_over path w) [
    | true ↦ w
    | false ↦ elim (kernel (watched w) path) [
      | added ↦ scan (register path wc w)
      | no_space ↦ w
      | refused ↦ w
    ]
  ]

  unfoldable mutual
    unfolding announce is_passed_over

    pub scan_directory : FilePath → Listing → Watcher → Watcher
    scan_directory path locked w = watch_and path (λ w'. w') w
    scan_directory path (listed es) w = watch_and path (λ w'. scan_entries path es w') w

    pub scan_entries : FilePath → Entries → Watcher → Watcher
    scan_entries path end w = w
    scan_entries path (entry name file es) w =
        scan_entries path es (announce (extend path (name ∷ [])) w)
    scan_entries path (entry name (dir l) es) w =
        scan_entries path es (scan_directory (extend path (name ∷ [])) l w)
    scan_entries path (broken es) w = scan_entries path es w

  -- `_add_dir_and_scan(new_dir, wc)`; what is no directory any more cannot be listed.
  unfoldable pub add_dir_and_scan : FilePath → Tree → Watcher → Watcher
  unfolding scan_directory
  add_dir_and_scan new_dir file w = scan_directory new_dir locked w
  add_dir_and_scan new_dir (dir l) w = scan_directory new_dir l w

-- `sum(_count_watchable_dirs(wc.path, wc.ignore) for wc in self._watches)`; `tree_of` is the tree at
-- a path.
unfoldable pub needed_for : (FilePath → Tree) → List WatchConfig → ℕ
needed_for tree_of [] = 0
needed_for tree_of (wc ∷ wcs) =
    count_watchable_dirs wc.path (tree_of wc.path) wc.ignore + needed_for tree_of wcs

unfoldable pub add_all : Kernel → (FilePath → Tree) → List WatchConfig → Watcher → Startup Watcher
add_all kernel tree_of [] w = started w
add_all kernel tree_of (wc ∷ wcs) w =
    add_recursive kernel wc wc.path (tree_of wc.path) w >>= λ w'. add_all kernel tree_of wcs w'

-- `available is not None and needed > available`
abbrev pub is_over : ℕ → Option ℕ → Bool
is_over needed none = false
is_over needed (some available) = ltb available needed

abbrev pub or_zero : Option ℕ → ℕ
or_zero none = 0
or_zero (some n) = n

-- `__aenter__`; `available` is what `_read_max_user_watches()` gives.
unfoldable pub enter : Kernel → (FilePath → Tree) → Option ℕ → List WatchConfig → Startup Watcher
enter kernel tree_of available watches =
    if is_over (needed_for tree_of watches) available
    then limit_error (needed_for tree_of watches) (or_zero available)
    else add_all kernel tree_of watches closed
