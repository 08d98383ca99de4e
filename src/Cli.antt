-- ===== src/Cli.antt =====
-- `main` and `_run` of src/mirror_mirage/__main__.py, and what `run` of src/mirror_mirage/daemon.py does
-- before its tasks. The arguments are those that argparse gives; how the tasks end is a parameter.
pub mod Ends
use mirror_mirage.Prelude.{
  ℕ, ◌*◌, max, Bool, true, false, Option, none, some, List, [], ◌∷◌, ◌++◌, if◌then◌else◌,
}
use mirror_mirage.Text.{Text, codes, decimal}
use mirror_mirage.FilePath.{FilePath}
use mirror_mirage.Dict.{Dict}
use mirror_mirage.Config.{Config, DaemonConfig}
use mirror_mirage.Config.Load.{World, ConfigError, Loaded, loaded, refused, load}
use mirror_mirage.Outcome.{Exception, Outcome, value, raised}
use mirror_mirage.Queue.{Db, reset_in_flight}
use mirror_mirage.Providers.Build.{Provider, build_providers}
use mirror_mirage.Watcher.{Watcher, Kernel, Startup, started, limit_error, enter}
use mirror_mirage.Watcher.Files.{Tree}

-- The namespace of `_parse_args`, less `verbose`. `secrets` is `none` if it is missing or empty.
pub record Args : Type 0 where
  pub config : FilePath
  pub secrets : Option FilePath
  pub check : Bool
  pub dry_run : Bool

drop_last : List Text → List Text
drop_last [] = []
drop_last (n ∷ []) = []
drop_last (n ∷ m ∷ ns) = n ∷ drop_last (m ∷ ns)

-- `config_path.parent / "secrets.yaml"`
unfoldable pub beside : FilePath → FilePath
unfolding drop_last
beside path = record path { names = drop_last path.names ++ codes "secrets.yaml" ∷ [] }

-- `Path(args.secrets) if args.secrets else …`
abbrev pub secrets_path : Args → Option FilePath → FilePath
secrets_path args none = beside args.config
secrets_path args (some path) = path

-- The text of an `InotifyLimitError`.
unfoldable pub limit_message : ℕ → ℕ → Text
limit_message needed available =
    codes "inotify watch budget too small: need at least "
    ++ (decimal needed
        ++ (codes " watches but fs.inotify.max_user_watches is "
            ++ (decimal available
                ++ (codes ". Raise it (root) with: sysctl -w fs.inotify.max_user_watches="
                    ++ (decimal (max (needed * 2) 524288)
                        ++ codes "  and persist it in /etc/sysctl.d/99-mirror-mirage.conf")))))

-- How `asyncio.run(_run(…))` ends: the tasks run until a signal cancels them, or a KeyboardInterrupt
-- or another exception leaves them.
pub data Ended : Type 0 where
  cancelled interrupted : Ended
  too_few_watches : ℕ → ℕ → Ended
  threw : Exception → Ended
  group : List Exception → Ended

-- What the daemon finds when it starts.
pub record Host : Type 1 where
  pub open_queue : FilePath → Outcome Db
  pub kernel : Kernel
  pub tree_of : FilePath → Tree
  pub max_user_watches : Option ℕ
  pub serve : Db → Dict Text Provider → Watcher → Ended

abbrev pub watching : Host → Db → Dict Text Provider → Startup Watcher → Ended
watching host db providers (limit_error needed available) = too_few_watches needed available
watching host db providers (started watcher) = host.serve db providers watcher

abbrev pub with_providers : Host → Config → Db → Outcome (Dict Text Provider) → Ended
with_providers host cfg db (raised e) = threw e
with_providers host cfg db (value providers) =
    watching host db providers (enter host.kernel host.tree_of host.max_user_watches cfg.watches)

abbrev pub with_queue : Host → Config → Bool → Outcome Db → Ended
with_queue host cfg dry_run (raised e) = threw e
with_queue host cfg dry_run (value db) =
    with_providers host cfg (reset_in_flight db).1 (build_providers cfg dry_run)

-- `run(cfg, dry_run=dry_run)`
unfoldable pub run : Host → Config → Bool → Ended
run host cfg dry_run = with_queue host cfg dry_run (host.open_queue cfg.daemon.queue_db)

-- What `main` writes: to stderr, or to stdout.
pub data Line : Type 0 where
  config_failed : ConfigError → Line
  config_ok : Line
  watches_failed : Text → Line

-- What `main` gives: an exit code with the line that it writes, or an exception.
pub data Exit : Type 0 where
  exits : ℕ → Option Line → Exit
  uncaught : Exception → Exit
  uncaught_group : List Exception → Exit

abbrev pub exit_of : Ended → Exit
exit_of cancelled = exits 0 none
exit_of interrupted = exits 0 none
exit_of (too_few_watches needed available) =
    exits 1 (some (watches_failed (limit_message needed available)))
exit_of (threw e) = uncaught e
exit_of (group es) = uncaught_group es

abbrev pub with_config : Host → Args → Loaded Config → Exit
with_config host args (refused e) = exits 1 (some (config_failed e))
with_config host args (loaded cfg) =
    if args.check then exits 0 (some config_ok) else exit_of (run host cfg args.dry_run)

-- `main(argv)`
unfoldable pub main : World → Host → Args → Exit
main w host args = with_config host args (load w args.config (secrets_path args args.secrets))
