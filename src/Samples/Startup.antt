-- ===== src/Samples/Startup.antt =====
-- A configuration with one Fastly CDN, loaded and put to use.
use mirror_mirage.Prelude.{
  ◌≡◌, refl, true, false, Option, none, some, [], ◌∷◌, inr, ◌⊎◌, ◌≤◌, ◌<◌, length, inl,
}
use mirror_mirage.Text
use mirror_mirage.Text.{Text, codes}
use mirror_mirage.FilePath.{FilePath, text_keys}
use mirror_mirage.Dict
use mirror_mirage.Dict.{Dict}
use mirror_mirage.Outcome.{value}
use mirror_mirage.Config.{Config, fastly}
use mirror_mirage.Config.Load
use mirror_mirage.Config.Load.{World, load, loaded}
use mirror_mirage.Config.Load.Checks.{Checked, load-Checked}
use mirror_mirage.Providers.Build.{Provider, build_providers}
use mirror_mirage.Providers.Build.OneCdn.{Built}
use mirror_mirage.Providers.Build.Built.{build_providers-Built}
use mirror_mirage.Queue
use mirror_mirage.Queue.{empty}
use mirror_mirage.Watcher.{enter, started, Watcher, watched, needed_for}
use mirror_mirage.Watcher.Budget.{IsReadable}
use mirror_mirage.Cli
use mirror_mirage.Cli.{
  Args, Host, secrets_path, limit_message, cancelled, watches_failed, exits, exit_of, main,
}
use mirror_mirage.Cli.Ends.{main-Budget}
use mirror_mirage.Samples.Watching
use mirror_mirage.Samples.Batches
use mirror_mirage.Samples.Events

-- A YAML document of at most two levels.
data Document : Type 0 where
  nothing : Document
  strings : Dict Text Text → Document
  tables : Dict Text (Dict Text Text) → Document

abbrev as_strings : Option (Dict Text Text) → Option Document
as_strings none = none
as_strings (some d) = some (strings d)

abbrev path_named : Text → FilePath
path_named name = record { absolute = true; names = name ∷ [] }

abbrev validated : Config
validated = record {
  cdns =
      (codes "edge", fastly (record { service_id = codes "s"; purge_all_service_domains = false }))
      ∷ [];
  watches = Events.outer ∷ [];
  daemon = Batches.cfg;
  credentials = [];
}

abbrev api_token : Dict Text Text
api_token = (codes "api_token", codes "t") ∷ []

abbrev world : World
world = record {
  Value = Document;
  empty_dict = strings [];
  truthy = λ v. elim v [ nothing ↦ false | strings d ↦ true | tables d ↦ true ];
  is_dict = λ v. elim v [ nothing ↦ false | strings d ↦ true | tables d ↦ true ];
  lookup = λ name v. elim v [
    | nothing ↦ none
    | strings d ↦ none
    | tables d ↦ as_strings (Dict.get name d)
  ];
  str_items = λ v. elim v [ nothing ↦ [] | strings d ↦ d | tables d ↦ [] ];
  st_mode = λ p. inr 33152;
  read_text = λ p. inr (codes "…");
  safe_load = λ t. inr (tables ((codes "edge", api_token) ∷ []));
  model_validate = λ v. inr validated;
  exists = λ p. true;
}

abbrev config : Config
config = record validated { credentials = (codes "edge", api_token) ∷ [] }

config_loaded :
    load world (path_named (codes "config.yaml")) (path_named (codes "secrets.yaml"))
    ≡ loaded config
unfolding load Load.check_mode Load.read_yaml Load.validate Load.finish Load.check_watches
    Load.check_bindings Load.fill_credentials Dict.get Dict.put Text.text_eq
config_loaded = refl

load-Checked_example :
    Checked world (path_named (codes "config.yaml")) (path_named (codes "secrets.yaml")) config
load-Checked_example =
    load-Checked world (path_named (codes "config.yaml")) (path_named (codes "secrets.yaml")) config
      config_loaded

build_providers-Built_example :
    Built false config.credentials config.cdns (build_providers config false)
build_providers-Built_example = build_providers-Built config false ((λ m. absurd m), tt)

-- `--config /config.yaml --dry-run`: the secrets are taken from beside it.
abbrev dry_run_args : Args
dry_run_args = record {
  config = path_named (codes "config.yaml");
  secrets = none;
  check = false;
  dry_run = true;
}

abbrev host : Host
host = record {
  open_queue = λ p. value empty;
  kernel = Watching.two_watches;
  tree_of = Watching.tree_of;
  max_user_watches = some 2;
  serve = λ db providers watcher. cancelled;
}

loaded_beside :
    load world (path_named (codes "config.yaml")) (secrets_path dry_run_args none) ≡ loaded config
unfolding Cli.beside load Load.check_mode Load.read_yaml Load.validate Load.finish
    Load.check_watches Load.check_bindings Load.fill_credentials Dict.get Dict.put Text.text_eq
loaded_beside = refl

main-Budget_example :
    ((needed_for Watching.tree_of config.watches ≤ 2)
      × (providers : Dict Text Provider) × (build_providers config true ≡ value providers)
      × (watcher : Watcher) × (enter Watching.two_watches Watching.tree_of (some 2) config.watches
          ≡ started watcher)
      × (length (watched watcher) ≤ needed_for Watching.tree_of config.watches)
      × (main world host dry_run_args
          ≡ exit_of (host.serve (Queue.reset_in_flight empty).1 providers watcher)))
    ⊎ ((2 < needed_for Watching.tree_of config.watches)
        × (main world host dry_run_args
            ≡ exits 1 (
                some
                  (watches_failed (limit_message (needed_for Watching.tree_of config.watches) 2)))))
unfolding IsReadable
main-Budget_example =
    main-Budget world host dry_run_args config empty 2 loaded_beside refl (inl refl) refl refl
      (λ table path. refl) (((tt, tt), (tt, tt)), tt)
