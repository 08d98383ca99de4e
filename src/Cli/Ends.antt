-- ===== src/Cli/Ends.antt =====
-- How a start of the program ends, by its configuration and the number of inotify watches.
use mirror_mirage.Prelude.{
  ℕ, ◌≤◌, ◌<◌, ◌≡◌, ◌∙◌, ap, ◌⊎◌, inl, inr, Bool, true, false, some, All, length,
}
use mirror_mirage.Text.{Text}
use mirror_mirage.Dict.{Dict}
use mirror_mirage.Config.{Config}
use mirror_mirage.Config.Load.{World, loaded, load}
use mirror_mirage.Outcome.{value}
use mirror_mirage.Queue.{Db, reset_in_flight}
use mirror_mirage.Providers.Build.{Provider, build_providers, AllKeys, build_providers_iff}
use mirror_mirage.Watcher.{Watcher, watched, needed_for, enter, started, Startup}
use mirror_mirage.Watcher.Budget.{HasLimit, IsReadable, enter_budget}
use mirror_mirage.Cli.{
  Args, secrets_path, limit_message, Host, with_providers, watching, with_queue, run,
  watches_failed, exits, exit_of, with_config, main,
}

module _ (w : World) (host : Host) (args : Args) (cfg : Config) (db : Db) where
  providers_of :
      (args.dry_run ≡ true) ⊎ AllKeys cfg.credentials cfg.cdns
      → (providers : Dict Text Provider) × (build_providers cfg args.dry_run ≡ value providers)
  providers_of (inl d) = rw d ((build_providers_iff cfg).1)
  providers_of (inr k) = with_keys args.dry_run
    where
      with_keys :
          (b : Bool) → (providers : Dict Text Provider) × (build_providers cfg b ≡ value providers)
      with_keys true = (build_providers_iff cfg).1
      with_keys false = (build_providers_iff cfg).0.1 k

  main-run :
      load w args.config (secrets_path args args.secrets) ≡ loaded cfg
      → args.check ≡ false
      → host.open_queue cfg.daemon.queue_db ≡ value db
      → (providers : Dict Text Provider) → build_providers cfg args.dry_run ≡ value providers
      → main w host args
        ≡ exit_of (with_providers host cfg (reset_in_flight db).1 (value providers))
  unfolding main run
  main-run l c q providers p = rw (l, with_config, c, q, with_queue, p)

  entered :
      (limit : ℕ) (providers : Dict Text Provider) (result : Startup Watcher)
      → host.max_user_watches ≡ some limit
      → enter host.kernel host.tree_of (some limit) cfg.watches ≡ result
      → exit_of (with_providers host cfg (reset_in_flight db).1 (value providers))
        ≡ exit_of (watching host (reset_in_flight db).1 providers result)
  entered limit providers result m e =
      ap
        (λ o. exit_of (
          watching host (reset_in_flight db).1 providers
            (enter host.kernel host.tree_of o cfg.watches)))
        m
      ∙ ap (λ s. exit_of (watching host (reset_in_flight db).1 providers s)) e

  -- A configuration that loads, with the credentials that the providers need or with --dry-run, a queue
  -- that opens, without --check, where every directory can be listed, and inotify gives watches up to
  -- the limit that was read. If the directories to be watched, counted for each watch, are within the
  -- limit, the tasks run on the recovered queue, with the providers that `build_providers` gives and the
  -- watcher that the start leaves, which has no more watches than were counted, and the program ends
  -- as they do. If they are more, it exits with 1 and a message with both numbers.
  pub main-Budget :
      (limit : ℕ)
      → load w args.config (secrets_path args args.secrets) ≡ loaded cfg
      → args.check ≡ false
      → (args.dry_run ≡ true) ⊎ AllKeys cfg.credentials cfg.cdns
      → host.open_queue cfg.daemon.queue_db ≡ value db
      → host.max_user_watches ≡ some limit
      → HasLimit limit host.kernel
      → All (λ wc. IsReadable (host.tree_of wc.path)) cfg.watches
      → ((needed_for host.tree_of cfg.watches ≤ limit)
          × (providers : Dict Text Provider) × (build_providers cfg args.dry_run ≡ value providers)
          × (watcher : Watcher) × (enter host.kernel host.tree_of (some limit) cfg.watches
              ≡ started watcher)
          × (length (watched watcher) ≤ needed_for host.tree_of cfg.watches)
          × (main w host args ≡ exit_of (host.serve (reset_in_flight db).1 providers watcher)))
        ⊎ ((limit < needed_for host.tree_of cfg.watches)
            × (main w host args
                ≡ exits 1 (
                    some (
                      watches_failed (limit_message (needed_for host.tree_of cfg.watches) limit)))))
  main-Budget limit l c k q m has readable =
      let (providers, p) = providers_of k in
      elim (enter_budget limit host.kernel has host.tree_of cfg.watches readable) [
        | inl (watcher, room, e, n) ↦ inl (
          room,
          providers,
          p,
          watcher,
          e,
          n,
          main-run l c q providers p ∙ entered limit providers _ m e,
        )
        | inr (over, e) ↦ inr (over, main-run l c q providers p ∙ entered limit providers _ m e)
      ]
