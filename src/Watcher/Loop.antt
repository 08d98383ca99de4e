-- ===== src/Watcher/Loop.antt =====
-- What `_iter` yields, turn after turn.
use mirror_mirage.Prelude.{
  All, All-of, ◌≡◌, refl, sym, ap, subst, inl, inr, Bool, true, false, ◌||◌, ℕ, Option, none, some,
  List, [], ◌∷◌, In, In-append_cases, Bool-cases, if◌then◌else◌, Option-cases,
}
use mirror_mirage.FilePath.{FilePath, path_keys}
use mirror_mirage.Dict
use mirror_mirage.Config.{WatchConfig}
use mirror_mirage.Watcher.{
  mask_to_name, Watcher, Event, Kernel, closed, started, add_recursive, add_all, enter,
}
use mirror_mirage.Watcher.Events.{
  RawEvent, forget, created, on_directory, event_with, on_file, on_watch, on_event, handle, yielded,
  Turn, synthesized, got, Turns, here, next,
}
use mirror_mirage.Watcher.Files.{Tree}
use mirror_mirage.Watcher.Growth.{bind_inv, started_inj}
use mirror_mirage.Watcher.Starting.{enter-add_all}
use mirror_mirage.Watcher.Tables.{
  IsSound, Meant, root_of, mask_to_name-Meant, forget-IsSound, recursive-IsSound,
  add_dir_and_scan-IsSound,
}

module _ (watches : List WatchConfig) where
  abbrev AllMeant : List Event → Type 0
  AllMeant out = (e : Event) → In e out → Meant watches e

  closed-IsSound : IsSound watches closed
  unfolding Dict.get
  closed-IsSound = record {
    agree = λ d. refl;
    configured = λ d wc h. absurd (cc h);
    waiting = λ e m. absurd m;
  }

  all-IsSound :
      (kernel : Kernel) (tree_of : FilePath → Tree) (some_watches : List WatchConfig)
      (w w' : Watcher)
      → ((wc : WatchConfig) → In wc some_watches → In wc watches)
      → add_all kernel tree_of some_watches w ≡ started w'
      → IsSound watches w
      → IsSound watches w'
  unfolding add_all
  all-IsSound kernel tree_of [] w w' sub h s = subst (IsSound watches) (started_inj h) s
  all-IsSound kernel tree_of (v ∷ vs) w w' sub h s =
      let (u, e, rest) =
        bind_inv (add_recursive kernel v v.path (tree_of v.path) w)
          (λ u. add_all kernel tree_of vs u) w' h in
      all-IsSound kernel tree_of vs u w' (λ wc m. sub wc (inr m)) rest
        (recursive-IsSound watches kernel v (sub v (inl refl)) v.path (tree_of v.path) w u e s)

  -- What a turn keeps and gives.
  abbrev Good : Watcher × Option Event → Type 0
  Good (w, e) = IsSound watches w × AllMeant (yielded e)

  either : (b : Bool) (x y : Watcher × Option Event) → Good x → Good y → Good (if b then x else y)
  either true x y g h = g
  either false x y g h = h

  nothing : AllMeant []
  nothing e m = absurd m

  created-IsSound :
      (e : RawEvent) (watch_dir path : FilePath) (w : Watcher)
      → IsSound watches w
      → IsSound watches (created e path (Dict.get watch_dir w.dir_to_config) w)
  created-IsSound e watch_dir path w s = elim (Option-cases (Dict.get watch_dir w.dir_to_config)) [
    | inl a ↦ rw (a, created) s
    | inr (wc, a) ↦
        rw (a, created)
          (add_dir_and_scan-IsSound watches e.kernel wc (s.configured watch_dir wc a) path e.found w
            s)
  ]

  on_directory-IsSound :
      (e : RawEvent) (watch_dir : FilePath) (path : Option FilePath) (w : Watcher)
      → IsSound watches w
      → IsSound watches (on_directory e watch_dir path w)
  on_directory-IsSound e watch_dir none w s = s
  on_directory-IsSound e watch_dir (some path) w s = elim (Bool-cases e.mask.create) [
    | inl c ↦ rw c (created-IsSound e watch_dir path w s)
    | inr c ↦ rw c s
  ]

  known_root :
      (d root : FilePath) (w : Watcher)
      → IsSound watches w
      → Dict.get d w.dir_to_root ≡ some root
      → (wc : WatchConfig) × In wc watches × (root ≡ wc.path)
  known_root d root w s h = elim (Option-cases (Dict.get d w.dir_to_config)) [
    | inl a ↦ absurd (cc (h, s.agree d, ap root_of a))
    | inr (wc, a) ↦ (wc, s.configured d wc a, cc (h, s.agree d, ap root_of a))
  ]

  on_file-AllMeant :
      (e : RawEvent) (watch_dir : FilePath) (path : Option FilePath) (w : Watcher)
      → IsSound watches w
      → AllMeant (yielded (on_file e watch_dir path w))
  on_file-AllMeant e watch_dir none w s = nothing
  on_file-AllMeant e watch_dir (some path) w s =
      elim (Option-cases (Dict.get watch_dir w.dir_to_root)) [
        | inl a ↦ rw (a, event_with) nothing
        | inr (root, a) ↦ elim (Option-cases (mask_to_name e.mask)) [
          | inl b ↦ rw (a, b, event_with) nothing
          | inr (name, b) ↦
              rw (a, b, event_with)
                (λ v m. elim m [
                  | inl same ↦
                      let (wc, m', r) = known_root watch_dir root w s a in
                      subst (Meant watches) (sym same) (mask_to_name-Meant e.mask name b, wc, m', r)
                  | inr absent ↦ absurd absent
                ])
        ]
      ]

  on_watch-Good :
      (e : RawEvent) (watch_dir : FilePath) (w : Watcher)
      → IsSound watches w
      → Good (on_watch e watch_dir w)
  on_watch-Good e watch_dir w s =
      either (e.mask.ignored || (e.mask.delete_self || e.mask.move_self)) (forget watch_dir w, none)
        _ (forget-IsSound watches watch_dir w s, nothing)
        (either e.mask.is_dir (on_directory e watch_dir e.path w, none)
          (w, on_file e watch_dir e.path w) (on_directory-IsSound e watch_dir e.path w s, nothing)
          (s, on_file-AllMeant e watch_dir e.path w s))

  on_event-Good :
      (e : RawEvent) (watch_dir : Option FilePath) (w : Watcher)
      → IsSound watches w
      → Good (on_event e watch_dir w)
  on_event-Good e none w s = (s, nothing)
  on_event-Good e (some watch_dir) w s = on_watch-Good e watch_dir w s

  handle-Good : (e : RawEvent) (w : Watcher) → IsSound watches w → Good (handle e w)
  unfolding handle
  handle-Good e w s =
      either e.mask.q_overflow (w, none) (on_event e e.watch_dir w) (s, nothing)
        (on_event-Good e e.watch_dir w s)

  Turn-Good :
      (w w' : Watcher) (out : List Event)
      → Turn w w' out
      → IsSound watches w
      → IsSound watches w' × AllMeant out
  Turn-Good w w' out (synthesized e rest h) s = (
    record {
      agree = s.agree;
      configured = s.configured;
      waiting = λ v m. s.waiting v (rw h (inr m));
    },
    λ v m. s.waiting v (rw h (elim m [ inl same ↦ inl same | inr absent ↦ absurd absent ])),
  )
  Turn-Good w w' out (got e h) s = handle-Good e w s

  Turns-Good :
      (w w' : Watcher) (out : List Event)
      → Turns w w' out
      → IsSound watches w
      → IsSound watches w' × AllMeant out
  Turns-Good w w' out here s = (s, nothing)
  Turns-Good w w' out (next {v = v} {out = before} {now = now} turns turn) s =
      let (sound, meant) = Turns-Good w v before turns s in
      let (after, told) = Turn-Good v w' now turn sound in
      (
        after,
        λ e m. elim (In-append_cases e before now m) [
          | inl early ↦ meant e early
          | inr late ↦ told e late
        ],
      )

-- From the start on, however inotify answers and whatever events it gives, after any number of
-- turns: for a directory the two tables have the same watch, one of the configured ones, or neither
-- has any; and every event yielded so far carries a mask name that the filter knows and the root of
-- a configured watch.
pub Turns-IsSound :
    (kernel : Kernel) (tree_of : FilePath → Tree) (available : Option ℕ)
    (watches : List WatchConfig) (w w' : Watcher) (out : List Event)
    → enter kernel tree_of available watches ≡ started w
    → Turns w w' out
    → IsSound watches w' × All (Meant watches) out
Turns-IsSound kernel tree_of available watches w w' out h turns =
    let (sound, meant) = Turns-Good watches w w' out turns (
      all-IsSound watches kernel tree_of watches closed w (λ wc m. m)
        (enter-add_all kernel tree_of available watches w h) (closed-IsSound watches)) in
    (sound, All-of (Meant watches) out meant)
