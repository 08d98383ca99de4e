-- ===== src/Samples/Events.antt =====
-- Two nested watches, and events below them.
use mirror_mirage.Prelude.{
  ◌≡◌, refl, ◌↔◌, ◌≢◌, true, false, Option, none, some, List, [], ◌∷◌, ◌++◌, map, arith, inl, inr,
  In,
}
use mirror_mirage.Text.{Text, codes}
use mirror_mirage.Text
use mirror_mirage.FilePath.{FilePath, as_posix}
use mirror_mirage.FilePath
use mirror_mirage.Config.{Binding, WatchConfig}
use mirror_mirage.Glob.{gm, matches_any_glob}
use mirror_mirage.Glob.Fnmatch
use mirror_mirage.Glob.Relation.{Matches, gm_iff}
use mirror_mirage.Glob.Staging.{staging_iff}
use mirror_mirage.Filter
use mirror_mirage.Filter.{FsEvent, invalidate, event_filter, normalize}
use mirror_mirage.Filter.Outcomes.{Accepted, Dropped, normalize-Accepted, normalize-Dropped}
use mirror_mirage.Mapper.{PurgeTarget, mapper, target, map_event, pipeline_targets}
use mirror_mirage.Mapper.Targets.{map_event-Accepted, map_event-shadowed, pipeline_targets_total}
use mirror_mirage.Mapper.Urls.{target-injective}

abbrev absolute_path : List Text → FilePath
absolute_path names = record { absolute = true; names = names }

abbrev mirror_binding : Binding
mirror_binding = record { cdn = codes "edge"; url_prefix = codes "https://m/" }

abbrev inner_binding : Binding
inner_binding = record { cdn = codes "gcp"; url_prefix = codes "https://i" }

abbrev pub outer : WatchConfig
outer = record {
  path = absolute_path (codes "srv" ∷ []);
  ignore = [];
  flush_on_delete = false;
  bindings = mirror_binding ∷ [];
}

abbrev inner : WatchConfig
inner = record {
  path = absolute_path (codes "srv" ∷ codes "deb" ∷ []);
  ignore = codes "**/.~tmp~/**" ∷ [];
  flush_on_delete = true;
  bindings = inner_binding ∷ mirror_binding ∷ [];
}

abbrev pub watches : List WatchConfig
watches = outer ∷ inner ∷ []

abbrev pub release : FilePath
release = absolute_path (codes "srv" ∷ codes "deb" ∷ codes "Release" ∷ [])

abbrev staged : FilePath
staged = absolute_path (codes "srv" ∷ codes "deb" ∷ codes ".~tmp~" ∷ codes "x" ∷ [])

abbrev moved_in : FsEvent
moved_in = record { kind = invalidate; abs_path = release; watch_root = inner.path }

accepted_event : normalize (event_filter watches) (codes "IN_MOVED_TO") release ≡ some moved_in
unfolding normalize event_filter Filter.sort_watches Filter.owner Filter.kind_of Filter.is_one_of
    FilePath.relative_to matches_any_glob Text.split_slash gm Fnmatch.fnmatchcase
    Fnmatch.on_suffixes Text.text_eq
accepted_event = refl

dropped_event : normalize (event_filter watches) (codes "IN_MOVED_TO") staged ≡ none
unfolding normalize event_filter Filter.sort_watches Filter.owner Filter.kind_of Filter.is_one_of
    FilePath.relative_to matches_any_glob Text.split_slash gm Fnmatch.fnmatchcase
    Fnmatch.on_suffixes Text.text_eq
dropped_event = refl

moved_in-Accepted : Accepted watches (codes "IN_MOVED_TO") release moved_in
moved_in-Accepted = normalize-Accepted watches (codes "IN_MOVED_TO") release moved_in accepted_event

normalize-Accepted_example : Accepted watches (codes "IN_MOVED_TO") release moved_in
normalize-Accepted_example =
    normalize-Accepted watches (codes "IN_MOVED_TO") release moved_in accepted_event

normalize-Dropped_example : Dropped watches (codes "IN_MOVED_TO") staged
normalize-Dropped_example = normalize-Dropped watches (codes "IN_MOVED_TO") staged dropped_event

outer-ne-inner : inner.path ≢ outer.path
outer-ne-inner e = cc

map_event-Accepted_example :
    map_event (mapper watches) moved_in
    ≡ some (map (target (as_posix moved_in-Accepted.rel)) moved_in-Accepted.watch.bindings)
map_event-Accepted_example =
    map_event-Accepted watches (codes "IN_MOVED_TO") release moved_in
      (λ v m. elim m [ inl e ↦ rw e outer-ne-inner | inr n ↦ absurd n ], (λ v m. absurd m, tt))
      moved_in-Accepted

pipeline_targets_total_example :
    (ts : List PurgeTarget) × (pipeline_targets
        (event_filter watches)
        (mapper watches)
        (codes "IN_MOVED_TO")
        release
      ≡ some ts)
pipeline_targets_total_example = pipeline_targets_total watches (codes "IN_MOVED_TO") release

-- A third watch, on the path of the second.
abbrev again : WatchConfig
again = record inner { bindings = mirror_binding ∷ [] }

thrice_accepted :
    normalize (event_filter (watches ++ again ∷ [])) (codes "IN_MOVED_TO") release ≡ some moved_in
unfolding normalize event_filter Filter.sort_watches Filter.owner Filter.kind_of Filter.is_one_of
    FilePath.relative_to matches_any_glob Text.split_slash gm Fnmatch.fnmatchcase
    Fnmatch.on_suffixes Text.text_eq
thrice_accepted = refl

thrice-Accepted : Accepted (watches ++ again ∷ []) (codes "IN_MOVED_TO") release moved_in
thrice-Accepted =
    normalize-Accepted (watches ++ again ∷ []) (codes "IN_MOVED_TO") release moved_in
      thrice_accepted

thrice_root : thrice-Accepted.watch.path ≡ again.path
thrice_root = mirror_mirage.Prelude.sym thrice-Accepted.same_root

map_event-shadowed_example :
    map_event (mapper (watches ++ again ∷ [])) moved_in
    ≡ some (map (target (as_posix thrice-Accepted.rel)) again.bindings)
map_event-shadowed_example =
    map_event-shadowed watches [] again (codes "IN_MOVED_TO") release moved_in (λ v m. absurd m)
      thrice-Accepted thrice_root

abbrev deb_anywhere : List Text
deb_anywhere = codes "**" ∷ codes "*.deb" ∷ []

abbrev deb_path : List Text
deb_path = codes "pool" ∷ codes "m" ∷ codes "a.deb" ∷ []

gm_iff_example : (gm deb_anywhere deb_path ≡ true) ↔ Matches deb_anywhere deb_path
gm_iff_example = gm_iff deb_anywhere deb_path

deb_found : gm deb_anywhere deb_path ≡ true
unfolding gm Fnmatch.fnmatchcase Fnmatch.on_suffixes Text.text_eq
deb_found = refl

staging_iff_example :
    (matches_any_glob (codes "dists" ∷ codes ".~tmp~" ∷ []) (codes "**/.~tmp~/**" ∷ []) ≡ true)
    ↔ In (codes ".~tmp~") (codes "dists" ∷ codes ".~tmp~" ∷ [])
staging_iff_example =
    staging_iff (codes ".~tmp~") (codes "dists" ∷ codes ".~tmp~" ∷ []) (ground arith) (ground arith)

target-injective_example : codes "a" ∷ codes "b" ∷ [] ≡ codes "a" ∷ codes "b" ∷ []
target-injective_example =
    target-injective mirror_binding (codes "a" ∷ codes "b" ∷ []) (codes "a" ∷ codes "b" ∷ [])
      (ground arith) (ground arith) refl
