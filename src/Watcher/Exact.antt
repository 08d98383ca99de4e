-- ===== src/Watcher/Exact.antt =====
-- What `_add_dir_and_scan` gives on a new directory, and that it gives nothing else.
use mirror_mirage.Prelude.{
  Bool, true, refl, All, All-of, ◌≡◌, refl, sym, ap, subst, ◌∙◌, ◌⊎◌, inl, inr, true, false, List,
  [], ◌∷◌, ◌++◌, arith, In, In-append_cases, Bool-cases,
}
use mathlib.Core.List.{append_assoc, append-nil}
use mirror_mirage.Text.{Text, codes}
use mirror_mirage.FilePath.{FilePath, extend, path_keys}
use mirror_mirage.Config.{WatchConfig}
use mirror_mirage.Glob.{matches_any_glob}
use mirror_mirage.Watcher.{
  Watcher, Event, Kernel, is_ignored, register, announce, is_passed_over, scan_directory,
  scan_entries, add_dir_and_scan,
}
use mirror_mirage.Watcher.Files.{
  Tree, file, dir, Listing, locked, listed, Entries, end, entry, broken,
}
use mirror_mirage.Watcher.Places.{
  At, AtEntries, Clear, HasDistinctNames, child-place, is_ignored-extend,
}
use mirror_mirage.Watcher.Coverage.{Covered, directory-Covered}
use mirror_mirage.Watcher.Fresh.{IsFresh}
use mirror_mirage.Watcher.Scan.{lenient, directory-SameTable}
use mirror_mirage.Watcher.Announced.{event_at, Announced, directory-Announced, same_watched}
use mirror_mirage.Watcher.Went.{passed, failed, went, watch_and-Went, directory-keeps-event}

module _ (kernel : Kernel) (wc : WatchConfig) where
  -- The event of a file below, on a way that is not ignored.
  pub record Told (ns : List Text) (P : List Text → Type 0) (e : Event) : Type 0 where
    pub rest : List Text
    pub event : e ≡ event_at kernel wc (ns ++ rest)
    pub at : P rest
    pub clear : Clear wc.ignore ns rest

  abbrev AnEntryTold : List Text → Entries → Event → Type 0
  AnEntryTold ns es e =
      (n : Text) × Told (ns ++ n ∷ [])
        (λ ms. AtEntries false es n ms × (matches_any_glob (ns ++ n ∷ []) wc.ignore ≡ false)) e

  later :
      (ns : List Text) (name : Text) (child : Tree) (es : Entries) (e : Event)
      → AnEntryTold ns es e
      → AnEntryTold ns (entry name child es) e
  unfolding At
  later ns name child es e (n, b) =
      (n, record { rest = b.rest; event = b.event; at = (inr b.at.0, b.at.1); clear = b.clear })

  place-ignored :
      (path : FilePath) (ns : List Text) (name : Text)
      → path ≡ extend wc.path ns
      → is_ignored (extend path (name ∷ [])) wc.path wc.ignore
        ≡ matches_any_glob (ns ++ name ∷ []) wc.ignore
  place-ignored path ns name p =
      ap (λ q. is_ignored q wc.path wc.ignore) (child-place path wc.path ns name p)
      ∙ is_ignored-extend wc.path (ns ++ name ∷ []) wc.ignore

  announce-only :
      (path : FilePath) (w : Watcher) (e : Event)
      → In e (announce kernel wc path w).synthetic
      → In e w.synthetic
        ⊎ ((is_ignored path wc.path wc.ignore ≡ false) × (e ≡ (codes "IN_MOVED_TO", path, wc.path)))
  unfolding announce
  announce-only path w e m = elim (Bool-cases (is_ignored path wc.path wc.ignore)) [
    | inl i ↦ inl (rw i at m)
    | inr i ↦ elim (In-append_cases e w.synthetic _ (rw i at m)) [
      | inl old ↦ inl old
      | inr (inl same) ↦ inr (i, same)
      | inr (inr none_) ↦ absurd none_
    ]
  ]

  file-Told :
      (path : FilePath) (ns : List Text) (name : Text) (es : Entries) (w : Watcher) (e : Event)
      → path ≡ extend wc.path ns
      → In e (announce kernel wc (extend path (name ∷ [])) w).synthetic
      → In e w.synthetic ⊎ AnEntryTold ns (entry name file es) e
  unfolding At
  file-Told path ns name es w e p m = elim (announce-only (extend path (name ∷ [])) w e m) [
    | inl old ↦ inl old
    | inr (i, same) ↦ inr (
      name,
      record {
        rest = [];
        event =
            same
            ∙ ap (λ q. (codes "IN_MOVED_TO", q, wc.path))
                (child-place path wc.path ns name p
                  ∙ ap (extend wc.path) (sym (append-nil (ns ++ name ∷ []))));
        at = (inl (refl, refl), sym (place-ignored path ns name p) ∙ i);
        clear = tt;
      },
    )
  ]

  -- No event but those of the files below is added.
  mutual
    unfolding scan_directory is_passed_over At

    directory-event-only :
        (path : FilePath) (ns : List Text) (l : Listing) (w : Watcher) (e : Event)
        → path ≡ extend wc.path ns
        → In e (scan_directory kernel wc path l w).synthetic
        → In e w.synthetic
          ⊎ ((is_ignored path wc.path wc.ignore ≡ false) × Told ns (At false (dir l)) e)
    directory-event-only path ns locked w e p m = elim (watch_and-Went kernel wc path (λ v. v) w) [
      | passed s h ↦ inl (subst (λ (v : Watcher). In e v.synthetic) (sym h) m)
      | failed s h ↦ inl (subst (λ (v : Watcher). In e v.synthetic) (sym h) m)
      | went s h ↦ inl (subst (λ (v : Watcher). In e v.synthetic) (sym h) m)
    ]
    directory-event-only path ns (listed es) w e p m =
        elim (watch_and-Went kernel wc path (λ v. scan_entries kernel wc path es v) w) [
          | passed s h ↦ inl (subst (λ (v : Watcher). In e v.synthetic) (sym h) m)
          | failed s h ↦ inl (subst (λ (v : Watcher). In e v.synthetic) (sym h) m)
          | went s h ↦
              elim (entries-event-only path ns es (register path wc w) e p
                (subst (λ (v : Watcher). In e v.synthetic) (sym h) m)) [
                  | inl old ↦ inl old
                  | inr (n, b) ↦ inr (
                    ground arith,
                    record {
                      rest = n ∷ b.rest;
                      event = b.event ∙ ap (event_at kernel wc) (append_assoc ns (n ∷ []) b.rest);
                      at = b.at.0;
                      clear = (b.at.1, b.clear);
                    },
                  )
                ]
        ]

    entries-event-only :
        (path : FilePath) (ns : List Text) (es : Entries) (w : Watcher) (e : Event)
        → path ≡ extend wc.path ns
        → In e (scan_entries kernel wc path es w).synthetic
        → In e w.synthetic ⊎ AnEntryTold ns es e
    entries-event-only path ns end w e p m = inl m
    entries-event-only path ns (entry name file es) w e p m =
        elim (entries-event-only path ns es (announce kernel wc (extend path (name ∷ [])) w) e p
          m) [
            | inl now ↦ file-Told path ns name es w e p now
            | inr x ↦ inr (later ns name file es e x)
          ]
    entries-event-only path ns (entry name (dir l) es) w e p m =
        let child = extend path (name ∷ []) in
        elim (entries-event-only path ns es (scan_directory kernel wc child l w) e p m) [
          | inr x ↦ inr (later ns name (dir l) es e x)
          | inl now ↦
              elim (directory-event-only child (ns ++ name ∷ []) l w e
                (child-place path wc.path ns name p) now) [
                  | inl old ↦ inl old
                  | inr (i, b) ↦ inr (
                    name,
                    record {
                      rest = b.rest;
                      event = b.event;
                      at = (inl (refl, b.at), sym (place-ignored path ns name p) ∙ i);
                      clear = b.clear;
                    },
                  )
                ]
        ]
    entries-event-only path ns (broken es) w e p m = entries-event-only path ns es w e p m

  -- What a place of the kind has come to: a directory is watched, a file announced.
  abbrev pub Seen : Bool → List Text → Watcher → Type 0
  Seen true ms w = Covered (lenient kernel) wc ms w
  Seen false ms w = Announced kernel wc ms w

  seen :
      (new_dir : FilePath) (ns : List Text) (n : Text) (l : Listing) (w : Watcher) (kind : Bool)
      (xs : List Text)
      → new_dir ≡ extend wc.path (ns ++ n ∷ [])
      → is_ignored new_dir wc.path wc.ignore ≡ false
      → HasDistinctNames (dir l)
      → IsFresh (lenient kernel) wc (ns ++ n ∷ []) w
      → At kind (dir l) xs
      → Clear wc.ignore (ns ++ n ∷ []) xs
      → Seen kind (ns ++ n ∷ [] ++ xs) (scan_directory kernel wc new_dir l w)
  seen new_dir ns n l w false xs p i d f at cl =
      directory-Announced kernel wc new_dir (ns ++ n ∷ []) l w xs p i d f at cl
  seen new_dir ns n l w true xs p i d f at cl =
      let (v, h, t) = directory-SameTable kernel wc new_dir ns n l w w p refl in
      elim (directory-Covered (lenient kernel) wc new_dir (ns ++ n ∷ []) l w v xs p (inr i) d f h at
        cl) [
          | inl k ↦ inl (
              sym (
                same_watched kernel wc (extend wc.path (ns ++ n ∷ [] ++ xs)) v
                  (scan_directory kernel wc new_dir l w) t)
              ∙ k)
          | inr r ↦ inr r
        ]

  -- A new directory that no ignore glob matches, with nothing watched there yet, whatever inotify
  -- answers, and a place in its tree, it or one below, that no ignore glob matches on the way.
  -- Afterwards the place, if it is a directory, is watched, and if it is a file, it has a synthetic
  -- IN_MOVED_TO event, unless inotify gave no watch on a directory on the way, or on it; the events
  -- that waited still wait; and every event that waits then is one of them, or that of a file of the
  -- tree that is not ignored.
  pub scan-Exact :
      (new_dir : FilePath) (ns : List Text) (n : Text) (l : Listing) (w : Watcher) (kind : Bool)
      (xs : List Text)
      → new_dir ≡ extend wc.path (ns ++ n ∷ [])
      → matches_any_glob (ns ++ n ∷ []) wc.ignore ≡ false
      → HasDistinctNames (dir l)
      → IsFresh (lenient kernel) wc (ns ++ n ∷ []) w
      → At kind (dir l) xs
      → Clear wc.ignore (ns ++ n ∷ []) xs
      → Seen kind (ns ++ n ∷ [] ++ xs) (add_dir_and_scan kernel wc new_dir (dir l) w)
        × All (λ e. In e (add_dir_and_scan kernel wc new_dir (dir l) w).synthetic) w.synthetic
        × All
            (λ e. In e w.synthetic ⊎ Told (ns ++ n ∷ []) (At false (dir l)) e)
            (add_dir_and_scan kernel wc new_dir (dir l) w).synthetic
  unfolding add_dir_and_scan
  scan-Exact new_dir ns n l w kind xs p clear d f at cl =
      let i : is_ignored new_dir wc.path wc.ignore ≡ false =
        ap (λ q. is_ignored q wc.path wc.ignore) p
        ∙ is_ignored-extend wc.path (ns ++ n ∷ []) wc.ignore
        ∙ clear in
      (
        seen new_dir ns n l w kind xs p i d f at cl,
        All-of _ w.synthetic (λ e m. directory-keeps-event kernel wc new_dir l w e m),
        All-of _ (scan_directory kernel wc new_dir l w).synthetic (λ e m.
            elim (directory-event-only new_dir (ns ++ n ∷ []) l w e p m) [
              | inl old ↦ inl old
              | inr (same, told) ↦ inr told
            ]),
      )
