-- ===== src/Watcher/Announced.antt =====
-- What a directory that appears gives: watches below it, and a synthetic event for each file.
use mirror_mirage.Prelude.{
  ◌≡◌, refl, sym, ap, subst, ◌∙◌, ◌≢◌, ◌⊎◌, inl, inr, false, List, [], ◌∷◌, ◌++◌, In, Bool-cases,
}
use mathlib.Core.List.{append_assoc, append-nil}
use mirror_mirage.Text.{Text, codes}
use mirror_mirage.FilePath.{FilePath, extend, path_keys}
use mirror_mirage.Config.{WatchConfig}
use mirror_mirage.Glob.{matches_any_glob}
use mirror_mirage.Watcher.{
  Watcher, Event, Kernel, refused, is_ignored, is_watched, watched, register, announce,
  is_passed_over, watch_and, scan_directory, scan_entries,
}
use mirror_mirage.Watcher.Files.{file, dir, Listing, locked, listed, Entries, end, entry, broken}
use mirror_mirage.Watcher.Places.{
  At, AtEntries, Clear, Named, HasDistinctNames, HaveDistinctNames, child-place, is_ignored-extend,
}
use mirror_mirage.Watcher.Coverage.{Refusal}
use mirror_mirage.Watcher.Fresh.{IsFresh, register-IsFresh, other-IsFresh}
use mirror_mirage.Watcher.Scan.{lenient, directory-SameTable}
use mirror_mirage.Watcher.Went.{
  passed, failed, went, watch_and-Went, announce-In, entries-keep-event,
}

module _ (kernel : Kernel) (wc : WatchConfig) where
  -- The synthetic event of the file at the names below the watch's root.
  abbrev pub event_at : List Text → Event
  event_at ms = (codes "IN_MOVED_TO", extend wc.path ms, wc.path)

  -- The file is announced, or a directory on the way to it could not be watched.
  abbrev pub Announced : List Text → Watcher → Type 0
  Announced ms w = In (event_at ms) w.synthetic ⊎ Refusal (lenient kernel) wc ms

  abbrev Fresh : List Text → Watcher → Type 0
  Fresh ns w = IsFresh (lenient kernel) wc ns w

  not_passed :
      (path : FilePath) (ns : List Text) (w : Watcher)
      → path ≡ extend wc.path ns
      → is_ignored path wc.path wc.ignore ≡ false
      → Fresh ns w
      → is_passed_over kernel wc path w ≡ false
  unfolding is_passed_over
  not_passed path ns w p i f =
      let new : is_watched path w ≡ false =
        ap (λ q. is_watched q w) (p ∙ ap (extend wc.path) (sym (append-nil ns))) ∙ f [] in
      rw (i, new)

  pub same_watched :
      (q : FilePath) (v w : Watcher)
      → v.dir_to_root ≡ w.dir_to_root
      → is_watched q v ≡ is_watched q w
  same_watched q v w e = rw (e, is_watched)

  place_not_ignored :
      (path : FilePath) (ns : List Text) (name n : Text)
      → path ≡ extend wc.path ns
      → name ≡ n
      → matches_any_glob (ns ++ n ∷ []) wc.ignore ≡ false
      → is_ignored (extend path (name ∷ [])) wc.path wc.ignore ≡ false
  place_not_ignored path ns name n p e clear =
      ap (λ q. is_ignored q wc.path wc.ignore) (child-place path wc.path ns name p)
      ∙ is_ignored-extend wc.path (ns ++ name ∷ []) wc.ignore
      ∙ ap (λ (m : Text). matches_any_glob (ns ++ m ∷ []) wc.ignore) e
      ∙ clear

  announce-IsFresh :
      (path : FilePath) (ns : List Text) (w : Watcher)
      → Fresh ns w
      → Fresh ns (announce kernel wc path w)
  unfolding announce
  announce-IsFresh path ns w f xs = elim (Bool-cases (is_ignored path wc.path wc.ignore)) [
    | inl i ↦ rw i (f xs)
    | inr i ↦ rw i (f xs)
  ]

  scan-IsFresh :
      (path : FilePath) (ns : List Text) (name n : Text) (l : Listing) (w : Watcher)
      → path ≡ extend wc.path ns
      → name ≢ n
      → Fresh (ns ++ n ∷ []) w
      → Fresh (ns ++ n ∷ []) (scan_directory kernel wc (extend path (name ∷ [])) l w)
  scan-IsFresh path ns name n l w p ne f xs =
      let (v, e, t) =
        directory-SameTable kernel wc (extend path (name ∷ [])) ns name l w w
          (child-place path wc.path ns name p) refl in
      same_watched (extend wc.path (ns ++ n ∷ [] ++ xs))
        (scan_directory kernel wc (extend path (name ∷ [])) l w) v (sym t)
      ∙ other-IsFresh (lenient kernel) wc path ns name n l w v p e ne f xs

  failed_here :
      (path : FilePath) (ns xs : List Text) (w w' : Watcher)
      → path ≡ extend wc.path ns
      → lenient kernel (watched w) path ≡ refused
      → Announced (ns ++ xs) w'
  failed_here path ns xs w w' p a = inr (record {
    above = ns;
    rest = xs;
    way = refl;
    table = watched w;
    answer = ap (lenient kernel (watched w)) (sym p) ∙ a;
  })

  Announced-same : {ms ks : List Text} (w : Watcher) → ms ≡ ks → Announced ms w → Announced ks w
  Announced-same w e c = subst (λ ns. Announced ns w) e c

  mutual
    unfolding scan_directory At HasDistinctNames

    pub directory-Announced :
        (path : FilePath) (ns : List Text) (l : Listing) (w : Watcher) (xs : List Text)
        → path ≡ extend wc.path ns
        → is_ignored path wc.path wc.ignore ≡ false
        → HasDistinctNames (dir l)
        → Fresh ns w
        → At false (dir l) xs
        → Clear wc.ignore ns xs
        → Announced (ns ++ xs) (scan_directory kernel wc path l w)
    directory-Announced path ns locked w [] p i d f at cl = absurd (cc at)
    directory-Announced path ns locked w (n ∷ xs) p i d f at cl = absurd at
    directory-Announced path ns (listed es) w [] p i d f at cl = absurd (cc at)
    directory-Announced path ns (listed es) w (n ∷ xs) p i d f at (clear, cl) =
        elim (watch_and-Went kernel wc path (λ v. scan_entries kernel wc path es v) w) [
          | passed s h ↦ absurd (cc (s, not_passed path ns w p i f))
          | failed a h ↦
              failed_here path ns (n ∷ xs) w
                (watch_and kernel wc path (λ v. scan_entries kernel wc path es v) w) p a
          | went s h ↦
              subst (λ (v : Watcher). Announced (ns ++ n ∷ xs) v) h
                (Announced-same (scan_entries kernel wc path es (register path wc w))
                  (append_assoc ns (n ∷ []) xs)
                  (entries-Announced path ns es (register path wc w) n xs p d
                    (λ m named. register-IsFresh (lenient kernel) wc path ns m w p f) at clear cl))
        ]

    entries-Announced :
        (path : FilePath) (ns : List Text) (es : Entries) (w : Watcher) (n : Text) (xs : List Text)
        → path ≡ extend wc.path ns
        → HaveDistinctNames es
        → ((m : Text) → Named m es → Fresh (ns ++ m ∷ []) w)
        → AtEntries false es n xs
        → matches_any_glob (ns ++ n ∷ []) wc.ignore ≡ false
        → Clear wc.ignore (ns ++ n ∷ []) xs
        → Announced (ns ++ n ∷ [] ++ xs) (scan_entries kernel wc path es w)
    entries-Announced path ns end w n xs p d f at clear cl = absurd at
    entries-Announced path ns (entry name file es) w n [] p d f (inl (e, at)) clear cl =
        let child = extend path (name ∷ []) in
        let place : child ≡ extend wc.path (ns ++ n ∷ [] ++ []) =
          child-place path wc.path ns name p
          ∙ ap (λ (m : Text). extend wc.path (ns ++ m ∷ [])) e
          ∙ ap (extend wc.path) (sym (append-nil (ns ++ n ∷ []))) in
        inl (
          entries-keep-event kernel wc path es (announce kernel wc child w)
            (event_at (ns ++ n ∷ [] ++ []))
            (subst
              (λ q. In (codes "IN_MOVED_TO", q, wc.path) (announce kernel wc child w).synthetic)
              place (announce-In kernel wc child w (place_not_ignored path ns name n p e clear))))
    entries-Announced path ns (entry name file es) w n (x ∷ xs) p d f (inl (e, at)) clear cl =
        absurd at
    entries-Announced path ns (entry name file es) w n xs p d f (inr at) clear cl =
        entries-Announced path ns es (announce kernel wc (extend path (name ∷ [])) w) n xs p d.2
          (λ m k. announce-IsFresh (extend path (name ∷ [])) (ns ++ m ∷ []) w (f m (inr k))) at
          clear cl
    entries-Announced path ns (entry name (dir l) es) w n xs p d f (inl (e, at)) clear cl =
        let child = extend path (name ∷ []) in
        let v = scan_directory kernel wc child l w in
        let same : ns ++ name ∷ [] ≡ ns ++ n ∷ [] = ap (λ (m : Text). ns ++ m ∷ []) e in
        elim (directory-Announced child (ns ++ name ∷ []) l w xs
          (child-place path wc.path ns name p) (place_not_ignored path ns name n p e clear) d.1
          (f name (inl refl)) at
          (subst (λ (ms : List Text). Clear wc.ignore ms xs) (sym same) cl)) [
            | inl m ↦ inl (
                entries-keep-event kernel wc path es v (event_at (ns ++ n ∷ [] ++ xs))
                  (subst (λ (ms : List Text). In (event_at (ms ++ xs)) v.synthetic) same m))
            | inr r ↦
                inr (subst (λ (ms : List Text). Refusal (lenient kernel) wc (ms ++ xs)) same r)
          ]
    entries-Announced path ns (entry name (dir l) es) w n xs p d f (inr at) clear cl =
        entries-Announced path ns es (scan_directory kernel wc (extend path (name ∷ [])) l w) n xs p
          d.2 (λ m k. scan-IsFresh path ns name m l w p (λ e. d.0 (rw e k)) (f m (inr k))) at clear
          cl
    entries-Announced path ns (broken es) w n xs p d f at clear cl =
        entries-Announced path ns es w n xs p d f at clear cl
