-- ===== src/Watcher/Went.antt =====
-- How a call of `_add_dir_and_scan` goes, and that it loses no synthetic event.
use mirror_mirage.Prelude.{
  ◌≡◌, refl, subst, inl, inr, true, false, [], ◌∷◌, In, In-append_left, In-append_right, Bool-cases,
}
use mirror_mirage.Text.{codes}
use mirror_mirage.FilePath.{FilePath, extend, path_keys}
use mirror_mirage.Config.{WatchConfig}
use mirror_mirage.Watcher.{
  Watcher, Event, Kernel, refused, is_ignored, watched, register, announce, is_passed_over,
  watch_and, scan_directory, scan_entries,
}
use mirror_mirage.Watcher.Files.{file, dir, Listing, locked, listed, Entries, end, entry, broken}
use mirror_mirage.Watcher.Growth.{Added-cases}
use mirror_mirage.Watcher.Scan.{lenient}

module _ (kernel : Kernel) (wc : WatchConfig) where
  -- How a call of `_add_dir_and_scan` goes: it passes the directory over, or fails to watch it, or
  -- goes on to scan it.
  pub data Went (path : FilePath) (scan : Watcher → Watcher) (w w' : Watcher) : Type 0 where
    passed : is_passed_over kernel wc path w ≡ true → w ≡ w' → Went path scan w w'
    failed : lenient kernel (watched w) path ≡ refused → w ≡ w' → Went path scan w w'
    went :
        is_passed_over kernel wc path w ≡ false
        → scan (register path wc w) ≡ w'
        → Went path scan w w'

  pub watch_and-Went :
      (path : FilePath) (scan : Watcher → Watcher) (w : Watcher)
      → Went path scan w (watch_and kernel wc path scan w)
  watch_and-Went path scan w = elim (Bool-cases (is_passed_over kernel wc path w)) [
    | inl s ↦ passed s (rw (s, watch_and))
    | inr s ↦ elim (Added-cases (kernel (watched w) path)) [
      | inl a ↦ went s (rw (s, a, watch_and))
      | inr (inl a) ↦ failed (rw a) (rw (s, a, watch_and))
      | inr (inr a) ↦ failed (rw a) (rw (s, a, watch_and))
    ]
  ]

  pub announce-keeps :
      (path : FilePath) (w : Watcher) (e : Event)
      → In e w.synthetic
      → In e (announce kernel wc path w).synthetic
  unfolding announce
  announce-keeps path w e m = elim (Bool-cases (is_ignored path wc.path wc.ignore)) [
    | inl i ↦ rw i m
    | inr i ↦ rw i (In-append_left e w.synthetic _ m)
  ]

  pub announce-In :
      (path : FilePath) (w : Watcher)
      → is_ignored path wc.path wc.ignore ≡ false
      → In (codes "IN_MOVED_TO", path, wc.path) (announce kernel wc path w).synthetic
  unfolding announce
  announce-In path w i = rw i (In-append_right _ w.synthetic _ (inl refl))

  -- No synthetic event is lost.
  mutual
    unfolding scan_directory

    pub directory-keeps-event :
        (path : FilePath) (l : Listing) (w : Watcher) (e : Event)
        → In e w.synthetic
        → In e (scan_directory kernel wc path l w).synthetic
    directory-keeps-event path locked w e m = elim (watch_and-Went path (λ v. v) w) [
      | passed s h ↦ subst (λ (v : Watcher). In e v.synthetic) h m
      | failed s h ↦ subst (λ (v : Watcher). In e v.synthetic) h m
      | went s h ↦ subst (λ (v : Watcher). In e v.synthetic) h m
    ]
    directory-keeps-event path (listed es) w e m =
        elim (watch_and-Went path (λ v. scan_entries kernel wc path es v) w) [
          | passed s h ↦ subst (λ (v : Watcher). In e v.synthetic) h m
          | failed s h ↦ subst (λ (v : Watcher). In e v.synthetic) h m
          | went s h ↦
              subst (λ (v : Watcher). In e v.synthetic) h
                (entries-keep-event path es (register path wc w) e m)
        ]

    pub entries-keep-event :
        (path : FilePath) (es : Entries) (w : Watcher) (e : Event)
        → In e w.synthetic
        → In e (scan_entries kernel wc path es w).synthetic
    entries-keep-event path end w e m = m
    entries-keep-event path (entry name file es) w e m =
        entries-keep-event path es (announce kernel wc (extend path (name ∷ [])) w) e
          (announce-keeps (extend path (name ∷ [])) w e m)
    entries-keep-event path (entry name (dir l) es) w e m =
        entries-keep-event path es (scan_directory kernel wc (extend path (name ∷ [])) l w) e
          (directory-keeps-event (extend path (name ∷ [])) l w e m)
    entries-keep-event path (broken es) w e m = entries-keep-event path es w e m
