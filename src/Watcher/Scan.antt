-- ===== src/Watcher/Scan.antt =====
-- What `_add_dir_and_scan` does to the table, beside `_add_recursive`, and to the synthetic events.
use mirror_mirage.Prelude.{
  ◌≡◌, refl, sym, ap, ◌∙◌, inl, inr, List, [], ◌∷◌, ◌++◌, arith, Bool-cases,
}
use mirror_mirage.Text.{Text}
use mirror_mirage.FilePath.{FilePath, extend, path_eq_iff, path_keys}
use mirror_mirage.Dict
use mirror_mirage.Dict.{keys}
use mirror_mirage.Config.{WatchConfig}
use mirror_mirage.Watcher.{
  Watcher, Kernel, Added, added, no_space, refused, Startup, started, watched, register, is_skipped,
  watch_then, add_directory, add_entries, announce, is_passed_over, watch_and, scan_directory,
  scan_entries,
}
use mirror_mirage.Watcher.Files.{file, dir, Listing, locked, listed, Entries, end, entry, broken}
use mirror_mirage.Watcher.Places.{child-place, below-ne-root}
use mirror_mirage.Watcher.Growth.{Added-cases}

-- The kernel as `_add_recursive` would have to see it to go on after ENOSPC too.
abbrev as_refused : Added → Added
as_refused added = added
as_refused no_space = refused
as_refused refused = refused

abbrev pub lenient : Kernel → Kernel
lenient kernel table path = as_refused (kernel table path)

module _ (kernel : Kernel) (wc : WatchConfig) where
  -- `_add_recursive` starts, and leaves the same table.
  abbrev pub SameTable : Startup Watcher → Watcher → Type 0
  SameTable s w = (v : Watcher) × (s ≡ started v) × (v.dir_to_root ≡ w.dir_to_root)

  same_tests :
      (path : FilePath) (ns : List Text) (n : Text) (v w : Watcher)
      → path ≡ extend wc.path (ns ++ n ∷ [])
      → v.dir_to_root ≡ w.dir_to_root
      → is_skipped (lenient kernel) wc path v ≡ is_passed_over kernel wc path w
  unfolding is_skipped is_passed_over
  same_tests path ns n v w p e = rw e (
      ground (
        arith,
        path_eq_iff path wc.path,
        λ (f : path ≡ wc.path). below-ne-root wc.path ns n (sym p ∙ f),
      ))

  watch_and-SameTable :
      (path : FilePath) (ns : List Text) (n : Text) (scan : Watcher → Watcher)
      (scan' : Watcher → Startup Watcher) (v w : Watcher)
      → path ≡ extend wc.path (ns ++ n ∷ [])
      → v.dir_to_root ≡ w.dir_to_root
      → ((a b : Watcher) → a.dir_to_root ≡ b.dir_to_root → SameTable (scan' a) (scan b))
      → SameTable (watch_then (lenient kernel) wc path scan' v) (watch_and kernel wc path scan w)
  watch_and-SameTable path ns n scan scan' v w p e k =
      let tests = same_tests path ns n v w p e in
      let tables : watched v ≡ watched w = ap keys e in
      elim (Bool-cases (is_passed_over kernel wc path w)) [
        | inl s ↦ (v, rw (tests ∙ s, watch_then), rw (s, watch_and) e)
        | inr s ↦ elim (Added-cases (kernel (watched w) path)) [
          | inl a ↦
              rw (tests ∙ s, s, watch_then, watch_and, tables, a)
                (k (register path wc v) (register path wc w) (ap (Dict.put path wc.path) e))
          | inr (inl a) ↦ (v, rw (tests ∙ s, watch_then, tables, a), rw (s, watch_and, a) e)
          | inr (inr a) ↦ (v, rw (tests ∙ s, watch_then, tables, a), rw (s, watch_and, a) e)
        ]
      ]

  announce-table :
      (path : FilePath) (w : Watcher) → (announce kernel wc path w).dir_to_root ≡ w.dir_to_root
  unfolding announce
  announce-table path w = ground arith

  mutual
    unfolding scan_directory add_directory

    pub directory-SameTable :
        (path : FilePath) (ns : List Text) (n : Text) (l : Listing) (v w : Watcher)
        → path ≡ extend wc.path (ns ++ n ∷ [])
        → v.dir_to_root ≡ w.dir_to_root
        → SameTable (add_directory (lenient kernel) wc path l v) (scan_directory kernel wc path l w)
    directory-SameTable path ns n locked v w p e =
        watch_and-SameTable path ns n (λ b. b) (λ a. started a) v w p e (λ a b f. (a, refl, f))
    directory-SameTable path ns n (listed es) v w p e =
        watch_and-SameTable path ns n (λ b. scan_entries kernel wc path es b)
          (λ a. add_entries (lenient kernel) wc path es a) v w p e
          (λ a b f. entries-SameTable path (ns ++ n ∷ []) es a b p f)

    entries-SameTable :
        (path : FilePath) (ns : List Text) (es : Entries) (v w : Watcher)
        → path ≡ extend wc.path ns
        → v.dir_to_root ≡ w.dir_to_root
        → SameTable (add_entries (lenient kernel) wc path es v) (scan_entries kernel wc path es w)
    entries-SameTable path ns end v w p e = (v, refl, e)
    entries-SameTable path ns (entry name file es) v w p e =
        entries-SameTable path ns es v (announce kernel wc (extend path (name ∷ [])) w) p
          (e ∙ sym (announce-table (extend path (name ∷ [])) w))
    entries-SameTable path ns (entry name (dir l) es) v w p e =
        let child = extend path (name ∷ []) in
        let (u, h, f) =
          directory-SameTable child ns name l v w (child-place path wc.path ns name p) e in
        let (t, g, r) = entries-SameTable path ns es u (scan_directory kernel wc child l w) p f in
        (t, rw h g, r)
    entries-SameTable path ns (broken es) v w p e = entries-SameTable path ns es v w p e
