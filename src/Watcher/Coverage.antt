-- ===== src/Watcher/Coverage.antt =====
-- Which directories are watched after `_add_recursive` on a watch's root.
use mirror_mirage.Prelude.{
  ◌≡◌, refl, sym, ap, subst, ◌∙◌, ◌⊎◌, inl, inr, true, false, List, [], ◌∷◌, ◌++◌,
}
use mathlib.Core.List.{append_assoc, append-nil}
use mirror_mirage.Text.{Text}
use mirror_mirage.FilePath.{FilePath, extend}
use mirror_mirage.Config.{WatchConfig}
use mirror_mirage.Glob.{matches_any_glob}
use mirror_mirage.Watcher.{
  Watcher, Kernel, refused, started, is_ignored, is_watched, watched, register, add_directory,
  add_entries, add_recursive,
}
use mirror_mirage.Watcher.Files.{
  Tree, file, dir, Listing, locked, listed, Entries, end, entry, broken,
}
use mirror_mirage.Watcher.Places.{
  At, AtEntries, Clear, HasDistinctNames, HaveDistinctNames, child-place, is_ignored-extend,
  extend-nil,
}
use mirror_mirage.Watcher.Growth.{
  skipped, denied, scanned, watch_then-Ended, bind_inv, started_inj, register-is_watched_self,
  entries-keep, directory-keeps,
}
use mirror_mirage.Watcher.Only.{directory-only}
use mirror_mirage.Watcher.Fresh.{
  IsFresh, IsFreshFor, Passes, not_skipped, register-IsFresh, other-IsFresh,
}

module _ (kernel : Kernel) (wc : WatchConfig) where
  -- A directory on the way, or the place itself, for which `add_watch` failed.
  pub record Refusal (ms : List Text) : Type 0 where
    pub above : List Text
    pub rest : List Text
    pub way : ms ≡ above ++ rest
    pub table : List FilePath
    pub answer : kernel table (extend wc.path above) ≡ refused

  abbrev pub Covered : List Text → Watcher → Type 0
  Covered ms w = (is_watched (extend wc.path ms) w ≡ true) ⊎ Refusal ms

  Covered-later :
      (ms : List Text) (w w' : Watcher)
      → (is_watched (extend wc.path ms) w ≡ true → is_watched (extend wc.path ms) w' ≡ true)
      → Covered ms w
      → Covered ms w'
  Covered-later ms w w' keeps (inl h) = inl (keeps h)
  Covered-later ms w w' keeps (inr r) = inr r

  pub Covered-same : {ms ks : List Text} (w : Watcher) → ms ≡ ks → Covered ms w → Covered ks w
  Covered-same w e c = subst (λ ns. Covered ns w) e c

  refused_here :
      (path : FilePath) (ns xs : List Text) (w w' : Watcher)
      → path ≡ extend wc.path ns
      → kernel (watched w) path ≡ refused
      → Covered (ns ++ xs) w'
  refused_here path ns xs w w' p a = inr (record {
    above = ns;
    rest = xs;
    way = refl;
    table = watched w;
    answer = ap (kernel (watched w)) (sym p) ∙ a;
  })

  -- The directory itself, once it is registered.
  registered_here :
      (path : FilePath) (ns : List Text) (w w' : Watcher)
      → path ≡ extend wc.path ns
      → (is_watched path (register path wc w) ≡ true → is_watched path w' ≡ true)
      → Covered (ns ++ []) w'
  registered_here path ns w w' p keeps = inl (
      ap (λ q. is_watched q w') (ap (extend wc.path) (append-nil ns) ∙ sym p)
      ∙ keeps (register-is_watched_self path wc w))

  mutual
    unfolding add_directory At HasDistinctNames

    pub directory-Covered :
        (path : FilePath) (ns : List Text) (l : Listing) (w w' : Watcher) (xs : List Text)
        → path ≡ extend wc.path ns
        → Passes kernel wc path
        → HasDistinctNames (dir l)
        → IsFresh kernel wc ns w
        → add_directory kernel wc path l w ≡ started w'
        → At true (dir l) xs
        → Clear wc.ignore ns xs
        → Covered (ns ++ xs) w'
    directory-Covered path ns locked w w' [] p c d f h at cl =
        elim (watch_then-Ended kernel wc path (λ v. started v) w w' h) [
          | skipped s e ↦ absurd (cc (s, not_skipped kernel wc path ns w p c f))
          | denied s a e ↦ refused_here path ns [] w w' p a
          | scanned s a e ↦
              registered_here path ns w w' p
                (λ k. subst (λ v. is_watched path v ≡ true) (started_inj e) k)
        ]
    directory-Covered path ns locked w w' (n ∷ xs) p c d f h at cl = absurd at
    directory-Covered path ns (listed es) w w' [] p c d f h at cl =
        elim (watch_then-Ended kernel wc path (λ v. add_entries kernel wc path es v) w w' h) [
          | skipped s e ↦ absurd (cc (s, not_skipped kernel wc path ns w p c f))
          | denied s a e ↦ refused_here path ns [] w w' p a
          | scanned s a e ↦
              registered_here path ns w w' p
                (λ k. entries-keep kernel wc path es (register path wc w) w' path e k)
        ]
    directory-Covered path ns (listed es) w w' (n ∷ xs) p c d f h at (clear, cl) =
        elim (watch_then-Ended kernel wc path (λ v. add_entries kernel wc path es v) w w' h) [
          | skipped s e ↦ absurd (cc (s, not_skipped kernel wc path ns w p c f))
          | denied s a e ↦ refused_here path ns (n ∷ xs) w w' p a
          | scanned s a e ↦ Covered-same w' (append_assoc ns (n ∷ []) xs) (
              entries-Covered path ns es (register path wc w) w' n xs p d
                (λ m named. register-IsFresh kernel wc path ns m w p f) e at clear cl)
        ]

    entries-Covered :
        (path : FilePath) (ns : List Text) (es : Entries) (w w' : Watcher) (n : Text)
        (xs : List Text)
        → path ≡ extend wc.path ns
        → HaveDistinctNames es
        → IsFreshFor kernel wc ns es w
        → add_entries kernel wc path es w ≡ started w'
        → AtEntries true es n xs
        → matches_any_glob (ns ++ n ∷ []) wc.ignore ≡ false
        → Clear wc.ignore (ns ++ n ∷ []) xs
        → Covered (ns ++ n ∷ [] ++ xs) w'
    entries-Covered path ns end w w' n xs p d f h at clear cl = absurd at
    entries-Covered path ns (entry name file es) w w' n [] p d f h (inl (e, at)) clear cl =
        absurd (cc at)
    entries-Covered path ns (entry name file es) w w' n (x ∷ xs) p d f h (inl (e, at)) clear cl =
        absurd at
    entries-Covered path ns (entry name file es) w w' n xs p d f h (inr at) clear cl =
        entries-Covered path ns es w w' n xs p d.2 (λ m k. f m (inr k)) h at clear cl
    entries-Covered path ns (entry name (dir l) es) w w' n xs p d f h (inl (e, at)) clear cl =
        let child = extend path (name ∷ []) in
        let (v, now, rest) =
          bind_inv (add_directory kernel wc child l w) (λ v. add_entries kernel wc path es v) w'
            h in
        let place = child-place path wc.path ns name p in
        let same : ns ++ name ∷ [] ≡ ns ++ n ∷ [] = ap (λ (m : Text). ns ++ m ∷ []) e in
        Covered-later (ns ++ n ∷ [] ++ xs) v w'
          (entries-keep kernel wc path es v w' (extend wc.path (ns ++ n ∷ [] ++ xs)) rest)
          (Covered-same v (ap (λ (ms : List Text). ms ++ xs) same) (
            directory-Covered child (ns ++ name ∷ []) l w v xs place
              (inr (
                ap (λ q. is_ignored q wc.path wc.ignore) place
                ∙ is_ignored-extend wc.path (ns ++ name ∷ []) wc.ignore
                ∙ rw same clear))
              d.1 (f name (inl refl)) now at
              (subst (λ (ms : List Text). Clear wc.ignore ms xs) (sym same) cl)))
    entries-Covered path ns (entry name (dir l) es) w w' n xs p d f h (inr at) clear cl =
        let child = extend path (name ∷ []) in
        let (v, now, rest) =
          bind_inv (add_directory kernel wc child l w) (λ v. add_entries kernel wc path es v) w'
            h in
        entries-Covered path ns es v w' n xs p d.2
          (λ m k.
            other-IsFresh kernel wc path ns name m l w v p now (λ e. d.0 (rw e k)) (f m (inr k)))
          rest at clear cl
    entries-Covered path ns (broken es) w w' n xs p d f h at clear cl =
        entries-Covered path ns es w w' n xs p d f h at clear cl

  -- A directory of the tree, on a way that is not ignored.
  abbrev pub IsPlace : Tree → List Text → Type 0
  IsPlace tree xs = At true tree xs × Clear wc.ignore [] xs

  pub recursive-Covered :
      (tree : Tree) (w w' : Watcher) (xs : List Text)
      → HasDistinctNames tree
      → IsFresh kernel wc [] w
      → add_recursive kernel wc wc.path tree w ≡ started w'
      → IsPlace tree xs
      → Covered xs w'
  unfolding add_recursive At
  recursive-Covered file w w' [] d f h (at, cl) = absurd (cc at)
  recursive-Covered file w w' (x ∷ xs) d f h (at, cl) = absurd at
  recursive-Covered (dir l) w w' xs d f h (at, cl) =
      directory-Covered wc.path [] l w w' xs (sym (extend-nil wc.path)) (inl refl) d f h at cl

  pub recursive-only :
      (tree : Tree) (w w' : Watcher) (q : FilePath)
      → add_recursive kernel wc wc.path tree w ≡ started w'
      → is_watched q w' ≡ true
      → (is_watched q w ≡ true) ⊎ ((xs : List Text) × (q ≡ extend wc.path xs) × IsPlace tree xs)
  unfolding add_recursive
  recursive-only file w w' q h k = inl (subst (λ v. is_watched q v ≡ true) (sym (started_inj h)) k)
  recursive-only (dir l) w w' q h k =
      elim (directory-only kernel wc wc.path [] l w w' q (sym (extend-nil wc.path)) h k) [
        | inl old ↦ inl old
        | inr (s, b) ↦ inr (b.rest, b.place, (b.at, b.clear))
      ]

  pub recursive-keeps :
      (tree : Tree) (w w' : Watcher) (q : FilePath)
      → add_recursive kernel wc wc.path tree w ≡ started w'
      → is_watched q w ≡ true
      → is_watched q w' ≡ true
  unfolding add_recursive
  recursive-keeps file w w' q h k = subst (λ v. is_watched q v ≡ true) (started_inj h) k
  recursive-keeps (dir l) w w' q h k = directory-keeps kernel wc wc.path l w w' q h k
