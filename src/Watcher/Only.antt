-- ===== src/Watcher/Only.antt =====
-- That `_add_recursive` adds nothing else: only directories of the tree that are not ignored.
use mirror_mirage.Prelude.{
  ◌≡◌, refl, sym, ap, subst, ◌∙◌, ◌⊎◌, inl, inr, true, false, List, [], ◌∷◌, ◌++◌, arith,
}
use mathlib.Core.List.{append_assoc, append-nil}
use mirror_mirage.Text.{Text}
use mirror_mirage.FilePath.{FilePath, extend, path_eq_iff, path_keys}
use mirror_mirage.Config.{WatchConfig}
use mirror_mirage.Glob.{matches_any_glob}
use mirror_mirage.Watcher.{
  Watcher, Kernel, started, is_ignored, is_watched, register, is_skipped, add_directory,
  add_entries,
}
use mirror_mirage.Watcher.Files.{
  Tree, file, dir, Listing, locked, listed, Entries, end, entry, broken,
}
use mirror_mirage.Watcher.Places.{
  At, AtEntries, Clear, is_ignored-extend, below-ne-root, child-place,
}
use mirror_mirage.Watcher.Growth.{
  started_inj, bind_inv, skipped, denied, scanned, watch_then-Ended, register-only,
}

module _ (kernel : Kernel) (wc : WatchConfig) where
  -- A directory that was not watched before stands below, on a way that is not ignored.
  pub record Below (ns : List Text) (P : List Text → Type 0) (q : FilePath) : Type 0 where
    pub rest : List Text
    pub place : q ≡ extend wc.path (ns ++ rest)
    pub at : P rest
    pub clear : Clear wc.ignore ns rest

  abbrev pub New : List Text → (List Text → Type 0) → FilePath → Watcher → Type 0
  New ns P q w = (is_watched q w ≡ true) ⊎ Below ns P q

  not_ignored :
      (path : FilePath) (ns : List Text) (n : Text) (w : Watcher)
      → path ≡ extend wc.path (ns ++ n ∷ [])
      → is_skipped kernel wc path w ≡ false
      → matches_any_glob (ns ++ n ∷ []) wc.ignore ≡ false
  unfolding is_skipped
  not_ignored path ns n w e h =
      sym (is_ignored-extend wc.path (ns ++ n ∷ []) wc.ignore)
      ∙ ap (λ p. is_ignored p wc.path wc.ignore) (sym e)
      ∙ ground (
        arith,
        path_eq_iff path wc.path,
        λ (f : path ≡ wc.path). below-ne-root wc.path ns n (sym e ∙ f),
      )

  own :
      (path : FilePath) (ns : List Text) (P : List Text → Type 0) (w : Watcher) (q : FilePath)
      → path ≡ extend wc.path ns
      → is_skipped kernel wc path w ≡ false
      → P []
      → (q ≡ path) ⊎ (is_watched q w ≡ true)
      → (is_watched q w ≡ true) ⊎ ((is_skipped kernel wc path w ≡ false) × Below ns P q)
  own path ns P w q p s here (inr old) = inl old
  own path ns P w q p s here (inl same) = inr (
    s,
    record {
      rest = [];
      place = same ∙ p ∙ ap (extend wc.path) (sym (append-nil ns));
      at = here;
      clear = tt;
    },
  )

  -- A place below an entry of the directory at `ns`, the entry not ignored.
  abbrev EntryBelow : List Text → Entries → FilePath → Type 0
  EntryBelow ns es q =
      (n : Text) × Below (ns ++ n ∷ [])
        (λ ms. AtEntries true es n ms × (matches_any_glob (ns ++ n ∷ []) wc.ignore ≡ false)) q

  later :
      (ns : List Text) (name : Text) (child : Tree) (es : Entries) (w : Watcher) (q : FilePath)
      → (is_watched q w ≡ true) ⊎ EntryBelow ns es q
      → (is_watched q w ≡ true) ⊎ EntryBelow ns (entry name child es) q
  unfolding At
  later ns name child es w q (inl old) = inl old
  later ns name child es w q (inr (n, b)) =
      inr (n, record { rest = b.rest; place = b.place; at = (inr b.at.0, b.at.1); clear = b.clear })

  -- Nothing else is added.
  mutual
    unfolding add_directory At

    pub directory-only :
        (path : FilePath) (ns : List Text) (l : Listing) (w w' : Watcher) (q : FilePath)
        → path ≡ extend wc.path ns
        → add_directory kernel wc path l w ≡ started w'
        → is_watched q w' ≡ true
        → (is_watched q w ≡ true)
          ⊎ ((is_skipped kernel wc path w ≡ false) × Below ns (At true (dir l)) q)
    directory-only path ns locked w w' q p h k =
        elim (watch_then-Ended kernel wc path (λ v. started v) w w' h) [
          | skipped s e ↦ inl (subst (λ v. is_watched q v ≡ true) (sym e) k)
          | denied s a e ↦ inl (subst (λ v. is_watched q v ≡ true) (sym e) k)
          | scanned s a e ↦ own path ns (At true (dir locked)) w q p s refl (
              register-only kernel wc path q w
                (subst (λ v. is_watched q v ≡ true) (sym (started_inj e)) k))
        ]
    directory-only path ns (listed es) w w' q p h k =
        elim (watch_then-Ended kernel wc path (λ v. add_entries kernel wc path es v) w w' h) [
          | skipped s e ↦ inl (subst (λ v. is_watched q v ≡ true) (sym e) k)
          | denied s a e ↦ inl (subst (λ v. is_watched q v ≡ true) (sym e) k)
          | scanned s a e ↦ elim (entries-only path ns es (register path wc w) w' q p e k) [
            | inl old ↦
                own path ns (At true (dir (listed es))) w q p s refl
                  (register-only kernel wc path q w old)
            | inr (n, below) ↦ inr (
              s,
              record {
                rest = n ∷ below.rest;
                place = below.place ∙ ap (extend wc.path) (append_assoc ns (n ∷ []) below.rest);
                at = below.at.0;
                clear = (below.at.1, below.clear);
              },
            )
          ]
        ]

    pub entries-only :
        (path : FilePath) (ns : List Text) (es : Entries) (w w' : Watcher) (q : FilePath)
        → path ≡ extend wc.path ns
        → add_entries kernel wc path es w ≡ started w'
        → is_watched q w' ≡ true
        → (is_watched q w ≡ true) ⊎ EntryBelow ns es q
    entries-only path ns end w w' q p h k =
        inl (subst (λ v. is_watched q v ≡ true) (sym (started_inj h)) k)
    entries-only path ns (entry name file es) w w' q p h k =
        later ns name file es w q (entries-only path ns es w w' q p h k)
    entries-only path ns (entry name (dir l) es) w w' q p h k =
        let child = extend path (name ∷ []) in
        let (v, e, rest) =
          bind_inv (add_directory kernel wc child l w) (λ v. add_entries kernel wc path es v) w'
            h in
        elim (entries-only path ns es v w' q p rest k) [
          | inr x ↦ later ns name (dir l) es w q (inr x)
          | inl now ↦
              elim (directory-only child (ns ++ name ∷ []) l w v q
                (child-place path wc.path ns name p) e now) [
                  | inl old ↦ inl old
                  | inr (s, below) ↦ inr (
                    name,
                    record {
                      rest = below.rest;
                      place = below.place;
                      at = (
                        inl (refl, below.at),
                        not_ignored child ns name w (child-place path wc.path ns name p) s,
                      );
                      clear = below.clear;
                    },
                  )
                ]
        ]
    entries-only path ns (broken es) w w' q p h k = entries-only path ns es w w' q p h k
