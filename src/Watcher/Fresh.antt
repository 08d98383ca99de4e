-- ===== src/Watcher/Fresh.antt =====
-- Places with nothing watched at them or below, before and after `_add_recursive`.
use mirror_mirage.Prelude.{
  ◌≡◌, sym, ap, ◌∙◌, ◌≢◌, ◌⊎◌, inl, inr, false, List, [], ◌∷◌, ◌++◌, arith, Bool-cases,
}
use mathlib.Core.List.{append_assoc, append-nil}
use mirror_mirage.Text.{Text}
use mirror_mirage.FilePath.{FilePath, extend, path_eq, path_eq_iff}
use mirror_mirage.Config.{WatchConfig}
use mirror_mirage.Watcher.{
  Watcher, Kernel, started, is_ignored, is_watched, register, is_skipped, add_directory,
}
use mirror_mirage.Watcher.Files.{Listing, Entries}
use mirror_mirage.Watcher.Places.{Named, child-place, other_name, below-ne-here}
use mirror_mirage.Watcher.Growth.{register-is_watched}
use mirror_mirage.Watcher.Only.{directory-only}

module _ (kernel : Kernel) (wc : WatchConfig) where
  -- No directory at the place or below it is watched yet.
  abbrev pub IsFresh : List Text → Watcher → Type 0
  IsFresh ns w = (xs : List Text) → is_watched (extend wc.path (ns ++ xs)) w ≡ false

  abbrev pub IsFreshFor : List Text → Entries → Watcher → Type 0
  IsFreshFor ns es w = (n : Text) → Named n es → IsFresh (ns ++ n ∷ []) w

  -- The root itself, or a place that is not ignored.
  abbrev pub Passes : FilePath → Type 0
  Passes path = (path ≡ wc.path) ⊎ (is_ignored path wc.path wc.ignore ≡ false)

  pub not_skipped :
      (path : FilePath) (ns : List Text) (w : Watcher)
      → path ≡ extend wc.path ns
      → Passes path
      → IsFresh ns w
      → is_skipped kernel wc path w ≡ false
  unfolding is_skipped
  not_skipped path ns w p c f =
      let new : is_watched path w ≡ false =
        ap (λ q. is_watched q w) (p ∙ ap (extend wc.path) (sym (append-nil ns))) ∙ f [] in
      elim c [
        | inl e ↦ rw ((path_eq_iff path wc.path).1 e, new) (ground arith)
        | inr e ↦ rw (e, new) (ground arith)
      ]

  -- Registering a directory leaves what is below it fresh.
  pub register-IsFresh :
      (path : FilePath) (ns : List Text) (n : Text) (w : Watcher)
      → path ≡ extend wc.path ns
      → IsFresh ns w
      → IsFresh (ns ++ n ∷ []) (register path wc w)
  register-IsFresh path ns n w p f xs =
      let q = extend wc.path (ns ++ n ∷ [] ++ xs) in
      register-is_watched path q wc w ∙ elim (Bool-cases (path_eq path q)) [
        | inl e ↦ absurd (below-ne-here wc.path ns n xs (sym ((path_eq_iff path q).0 e) ∙ p))
        | inr e ↦
            rw e (
              ap (λ ms. is_watched (extend wc.path ms) w) (append_assoc ns (n ∷ []) xs)
              ∙ f (n ∷ xs))
      ]

  -- What was added below one entry leaves the places of the others fresh.
  pub other-IsFresh :
      (path : FilePath) (ns : List Text) (name n : Text) (l : Listing) (w v : Watcher)
      → path ≡ extend wc.path ns
      → add_directory kernel wc (extend path (name ∷ [])) l w ≡ started v
      → name ≢ n
      → IsFresh (ns ++ n ∷ []) w
      → IsFresh (ns ++ n ∷ []) v
  other-IsFresh path ns name n l w v p e ne f xs =
      let q = extend wc.path (ns ++ n ∷ [] ++ xs) in
      elim (Bool-cases (is_watched q v)) [
        | inr new ↦ new
        | inl old_one ↦
            elim (directory-only kernel wc (extend path (name ∷ [])) (ns ++ name ∷ []) l w v q
              (child-place path wc.path ns name p) e old_one) [
                | inl old ↦ absurd (cc (old, f xs))
                | inr (s, b) ↦ absurd (
                    other_name wc.path ns n name xs b.rest (λ c. ne (sym c))
                      (ap (extend wc.path) (sym (append_assoc ns (n ∷ []) xs))
                        ∙ b.place
                        ∙ ap (extend wc.path) (append_assoc ns (name ∷ []) b.rest)))
              ]
      ]
