-- ===== src/Watcher/Starting.antt =====
-- Which directories are watched when `__aenter__` returns.
use mirror_mirage.Prelude.{
  ℕ, ◌≡◌, refl, sym, inl, inr, true, Option, List, [], ◌∷◌, In, All, All-In, Bool-cases, subst,
}
use mirror_mirage.Text.{Text}
use mirror_mirage.FilePath.{FilePath, extend}
use mirror_mirage.Dict
use mirror_mirage.Config.{WatchConfig}
use mirror_mirage.Watcher.{
  Watcher, Kernel, closed, started, is_watched, add_recursive, add_all, enter, needed_for, is_over,
}
use mirror_mirage.Watcher.Files.{Tree}
use mirror_mirage.Watcher.Places.{HasDistinctNames}
use mirror_mirage.Watcher.Growth.{bind_inv, started_inj}
use mirror_mirage.Watcher.Coverage.{
  Covered, IsPlace, recursive-Covered, recursive-only, recursive-keeps,
}
use mirror_mirage.Watcher.Fresh.{IsFresh}

-- No path lies below both roots.
abbrev pub Apart : WatchConfig → WatchConfig → Type 0
Apart v wc = (xs ys : List Text) → ¬ (extend v.path xs ≡ extend wc.path ys)

abbrev pub AllApart : List WatchConfig → Type 0
AllApart [] = Unit
AllApart (v ∷ vs) = All (λ wc. Apart v wc) vs × AllApart vs

module _ (kernel : Kernel) (tree_of : FilePath → Tree) where
  Apart-IsFresh :
      (v wc : WatchConfig) (w w' : Watcher)
      → Apart v wc
      → add_recursive kernel v v.path (tree_of v.path) w ≡ started w'
      → IsFresh kernel wc [] w
      → IsFresh kernel wc [] w'
  Apart-IsFresh v wc w w' apart h f xs = elim (Bool-cases (is_watched (extend wc.path xs) w')) [
    | inr new ↦ new
    | inl k ↦ elim (recursive-only kernel v (tree_of v.path) w w' (extend wc.path xs) h k) [
      | inl old ↦ absurd (cc (old, f xs))
      | inr (ys, e, place) ↦ absurd (apart ys xs (sym e))
    ]
  ]

  all-keep :
      (watches : List WatchConfig) (w w' : Watcher) (q : FilePath)
      → add_all kernel tree_of watches w ≡ started w'
      → is_watched q w ≡ true
      → is_watched q w' ≡ true
  unfolding add_all
  all-keep [] w w' q h k = subst (λ v. is_watched q v ≡ true) (started_inj h) k
  all-keep (v ∷ vs) w w' q h k =
      let (u, e, rest) =
        bind_inv (add_recursive kernel v v.path (tree_of v.path) w)
          (λ u. add_all kernel tree_of vs u) w' h in
      all-keep vs u w' q rest (recursive-keeps kernel v (tree_of v.path) w u q e k)

  All-Covered :
      (watches : List WatchConfig) (wc : WatchConfig) (w w' : Watcher) (xs : List Text)
      → AllApart watches
      → All (λ v. IsFresh kernel v [] w) watches
      → add_all kernel tree_of watches w ≡ started w'
      → In wc watches
      → HasDistinctNames (tree_of wc.path)
      → IsPlace kernel wc (tree_of wc.path) xs
      → Covered kernel wc xs w'
  unfolding add_all
  All-Covered [] wc w w' xs a f h m d place = absurd m
  All-Covered (v ∷ vs) wc w w' xs (a, as_) (f, fs) h m d place =
      let (u, e, rest) =
        bind_inv (add_recursive kernel v v.path (tree_of v.path) w)
          (λ u. add_all kernel tree_of vs u) w' h in
      elim m [
        | inl same ↦
            elim (recursive-Covered kernel wc (tree_of wc.path) w u xs d
              (subst (λ (x : WatchConfig). IsFresh kernel x [] w) (sym same) f)
              (subst
                (λ (x : WatchConfig). add_recursive kernel x x.path (tree_of x.path) w ≡ started u)
                (sym same) e)
              place) [ inl k ↦ inl (all-keep vs u w' (extend wc.path xs) rest k) | inr r ↦ inr r ]
        | inr n ↦
            All-Covered vs wc u w' xs as_
              (fresh vs u (λ x k. Apart-IsFresh v x w u (All-In _ vs x a k) e (All-In _ vs x fs k)))
              rest n d place
      ]
    where
      fresh :
          (ws : List WatchConfig) (u : Watcher)
          → ((x : WatchConfig) → In x ws → IsFresh kernel x [] u)
          → All (λ x. IsFresh kernel x [] u) ws
      fresh [] u k = tt
      fresh (x ∷ ws) u k = (k x (inl refl), fresh ws u (λ y n. k y (inr n)))

  closed-IsFresh : (watches : List WatchConfig) → All (λ v. IsFresh kernel v [] closed) watches
  unfolding Dict.get
  closed-IsFresh [] = tt
  closed-IsFresh (v ∷ vs) = ((λ xs. refl), closed-IsFresh vs)

  pub enter-add_all :
      (available : Option ℕ) (watches : List WatchConfig) (w : Watcher)
      → enter kernel tree_of available watches ≡ started w
      → add_all kernel tree_of watches closed ≡ started w
  unfolding enter
  enter-add_all available watches w h =
      elim (Bool-cases (is_over (needed_for tree_of watches) available)) [
        | inl e ↦ absurd (cc (rw e at h))
        | inr e ↦ rw e at h
      ]

  -- When the watcher has started, with no watch root inside another: every directory of a watch
  -- root's tree that no ignore glob of the watch matches, nor any directory on the way to it below
  -- the root, is watched, unless inotify refused a watch on it or on a directory on the way. The
  -- names within a directory are distinct.
  pub enter-Covered :
      (available : Option ℕ) (watches : List WatchConfig) (wc : WatchConfig) (w : Watcher)
      (xs : List Text)
      → AllApart watches
      → In wc watches
      → HasDistinctNames (tree_of wc.path)
      → enter kernel tree_of available watches ≡ started w
      → IsPlace kernel wc (tree_of wc.path) xs
      → Covered kernel wc xs w
  enter-Covered available watches wc w xs a m d h place =
      All-Covered watches wc closed w xs a (closed-IsFresh watches)
        (enter-add_all available watches w h) m d place
