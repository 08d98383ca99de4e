-- ===== src/Watcher/Budget.antt =====
-- The pre-flight count beside the watches that the start needs.
use mirror_mirage.Prelude.{
  ℕ, suc, ◌+◌, ◌≤◌, ◌<◌, ◌≡◌, refl, sym, ◌∙◌, ◌⊎◌, inl, inr, true, some, List, [], ◌∷◌, ◌++◌, arith,
  ◌≢◌, lt→ltb, length, ltb, All, if◌then◌else◌, Bool-cases,
}
use mirror_mirage.Text.{Text}
use mirror_mirage.FilePath.{FilePath, extend, path_eq_iff, path_keys}
use mirror_mirage.Dict
use mirror_mirage.Dict.{Dict, keys}
use mirror_mirage.Config.{WatchConfig}
use mirror_mirage.Watcher.{
  Watcher, Kernel, added, no_space, closed, Startup, started, limit_error, ◌>>=◌, is_ignored,
  watched, register, count_listing, count_entries, count_watchable_dirs, is_skipped, watch_then,
  add_directory, add_entries, add_recursive, add_all, enter, needed_for,
}
use mirror_mirage.Watcher.Places.{child-place, below-ne-root, extend-nil}
use mirror_mirage.Watcher.Files.{
  Tree, file, dir, Listing, locked, listed, Entries, end, entry, broken,
}

-- inotify gives a watch as long as fewer than `limit` are in use.
abbrev pub HasLimit : ℕ → Kernel → Type 0
HasLimit limit kernel =
    (table : List FilePath) (path : FilePath)
    → kernel table path ≡ (if ltb (length table) limit then added else no_space)

-- Every directory can be listed.
unfoldable mutual
  pub IsReadable : Tree → Type 0
  IsReadable file = Unit
  IsReadable (dir locked) = ⊥
  IsReadable (dir (listed es)) = AreReadable es

  pub AreReadable : Entries → Type 0
  AreReadable end = Unit
  AreReadable (entry n child es) = IsReadable child × AreReadable es
  AreReadable (broken es) = AreReadable es

length-put :
    (p : FilePath) (v : FilePath) (d : Dict FilePath FilePath)
    → length (keys (Dict.put p v d)) ≤ suc (length (keys d))
unfolding Dict.put
length-put p v [] = omega arith
length-put p v ((k, u) ∷ d) = ground (arith, length-put p v d)

-- It starts, and has at most so many watches more.
abbrev pub Within : ℕ → Startup Watcher → Watcher → Type 0
Within n (started w') w = length (watched w') ≤ length (watched w) + n
Within n (limit_error needed available) w = ⊥

Within-le : (m n : ℕ) (s : Startup Watcher) (w : Watcher) → m ≤ n → Within m s w → Within n s w
Within-le m n (started w') w le h = omega arith
Within-le m n (limit_error a b) w le h = h

Within-bind :
    (m n : ℕ) (s : Startup Watcher) (f : Watcher → Startup Watcher) (w : Watcher)
    → Within m s w
    → ((v : Watcher) → length (watched v) ≤ length (watched w) + m → Within n (f v) v)
    → Within (m + n) (s >>= f) w
Within-bind m n (started v) f w h k = weaken (f v) (k v h)
  where
    weaken : (s : Startup Watcher) → Within n s v → Within (m + n) s w
    weaken (started u) g = omega (arith, h, g)
    weaken (limit_error a b) g = g
Within-bind m n (limit_error a b) f w h k = h

module _ (limit : ℕ) (kernel : Kernel) (limited : HasLimit limit kernel) (wc : WatchConfig) where
  watch_then-Within :
      (path : FilePath) (scan : Watcher → Startup Watcher) (w : Watcher) (n : ℕ)
      → length (watched w) + suc n ≤ limit
      → Within n (scan (register path wc w)) (register path wc w)
      → Within (suc n) (watch_then kernel wc path scan w) w
  watch_then-Within path scan w n room h = elim (Bool-cases (is_skipped kernel wc path w)) [
    | inl s ↦ rw (s, watch_then) (omega arith)
    | inr s ↦
        rw
          (s, limited (watched w) path, watch_then, lt→ltb (length (watched w)) limit (omega arith))
          (grown (scan (register path wc w)) h)
  ]
    where
      grown : (r : Startup Watcher) → Within n r (register path wc w) → Within (suc n) r w
      grown (started u) g = omega (arith, g, length-put path wc.path w.dir_to_root)
      grown (limit_error a b) g = g

  skipped-Within :
      (path : FilePath) (l : Listing) (w : Watcher)
      → is_skipped kernel wc path w ≡ true
      → Within 0 (add_directory kernel wc path l w) w
  unfolding add_directory
  skipped-Within path locked w s = rw (s, watch_then) (omega arith)
  skipped-Within path (listed es) w s = rw (s, watch_then) (omega arith)

  ignored-Within :
      (path : FilePath) (l : Listing) (w : Watcher)
      → path ≢ wc.path
      → is_ignored path wc.path wc.ignore ≡ true
      → Within 0 (add_directory kernel wc path l w) w
  ignored-Within path l w ne i =
      skipped-Within path l w (unfold is_skipped in ground (arith, i, path_eq_iff path wc.path, ne))

  mutual
    unfolding add_directory count_listing IsReadable

    directory-Within :
        (path : FilePath) (ns : List Text) (l : Listing) (w : Watcher)
        → path ≡ extend wc.path ns
        → IsReadable (dir l)
        → length (watched w) + count_listing wc.path wc.ignore path l ≤ limit
        → Within (count_listing wc.path wc.ignore path l) (add_directory kernel wc path l w) w
    directory-Within path ns locked w p r room = absurd r
    directory-Within path ns (listed es) w p r room =
        watch_then-Within path (λ v. add_entries kernel wc path es v) w
          (count_entries wc.path wc.ignore path es) room
          (entries-Within path ns es (register path wc w) p r
            (omega (arith, room, length-put path wc.path w.dir_to_root)))

    entries-Within :
        (path : FilePath) (ns : List Text) (es : Entries) (w : Watcher)
        → path ≡ extend wc.path ns
        → AreReadable es
        → length (watched w) + count_entries wc.path wc.ignore path es ≤ limit
        → Within (count_entries wc.path wc.ignore path es) (add_entries kernel wc path es w) w
    entries-Within path ns end w p r room = omega arith
    entries-Within path ns (entry name file es) w p r room = entries-Within path ns es w p r.1 room
    entries-Within path ns (entry name (dir l) es) w p r room =
        let child = extend path (name ∷ []) in
        let place = child-place path wc.path ns name p in
        let below = count_listing wc.path wc.ignore child l in
        let others = count_entries wc.path wc.ignore path es in
        elim (Bool-cases (is_ignored child wc.path wc.ignore)) [
          | inl i ↦
              let tight : length (watched w) + others ≤ limit = ground (arith, i, room) in
              rw i (
                Within-bind 0 others (add_directory kernel wc child l w)
                  (λ v. add_entries kernel wc path es v) w
                  (ignored-Within child l w (λ e. below-ne-root wc.path ns name (sym place ∙ e)) i)
                  (λ v h. entries-Within path ns es v p r.1 (omega (arith, h, tight))))
          | inr i ↦
              let loose : length (watched w) + (below + others) ≤ limit = ground (arith, i, room) in
              rw i (
                Within-bind below others (add_directory kernel wc child l w)
                  (λ v. add_entries kernel wc path es v) w
                  (directory-Within child (ns ++ name ∷ []) l w place r.0 (omega (arith, loose)))
                  (λ v h. entries-Within path ns es v p r.1 (omega (arith, h, loose))))
        ]
    entries-Within path ns (broken es) w p r room = entries-Within path ns es w p r room

  recursive-Within :
      (tree : Tree) (w : Watcher)
      → IsReadable tree
      → length (watched w) + count_watchable_dirs wc.path tree wc.ignore ≤ limit
      → Within
          (count_watchable_dirs wc.path tree wc.ignore)
          (add_recursive kernel wc wc.path tree w)
          w
  unfolding add_recursive count_watchable_dirs
  recursive-Within file w r room = omega arith
  recursive-Within (dir l) w r room =
      directory-Within wc.path [] l w (sym (extend-nil wc.path)) r room

module _ (limit : ℕ) (kernel : Kernel) (limited : HasLimit limit kernel)
    (tree_of : FilePath → Tree) where
  All-Within :
      (watches : List WatchConfig) (w : Watcher)
      → All (λ wc. IsReadable (tree_of wc.path)) watches
      → length (watched w) + needed_for tree_of watches ≤ limit
      → Within (needed_for tree_of watches) (add_all kernel tree_of watches w) w
  unfolding add_all needed_for
  All-Within [] w r room = omega arith
  All-Within (wc ∷ wcs) w r room =
      let own = count_watchable_dirs wc.path (tree_of wc.path) wc.ignore in
      Within-bind own (needed_for tree_of wcs) (add_recursive kernel wc wc.path (tree_of wc.path) w)
        (λ v. add_all kernel tree_of wcs v) w
        (recursive-Within limit kernel limited wc (tree_of wc.path) w r.0 (omega (arith, room)))
        (λ v h. All-Within wcs v r.1 (omega (arith, h, room)))

  started_of :
      (n : ℕ) (s : Startup Watcher)
      → Within n s closed
      → (w : Watcher) × (s ≡ started w) × (length (watched w) ≤ n)
  started_of n (started w) h = (w, refl, omega arith)
  started_of n (limit_error a b) h = absurd h

  -- If every directory can be listed, and inotify gives watches up to the limit that the pre-flight
  -- has read, and the directories to be watched, counted for each watch, are not more than that:
  -- the start does not raise InotifyLimitError, and takes at most as many watches as were counted.
  -- If they are more, it raises with both numbers before it opens anything.
  pub enter_budget :
      (watches : List WatchConfig)
      → All (λ wc. IsReadable (tree_of wc.path)) watches
      → ((w : Watcher) × (needed_for tree_of watches ≤ limit)
          × (enter kernel tree_of (some limit) watches ≡ started w)
          × (length (watched w) ≤ needed_for tree_of watches))
        ⊎ ((limit < needed_for tree_of watches)
            × (enter kernel tree_of (some limit) watches
                ≡ limit_error (needed_for tree_of watches) limit))
  unfolding enter
  enter_budget watches r = elim (Bool-cases (ltb limit (needed_for tree_of watches))) [
    | inl over ↦ inr (ground arith, rw over)
    | inr fits ↦
        let room : needed_for tree_of watches ≤ limit = ground arith in
        let (w, e, n) =
          started_of (needed_for tree_of watches) (add_all kernel tree_of watches closed)
            (All-Within watches closed r (omega (arith, room))) in
        inl (w, room, rw fits e, n)
  ]
