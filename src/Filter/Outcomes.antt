-- ===== src/Filter/Outcomes.antt =====
-- What `normalize` returns, and why it returns nothing.
use mirror_mirage.Prelude.{
  ◌≡◌, sym, ap, subst, some_inj, ◌⊎◌, inl, inr, true, false, none, some, List, [], ◌∷◌, arith, In,
  Option-cases, Bool-cases,
}
use mirror_mirage.Text.{Text, codes, text_eq, text_eq_iff}
use mirror_mirage.FilePath.{FilePath, parts, relative_to}
use mirror_mirage.Config.{WatchConfig}
use mirror_mirage.Glob.{matches_any_glob}
use mirror_mirage.Filter.{
  EventKind, invalidate, delete, FsEvent, event_filter, owner, sort_watches, is_one_of,
  invalidate_masks, delete_masks, kind_of, checked, normalize,
}
use mirror_mirage.Filter.Owner.{Owns, owner-sort_watches-Owns, owner-sort_watches-none}

-- What an inotify mask means to a watch: a file that is live or replaced, or one that is gone, which
-- counts only if the watch flushes on deletion.
pub data Means (w : WatchConfig) (mask : Text) : EventKind → Type 0 where
  moved_to : mask ≡ codes "IN_MOVED_TO" → Means w mask invalidate
  close_write : mask ≡ codes "IN_CLOSE_WRITE" → Means w mask invalidate
  deleted : w.flush_on_delete ≡ true → mask ≡ codes "IN_DELETE" → Means w mask delete
  moved_from : w.flush_on_delete ≡ true → mask ≡ codes "IN_MOVED_FROM" → Means w mask delete

is_one_of_sound : (a b mask : Text) → is_one_of (a ∷ b ∷ []) mask ≡ true → (mask ≡ a) ⊎ (mask ≡ b)
unfolding is_one_of
is_one_of_sound a b mask h = ground (arith, text_eq_iff mask a, text_eq_iff mask b)

kind_of_sound :
    (w : WatchConfig) (mask : Text) (kind : EventKind)
    → kind_of w mask ≡ some kind
    → Means w mask kind
unfolding kind_of
kind_of_sound w mask kind h = elim (Bool-cases (is_one_of invalidate_masks mask)) [
  | inl i ↦
      subst (Means w mask) (some_inj (rw i at h))
        (elim (is_one_of_sound (codes "IN_MOVED_TO") (codes "IN_CLOSE_WRITE") mask i) [
          | inl e ↦ moved_to e
          | inr e ↦ close_write e
        ])
  | inr i ↦ elim (Bool-cases (is_one_of delete_masks mask)) [
    | inl d ↦ elim (Bool-cases w.flush_on_delete) [
      | inl f ↦
          subst (Means w mask) (some_inj (rw (i, d, f) at h))
            (elim (is_one_of_sound (codes "IN_DELETE") (codes "IN_MOVED_FROM") mask d) [
              | inl e ↦ deleted f e
              | inr e ↦ moved_from f e
            ])
      | inr f ↦ cc (rw (i, d, f) at h)
    ]
    | inr d ↦ cc (rw (i, d) at h)
  ]
]

kind_of_complete :
    (w : WatchConfig) (mask : Text) (kind : EventKind)
    → Means w mask kind
    → kind_of w mask ≡ some kind
unfolding kind_of is_one_of text_eq
kind_of_complete w mask invalidate (moved_to e) = rw e
kind_of_complete w mask invalidate (close_write e) = rw e
kind_of_complete w mask delete (deleted f e) = rw (e, f)
kind_of_complete w mask delete (moved_from f e) = rw (e, f)

-- An event comes out of the filter for a reason.
pub record Accepted (watches : List WatchConfig) (mask : Text) (p : FilePath) (ev : FsEvent)
    : Type 0 where
  pub watch : WatchConfig
  pub rel : FilePath
  pub owns : Owns watches p watch rel
  pub not_ignored : matches_any_glob (parts rel) watch.ignore ≡ false
  pub means : Means watch mask ev.kind
  pub same_path : ev.abs_path ≡ p
  pub same_root : ev.watch_root ≡ watch.path

-- The reasons to drop an event.
pub data Dropped (watches : List WatchConfig) (mask : Text) (p : FilePath) : Type 0 where
  outside :
      ((w : WatchConfig) → In w watches → relative_to p w.path ≡ none) → Dropped watches mask p
  ignored :
      (w : WatchConfig) (rel : FilePath)
      → Owns watches p w rel
      → matches_any_glob (parts rel) w.ignore ≡ true
      → Dropped watches mask p
  meaningless :
      (w : WatchConfig) (rel : FilePath)
      → Owns watches p w rel
      → ((kind : EventKind) → ¬ Means w mask kind)
      → Dropped watches mask p

module _ (watches : List WatchConfig) (mask : Text) (p : FilePath) where
  accepted :
      (w : WatchConfig) (rel : FilePath) (kind : EventKind)
      → owner p (sort_watches watches) ≡ some (w, rel)
      → matches_any_glob (parts rel) w.ignore ≡ false
      → kind_of w mask ≡ some kind
      → (ev : FsEvent) → record { kind = kind; abs_path = p; watch_root = w.path } ≡ ev
      → Accepted watches mask p ev
  accepted w rel kind e i k ev same = record {
    watch = w;
    rel = rel;
    owns = owner-sort_watches-Owns p watches w rel e;
    not_ignored = i;
    means = subst (λ (x : FsEvent). Means w mask x.kind) same (kind_of_sound w mask kind k);
    same_path = ap (λ (x : FsEvent). x.abs_path) (sym same);
    same_root = ap (λ (x : FsEvent). x.watch_root) (sym same);
  }

  -- An event that the filter lets through carries the path that was reported and the root of the
  -- deepest watch that contains it, the path below that root does not match the watch's ignore
  -- globs, and its kind is the one that the mask means to the watch.
  pub normalize-Accepted :
      (ev : FsEvent)
      → normalize (event_filter watches) mask p ≡ some ev
      → Accepted watches mask p ev
  unfolding normalize event_filter
  normalize-Accepted ev h = elim (Option-cases (owner p (sort_watches watches))) [
    | inl e ↦ cc (rw e at h)
    | inr ((w, rel), e) ↦ elim (Bool-cases (matches_any_glob (parts rel) w.ignore)) [
      | inl i ↦ cc (rw (e, checked, i) at h)
      | inr i ↦ elim (Option-cases (kind_of w mask)) [
        | inl k ↦ cc (rw (e, checked, i, k) at h)
        | inr (kind, k) ↦ accepted w rel kind e i k ev (some_inj (rw (e, checked, i, k) at h))
      ]
    ]
  ]

  -- An event that the filter drops lies outside every watch, or is ignored by the deepest watch
  -- that contains it, or its mask means nothing to that watch.
  pub normalize-Dropped : normalize (event_filter watches) mask p ≡ none → Dropped watches mask p
  unfolding normalize event_filter
  normalize-Dropped h = elim (Option-cases (owner p (sort_watches watches))) [
    | inl e ↦ outside (λ w m. owner-sort_watches-none p watches w e m)
    | inr ((w, rel), e) ↦
        let o = owner-sort_watches-Owns p watches w rel e in
        elim (Bool-cases (matches_any_glob (parts rel) w.ignore)) [
          | inl i ↦ ignored w rel o i
          | inr i ↦
              meaningless w rel o
                (λ kind d. no_kind w rel e i kind (kind_of_complete w mask kind d))
        ]
  ]
    where
      no_kind :
          (w : WatchConfig) (rel : FilePath)
          → owner p (sort_watches watches) ≡ some (w, rel)
          → matches_any_glob (parts rel) w.ignore ≡ false
          → (kind : EventKind) → kind_of w mask ≡ some kind
          → ⊥
      no_kind w rel e i kind k = cc (rw (e, checked, i, k) at h)
