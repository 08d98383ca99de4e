-- ===== src/Watcher/Tables.antt =====
-- What holds of the tables of the watcher and of the events that wait, through its operations.
use mirror_mirage.Prelude.{
  ◌≡◌, refl, sym, subst, ◌∙◌, inl, inr, Option, none, some, List, [], ◌∷◌, ◌++◌, In,
  In-append_cases, Bool-cases,
}
use mirror_mirage.Text.{Text}
use mirror_mirage.FilePath.{FilePath, extend, path_eq, path_keys}
use mirror_mirage.Dict
use mirror_mirage.Dict.{get-put, get-pop}
use mirror_mirage.Config.{WatchConfig}
use mirror_mirage.Filter.{invalidate_masks, delete_masks}
use mirror_mirage.Watcher.{
  Mask, mask_to_name, Watcher, Event, Kernel, started, is_ignored, register, add_directory,
  add_entries, add_recursive, announce, scan_directory, scan_entries, add_dir_and_scan,
}
use mirror_mirage.Watcher.Events.{forget}
use mirror_mirage.Watcher.Files.{
  Tree, file, dir, Listing, locked, listed, Entries, end, entry, broken,
}
use mirror_mirage.Watcher.Growth.{skipped, denied, scanned, watch_then-Ended, bind_inv, started_inj}
use mirror_mirage.Watcher.Went.{passed, failed, went, watch_and-Went}

abbrev pub root_of : Option WatchConfig → Option FilePath
root_of none = none
root_of (some wc) = some wc.path

-- An event whose mask the filter knows, of one of the watches.
abbrev pub Meant : List WatchConfig → Event → Type 0
Meant watches e =
    In e.0 (invalidate_masks ++ delete_masks) × (wc : WatchConfig) × In wc watches × (e.2 ≡ wc.path)

-- The tables agree, all that is in them comes from the configured watches, and so does every event
-- that waits.
pub record IsSound (watches : List WatchConfig) (w : Watcher) : Type 0 where
  pub agree : (d : FilePath) → Dict.get d w.dir_to_root ≡ root_of (Dict.get d w.dir_to_config)
  pub configured :
      (d : FilePath) (wc : WatchConfig) → Dict.get d w.dir_to_config ≡ some wc → In wc watches
  pub waiting : (e : Event) → In e w.synthetic → Meant watches e

pub mask_to_name-Meant :
    (mask : Mask) (name : Text)
    → mask_to_name mask ≡ some name
    → In name (invalidate_masks ++ delete_masks)
unfolding mask_to_name
mask_to_name-Meant mask name h = elim (Bool-cases mask.moved_to) [
  | inl a ↦ inl (sym (some_inj (rw a at h)))
  | inr a ↦ elim (Bool-cases mask.close_write) [
    | inl b ↦ inr (inl (sym (some_inj (rw (a, b) at h))))
    | inr b ↦ elim (Bool-cases mask.delete) [
      | inl c ↦ inr (inr (inl (sym (some_inj (rw (a, b, c) at h)))))
      | inr c ↦ elim (Bool-cases mask.moved_from) [
        | inl d ↦ inr (inr (inr (inl (sym (some_inj (rw (a, b, c, d) at h))))))
        | inr d ↦ absurd (cc (rw (a, b, c, d) at h))
      ]
    ]
  ]
]
  where
    some_inj : {x y : Text} → some x ≡ some y → x ≡ y
    some_inj e = cc

module _ (watches : List WatchConfig) where
  register-IsSound :
      (path : FilePath) (wc : WatchConfig) (w : Watcher)
      → In wc watches
      → IsSound watches w
      → IsSound watches (register path wc w)
  register-IsSound path wc w m s = record {
    agree = λ d. get-put path d wc.path w.dir_to_root ∙ elim (Bool-cases (path_eq path d)) [
      | inl e ↦ rw (get-put path d wc w.dir_to_config, e)
      | inr e ↦ rw (get-put path d wc w.dir_to_config, e) (s.agree d)
    ];
    configured = λ d v h. elim (Bool-cases (path_eq path d)) [
      | inl e ↦
          subst (λ (x : WatchConfig). In x watches)
            (cc (rw (get-put path d wc w.dir_to_config, e) at h)) m
      | inr e ↦ s.configured d v (rw (get-put path d wc w.dir_to_config, e) at h)
    ];
    waiting = s.waiting;
  }

  pub forget-IsSound :
      (path : FilePath) (w : Watcher) → IsSound watches w → IsSound watches (forget path w)
  forget-IsSound path w s = record {
    agree = λ d. get-pop path d w.dir_to_root ∙ elim (Bool-cases (path_eq path d)) [
      | inl e ↦ rw (get-pop path d w.dir_to_config, e)
      | inr e ↦ rw (get-pop path d w.dir_to_config, e) (s.agree d)
    ];
    configured = λ d v h. elim (Bool-cases (path_eq path d)) [
      | inl e ↦ absurd (cc (rw (get-pop path d w.dir_to_config, e) at h))
      | inr e ↦ s.configured d v (rw (get-pop path d w.dir_to_config, e) at h)
    ];
    waiting = s.waiting;
  }

  module _ (kernel : Kernel) (wc : WatchConfig) (known : In wc watches) where
    announce-IsSound :
        (path : FilePath) (w : Watcher)
        → IsSound watches w
        → IsSound watches (announce kernel wc path w)
    unfolding announce
    announce-IsSound path w s = elim (Bool-cases (is_ignored path wc.path wc.ignore)) [
      | inl i ↦ rw i s
      | inr i ↦ rw i (record {
        agree = s.agree;
        configured = s.configured;
        waiting = λ e m. elim (In-append_cases e w.synthetic _ m) [
          | inl old ↦ s.waiting e old
          | inr (inl same) ↦ subst (Meant watches) (sym same) (inl refl, wc, known, refl)
          | inr (inr absent) ↦ absurd absent
        ];
      })
    ]

    mutual
      unfolding add_directory

      directory-IsSound :
          (path : FilePath) (l : Listing) (w w' : Watcher)
          → add_directory kernel wc path l w ≡ started w'
          → IsSound watches w
          → IsSound watches w'
      directory-IsSound path locked w w' h s =
          elim (watch_then-Ended kernel wc path (λ v. started v) w w' h) [
            | skipped t e ↦ subst (IsSound watches) e s
            | denied t a e ↦ subst (IsSound watches) e s
            | scanned t a e ↦
                subst (IsSound watches) (started_inj e) (register-IsSound path wc w known s)
          ]
      directory-IsSound path (listed es) w w' h s =
          elim (watch_then-Ended kernel wc path (λ v. add_entries kernel wc path es v) w w' h) [
            | skipped t e ↦ subst (IsSound watches) e s
            | denied t a e ↦ subst (IsSound watches) e s
            | scanned t a e ↦
                entries-IsSound path es (register path wc w) w' e
                  (register-IsSound path wc w known s)
          ]

      entries-IsSound :
          (path : FilePath) (es : Entries) (w w' : Watcher)
          → add_entries kernel wc path es w ≡ started w'
          → IsSound watches w
          → IsSound watches w'
      entries-IsSound path end w w' h s = subst (IsSound watches) (started_inj h) s
      entries-IsSound path (entry name file es) w w' h s = entries-IsSound path es w w' h s
      entries-IsSound path (entry name (dir l) es) w w' h s =
          let (v, e, rest) =
            bind_inv (add_directory kernel wc (extend path (name ∷ [])) l w)
              (λ v. add_entries kernel wc path es v) w' h in
          entries-IsSound path es v w' rest (directory-IsSound (extend path (name ∷ [])) l w v e s)
      entries-IsSound path (broken es) w w' h s = entries-IsSound path es w w' h s

    pub recursive-IsSound :
        (path : FilePath) (tree : Tree) (w w' : Watcher)
        → add_recursive kernel wc path tree w ≡ started w'
        → IsSound watches w
        → IsSound watches w'
    unfolding add_recursive
    recursive-IsSound path file w w' h s = subst (IsSound watches) (started_inj h) s
    recursive-IsSound path (dir l) w w' h s = directory-IsSound path l w w' h s

    mutual
      unfolding scan_directory

      scan-IsSound :
          (path : FilePath) (l : Listing) (w : Watcher)
          → IsSound watches w
          → IsSound watches (scan_directory kernel wc path l w)
      scan-IsSound path locked w s = elim (watch_and-Went kernel wc path (λ v. v) w) [
        | passed t e ↦ subst (IsSound watches) e s
        | failed t e ↦ subst (IsSound watches) e s
        | went t e ↦ subst (IsSound watches) e (register-IsSound path wc w known s)
      ]
      scan-IsSound path (listed es) w s =
          elim (watch_and-Went kernel wc path (λ v. scan_entries kernel wc path es v) w) [
            | passed t e ↦ subst (IsSound watches) e s
            | failed t e ↦ subst (IsSound watches) e s
            | went t e ↦ subst (IsSound watches) e (
                scan_entries-IsSound path es (register path wc w)
                  (register-IsSound path wc w known s))
          ]

      scan_entries-IsSound :
          (path : FilePath) (es : Entries) (w : Watcher)
          → IsSound watches w
          → IsSound watches (scan_entries kernel wc path es w)
      scan_entries-IsSound path end w s = s
      scan_entries-IsSound path (entry name file es) w s =
          scan_entries-IsSound path es (announce kernel wc (extend path (name ∷ [])) w)
            (announce-IsSound (extend path (name ∷ [])) w s)
      scan_entries-IsSound path (entry name (dir l) es) w s =
          scan_entries-IsSound path es (scan_directory kernel wc (extend path (name ∷ [])) l w)
            (scan-IsSound (extend path (name ∷ [])) l w s)
      scan_entries-IsSound path (broken es) w s = scan_entries-IsSound path es w s

    pub add_dir_and_scan-IsSound :
        (path : FilePath) (tree : Tree) (w : Watcher)
        → IsSound watches w
        → IsSound watches (add_dir_and_scan kernel wc path tree w)
    unfolding add_dir_and_scan
    add_dir_and_scan-IsSound path file w s = scan-IsSound path locked w s
    add_dir_and_scan-IsSound path (dir l) w s = scan-IsSound path l w s
