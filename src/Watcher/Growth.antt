-- ===== src/Watcher/Growth.antt =====
-- That the table of `_add_recursive` only grows, and how its calls end.
use mirror_mirage.Prelude.{
  ◌≡◌, refl, sym, subst, ◌∙◌, ◌⊎◌, inl, inr, true, false, [], ◌∷◌, arith, Bool-cases, if◌then◌else◌,
}
use mirror_mirage.FilePath.{FilePath, extend, path_eq, path_eq_iff, path_keys}
use mirror_mirage.Dict.{get-put}
use mirror_mirage.Config.{WatchConfig}
use mirror_mirage.Watcher.{
  Watcher, Kernel, Added, added, no_space, refused, Startup, started, limit_error, ◌>>=◌,
  is_watched, watched, register, is_skipped, watch_then, add_directory, add_entries,
}
use mirror_mirage.Watcher.Files.{file, dir, Listing, locked, listed, Entries, end, entry, broken}

pub started_inj {ℓ} : {A : Type ℓ} {a b : A} → started a ≡ started b → a ≡ b
started_inj h = cc

pub bind_inv {ℓ κ} :
    {A : Type ℓ} {B : Type κ} (x : Startup A) (f : A → Startup B) (b : B)
    → (x >>= f) ≡ started b
    → (a : A) × (x ≡ started a) × (f a ≡ started b)
bind_inv (started a) f b h = (a, refl, h)
bind_inv (limit_error n m) f b h = absurd (cc h)

pub Added-cases : (a : Added) → (a ≡ added) ⊎ ((a ≡ no_space) ⊎ (a ≡ refused))
Added-cases added = inl refl
Added-cases no_space = inr (inl refl)
Added-cases refused = inr (inr refl)

pub register-is_watched :
    (p q : FilePath) (wc : WatchConfig) (w : Watcher)
    → is_watched q (register p wc w) ≡ (if path_eq p q then true else is_watched q w)
register-is_watched p q wc w = rw (get-put p q wc.path w.dir_to_root, is_watched) (ground arith)

pub register-is_watched_self :
    (p : FilePath) (wc : WatchConfig) (w : Watcher) → is_watched p (register p wc w) ≡ true
register-is_watched_self p wc w = register-is_watched p p wc w ∙ rw ((path_eq_iff p p).1 refl)

module _ (kernel : Kernel) (wc : WatchConfig) where
  -- How a call ends: it skipped the directory, or was refused it, or went on to scan it.
  pub data Ended (path : FilePath) (scan : Watcher → Startup Watcher) (w w' : Watcher)
      : Type 0 where
    skipped : is_skipped kernel wc path w ≡ true → w ≡ w' → Ended path scan w w'
    denied :
        is_skipped kernel wc path w ≡ false
        → kernel (watched w) path ≡ refused
        → w ≡ w'
        → Ended path scan w w'
    scanned :
        is_skipped kernel wc path w ≡ false
        → kernel (watched w) path ≡ added
        → scan (register path wc w) ≡ started w'
        → Ended path scan w w'

  pub watch_then-Ended :
      (path : FilePath) (scan : Watcher → Startup Watcher) (w w' : Watcher)
      → watch_then kernel wc path scan w ≡ started w'
      → Ended path scan w w'
  watch_then-Ended path scan w w' h = elim (Bool-cases (is_skipped kernel wc path w)) [
    | inl s ↦ skipped s (started_inj (rw (s, watch_then) at h))
    | inr s ↦ elim (Added-cases (kernel (watched w) path)) [
      | inl a ↦ scanned s a (rw (s, a, watch_then) at h)
      | inr (inl a) ↦ absurd (cc (rw (s, a, watch_then) at h))
      | inr (inr a) ↦ denied s a (started_inj (rw (s, a, watch_then) at h))
    ]
  ]

  pub register-keeps :
      (p q : FilePath) (w : Watcher) → is_watched q w ≡ true → is_watched q (register p wc w) ≡ true
  register-keeps p q w h = register-is_watched p q wc w ∙ rw h (ground arith)

  pub register-only :
      (p q : FilePath) (w : Watcher)
      → is_watched q (register p wc w) ≡ true
      → (q ≡ p) ⊎ (is_watched q w ≡ true)
  register-only p q w h = elim (Bool-cases (path_eq p q)) [
    | inl e ↦ inl (sym ((path_eq_iff p q).0 e))
    | inr e ↦ inr (sym (register-is_watched p q wc w ∙ rw e) ∙ h)
  ]

  -- The table only grows.
  mutual
    unfolding add_directory

    pub directory-keeps :
        (path : FilePath) (l : Listing) (w w' : Watcher) (q : FilePath)
        → add_directory kernel wc path l w ≡ started w'
        → is_watched q w ≡ true
        → is_watched q w' ≡ true
    directory-keeps path locked w w' q h k = elim (watch_then-Ended path (λ v. started v) w w' h) [
      | skipped s e ↦ subst (λ v. is_watched q v ≡ true) e k
      | denied s a e ↦ subst (λ v. is_watched q v ≡ true) e k
      | scanned s a e ↦
          subst (λ v. is_watched q v ≡ true) (started_inj e) (register-keeps path q w k)
    ]
    directory-keeps path (listed es) w w' q h k =
        elim (watch_then-Ended path (λ v. add_entries kernel wc path es v) w w' h) [
          | skipped s e ↦ subst (λ v. is_watched q v ≡ true) e k
          | denied s a e ↦ subst (λ v. is_watched q v ≡ true) e k
          | scanned s a e ↦
              entries-keep path es (register path wc w) w' q e (register-keeps path q w k)
        ]

    pub entries-keep :
        (path : FilePath) (es : Entries) (w w' : Watcher) (q : FilePath)
        → add_entries kernel wc path es w ≡ started w'
        → is_watched q w ≡ true
        → is_watched q w' ≡ true
    entries-keep path end w w' q h k = subst (λ v. is_watched q v ≡ true) (started_inj h) k
    entries-keep path (entry name file es) w w' q h k = entries-keep path es w w' q h k
    entries-keep path (entry name (dir l) es) w w' q h k =
        let (v, e, rest) =
          bind_inv (add_directory kernel wc (extend path (name ∷ [])) l w)
            (λ v. add_entries kernel wc path es v) w' h in
        entries-keep path es v w' q rest (directory-keeps (extend path (name ∷ [])) l w v q e k)
    entries-keep path (broken es) w w' q h k = entries-keep path es w w' q h k
