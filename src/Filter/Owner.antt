-- ===== src/Filter/Owner.antt =====
-- Which watch owns a path.
use native.Mathlib.Nat.{le_refl}
use mirror_mirage.Prelude.{
  ℕ, ◌≤◌, ◌≡◌, refl, none, some, List, [], ◌∷◌, subst, All-In, some_inj, none-ne-some, inl, inr,
  arith, In, All, Option-cases, ltb, Bool-cases, ltb→lt,
}
use mirror_mirage.FilePath.{FilePath, relative_to}
use mirror_mirage.Config.{WatchConfig}
use mirror_mirage.Filter.{depth, insert_watch, sort_watches, owner}

-- `p` lies at or below the watch's path.
abbrev pub Contains : WatchConfig → FilePath → FilePath → Type 0
Contains w p rel = relative_to p w.path ≡ some rel

-- Watches in order of falling depth.
abbrev Falling : List WatchConfig → Type 0
Falling [] = Unit
Falling (w ∷ ws) = All (λ v. depth v ≤ depth w) ws × Falling ws

insert_watch-All :
    (P : WatchConfig → Type 0) (w : WatchConfig) (ws : List WatchConfig)
    → P w
    → All P ws
    → All P (insert_watch w ws)
unfolding insert_watch
insert_watch-All P w [] h k = (h, tt)
insert_watch-All P w (v ∷ vs) h k = elim (Bool-cases (ltb (depth w) (depth v))) [
  | inl e ↦ rw e (k.0, insert_watch-All P w vs h k.1)
  | inr e ↦ rw e (h, k)
]

All-weaken :
    (m n : ℕ) (ws : List WatchConfig)
    → m ≤ n
    → All (λ v. depth v ≤ m) ws
    → All (λ v. depth v ≤ n) ws
All-weaken m n [] h k = tt
All-weaken m n (v ∷ vs) h k = (omega arith, All-weaken m n vs h k.1)

insert_watch-Falling :
    (w : WatchConfig) (ws : List WatchConfig) → Falling ws → Falling (insert_watch w ws)
unfolding insert_watch
insert_watch-Falling w [] h = (tt, tt)
insert_watch-Falling w (v ∷ vs) h = elim (Bool-cases (ltb (depth w) (depth v))) [
  | inl e ↦ rw e (
    insert_watch-All (λ u. depth u ≤ depth v) w vs (omega (arith, ltb→lt (depth w) (depth v) e))
        h.0,
    insert_watch-Falling w vs h.1,
  )
  | inr e ↦
      let le : depth v ≤ depth w = ground arith in
      rw e ((le, All-weaken (depth v) (depth w) vs le h.0), h)
]

sort_watches-Falling : (ws : List WatchConfig) → Falling (sort_watches ws)
unfolding sort_watches
sort_watches-Falling [] = tt
sort_watches-Falling (w ∷ ws) = insert_watch-Falling w (sort_watches ws) (sort_watches-Falling ws)

insert_watch-In :
    (u w : WatchConfig) (ws : List WatchConfig) → In u (insert_watch w ws) → In u (w ∷ ws)
unfolding insert_watch
insert_watch-In u w [] m = m
insert_watch-In u w (v ∷ vs) m = elim (Bool-cases (ltb (depth w) (depth v))) [
  | inl e ↦ elim (rw e at m) [
    | inl first ↦ inr (inl first)
    | inr n ↦ elim (insert_watch-In u w vs n) [ inl new ↦ inl new | inr old ↦ inr (inr old) ]
  ]
  | inr e ↦ rw e at m
]

In-insert_watch :
    (u w : WatchConfig) (ws : List WatchConfig) → In u (w ∷ ws) → In u (insert_watch w ws)
unfolding insert_watch
In-insert_watch u w [] m = m
In-insert_watch u w (v ∷ vs) (inl e) = elim (Bool-cases (ltb (depth w) (depth v))) [
  | inl t ↦ rw t (inr (In-insert_watch u w vs (inl e)))
  | inr t ↦ rw t (inl e)
]
In-insert_watch u w (v ∷ vs) (inr (inl e)) = elim (Bool-cases (ltb (depth w) (depth v))) [
  | inl t ↦ rw t (inl e)
  | inr t ↦ rw t (inr (inl e))
]
In-insert_watch u w (v ∷ vs) (inr (inr n)) = elim (Bool-cases (ltb (depth w) (depth v))) [
  | inl t ↦ rw t (inr (In-insert_watch u w vs (inr n)))
  | inr t ↦ rw t (inr (inr n))
]

sort_watches-In : (u : WatchConfig) (ws : List WatchConfig) → In u (sort_watches ws) → In u ws
unfolding sort_watches
sort_watches-In u [] m = m
sort_watches-In u (w ∷ ws) m = elim (insert_watch-In u w (sort_watches ws) m) [
  | inl e ↦ inl e
  | inr n ↦ inr (sort_watches-In u ws n)
]

In-sort_watches : (u : WatchConfig) (ws : List WatchConfig) → In u ws → In u (sort_watches ws)
unfolding sort_watches
In-sort_watches u [] m = m
In-sort_watches u (w ∷ ws) (inl e) = In-insert_watch u w (sort_watches ws) (inl e)
In-sort_watches u (w ∷ ws) (inr m) =
    In-insert_watch u w (sort_watches ws) (inr (In-sort_watches u ws m))

-- `w` is configured, contains `p` at `rel`, and no configured watch that contains `p` is deeper.
pub record Owns (watches : List WatchConfig) (p : FilePath) (w : WatchConfig) (rel : FilePath)
    : Type 0 where
  pub configured : In w watches
  pub contains : Contains w p rel
  pub deepest : (v : WatchConfig) (r : FilePath) → In v watches → Contains v p r → depth v ≤ depth w

-- A watch that does not contain the path can stand in front.
Owns-skip :
    {ws : List WatchConfig} {p : FilePath} {w : WatchConfig} {rel : FilePath} (v : WatchConfig)
    → relative_to p v.path ≡ none
    → Owns ws p w rel
    → Owns (v ∷ ws) p w rel
Owns-skip v e o = record {
  configured = inr o.configured;
  contains = o.contains;
  deepest = λ u r m c. elim m [
    | inl same ↦ absurd (none-ne-some e (rw same at c))
    | inr n ↦ o.deepest u r n c
  ];
}

Owns-head :
    (ws : List WatchConfig) (p : FilePath) (w : WatchConfig) (rel : FilePath)
    → All (λ v. depth v ≤ depth w) ws
    → Contains w p rel
    → Owns (w ∷ ws) p w rel
Owns-head ws p w rel f c = record {
  configured = inl refl;
  contains = c;
  deepest = λ u r m d. elim m [
    | inl same ↦ rw same (le_refl (depth w))
    | inr n ↦ All-In (λ v. depth v ≤ depth w) ws u f n
  ];
}

owner-Owns :
    (p : FilePath) (ws : List WatchConfig) (w : WatchConfig) (rel : FilePath)
    → Falling ws
    → owner p ws ≡ some (w, rel)
    → Owns ws p w rel
unfolding owner
owner-Owns p [] w rel f h = cc
owner-Owns p (v ∷ vs) w rel f h = elim (Option-cases (relative_to p v.path)) [
  | inl e ↦ Owns-skip v e (owner-Owns p vs w rel f.1 (rw (e, owner) at h))
  | inr (r, e) ↦
      let same : (v, r) ≡ (w, rel) = some_inj (rw (e, owner) at h) in
      subst (λ (x : WatchConfig × FilePath). Owns (v ∷ vs) p x.0 x.1) same
        (Owns-head vs p v r f.0 e)
]

owner-none :
    (p : FilePath) (ws : List WatchConfig) (v : WatchConfig)
    → owner p ws ≡ none
    → In v ws
    → relative_to p v.path ≡ none
unfolding owner
owner-none p [] v h m = absurd m
owner-none p (w ∷ ws) v h m = elim (Option-cases (relative_to p w.path)) [
  | inl e ↦ elim m [ inl same ↦ rw same e | inr n ↦ owner-none p ws v (rw (e, owner) at h) n ]
  | inr (r, e) ↦ cc (rw (e, owner) at h)
]

-- The watch that the filter finds owns the path.
pub owner-sort_watches-Owns :
    (p : FilePath) (watches : List WatchConfig) (w : WatchConfig) (rel : FilePath)
    → owner p (sort_watches watches) ≡ some (w, rel)
    → Owns watches p w rel
owner-sort_watches-Owns p watches w rel h =
    let o = owner-Owns p (sort_watches watches) w rel (sort_watches-Falling watches) h in
    record {
      configured = sort_watches-In w watches o.configured;
      contains = o.contains;
      deepest = λ v r m c. o.deepest v r (In-sort_watches v watches m) c;
    }

-- The filter finds no watch only if no configured watch contains the path.
pub owner-sort_watches-none :
    (p : FilePath) (watches : List WatchConfig) (v : WatchConfig)
    → owner p (sort_watches watches) ≡ none
    → In v watches
    → relative_to p v.path ≡ none
owner-sort_watches-none p watches v h m =
    owner-none p (sort_watches watches) v h (In-sort_watches v watches m)
