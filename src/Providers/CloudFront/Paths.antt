-- ===== src/Providers/CloudFront/Paths.antt =====
-- Which paths an invalidation carries.
use mirror_mirage.Prelude.{
  ◌≡◌, refl, sym, ap, subst, ◌∙◌, ◌↔◌, ◌⊎◌, inl, inr, Bool, true, false, some, List, [], ◌∷◌, In,
  Bool-cases, Option-cases, IsUnique, some_inj, arith,
}
use mirror_mirage.Text.{Text, add_to_set}
use mirror_mirage.Text.Sets.{add_to_set_iff, add_to_set-IsUnique}
use mirror_mirage.Url.{Url, urlparse}
use mirror_mirage.Providers.CloudFront.{
  Ending, classify_ending, text_ltb, insert, sorted, path_or_root, path_set, sorted_paths,
  invalidated, purge,
}
use mirror_mirage.Worker.{PurgeResult}

-- Two texts of which neither is before the other are equal.
text_ltb_total : (s t : Text) → text_ltb s t ≡ false → text_ltb t s ≡ false → s ≡ t
unfolding text_ltb
text_ltb_total [] [] h k = refl
text_ltb_total [] (d ∷ t) h k = absurd (cc h)
text_ltb_total (c ∷ s) [] h k = absurd (cc k)
text_ltb_total (c ∷ s) (d ∷ t) h k = ground (arith, text_ltb_total s t)

-- Strictly ascending: `s` is before the first, and so on.
abbrev pub IsAfter : Text → List Text → Type 0
IsAfter s [] = Unit
IsAfter s (t ∷ ts) = (text_ltb s t ≡ true) × IsAfter t ts

abbrev pub IsAscending : List Text → Type 0
IsAscending [] = Unit
IsAscending (s ∷ ss) = IsAfter s ss

insert-IsAfter :
    (r s : Text) (ts : List Text)
    → text_ltb r s ≡ true
    → IsAfter r ts
    → ¬ In s ts
    → IsAfter r (insert s ts)
unfolding insert
insert-IsAfter r s [] h k n = (h, tt)
insert-IsAfter r s (t ∷ ts) h k n = elim (Bool-cases (text_ltb t s)) [
  | inl b ↦ rw b (k.0, insert-IsAfter t s ts b k.1 (λ m. n (inr m)))
  | inr b ↦ rw b (h, (before s t b (λ e. n (inl e)), k.1))
]
  where
    before : (a c : Text) → text_ltb c a ≡ false → ¬ (a ≡ c) → text_ltb a c ≡ true
    before a c b d = elim (Bool-cases (text_ltb a c)) [
      | inl l ↦ l
      | inr l ↦ absurd (d (text_ltb_total a c l b))
    ]

insert-IsAscending :
    (s : Text) (ts : List Text) → IsAscending ts → ¬ In s ts → IsAscending (insert s ts)
unfolding insert
insert-IsAscending s [] k n = tt
insert-IsAscending s (t ∷ ts) k n = elim (Bool-cases (text_ltb t s)) [
  | inl b ↦ rw b (insert-IsAfter t s ts b k (λ m. n (inr m)))
  | inr b ↦ rw b (elim (Bool-cases (text_ltb s t)) [
    | inl l ↦ (l, k)
    | inr l ↦ absurd (n (inl (text_ltb_total s t l b)))
  ])
]

In-insert : (x s : Text) (ts : List Text) → In x (insert s ts) ↔ ((x ≡ s) ⊎ In x ts)
unfolding insert
In-insert x s [] = (λ m. m, λ m. m)
In-insert x s (t ∷ ts) =
    let rest = In-insert x s ts in
    elim (Bool-cases (text_ltb t s)) [
      | inl b ↦ rw b (
        λ m. elim m [
          | inl e ↦ inr (inl e)
          | inr n ↦ elim (rest.0 n) [ inl e ↦ inl e | inr k ↦ inr (inr k) ]
        ],
        λ m. elim m [
          | inl e ↦ inr (rest.1 (inl e))
          | inr (inl e) ↦ inl e
          | inr (inr k) ↦ inr (rest.1 (inr k))
        ],
      )
      | inr b ↦ rw b (λ m. m, λ m. m)
    ]

In-sorted : (x : Text) (ss : List Text) → In x (sorted ss) ↔ In x ss
unfolding sorted
In-sorted x [] = (λ m. m, λ m. m)
In-sorted x (s ∷ ss) =
    let now = In-insert x s (sorted ss) in
    let rest = In-sorted x ss in
    (
      λ m. elim (now.0 m) [ inl e ↦ inl e | inr n ↦ inr (rest.0 n) ],
      λ m. now.1 (elim m [ inl e ↦ inl e | inr n ↦ inr (rest.1 n) ]),
    )

sorted-IsAscending : (ss : List Text) → IsUnique ss → IsAscending (sorted ss)
unfolding sorted
sorted-IsAscending [] u = tt
sorted-IsAscending (s ∷ ss) u =
    insert-IsAscending s (sorted ss) (sorted-IsAscending ss u.1) (λ m. u.0 ((In-sorted s ss).0 m))

-- The path of one of the URLs, `/` if it is empty.
pub record PathOf (refuses : Text → Bool) (urls : List Text) (x : Text) : Type 0 where
  pub url : Text
  pub member : In url urls
  pub parsed : Url
  pub parses : urlparse refuses url ≡ some parsed
  pub same : x ≡ path_or_root parsed.path

further :
    (refuses : Text → Bool) (url : Text) (urls ps out : List Text) (parsed : Url) (x : Text)
    → urlparse refuses url ≡ some parsed
    → In x out ↔ (In x (add_to_set (path_or_root parsed.path) ps) ⊎ PathOf refuses urls x)
    → In x out ↔ (In x ps ⊎ PathOf refuses (url ∷ urls) x)
further refuses url urls ps out parsed x p f =
    let now = add_to_set_iff x (path_or_root parsed.path) ps in
    (
      λ m. elim (f.0 m) [
        | inl n ↦ elim (now.0 n) [
          | inl old ↦ inl old
          | inr e ↦
              inr (record { url = url; member = inl refl; parsed = parsed; parses = p; same = e })
        ]
        | inr v ↦ inr (record {
          url = v.url;
          member = inr v.member;
          parsed = v.parsed;
          parses = v.parses;
          same = v.same;
        })
      ],
      λ m. elim m [
        | inl old ↦ f.1 (inl (now.1 (inl old)))
        | inr v ↦ elim v.member [
          | inl first ↦
              let agree : v.parsed ≡ parsed =
                some_inj (sym v.parses ∙ ap (urlparse refuses) first ∙ p) in
              f.1 (inl (now.1 (inr (v.same ∙ ap (λ (u : Url). path_or_root u.path) agree))))
          | inr later ↦ f.1 (
              inr (record {
                url = v.url;
                member = later;
                parsed = v.parsed;
                parses = v.parses;
                same = v.same;
              }))
        ]
      ],
    )

path_set_iff :
    (refuses : Text → Bool) (urls ps out : List Text)
    → path_set refuses urls ps ≡ some out
    → IsUnique ps
    → IsUnique out × ((x : Text) → In x out ↔ (In x ps ⊎ PathOf refuses urls x))
unfolding path_set
path_set_iff refuses [] ps out h u = (
  subst IsUnique (some_inj h) u,
  λ x. (
    λ m. inl (subst (λ (l : List Text). In x l) (sym (some_inj h)) m),
    λ m. elim m [
      | inl old ↦ subst (λ (l : List Text). In x l) (some_inj h) old
      | inr v ↦ absurd v.member
    ],
  ),
)
path_set_iff refuses (url ∷ urls) ps out h u = elim (Option-cases (urlparse refuses url)) [
  | inl e ↦ absurd (cc (rw (e, path_set) at h))
  | inr (parsed, e) ↦
      let (v, f) =
        path_set_iff refuses urls (add_to_set (path_or_root parsed.path) ps) out
          (rw (e, path_set) at h) (add_to_set-IsUnique (path_or_root parsed.path) ps u) in
      (v, λ x. further refuses url urls ps out parsed x e (f x))
]

-- A purge of at least one URL that does not raise is one call of create_invalidation, whose ending
-- gives the result. Its paths are in ascending order, so that none stands twice, and a path is among
-- them just if it is the path of one of the URLs, or `/` for a URL without a path.
pub purge-Invalidates :
    (refuses : Text → Bool) (create_invalidation : List Text → Ending) (url : Text)
    (urls : List Text) (r : PurgeResult)
    → purge refuses create_invalidation (url ∷ urls) ≡ some r
    → (paths : List Text) × (r ≡ classify_ending (create_invalidation paths))
      × IsAscending paths
      × ((x : Text) → In x paths ↔ PathOf refuses (url ∷ urls) x)
unfolding purge
purge-Invalidates refuses create_invalidation url urls r h =
    elim (Option-cases (path_set refuses (url ∷ urls) [])) [
      | inl e ↦ absurd (cc (rw (e, sorted_paths, invalidated) at h))
      | inr (ps, e) ↦
          let (u, f) = path_set_iff refuses (url ∷ urls) [] ps e tt in
          (
            sorted ps,
            sym (some_inj (rw (e, sorted_paths, invalidated) at h)),
            sorted-IsAscending ps u,
            λ x. (
              λ m. elim ((f x).0 ((In-sorted x ps).0 m)) [ inl absent ↦ absurd absent | inr v ↦ v ],
              λ v. (In-sorted x ps).1 ((f x).1 (inr v)),
            ),
          )
    ]
