-- ===== src/Glob/Relation.antt =====
-- What a glob means, as a relation with no search order in it.
use mirror_mirage.Prelude.{
  ◌≡◌, refl, ◌≢◌, ◌↔◌, Bool, true, false, List, [], ◌∷◌, arith, inl, inr, Bool-cases,
}
use mirror_mirage.Text.{Text, text_eq, text_eq_iff}
use mirror_mirage.Glob.{double_star, is_empty, step, gm}
use mirror_mirage.Glob.Fnmatch.{fnmatchcase, on_suffixes}

-- `**` stands for any run of components, any other pattern for one component that it matches.
pub data Matches : List Text → List Text → Type 0 where
  done : Matches [] []
  one :
      {p s : Text} {pp sp : List Text}
      → p ≢ double_star
      → fnmatchcase s p ≡ true
      → Matches pp sp
      → Matches (p ∷ pp) (s ∷ sp)
  leave : {p : Text} {pp sp : List Text} → p ≡ double_star → Matches pp sp → Matches (p ∷ pp) sp
  take :
      {p s : Text} {pp sp : List Text}
      → p ≡ double_star
      → Matches (p ∷ pp) sp
      → Matches (p ∷ pp) (s ∷ sp)

ne_star : (p : Text) → text_eq p double_star ≡ false → p ≢ double_star
ne_star p h e = cc (h, (text_eq_iff p double_star).1 e)

pub everything : (p : Text) (sp : List Text) → p ≡ double_star → Matches (p ∷ []) sp
everything p [] e = leave e done
everything p (s ∷ sp) e = take e (everything p sp e)

search_sound :
    (p : Text) (pp sp : List Text)
    → p ≡ double_star
    → ((t : List Text) → gm pp t ≡ true → Matches pp t)
    → on_suffixes (gm pp) sp ≡ true
    → Matches (p ∷ pp) sp
unfolding on_suffixes
search_sound p pp [] e rec h = leave e (rec [] h)
search_sound p pp (s ∷ sp) e rec h = elim (Bool-cases (gm pp (s ∷ sp))) [
  | inl now ↦ leave e (rec (s ∷ sp) now)
  | inr later ↦ take e (search_sound p pp sp e rec (rw later at h))
]

step_sound :
    (p : Text) (pp sp : List Text) (next : List Text → Bool)
    → text_eq p double_star ≡ false
    → ((t : List Text) → next t ≡ true → Matches pp t)
    → step p sp next ≡ true
    → Matches (p ∷ pp) sp
step_sound p pp [] next n rec h = cc
step_sound p pp (s ∷ sp) next n rec h = elim (Bool-cases (fnmatchcase s p)) [
  | inl m ↦ one (ne_star p n) m (rec sp (rw m at h))
  | inr m ↦ cc (rw m at h)
]

is_empty_sound : (sp : List Text) → is_empty sp ≡ true → Matches [] sp
is_empty_sound [] h = done
is_empty_sound (s ∷ sp) h = cc

gm_sound : (pp sp : List Text) → gm pp sp ≡ true → Matches pp sp
unfolding gm
gm_sound [] sp h = is_empty_sound sp h
gm_sound (p ∷ []) sp h = elim (Bool-cases (text_eq p double_star)) [
  | inl e ↦ everything p sp ((text_eq_iff p double_star).0 e)
  | inr n ↦ step_sound p [] sp is_empty n is_empty_sound (rw n at h)
]
gm_sound (p ∷ q ∷ pp) sp h = elim (Bool-cases (text_eq p double_star)) [
  | inl e ↦ elim (Bool-cases (text_eq q double_star)) [
    | inl f ↦ leave ((text_eq_iff p double_star).0 e) (gm_sound (q ∷ pp) sp (rw (e, f) at h))
    | inr f ↦
        search_sound p (q ∷ pp) sp ((text_eq_iff p double_star).0 e) (gm_sound (q ∷ pp))
          (rw (e, f) at h)
  ]
  | inr n ↦ step_sound p (q ∷ pp) sp (gm (q ∷ pp)) n (gm_sound (q ∷ pp)) (rw n at h)
]

-- A component that is not `**` takes exactly one component of the path.
one_inv :
    {p : Text} {pp sp : List Text}
    → Matches (p ∷ pp) sp
    → p ≢ double_star
    → (next : List Text → Bool) → ((t : List Text) → Matches pp t → next t ≡ true)
    → step p sp next ≡ true
one_inv (one _ m d) n next rec = rw (m, rec _ d)
one_inv (leave e d) n next rec = absurd (n e)
one_inv (take e d) n next rec = absurd (n e)

two_stars :
    {p q : Text} {pp sp : List Text}
    → Matches (p ∷ q ∷ pp) sp
    → q ≡ double_star
    → p ≡ double_star
    → Matches (q ∷ pp) sp
two_stars (one n _ _) f e = absurd (n e)
two_stars (leave _ d) f e = d
two_stars (take _ d) f e = take f (two_stars d f e)

search_complete :
    {p : Text} {pp : List Text} (next : List Text → Bool) {sp : List Text}
    → Matches (p ∷ pp) sp
    → p ≡ double_star
    → ((t : List Text) → Matches pp t → next t ≡ true)
    → on_suffixes next sp ≡ true
unfolding on_suffixes
search_complete next (one n _ _) e rec = absurd (n e)
search_complete next {sp = []} (leave _ d) e rec = rec [] d
search_complete next {sp = s ∷ sp} (leave _ d) e rec = rw (rec (s ∷ sp) d)
search_complete next {sp = s ∷ sp} (take _ d) e rec = ground (arith, search_complete next d e rec)

is_empty_complete : (sp : List Text) → Matches [] sp → is_empty sp ≡ true
is_empty_complete [] d = refl
is_empty_complete (s ∷ sp) d = elim d [ ]

gm_complete : (pp sp : List Text) → Matches pp sp → gm pp sp ≡ true
unfolding gm
gm_complete [] sp d = is_empty_complete sp d
gm_complete (p ∷ []) sp d = elim (Bool-cases (text_eq p double_star)) [
  | inl e ↦ rw e
  | inr n ↦ rw n (one_inv d (ne_star p n) is_empty is_empty_complete)
]
gm_complete (p ∷ q ∷ pp) sp d = elim (Bool-cases (text_eq p double_star)) [
  | inl e ↦ elim (Bool-cases (text_eq q double_star)) [
    | inl f ↦
        rw (e, f)
          (gm_complete (q ∷ pp) sp
            (two_stars d ((text_eq_iff q double_star).0 f) ((text_eq_iff p double_star).0 e)))
    | inr f ↦
        rw (e, f)
          (search_complete (gm (q ∷ pp)) d ((text_eq_iff p double_star).0 e) (gm_complete (q ∷ pp)))
  ]
  | inr n ↦ rw n (one_inv d (ne_star p n) (gm (q ∷ pp)) (gm_complete (q ∷ pp)))
]

-- For a pattern and a path, both as lists of components, the matcher answers true exactly if `**`
-- can stand for runs of components and each other pattern component for one that it matches, so
-- that the pattern gives the path.
pub gm_iff : (pp sp : List Text) → (gm pp sp ≡ true) ↔ Matches pp sp
gm_iff pp sp = (gm_sound pp sp, gm_complete pp sp)
