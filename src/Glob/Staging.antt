-- ===== src/Glob/Staging.antt =====
-- Globs without wildcards in their components, and the staging directories that they ignore.
use mirror_mirage.Prelude.{
  ℕ, ◌≡◌, refl, ◌≢◌, ◌↔◌, true, List, [], ◌∷◌, ◌++◌, arith, inl, inr, sym, ap, In,
}
use mirror_mirage.Text.{Text, codes, split_slash}
use mirror_mirage.Text.Split.{NoSlash, split_slash-append}
use mirror_mirage.Glob.{double_star, matches_any_glob}
use mirror_mirage.Glob.Fnmatch.Plain.{NoWildcard, fnmatchcase-plain}
use mirror_mirage.Glob.Relation.{Matches, one, leave, take, everything, gm_iff}

-- `**` begins with a wildcard.
abbrev head_or : Text → ℕ
head_or [] = 0
head_or (c ∷ _) = c

plain-ne-star : (p : Text) → NoWildcard p → p ≢ double_star
plain-ne-star [] h e = cc
plain-ne-star (c ∷ p) h e = grind (arith, h.0, ap (λ (t : Text). head_or t) e)

below_staging :
    {p q r : Text} {sp : List Text}
    → Matches (p ∷ q ∷ r ∷ []) sp
    → NoWildcard q
    → p ≡ double_star
    → In q sp
below_staging (one n _ _) h e = absurd (n e)
below_staging {q = q} (leave _ (one {s = s} _ m d)) h e = inl (sym ((fnmatchcase-plain s q h).0 m))
below_staging {q = q} (leave _ (leave f d)) h e = absurd (plain-ne-star q h f)
below_staging {q = q} (leave _ (take f d)) h e = absurd (plain-ne-star q h f)
below_staging (take _ d) h e = inr (below_staging d h e)

staging_below :
    (q : Text) (sp : List Text)
    → NoWildcard q
    → In q sp
    → Matches (double_star ∷ q ∷ double_star ∷ []) sp
staging_below q [] h m = absurd m
staging_below q (s ∷ sp) h (inl e) =
    leave refl (
      one (plain-ne-star q h) ((fnmatchcase-plain s q h).1 (sym e))
        (everything double_star sp refl))
staging_below q (s ∷ sp) h (inr m) = take refl (staging_below q sp h m)

staging_pieces :
    (name : Text)
    → NoSlash name
    → split_slash (codes "**/" ++ name ++ codes "/**") ≡ double_star ∷ name ∷ double_star ∷ []
unfolding split_slash
staging_pieces name h = rw (split_slash-append name double_star h)

-- The glob `**/name/**`, for a name without wildcards and slashes, ignores exactly the paths of
-- which some component is that name: the staging directory itself and everything below it.
pub staging_iff :
    (name : Text) (rel_parts : List Text)
    → NoWildcard name
    → NoSlash name
    → (matches_any_glob rel_parts ((codes "**/" ++ name ++ codes "/**") ∷ []) ≡ true)
      ↔ In name rel_parts
unfolding matches_any_glob
staging_iff name rel_parts h k = rw (staging_pieces name k) (
  λ e.
      below_staging ((gm_iff (double_star ∷ name ∷ double_star ∷ []) rel_parts).0 (ground arith)) h
        refl,
  λ m. rw (
      (gm_iff (double_star ∷ name ∷ double_star ∷ []) rel_parts).1
        (staging_below name rel_parts h m)),
)
