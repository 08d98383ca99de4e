-- ===== src/Glob/Fnmatch/Plain.antt =====
-- Component patterns without wildcards.
use mirror_mirage.Prelude.{
  ℕ, zero, ◌≡◌, refl, ◌↔◌, Bool, true, false, [], ◌∷◌, arith, map, All, ◌==◌, if◌then◌else◌,
}
use mirror_mirage.Text.{Text, text_eq, text_eq_iff}
use mirror_mirage.Glob.Fnmatch.{literal, translate, accepts, match_items, fnmatchcase}

-- A character that no wildcard begins with.
abbrev pub is_wild : ℕ → Bool
is_wild c = if c == b'*' then true else if c == b'?' then true else c == b'['

abbrev pub NoWildcard : Text → Type 0
NoWildcard = All (λ c. is_wild c ≡ false)

translate-plain : (p : Text) → NoWildcard p → translate zero p ≡ map literal p
unfolding translate
translate-plain [] h = refl
translate-plain (c ∷ p) h = ground (arith, translate-plain p h.1)

match_items-literal : (p s : Text) → match_items (map literal p) s ≡ text_eq s p
unfolding match_items accepts text_eq
match_items-literal [] [] = refl
match_items-literal [] (c ∷ s) = refl
match_items-literal (d ∷ p) [] = refl
match_items-literal (d ∷ p) (c ∷ s) = rw (match_items-literal p s)

-- A component pattern without wildcards matches itself and nothing else.
pub fnmatchcase-plain : (s p : Text) → NoWildcard p → (fnmatchcase s p ≡ true) ↔ (s ≡ p)
unfolding fnmatchcase
fnmatchcase-plain s p h = rw (translate-plain p h, match_items-literal p s) (text_eq_iff s p)
