-- ===== src/Glob.antt =====
-- `_gm` and `matches_any_glob` of src/mirror_mirage/filter.py.
pub mod Fnmatch
pub mod Relation
pub mod Staging
use mirror_mirage.Prelude.{Bool, true, false, List, [], ◌∷◌, any, if◌then◌else◌}
use mirror_mirage.Text.{Text, codes, text_eq, split_slash}
use Fnmatch.{fnmatchcase, on_suffixes}

abbrev pub double_star : Text
double_star = codes "**"

abbrev is_empty : List Text → Bool
is_empty [] = true
is_empty (_ ∷ _) = false

-- The tests on one component when the pattern component is not `**`.
abbrev step : Text → List Text → (List Text → Bool) → Bool
step p [] next = false
step p (s ∷ sp) next = if fnmatchcase s p then next sp else false

-- `_gm(pp, pi, sp, si)`, on what is left of the pattern, `pp[pi:]`, and of the path, `sp[si:]`.
-- The loop that collapses a run of `**` is the recursive call on `q ∷ pp`.
unfoldable pub gm : List Text → List Text → Bool
unfolding on_suffixes
gm [] sp = is_empty sp
gm (p ∷ []) sp = if text_eq p double_star then true else step p sp is_empty
gm (p ∷ q ∷ pp) sp =
    let collapsed = gm (q ∷ pp) sp in
    let searched = on_suffixes (gm (q ∷ pp)) sp in
    let stepped = step p sp (gm (q ∷ pp)) in
    if text_eq p double_star then if text_eq q double_star then collapsed else searched else stepped

-- `matches_any_glob(rel_parts, patterns)`
unfoldable pub matches_any_glob : List Text → List Text → Bool
matches_any_glob rel_parts patterns = any (λ pattern. gm (split_slash pattern) rel_parts) patterns
