-- ===== src/FilePath.antt =====
-- pathlib's `PurePosixPath`, as far as the program uses it: parts, equality, `relative_to`,
-- `as_posix`, `/`. A path is an anchor and its components.
use mirror_mirage.Prelude.{
  ◌≡◌, refl, ◌↔◌, Bool, true, false, Option, none, some, List, [], ◌∷◌, ◌++◌, arith, inl, inr,
  Option-cases, if◌then◌else◌,
}
use mirror_mirage.Text.{Text, codes, slash, text_eq, text_eq_iff, join}
use mirror_mirage.Dict.{Eq}

pub record FilePath : Type 0 where
  pub absolute : Bool
  pub names : List Text

-- `path.parts`: the anchor counts as a part.
abbrev pub parts : FilePath → List Text
parts p = if p.absolute then codes "/" ∷ p.names else p.names

abbrev same_anchor : Bool → Bool → Bool
same_anchor true b = b
same_anchor false true = false
same_anchor false false = true

names_eq : List Text → List Text → Bool
names_eq [] [] = true
names_eq (x ∷ xs) (y ∷ ys) = if text_eq x y then names_eq xs ys else false
names_eq _ _ = false

-- p == q
unfoldable pub path_eq : FilePath → FilePath → Bool
unfolding names_eq
path_eq p q = if same_anchor p.absolute q.absolute then names_eq p.names q.names else false

names_eq_sound : (xs ys : List Text) → names_eq xs ys ≡ true → xs ≡ ys
unfolding names_eq
names_eq_sound [] [] h = refl
names_eq_sound (x ∷ xs) (y ∷ ys) h = ground (arith, text_eq_iff x y, names_eq_sound xs ys)
names_eq_sound [] (y ∷ ys) h = ground arith
names_eq_sound (x ∷ xs) [] h = ground arith

names_eq_refl : (xs : List Text) → names_eq xs xs ≡ true
unfolding names_eq
names_eq_refl [] = refl
names_eq_refl (x ∷ xs) = ground (arith, text_eq_iff x x, names_eq_refl xs)

pub path_eq_iff : (p q : FilePath) → (path_eq p q ≡ true) ↔ (p ≡ q)
unfolding path_eq
path_eq_iff p q = (
  ground (arith, names_eq_sound p.names q.names),
  λ e. rw e (ground (arith, names_eq_refl q.names)),
)

instance abbrev pub path_keys : Eq FilePath
path_keys = record { beq = path_eq; beq_iff = path_eq_iff }

instance abbrev pub text_keys : Eq Text
text_keys = record { beq = text_eq; beq_iff = text_eq_iff }

-- What is left of `xs` after the prefix `ws`.
unfoldable pub strip_names : List Text → List Text → Option (List Text)
strip_names [] xs = some xs
strip_names (w ∷ ws) [] = none
strip_names (w ∷ ws) (x ∷ xs) = if text_eq w x then strip_names ws xs else none

abbrev relative : Option (List Text) → Option FilePath
relative none = none
relative (some names) = some (record { absolute = false; names = names })

-- `p.relative_to(root)`; `none` is its ValueError.
unfoldable pub relative_to : FilePath → FilePath → Option FilePath
unfolding strip_names
relative_to p root =
    if same_anchor p.absolute root.absolute then relative (strip_names root.names p.names) else none

-- `p / name` and below: a path extended by components.
unfoldable pub extend : FilePath → List Text → FilePath
extend root rest = record root { names = root.names ++ rest }

-- `p.as_posix()`
abbrev posix_names : List Text → Text
posix_names [] = codes "."
posix_names (x ∷ xs) = join (codes "/") (x ∷ xs)

unfoldable pub as_posix : FilePath → Text
as_posix p = if p.absolute then slash ∷ join (codes "/") p.names else posix_names p.names

strip_names-append : (ws rest : List Text) → strip_names ws (ws ++ rest) ≡ some rest
unfolding strip_names
strip_names-append [] rest = refl
strip_names-append (w ∷ ws) rest = ground (arith, text_eq_iff w w, strip_names-append ws rest)

strip_names_sound : (ws xs rest : List Text) → strip_names ws xs ≡ some rest → xs ≡ ws ++ rest
unfolding strip_names
strip_names_sound [] xs rest h = ground arith
strip_names_sound (w ∷ ws) [] rest h = ground arith
strip_names_sound (w ∷ ws) (x ∷ xs) rest h =
    ground (arith, text_eq_iff w x, strip_names_sound ws xs rest)

-- A path below `root` is `root` extended by its relative part, and the other way round.
pub relative_to-extend :
    (root : FilePath) (rest : List Text)
    → relative_to (extend root rest) root ≡ some (record { absolute = false; names = rest })
unfolding relative_to extend
relative_to-extend root rest = ground (arith, strip_names-append root.names rest)

pub relative_to_sound :
    (p root rel : FilePath) → relative_to p root ≡ some rel → p ≡ extend root rel.names
unfolding relative_to extend
relative_to_sound p root rel h = elim (Option-cases (strip_names root.names p.names)) [
  | inl e ↦ ground arith
  | inr (rest, e) ↦ ground (arith, strip_names_sound root.names p.names rest e)
]
