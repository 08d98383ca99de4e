-- ===== src/Glob/Fnmatch.antt =====
-- `fnmatch.fnmatchcase` of the standard library, which filter.py calls on one path component.
-- A component pattern is translated to items, as the library translates it to a regular expression.
pub mod Plain
use mirror_mirage.Prelude.{
  ℕ, zero, suc, ◌+◌, Bool, true, false, not, Option, none, some, List, [], ◌∷◌, leb, ◌==◌, length,
  any, keep, if◌then◌else◌,
}
use mirror_mirage.Text.{Text}

-- A member of a class: a character, or the range from one to another.
pub data Member : Type 0 where
  char : ℕ → Member
  range : ℕ → ℕ → Member

pub data Item : Type 0 where
  star : Item
  question : Item
  literal : ℕ → Item
  class : Bool → List Member → Item

abbrev in_member : ℕ → Member → Bool
in_member c (char d) = c == d
in_member c (range lo hi) = if leb lo c then leb c hi else false

-- The characters of a class, read left to right: `a-z` is a range wherever a character follows.
members : Text → List Member
members [] = []
members (a ∷ []) = char a ∷ []
members (a ∷ d ∷ []) = char a ∷ char d ∷ []
members (a ∷ d ∷ b ∷ rest) =
    let ranged = range a b ∷ members rest in
    let single = char a ∷ members (d ∷ b ∷ rest) in if d == b'-' then ranged else single

-- A range whose ends are in the wrong order is taken out.
abbrev is_inhabited : Member → Bool
is_inhabited (char c) = true
is_inhabited (range lo hi) = leb lo hi

-- A `!` that stands first after such ranges went is read as a negation too.
negate_first : List Member → Item
negate_first [] = class false []
negate_first (char c ∷ ms) = if c == b'!' then class true ms else class false (char c ∷ ms)
negate_first (range lo hi ∷ ms) =
    if lo == b'!' then class true (char b'-' ∷ char hi ∷ ms) else class false (range lo hi ∷ ms)

to_class : Text → Item
to_class [] = class false []
to_class (c ∷ s) =
    if c == b'!'
    then class true (keep is_inhabited (members s))
    else negate_first (keep is_inhabited (members (c ∷ s)))

-- The text up to the closing bracket; `none` if there is none.
until_bracket : Text → Option Text
until_bracket [] = none
until_bracket (c ∷ s) =
    if c == b']' then some [] else elim (until_bracket s) [ none ↦ none | some t ↦ some (c ∷ t) ]

-- The first character of a class is a member, a bracket too.
after_first : Text → Option Text
after_first [] = none
after_first (c ∷ s) = elim (until_bracket s) [ none ↦ none | some t ↦ some (c ∷ t) ]

class_text : Text → Option Text
class_text [] = none
class_text (c ∷ s) =
    if c == b'!'
    then elim (after_first s) [ none ↦ none | some t ↦ some (c ∷ t) ]
    else after_first (c ∷ s)

-- `fnmatch.translate`; the number is how many characters a class has taken already.
translate : ℕ → Text → List Item
translate n [] = []
translate (suc n) (c ∷ s) = translate n s
translate zero (c ∷ s) =
    if c == b'*'
    then star ∷ translate 0 s
    else if c == b'?'
    then question ∷ translate 0 s
    else if c == b'['
    then elim (class_text s) [
      | none ↦ literal c ∷ translate 0 s
      | some t ↦ to_class t ∷ translate (length t + 1) s
    ]
    else literal c ∷ translate 0 s

-- `f` holds of the list or of one of its ends.
unfoldable pub on_suffixes {ℓ} : {A : Type ℓ} → (List A → Bool) → List A → Bool
on_suffixes f [] = f []
on_suffixes f (x ∷ xs) = if f (x ∷ xs) then true else on_suffixes f xs

accepts : Item → ℕ → Bool
accepts (literal d) c = c == d
accepts (class true ms) c = not (any (in_member c) ms)
accepts (class false ms) c = any (in_member c) ms
accepts _ c = true

match_items : List Item → Text → Bool
match_items [] [] = true
match_items [] (c ∷ s) = false
match_items (star ∷ p) s = on_suffixes (match_items p) s
match_items (_ ∷ p) [] = false
match_items (i ∷ p) (c ∷ s) = if accepts i c then match_items p s else false

-- `fnmatchcase(name, pattern)`
unfoldable pub fnmatchcase : Text → Text → Bool
unfolding members negate_first to_class until_bracket after_first class_text translate on_suffixes
    accepts match_items
fnmatchcase name pattern = match_items (translate 0 pattern) name
