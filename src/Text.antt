-- ===== src/Text.antt =====
-- Python strings as lists of code points, and the string methods that the program calls.
pub mod Split
pub mod Sets
use Prim.Native.Char.{code}
use Prim.Native.String.{String}
use Prim.Native.Nat.{◌/◌, ◌%◌}
use mirror_mirage.Prelude.{
  ℕ, zero, suc, ◌+◌, ltb, ◌≡◌, refl, ◌↔◌, Bool, true, false, List, [], ◌∷◌, ◌++◌, arith, ◌==◌,
  if◌then◌else◌, any, In, inl, inr, Bool-cases,
}

abbrev pub Text : Type 0
Text = List ℕ

-- The code points of a literal. `String` has its own `[]` and `∷`.
abbrev pub codes : String → Text
codes String.[] = []
codes (String.◌∷◌ c s) = code c ∷ codes s

-- s == t
unfoldable pub text_eq : Text → Text → Bool
text_eq [] [] = true
text_eq (c ∷ s) (d ∷ t) = if c == d then text_eq s t else false
text_eq _ _ = false

text_eq_sound : (s t : Text) → text_eq s t ≡ true → s ≡ t
unfolding text_eq
text_eq_sound [] [] h = refl
text_eq_sound (c ∷ s) (d ∷ t) h = ground (arith, text_eq_sound s t)
text_eq_sound [] (d ∷ t) h = ground arith
text_eq_sound (c ∷ s) [] h = ground arith

text_eq_refl : (s : Text) → text_eq s s ≡ true
unfolding text_eq
text_eq_refl [] = refl
text_eq_refl (c ∷ s) = ground (arith, text_eq_refl s)

pub text_eq_iff : (s t : Text) → (text_eq s t ≡ true) ↔ (s ≡ t)
text_eq_iff s t = (text_eq_sound s t, λ e. rw e (text_eq_refl t))

-- `s in names`
pub any-In : (s : Text) (names : List Text) → any (text_eq s) names ≡ true → In s names
any-In s [] h = cc
any-In s (n ∷ ns) h = elim (Bool-cases (text_eq s n)) [
  | inl e ↦ inl ((text_eq_iff s n).0 e)
  | inr e ↦ inr (any-In s ns (rw e at h))
]

-- `names.add(s)`, for a set as a list without repetition
unfoldable pub add_to_set : Text → List Text → List Text
add_to_set s names = if any (text_eq s) names then names else names ++ s ∷ []

abbrev pub slash : ℕ
slash = b'/'

-- `s.split("/")`: the pieces between slashes, at least one.
abbrev push_front : ℕ → List Text → List Text
push_front c [] = (c ∷ []) ∷ []
push_front c (piece ∷ pieces) = (c ∷ piece) ∷ pieces

unfoldable pub split_slash : Text → List Text
split_slash [] = [] ∷ []
split_slash (c ∷ s) = if c == slash then [] ∷ split_slash s else push_front c (split_slash s)

-- `sep.join(pieces)`
unfoldable pub join : Text → List Text → Text
join sep [] = []
join sep (piece ∷ []) = piece
join sep (piece ∷ next ∷ pieces) = piece ++ (sep ++ join sep (next ∷ pieces))

-- `s.rstrip("/")`
abbrev strip_end : ℕ → Text → Text
strip_end c [] = if c == slash then [] else c ∷ []
strip_end c (d ∷ s) = c ∷ d ∷ s

unfoldable pub rstrip_slash : Text → Text
rstrip_slash [] = []
rstrip_slash (c ∷ s) = strip_end c (rstrip_slash s)

-- `str(n)`: the recursion takes a digit off each round, so `n` rounds are enough.
decimal_from : ℕ → ℕ → Text
decimal_from zero n = []
decimal_from (suc fuel) n =
    let more = decimal_from fuel (n / 10) ++ (48 + n % 10) ∷ [] in
    if ltb n 10 then (48 + n) ∷ [] else more

unfoldable pub decimal : ℕ → Text
unfolding decimal_from
decimal n = decimal_from (suc n) n
