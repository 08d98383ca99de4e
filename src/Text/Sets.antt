-- ===== src/Text/Sets.antt =====
-- Sets of texts, as lists without repetition.
use mirror_mirage.Prelude.{
  ◌≡◌, sym, subst, ◌↔◌, ◌⊎◌, inl, inr, false, List, [], ◌∷◌, In, any, Bool-cases, IsUnique,
  IsUnique-snoc, In-append_left, In-append_right, In-append_cases,
}
use mirror_mirage.Text.{Text, text_eq, text_eq_iff, any-In, add_to_set}

not_any : (s : Text) (names : List Text) → any (text_eq s) names ≡ false → ¬ In s names
not_any s (n ∷ names) h m = elim (Bool-cases (text_eq s n)) [
  | inl e ↦ absurd (cc (rw e at h))
  | inr e ↦ elim m [
    | inl same ↦ absurd (cc (e, (text_eq_iff s n).1 same))
    | inr later ↦ not_any s names (rw e at h) later
  ]
]
not_any s [] h m = absurd m

pub add_to_set_iff : (x r : Text) (es : List Text) → In x (add_to_set r es) ↔ (In x es ⊎ (x ≡ r))
unfolding add_to_set
add_to_set_iff x r es = elim (Bool-cases (any (text_eq r) es)) [
  | inl a ↦ rw a (
    λ m. inl m,
    λ m. elim m [
      | inl old ↦ old
      | inr same ↦ subst (λ (t : Text). In t es) (sym same) (any-In r es a)
    ],
  )
  | inr a ↦ rw a (
    λ m. elim (In-append_cases x es (r ∷ []) m) [
      | inl old ↦ inl old
      | inr (inl same) ↦ inr same
      | inr (inr absent) ↦ absurd absent
    ],
    λ m. elim m [
      | inl old ↦ In-append_left x es (r ∷ []) old
      | inr same ↦ In-append_right x es (r ∷ []) (inl same)
    ],
  )
]

pub add_to_set-IsUnique : (r : Text) (es : List Text) → IsUnique es → IsUnique (add_to_set r es)
unfolding add_to_set
add_to_set-IsUnique r es u = elim (Bool-cases (any (text_eq r) es)) [
  | inl a ↦ rw a u
  | inr a ↦ rw a (IsUnique-snoc es r u (not_any r es a))
]
