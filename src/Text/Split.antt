-- ===== src/Text/Split.antt =====
-- Splitting at slashes and joining by slashes.
use mirror_mirage.Prelude.{◌≡◌, refl, false, List, [], ◌∷◌, ◌++◌, All, ◌==◌}
use mirror_mirage.Text.{Text, codes, slash, split_slash, join}

-- A path component: a text without a slash.
abbrev pub NoSlash : Text → Type 0
NoSlash = All (λ c. (c == slash) ≡ false)

split_slash-piece : (s : Text) → NoSlash s → split_slash s ≡ s ∷ []
unfolding split_slash
split_slash-piece [] h = refl
split_slash-piece (c ∷ s) h = rw (h.0, split_slash-piece s h.1)

pub split_slash-append : (s t : Text) → NoSlash s → split_slash (s ++ slash ∷ t) ≡ s ∷ split_slash t
unfolding split_slash
split_slash-append [] t h = refl
split_slash-append (c ∷ s) t h = rw (h.0, split_slash-append s t h.1)

-- `"/".join(pieces).split("/") == pieces` for a non-empty list of pieces that hold no slash.
pub split_slash-join :
    (p : Text) (pieces : List Text)
    → NoSlash p
    → All NoSlash pieces
    → split_slash (join (codes "/") (p ∷ pieces)) ≡ p ∷ pieces
unfolding join
split_slash-join p [] h k = split_slash-piece p h
split_slash-join p (q ∷ pieces) h k =
    rw (split_slash-append p (join (codes "/") (q ∷ pieces)) h)
      (rw (split_slash-join q pieces k.0 k.1))
