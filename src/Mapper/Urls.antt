-- ===== src/Mapper/Urls.antt =====
-- The URL of a target and the file's path below the watch's root.
use mirror_mirage.Prelude.{◌≡◌, sym, ap, ◌∙◌, List, [], ◌∷◌, ◌++◌, All, false}
use mirror_mirage.Text.{Text, codes, rstrip_slash, split_slash}
use mirror_mirage.Text.Split.{NoSlash, split_slash-join}
use mirror_mirage.FilePath.{FilePath, as_posix}
use mirror_mirage.Config.{Binding}
use mirror_mirage.Mapper.{target}

-- A path strictly below a root: at least one component, none with a slash.
abbrev pub Below : List Text → Type 0
Below [] = ⊥
Below (n ∷ ns) = NoSlash n × All NoSlash ns

abbrev relative_path : List Text → FilePath
relative_path names = record { absolute = false; names = names }

split_slash-as_posix :
    (names : List Text) → Below names → split_slash (as_posix (relative_path names)) ≡ names
unfolding as_posix
split_slash-as_posix [] h = absurd h
split_slash-as_posix (n ∷ ns) h = split_slash-join n ns h.0 h.1

abbrev tail_of : Text → Text
tail_of [] = []
tail_of (c ∷ s) = s

append-cancel : (s : Text) {t u : Text} → s ++ t ≡ s ++ u → t ≡ u
append-cancel [] e = e
append-cancel (c ∷ s) e = append-cancel s (ap tail_of e)

-- Under one binding, two relative paths, each of at least one component and with no slash in a
-- component, get the same target only if they are one path.
pub target-injective :
    (b : Binding) (names others : List Text)
    → Below names
    → Below others
    → target (as_posix (relative_path names)) b ≡ target (as_posix (relative_path others)) b
    → names ≡ others
unfolding target
target-injective b names others h k e =
    sym (split_slash-as_posix names h)
    ∙ ap split_slash
        (append-cancel (codes "/") (append-cancel (rstrip_slash b.url_prefix) (ap (λ t. t.url) e)))
    ∙ split_slash-as_posix others k
