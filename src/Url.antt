-- ===== src/Url.antt =====
-- `urlparse` and `urlunparse` of Python's urllib.parse, which src/mirror_mirage/providers calls on the
-- URLs that it purges. The checks of a network location (its brackets, its characters beyond ASCII)
-- are the parameter `refuses`.
pub mod Https
use mirror_mirage.Prelude.{
  ℕ, ◌≡◌, refl, ◌+◌, Bool, true, false, not, ◌&&◌, ◌||◌, Option, none, some, List, [], ◌∷◌, ◌++◌,
  map, any, keep, leb, ltb, ◌==◌, if◌then◌else◌,
}
use mirror_mirage.Text.{Text, codes, slash, text_eq}

pub record Url : Type 0 where
  pub scheme : Text
  pub netloc : Text
  pub path : Text
  pub params : Text
  pub query : Text
  pub fragment : Text

abbrev is_empty : Text → Bool
is_empty [] = true
is_empty (_ ∷ _) = false

-- What stands before and after the first character that passes the test, and that character on.
unfoldable pub span : (ℕ → Bool) → Text → Text × Text
span stop [] = ([], [])
span stop (c ∷ s) =
    let below = span stop s in if stop c then ([], c ∷ s) else (c ∷ below.0, below.1)

abbrev split_at : Text → Text → Option (Text × Text)
split_at before [] = none
split_at before (c ∷ after) = some (before, after)

-- `s.split(c, 1)`, `none` without the character.
unfoldable pub cut : ℕ → Text → Option (Text × Text)
cut c s = split_at (span (λ d. d == c) s).0 (span (λ d. d == c) s).1

-- `s.lstrip(…)` of blanks and control characters
unfoldable pub lstrip : Text → Text
lstrip [] = []
lstrip (c ∷ s) = if leb c 32 then lstrip s else c ∷ s

-- A tab, a line feed or a carriage return is removed wherever it stands.
abbrev pub is_unsafe : ℕ → Bool
is_unsafe c = (c == 9) || ((c == 10) || (c == 13))

abbrev pub is_upper : ℕ → Bool
is_upper c = leb 65 c && leb c 90

abbrev pub is_alpha : ℕ → Bool
is_alpha c = is_upper c || (leb 97 c && leb c 122)

abbrev pub is_scheme_char : ℕ → Bool
is_scheme_char c =
    is_alpha c || ((leb 48 c && leb c 57) || ((c == b'+') || ((c == b'-') || (c == b'.'))))

abbrev pub is_scheme : Text → Bool
is_scheme [] = false
is_scheme (c ∷ s) = is_alpha c && not (any (λ d. not (is_scheme_char d)) (c ∷ s))

abbrev lower : ℕ → ℕ
lower c = if is_upper c then c + 32 else c

abbrev scheme_before : Text → Option (Text × Text) → Text × Text
scheme_before s none = ([], s)
scheme_before s (some (before, after)) =
    if is_scheme before then (map lower before, after) else ([], s)

-- The scheme, and what follows it.
unfoldable pub take_scheme : Text → Text × Text
take_scheme s = scheme_before s (cut b':' s)

abbrev ends_netloc : ℕ → Bool
ends_netloc c = (c == slash) || ((c == b'?') || (c == b'#'))

after_two_slashes : Text → Option Text
after_two_slashes (a ∷ b ∷ s) = if (a == slash) && (b == slash) then some s else none
after_two_slashes _ = none

abbrev netloc_of : Text → Option Text → Text × Text
netloc_of s none = ([], s)
netloc_of s (some rest) = span ends_netloc rest

-- The network location, and what follows it.
unfoldable pub take_netloc : Text → Text × Text
unfolding after_two_slashes
take_netloc s = netloc_of s (after_two_slashes s)

abbrev with_rest : Text → Option (Text × Text) → Text × Text
with_rest s none = (s, [])
with_rest s (some parts) = parts

-- `url, fragment = url.split("#", 1)` if there is one, and likewise for the query.
unfoldable pub take_rest : ℕ → Text → Text × Text
take_rest c s = with_rest s (cut c s)

-- The schemes that take parameters, and those with a network location.
abbrev uses_params : List Text
uses_params =
    []
    ∷ codes "ftp"
    ∷ codes "hdl"
    ∷ codes "prospero"
    ∷ codes "http"
    ∷ codes "imap"
    ∷ codes "https"
    ∷ codes "shttp"
    ∷ codes "rtsp"
    ∷ codes "rtspu"
    ∷ codes "sip"
    ∷ codes "sips"
    ∷ codes "mms"
    ∷ codes "sftp"
    ∷ codes "tel"
    ∷ []

abbrev uses_netloc : List Text
uses_netloc =
    []
    ∷ codes "ftp"
    ∷ codes "http"
    ∷ codes "gopher"
    ∷ codes "nntp"
    ∷ codes "telnet"
    ∷ codes "imap"
    ∷ codes "wais"
    ∷ codes "file"
    ∷ codes "mms"
    ∷ codes "https"
    ∷ codes "shttp"
    ∷ codes "snews"
    ∷ codes "prospero"
    ∷ codes "rtsp"
    ∷ codes "rtspu"
    ∷ codes "rsync"
    ∷ codes "svn"
    ∷ codes "svn+ssh"
    ∷ codes "sftp"
    ∷ codes "nfs"
    ∷ codes "git"
    ∷ codes "git+ssh"
    ∷ codes "ws"
    ∷ codes "wss"
    ∷ []

abbrev keep_path : Text → Text × Text → Text × Text
keep_path before (path, params) = (before ++ path, params)

-- `_splitparams(url)`: at the first `;` after the last `/`, or the first of all if there is no `/`.
unfoldable pub split_params : Text → Text × Text
split_params [] = ([], [])
split_params (c ∷ s) =
    let below = split_params s in
    if any (λ d. d == slash) s
    then (c ∷ below.0, below.1)
    else if c == b';'
    then ([], s)
    else (c ∷ below.0, below.1)

abbrev params_of : Text → Text → Text × Text
params_of scheme path = if any (text_eq scheme) uses_params then split_params path else (path, [])

abbrev parts_of : Text → Text → Text → Text → Text → Url
parts_of scheme netloc path query fragment = record {
  scheme = scheme;
  netloc = netloc;
  path = (params_of scheme path).0;
  params = (params_of scheme path).1;
  query = query;
  fragment = fragment;
}

-- From the scheme on.
unfoldable pub parse_after : (Text → Bool) → Text → Text → Option Url
parse_after refuses scheme rest =
    let (netloc, tail) = take_netloc rest in
    let (hierarchy, fragment) = take_rest b'#' tail in
    let (path, query) = take_rest b'?' hierarchy in
    if refuses netloc then none else some (parts_of scheme netloc path query fragment)

-- `urlparse(url)`; `none` is its ValueError.
unfoldable pub urlparse : (Text → Bool) → Text → Option Url
urlparse refuses url =
    let (scheme, rest) = take_scheme (keep (λ c. not (is_unsafe c)) (lstrip url)) in
    parse_after refuses scheme rest

abbrev starts_with : ℕ → Text → Bool
starts_with d [] = false
starts_with d (c ∷ s) = c == d

abbrev rooted : Text → Text
rooted [] = []
rooted (c ∷ s) = if c == slash then c ∷ s else slash ∷ c ∷ s

abbrev starts_twice : Text → Bool
starts_twice (a ∷ b ∷ s) = (a == slash) && (b == slash)
starts_twice _ = false

abbrev followed : ℕ → Text → Text
followed c [] = []
followed c (d ∷ s) = c ∷ d ∷ s

abbrev scheme_prefix : Text → Text
scheme_prefix [] = []
scheme_prefix (c ∷ s) = (c ∷ s) ++ codes ":"

-- `urlunparse(u)`
unfoldable pub urlunparse : Url → Text
urlunparse u =
    let path = u.path ++ followed b';' u.params in
    let has_netloc =
      not (is_empty u.netloc)
      || (not (is_empty u.scheme)
          && (any (text_eq u.scheme) uses_netloc && not (starts_twice path))) in
    scheme_prefix u.scheme
    ++ ((if has_netloc then codes "//" ++ (u.netloc ++ rooted path) else path)
        ++ (followed b'?' u.query ++ followed b'#' u.fragment))
