-- ===== src/Url/Https.antt =====
-- An `https` URL of a host and a path, taken apart and put together.
use mirror_mirage.Prelude.{
  ℕ, ◌≡◌, ◌≢◌, refl, sym, ap, ◌∙◌, Bool, true, false, not, none, some, [], ◌∷◌, ◌++◌, keep, All,
  ◌==◌, if◌then◌else◌, arith,
}
use mathlib.Core.List.{append-nil}
use mirror_mirage.Text.{Text, codes, slash, text_eq}
use mirror_mirage.Url.{
  Url, span, cut, lstrip, is_unsafe, take_scheme, take_netloc, take_rest, ends_netloc, split_params,
  parse_after, urlparse, urlunparse,
}

-- A character that can stand in a host, or in a path that has no query, fragment or parameters.
abbrev pub IsHost : Text → Type 0
IsHost = All (λ c. (ends_netloc c ≡ false) × (is_unsafe c ≡ false))

abbrev pub IsPathChar : ℕ → Type 0
IsPathChar c =
    ((c == b'#') ≡ false) × ((c == b'?') ≡ false) × ((c == b';') ≡ false) × (is_unsafe c ≡ false)

abbrev pub IsPath : Text → Type 0
IsPath = All IsPathChar

-- `https://host/path`
abbrev pub https : Text → Text → Text
https host path = codes "https://" ++ (host ++ slash ∷ path)

abbrev pub https_parts : Text → Text → Url
https_parts host path = record {
  scheme = codes "https";
  netloc = host;
  path = slash ∷ path;
  params = [];
  query = [];
  fragment = [];
}

pub span-All : (stop : ℕ → Bool) (s : Text) → All (λ c. stop c ≡ false) s → span stop s ≡ (s, [])
unfolding span
span-All stop [] h = refl
span-All stop (c ∷ s) h = rw (h.0, span-All stop s h.1)

span-stop :
    (stop : ℕ → Bool) (s : Text) (d : ℕ) (t : Text)
    → All (λ c. stop c ≡ false) s
    → stop d ≡ true
    → span stop (s ++ d ∷ t) ≡ (s, d ∷ t)
unfolding span
span-stop stop [] d t h e = rw e
span-stop stop (c ∷ s) d t h e = rw (h.0, span-stop stop s d t h.1 e)

take_rest-All : (c : ℕ) (s : Text) → All (λ d. (d == c) ≡ false) s → take_rest c s ≡ (s, [])
unfolding take_rest cut
take_rest-All c s h = rw (span-All (λ d. d == c) s h)

pub All-map : (P Q : ℕ → Type 0) (s : Text) → ((c : ℕ) → P c → Q c) → All P s → All Q s
All-map P Q [] f h = tt
All-map P Q (c ∷ s) f h = (f c h.0, All-map P Q s f h.1)

keep-All :
    (s t : Text)
    → All (λ c. is_unsafe c ≡ false) s
    → keep (λ c. not (is_unsafe c)) (s ++ t) ≡ s ++ keep (λ c. not (is_unsafe c)) t
keep-All [] t h = refl
keep-All (c ∷ s) t h = rw (h.0, keep-All s t h.1)

split_params-All : (s : Text) → All (λ c. (c == b';') ≡ false) s → split_params s ≡ (s, [])
unfolding split_params
split_params-All [] h = refl
split_params-All (c ∷ s) h = rw (h.0, split_params-All s h.1) (ground arith)

kept :
    (host path : Text)
    → IsHost host
    → IsPath path
    → keep (λ c. not (is_unsafe c)) (host ++ slash ∷ path) ≡ host ++ slash ∷ path
kept host path h p =
    keep-All host (slash ∷ path) (All-map _ _ host (λ c k. k.1) h)
    ∙ ap (λ s. host ++ slash ∷ s)
        (ap (keep (λ c. not (is_unsafe c))) (sym (append-nil path))
          ∙ keep-All path [] (All-map _ _ path (λ c k. k.3) p)
          ∙ append-nil path)

parse_after-https :
    (refuses : Text → Bool) (host path : Text)
    → IsHost host
    → IsPath path
    → parse_after refuses (codes "https") (slash ∷ slash ∷ (host ++ slash ∷ path))
      ≡ (if refuses host then none else some (https_parts host path))
unfolding parse_after take_netloc text_eq
parse_after-https refuses host path h p = rw (
  span-stop ends_netloc host slash path (All-map _ _ host (λ c k. k.0) h) refl,
  take_rest-All b'#' (slash ∷ path) (refl, All-map _ _ path (λ c k. k.0) p),
  take_rest-All b'?' (slash ∷ path) (refl, All-map _ _ path (λ c k. k.1) p),
  split_params-All (slash ∷ path) (refl, All-map _ _ path (λ c k. k.2) p),
)

pub urlparse-https :
    (refuses : Text → Bool) (host path : Text)
    → IsHost host
    → IsPath path
    → urlparse refuses (https host path)
      ≡ (if refuses host then none else some (https_parts host path))
unfolding urlparse lstrip take_scheme cut span
urlparse-https refuses host path h p =
    rw (kept host path h p) (parse_after-https refuses host path h p)

pub urlunparse-https :
    (host path : Text) → host ≢ [] → urlunparse (https_parts host path) ≡ https host path
unfolding urlunparse text_eq
urlunparse-https [] path n = absurd (n refl)
urlunparse-https (h ∷ host) path n = rw (append-nil path, append-nil (host ++ slash ∷ path))
