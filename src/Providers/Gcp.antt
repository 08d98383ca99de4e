-- ===== src/Providers/Gcp.antt =====
-- `GcpCdnProvider._purge_one` of src/mirror_mirage/providers/gcp.py, behind its limiter. `str.lower` is
-- a parameter, since it needs Unicode's tables.
pub mod Answers
use mirror_mirage.Prelude.{ℕ, Bool, Option, none, some, [], ◌∷◌, ◌++◌, any, ◌==◌, if◌then◌else◌}
use mirror_mirage.Text.{Text}
use mirror_mirage.Worker.{PurgeResult}
use mirror_mirage.Url.{Url, urlparse, span, cut}
use mirror_mirage.Providers.{Reply, Token, gcp_purge_one}
use mirror_mirage.Providers.CloudFront.{path_or_root}

-- `s.rpartition(c)[2]`
unfoldable pub after_last : ℕ → Text → Text
after_last c [] = []
after_last c (d ∷ s) =
    let below = after_last c s in if any (λ e. e == c) s then below else if d == c then s else d ∷ s

-- `s.partition(c)[0]`
abbrev pub before_first : ℕ → Text → Text
before_first c s = (span (λ d. d == c) s).0

abbrev pub in_brackets : Text → Option (Text × Text) → Text
in_brackets hostinfo none = before_first b':' hostinfo
in_brackets hostinfo (some (before, bracketed)) = before_first b']' bracketed

abbrev pub lowered : (Text → Text) → Text → Text
lowered lower [] = []
lowered lower (c ∷ s) = lower (span (λ d. d == b'%') (c ∷ s)).0 ++ (span (λ d. d == b'%') (c ∷ s)).1

-- `parsed.hostname or ""`: without the user before an `@`, the port, and the brackets of an address;
-- the zone of an address is not lowered.
unfoldable pub hostname : (Text → Text) → Text → Text
hostname lower netloc =
    let hostinfo = after_last b'@' netloc in
    lowered lower (in_brackets hostinfo (cut b'[' hostinfo))

-- The body of the POST.
pub record Body : Type 0 where
  pub path : Text
  pub host : Text

abbrev pub body_of : (Text → Text) → Option Url → Option Body
body_of lower none = none
body_of lower (some parsed) =
    some (record { path = path_or_root parsed.path; host = hostname lower parsed.netloc })

-- `none` is the ValueError of `urlparse`.
unfoldable pub request_body : (Text → Bool) → (Text → Text) → Text → Option Body
request_body refuses lower url = body_of lower (urlparse refuses url)

abbrev pub answer_to : Token → (Body → Reply) → Option Body → Option PurgeResult
answer_to given reply none = none
answer_to given reply (some body) = some (gcp_purge_one given (reply body))

-- `_purge_one(url)`; `reply` is what the POST gives for a body.
unfoldable pub purge_one :
    (Text → Bool) → (Text → Text) → Token → (Body → Reply) → Text → Option PurgeResult
purge_one refuses lower given reply url = answer_to given reply (request_body refuses lower url)
