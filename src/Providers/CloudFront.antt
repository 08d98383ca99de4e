-- ===== src/Providers/CloudFront.antt =====
-- `CloudFrontProvider.purge` of src/mirror_mirage/providers/cloudfront.py: the paths that it
-- sends, and its error classes. What boto3 makes of the paths is a parameter.
pub mod Paths
use mirror_mirage.Prelude.{
  ℕ, Bool, true, false, Option, none, some, List, [], ◌∷◌, ◌++◌, any, ltb, ◌==◌, if◌then◌else◌,
}
use mirror_mirage.Text.{Text, codes, text_eq, add_to_set}
use mirror_mirage.Url.{Url, urlparse}
use mirror_mirage.Worker.{PurgeResult}

-- How the boto3 call ends. A credentials error and a client error are caught before the class
-- `BotoCoreError`, all else after it.
pub data Ending : Type 0 where
  accepted : Ending
  credentials_error : Text → Ending
  client_error : Text → Text → Ending
  botocore_error : Text → Ending
  other_error : Text → Ending

-- `_RETRYABLE_CODES`
abbrev pub retryable_codes : List Text
retryable_codes =
    codes "Throttling"
    ∷ codes "ThrottlingException"
    ∷ codes "RequestLimitExceeded"
    ∷ codes "TooManyRequestsException"
    ∷ codes "ServiceUnavailable"
    ∷ codes "ServiceUnavailableException"
    ∷ codes "TooManyInvalidationsInProgress"
    ∷ codes "InternalFailure"
    ∷ codes "InternalServerError"
    ∷ []

-- The `except` clauses of `purge`, for a batch that is not empty.
unfoldable pub classify_ending : Ending → PurgeResult
classify_ending accepted = record { ok = true; retryable = false; message = codes "ok" }
classify_ending (credentials_error e) = record {
  ok = false;
  retryable = false;
  message = codes "auth: " ++ e;
}
classify_ending (client_error code e) = record {
  ok = false;
  retryable = any (text_eq code) retryable_codes;
  message = (code ++ codes ": ") ++ e;
}
classify_ending (botocore_error e) = record {
  ok = false;
  retryable = true;
  message = codes "botocore: " ++ e;
}
classify_ending (other_error e) = record {
  ok = false;
  retryable = true;
  message = codes "transport: " ++ e;
}

-- `s < t`, by code points
unfoldable pub text_ltb : Text → Text → Bool
text_ltb s [] = false
text_ltb [] (d ∷ t) = true
text_ltb (c ∷ s) (d ∷ t) =
    let rest = text_ltb s t in if ltb c d then true else if c == d then rest else false

-- `sorted(names)`
unfoldable pub insert : Text → List Text → List Text
insert s [] = s ∷ []
insert s (t ∷ ts) = if text_ltb t s then t ∷ insert s ts else s ∷ t ∷ ts

unfoldable pub sorted : List Text → List Text
sorted [] = []
sorted (s ∷ ss) = insert s (sorted ss)

-- `path or "/"`
abbrev pub path_or_root : Text → Text
path_or_root [] = codes "/"
path_or_root (c ∷ path) = c ∷ path

-- `{urlparse(u).path or "/" for u in urls}`, onto a set built so far; `none` is the ValueError of
-- `urlparse`.
unfoldable pub path_set : (Text → Bool) → List Text → List Text → Option (List Text)
path_set refuses [] paths = some paths
path_set refuses (url ∷ urls) paths = elim (urlparse refuses url) [
  | none ↦ none
  | some parsed ↦ path_set refuses urls (add_to_set (path_or_root parsed.path) paths)
]

abbrev pub sorted_paths : Option (List Text) → Option (List Text)
sorted_paths none = none
sorted_paths (some paths) = some (sorted paths)

abbrev pub invalidated : (List Text → Ending) → Option (List Text) → Option PurgeResult
invalidated create_invalidation none = none
invalidated create_invalidation (some paths) = some (classify_ending (create_invalidation paths))

-- `purge(urls)`; `create_invalidation` is how the boto3 call ends on the paths.
unfoldable pub purge : (Text → Bool) → (List Text → Ending) → List Text → Option PurgeResult
purge refuses create_invalidation [] =
    some (record { ok = true; retryable = false; message = codes "empty" })
purge refuses create_invalidation (url ∷ urls) =
    invalidated create_invalidation (sorted_paths (path_set refuses (url ∷ urls) []))
