-- ===== src/Providers.antt =====
-- src/mirror_mirage/providers: the CDN clients. Here is what they share: how a reply of the CDN's
-- HTTP service and the results of the single calls become a `PurgeResult`.
pub mod Limiter
pub mod Verdict
pub mod CloudFront
pub mod Gcp
pub mod Build
pub mod Fastly
pub mod Endpoints
use mirror_mirage.Prelude.{
  ℕ, suc, ◌+◌, Bool, true, false, not, ◌&&◌, List, [], ◌∷◌, ◌++◌, ltb, leb, ◌==◌, any, keep, map,
  if◌then◌else◌,
}
use mirror_mirage.Text.{Text, codes, join, decimal}
use mirror_mirage.Worker.{PurgeResult}

-- What `await client.post(…)` gives: a status, or an `httpx.HTTPError` with its text.
pub data Reply : Type 0 where
  status : ℕ → Reply
  http_error : Text → Reply

-- `_RETRYABLE_STATUS`
abbrev pub retryable_status : List ℕ
retryable_status = 408 ∷ 425 ∷ 429 ∷ 500 ∷ 502 ∷ 503 ∷ 504 ∷ []

-- The end of `_purge_one`, alike in fastly.py and gcp.py.
unfoldable pub classify : Reply → PurgeResult
classify (http_error e) = record {
  ok = false;
  retryable = true;
  message = codes "transport: " ++ e;
}
classify (status code) =
    if leb 200 code && ltb code 300
    then record { ok = true; retryable = false; message = codes "ok" }
    else if any (λ s. code == s) retryable_status
    then record { ok = false; retryable = true; message = codes "HTTP " ++ decimal code }
    else record { ok = false; retryable = false; message = codes "HTTP " ++ decimal code }

abbrev pub is_terminal : PurgeResult → Bool
is_terminal r = not r.ok && not r.retryable

abbrev pub is_retryable : PurgeResult → Bool
is_retryable r = not r.ok && r.retryable

abbrev messages : List PurgeResult → Text
messages rs = join (codes "; ") (map (λ (r : PurgeResult). r.message) rs)

-- The first list that is not empty decides.
abbrev verdict : List PurgeResult → List PurgeResult → PurgeResult
verdict [] [] = record { ok = true; retryable = false; message = codes "ok" }
verdict [] (r ∷ rs) = record { ok = false; retryable = true; message = messages (r ∷ rs) }
verdict (t ∷ ts) rs = record { ok = false; retryable = false; message = messages (t ∷ ts) }

-- The end of `purge`, alike in fastly.py and gcp.py, on the results of the single calls.
unfoldable pub combine : List PurgeResult → PurgeResult
combine results = verdict (keep is_terminal results) (keep is_retryable results)

-- One call for each URL; calls are numbered, so that equal URLs may get different replies.
unfoldable pub purge_each : (ℕ → Text → PurgeResult) → ℕ → List Text → List PurgeResult
purge_each purge_one n [] = []
purge_each purge_one n (u ∷ us) = purge_one n u ∷ purge_each purge_one (suc n) us

-- `purge(urls)` of both, from one call on (for Fastly, with the URLs expanded already).
unfoldable pub purge_urls : (ℕ → Text → PurgeResult) → List Text → PurgeResult
purge_urls purge_one [] = record { ok = true; retryable = false; message = codes "empty" }
purge_urls purge_one (u ∷ us) = combine (purge_each purge_one 0 (u ∷ us))

-- `GcpCdnProvider._purge_one` behind its limiter: what `_get_token` gives, then the reply.
pub data Token : Type 0 where
  token : Text → Token
  auth_error : Text → Token

unfoldable pub gcp_purge_one : Token → Reply → PurgeResult
gcp_purge_one (auth_error e) reply = record {
  ok = false;
  retryable = false;
  message = codes "auth: " ++ e;
}
gcp_purge_one (token t) reply = classify reply

-- `DryRunProvider.purge(urls)`
unfoldable pub dry_run_purge : List Text → PurgeResult
dry_run_purge urls = record { ok = true; retryable = false; message = codes "dry-run" }
