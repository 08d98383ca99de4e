-- ===== src/Providers/Fastly.antt =====
-- src/mirror_mirage/providers/fastly.py. What httpx gives, and the JSON of its bodies, is a parameter;
-- so are the checks of a network location in `urlparse`, and `repr` of the service's id.
pub mod Expansion
pub mod Domains
pub mod Reach
use mirror_mirage.Prelude.{
  ℕ, suc, ◌+◌, Bool, true, false, not, ◌&&◌, Option, none, some, List, [], ◌∷◌, ◌++◌, ltb, leb,
  ◌==◌, any, if◌then◌else◌, ◌⊎◌, inl, inr,
}
use mirror_mirage.Text.{Text, codes, text_eq, add_to_set, decimal}
use mirror_mirage.Worker.{PurgeResult}
use mirror_mirage.Url.{Url, urlparse, urlunparse}
use mirror_mirage.Providers.{Reply, classify, combine, retryable_status}

-- `FASTLY_API_BASE`
abbrev pub api_base : Text
api_base = codes "https://api.fastly.com"

abbrev with_query : Text → Text → Text
with_query suffix [] = suffix
with_query suffix (c ∷ query) = suffix ++ (codes "?" ++ c ∷ query)

abbrev pub endpoint_of : Url → Text
endpoint_of parsed =
    api_base ++ (codes "/purge/" ++ with_query (parsed.netloc ++ parsed.path) parsed.query)

abbrev pub map_option : {A B : Type 0} → (A → B) → Option A → Option B
map_option f none = none
map_option f (some a) = some (f a)

-- `_purge_endpoint(url)`; `none` is the ValueError of `urlparse`, here and below.
unfoldable pub purge_endpoint : (Text → Bool) → Text → Option Text
purge_endpoint refuses url = map_option endpoint_of (urlparse refuses url)

-- `parsed._replace(netloc=host)`, put together again
abbrev pub on_host : Url → Text → Text
on_host parsed host = urlunparse (record parsed { netloc = host })

-- The loop over the hosts. `seen` is the set of what `expanded` holds.
unfoldable pub add_hosts : Url → List Text → List Text → List Text
add_hosts parsed [] expanded = expanded
add_hosts parsed (host ∷ hosts) expanded =
    add_hosts parsed hosts (add_to_set (on_host parsed host) expanded)

-- The loop over the URLs.
unfoldable pub expand_each : (Text → Bool) → List Text → List Text → List Text → Option (List Text)
expand_each refuses domains [] expanded = some expanded
expand_each refuses domains (url ∷ urls) expanded = elim (urlparse refuses url) [
  | none ↦ none
  | some parsed ↦
      expand_each refuses domains urls (add_hosts parsed (parsed.netloc ∷ domains) expanded)
]

-- `_expand_urls_across_domains(urls, domains)`
unfoldable pub expand_urls_across_domains :
    (Text → Bool) → List Text → List Text → Option (List Text)
expand_urls_across_domains refuses urls [] = some urls
expand_urls_across_domains refuses urls (d ∷ domains) = expand_each refuses (d ∷ domains) urls []

pub record FastlyProvider : Type 0 where
  pub service_id : Text
  pub purge_all_service_domains : Bool
  pub cached : Option (List Text)

-- What a GET gives: an `httpx.HTTPError` with its text, another exception, or a status with what the
-- body of a reply holds; `none` is a body from which `json()` or the reads below raise.
pub data ApiReply : Type 0 → Type 1 where
  get_error : {A : Type 0} → Text → ApiReply A
  get_raised : {A : Type 0} → ApiReply A
  answered : {A : Type 0} → ℕ → Option A → ApiReply A

abbrev pub is_success : ℕ → Bool
is_success code = leb 200 code && ltb code 300

abbrev pub discovery_error : ℕ → PurgeResult
discovery_error code = record {
  ok = false;
  retryable = any (λ s. code == s) retryable_status;
  message = codes "domain discovery: HTTP " ++ decimal code;
}

abbrev pub transport_error : Text → PurgeResult
transport_error e = record { ok = false; retryable = true; message = codes "transport: " ++ e }

abbrev pub body_or_raise : {A : Type 0} → Option A → Option (PurgeResult ⊎ A)
body_or_raise none = none
body_or_raise (some body) = some (inr body)

-- `_api_get`, the two tests after it, and `json()`; `none` is an exception, here and below.
abbrev pub api_get : {A : Type 0} → ApiReply A → Option (PurgeResult ⊎ A)
api_get (get_error e) = some (inl (transport_error e))
api_get get_raised = none
api_get (answered code body) =
    if is_success code then body_or_raise body else some (inl (discovery_error code))

-- An entry of `versions`: `v.get("active")` as a truth value, and `v.get("number")`.
pub record Version : Type 0 where
  pub active : Bool
  pub number : Option ℕ

-- The loop that ends at the first active version.
unfoldable pub active_version : List Version → Option ℕ
active_version [] = none
active_version (v ∷ versions) = if v.active then v.number else active_version versions

-- `[str(d["name"]) for d in raw_domains if "name" in d]`, by what `d` has for "name"
unfoldable pub names_of : List (Option Text) → List Text
names_of [] = []
names_of (none ∷ raw_domains) = names_of raw_domains
names_of (some name ∷ raw_domains) = name ∷ names_of raw_domains

-- Fastly's API: the service, and the domains of one of its versions.
pub record Api : Type 1 where
  pub service : ApiReply (List Version)
  pub domain_list : ℕ → ApiReply (List (Option Text))

abbrev pub Ensured : Type 0
Ensured = FastlyProvider × List Text × Option PurgeResult

module _ (repr : Text → Text) where
  abbrev pub no_active_version : Text → PurgeResult
  no_active_version service_id = record {
    ok = false;
    retryable = false;
    message =
        codes "domain discovery: service " ++ (repr service_id ++ codes " has no active version");
  }

  -- The second request's result, and the cache.
  abbrev pub discovered :
      FastlyProvider → Option (PurgeResult ⊎ List (Option Text)) → Option Ensured
  discovered p none = none
  discovered p (some (inl err)) = some (p, [], some err)
  discovered p (some (inr raw_domains)) =
      some (record p { cached = some (names_of raw_domains) }, names_of raw_domains, none)

  abbrev pub on_version : Api → FastlyProvider → Option ℕ → Option Ensured
  on_version api p none = some (p, [], some (no_active_version p.service_id))
  on_version api p (some version) = discovered p (api_get (api.domain_list version))

  abbrev pub on_service :
      Api → FastlyProvider → Option (PurgeResult ⊎ List Version) → Option Ensured
  on_service api p none = none
  on_service api p (some (inl err)) = some (p, [], some err)
  on_service api p (some (inr versions)) = on_version api p (active_version versions)

  abbrev pub unless_cached : Api → FastlyProvider → Option (List Text) → Option Ensured
  unless_cached api p none = on_service api p (api_get api.service)
  unless_cached api p (some domains) = some (p, domains, none)

  -- `_ensure_domains()`
  unfoldable pub ensure_domains : Api → FastlyProvider → Option Ensured
  ensure_domains api p = unless_cached api p p.cached

module _ (refuses : Text → Bool) (reply : ℕ → Text → Reply) where
  -- `_purge_one(url)`, the n-th call; `reply` is what its POST to an endpoint gives.
  unfoldable pub purge_one : ℕ → Text → Option PurgeResult
  purge_one n url =
      map_option (λ endpoint. classify (reply n endpoint)) (purge_endpoint refuses url)

  abbrev pub with_first : Option PurgeResult → Option (List PurgeResult) → Option (List PurgeResult)
  with_first none results = none
  with_first (some r) none = none
  with_first (some r) (some results) = some (r ∷ results)

  -- `await asyncio.gather(*(self._purge_one(u) for u in urls))`, which raises if a call does.
  unfoldable pub gather : ℕ → List Text → Option (List PurgeResult)
  gather n [] = some []
  gather n (url ∷ urls) = with_first (purge_one n url) (gather (suc n) urls)

  -- From `gather` on.
  abbrev pub purge_now : FastlyProvider → Option (List Text) → Option (FastlyProvider × PurgeResult)
  purge_now p none = none
  purge_now p (some urls) = map_option (λ results. (p, combine results)) (gather 0 urls)

  abbrev pub purge_on : Option Ensured → List Text → Option (FastlyProvider × PurgeResult)
  purge_on none urls = none
  purge_on (some (p, domains, some err)) urls = some (p, err)
  purge_on (some (p, domains, none)) urls =
      purge_now p (expand_urls_across_domains refuses urls domains)

  -- `purge(urls)`
  unfoldable pub purge :
      (Text → Text) → Api → FastlyProvider → List Text → Option (FastlyProvider × PurgeResult)
  purge repr api p [] = some (p, record { ok = true; retryable = false; message = codes "empty" })
  purge repr api p (url ∷ urls) =
      if p.purge_all_service_domains
      then purge_on (ensure_domains repr api p) (url ∷ urls)
      else purge_now p (some (url ∷ urls))
