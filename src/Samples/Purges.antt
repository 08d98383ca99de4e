-- ===== src/Samples/Purges.antt =====
-- Purges by Fastly and CloudFront, with parameters that are concrete functions.
use mirror_mirage.Prelude.{
  map, leb, ◌&&◌, ◌+◌, ℕ, ◌==◌, if◌then◌else◌, ◌≡◌, refl, ◌↔◌, Bool, true, false, none, some, List,
  [], ◌∷◌, ◌++◌, In, inl, inr,
}
use mirror_mirage.Text.{Text, codes, slash}
use mirror_mirage.Text
use mirror_mirage.Url
use mirror_mirage.Url.{Url, urlparse}
use mirror_mirage.Url.Https.{https, https_parts}
use mirror_mirage.Config.{Binding}
use mirror_mirage.Mapper.{target}
use mirror_mirage.Worker.{PurgeResult}
use mirror_mirage.Providers
use mirror_mirage.Providers.{Reply, status}
use mirror_mirage.Providers.Fastly
use mirror_mirage.Providers.Fastly.{
  FastlyProvider, Api, ApiReply, answered, get_error, Version, Ensured, purge_endpoint, on_host,
  expand_urls_across_domains, ensure_domains, api_base,
}
use mirror_mirage.Providers.Fastly.Expansion.{Expansion, expand-Expansion}
use mirror_mirage.Providers.Fastly.Reach.{domains_of, Sent, Wanted, on_domain, purge-Sent}
use mirror_mirage.Providers.CloudFront
use mirror_mirage.Providers.CloudFront.{Ending, accepted, classify_ending, path_set}
use mirror_mirage.Providers.CloudFront.Paths.{IsAscending, PathOf, purge-Invalidates}
use mirror_mirage.Providers.Gcp
use mirror_mirage.Providers.Gcp.{hostname, request_body}
use mirror_mirage.Providers.Endpoints.{target-Endpoints}

-- A network location with a bracket is refused.
abbrev no_brackets : Text → Bool
no_brackets [] = false
no_brackets (c ∷ s) = if c == b'[' then true else no_brackets s

abbrev url : Text
url = codes "https://a/x"

abbrev urls : List Text
urls = url ∷ codes "https://b/x" ∷ []

abbrev both_hosts : List Text
both_hosts = codes "a" ∷ codes "b" ∷ []

expanded_urls : expand_urls_across_domains no_brackets urls both_hosts ≡ some urls
unfolding expand_urls_across_domains Fastly.expand_each Fastly.add_hosts Text.add_to_set
    Text.text_eq urlparse Url.lstrip Url.take_scheme Url.cut Url.span Url.parse_after
    Url.take_netloc Url.take_rest Url.split_params Url.urlunparse
expanded_urls = refl

-- The part after `#` is no part of the path.
fragment_lost :
    purge_endpoint no_brackets (codes "https://a/c#.rpm") ≡ some (api_base ++ codes "/purge/a/c")
unfolding purge_endpoint urlparse Url.lstrip Url.take_scheme Url.cut Url.span Url.parse_after
    Url.take_netloc Url.take_rest Url.split_params Text.text_eq
fragment_lost = refl

expand-Expansion_example :
    Expansion no_brackets both_hosts urls (expand_urls_across_domains no_brackets urls both_hosts)
expand-Expansion_example = expand-Expansion no_brackets urls (codes "a") (codes "b" ∷ [])

abbrev quoted : Text → Text
quoted s = codes "'" ++ (s ++ codes "'")

abbrev api : Api
api = record {
  service = answered 200 (
      some (
        record { active = false; number = some 1 }
        ∷ record { active = true; number = some 2 }
        ∷ []));
  domain_list = λ version. answered 200 (some (some (codes "a") ∷ none ∷ some (codes "b") ∷ []));
}

abbrev provider : FastlyProvider
provider = record { service_id = codes "s1"; purge_all_service_domains = true; cached = none }

abbrev provider_then : FastlyProvider
provider_then = record provider { cached = some both_hosts }

abbrev all_well : ℕ → Text → Reply
all_well n endpoint = status 200

abbrev well : PurgeResult
well = record { ok = true; retryable = false; message = codes "ok" }

purged :
    Fastly.purge no_brackets all_well quoted api provider (url ∷ []) ≡ some (provider_then, well)
unfolding Fastly.purge ensure_domains Fastly.active_version Fastly.names_of
    expand_urls_across_domains Fastly.expand_each Fastly.add_hosts Text.add_to_set Text.text_eq
    urlparse Url.lstrip Url.take_scheme Url.cut Url.span Url.parse_after Url.take_netloc
    Url.take_rest Url.split_params Url.urlunparse Fastly.gather Fastly.purge_one purge_endpoint
    Providers.classify Providers.combine
purged = refl

url-Wanted :
    Wanted no_brackets all_well provider
      (domains_of no_brackets all_well (ensure_domains quoted api provider))
      (url ∷ [])
      (codes "https://b/x")
unfolding ensure_domains Fastly.active_version Fastly.names_of Text.text_eq urlparse Url.lstrip
    Url.take_scheme Url.cut Url.span Url.parse_after Url.take_netloc Url.take_rest Url.split_params
    Url.urlunparse
url-Wanted = on_domain (codes "a") (codes "b" ∷ []) refl refl (record {
  url = url;
  member = inl refl;
  parsed = https_parts (codes "a") (codes "x");
  parses = refl;
  host = codes "b";
  known = inr (inr (inl refl));
  same = refl;
})

purge-Sent_example : Sent no_brackets all_well (codes "https://b/x")
purge-Sent_example =
    purge-Sent no_brackets all_well quoted api provider provider_then (url ∷ []) well
      (codes "https://b/x") purged refl url-Wanted

abbrev accept_all : List Text → Ending
accept_all paths = accepted

invalidated_once : CloudFront.purge no_brackets accept_all urls ≡ some well
unfolding CloudFront.purge path_set CloudFront.sorted CloudFront.insert CloudFront.text_ltb
    Text.add_to_set Text.text_eq urlparse Url.lstrip Url.take_scheme Url.cut Url.span
    Url.parse_after Url.take_netloc Url.take_rest Url.split_params classify_ending
invalidated_once = refl

purge-Invalidates_example :
    (paths : List Text) × (well ≡ classify_ending (accept_all paths))
    × IsAscending paths
    × ((x : Text) → In x paths ↔ PathOf no_brackets urls x)
purge-Invalidates_example =
    purge-Invalidates no_brackets accept_all url (codes "https://b/x" ∷ []) well invalidated_once

abbrev binding : Binding
binding = record { cdn = codes "edge"; url_prefix = codes "https://m/p/" }

abbrev small : ℕ → ℕ
small c = if leb 65 c && leb c 90 then c + 32 else c

-- A user, capitals and a port.
hostname_of_all : hostname (map small) (codes "me@Cdn.Org:80") ≡ codes "cdn.org"
unfolding hostname Gcp.after_last Url.cut Url.span
hostname_of_all = refl

target-Endpoints_example :
    (purge_endpoint no_brackets (target (codes "f") binding).url
      ≡ some (api_base ++ (codes "/purge/" ++ (codes "m" ++ slash ∷ codes "p/f"))))
    × (on_host (https_parts (codes "m") (codes "p/f")) (codes "n")
        ≡ https (codes "n") (codes "p/f"))
    × (path_set no_brackets ((target (codes "f") binding).url ∷ []) []
        ≡ some ((slash ∷ codes "p/f") ∷ []))
    × (request_body no_brackets (map small) (target (codes "f") binding).url
        ≡ some (record { path = slash ∷ codes "p/f"; host = map small (codes "m") }))
unfolding Text.rstrip_slash
target-Endpoints_example =
    target-Endpoints no_brackets binding (codes "m") (codes "/p") (codes "f") (codes "p/f")
      (map small) (codes "n") refl refl ((refl, refl), tt) refl
      ((refl, refl, refl, refl), ((refl, refl, refl, refl), ((refl, refl, refl, refl), tt)))
      (λ e. cc) ((refl, refl, refl, refl), tt) (λ e. cc)
