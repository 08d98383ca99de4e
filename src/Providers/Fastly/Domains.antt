-- ===== src/Providers/Fastly/Domains.antt =====
-- The discovery of Fastly's domains, and its cache.
use mirror_mirage.Prelude.{
  ℕ, ◌≡◌, refl, true, false, Option, none, some, List, [], ◌⊎◌, inl, inr, Bool-cases, Option-cases,
}
use mirror_mirage.Text.{Text}
use mirror_mirage.Worker.{PurgeResult}
use mirror_mirage.Providers.Fastly.{
  FastlyProvider, ApiReply, get_error, get_raised, answered, is_success, discovery_error,
  transport_error, api_get, Version, active_version, names_of, Api, Ensured, no_active_version,
  discovered, on_service, unless_cached, ensure_domains,
}

-- A reply that is reported as an error, and the result that reports it.
pub data Failed {A : Type 0} (reply : ApiReply A) (r : PurgeResult) : Type 1 where
  unreachable : (e : Text) → reply ≡ get_error e → r ≡ transport_error e → Failed reply r
  bad_status :
      (code : ℕ) (body : Option A)
      → reply ≡ answered code body
      → is_success code ≡ false
      → r ≡ discovery_error code
      → Failed reply r

-- A reply on which the call raises.
pub data Raises {A : Type 0} (reply : ApiReply A) : Type 1 where
  no_reply : reply ≡ get_raised → Raises reply
  no_json : (code : ℕ) → reply ≡ answered code none → is_success code ≡ true → Raises reply

-- A successful reply, with its body.
pub record Gave {A : Type 0} (reply : ApiReply A) (a : A) : Type 1 where
  pub code : ℕ
  pub same : reply ≡ answered code (some a)
  pub success : is_success code ≡ true

-- How `_ensure_domains` ends.
pub data Discovery (repr : Text → Text) (api : Api) (p : FastlyProvider)
    : Option Ensured → Type 1 where
  from_cache :
      (domains : List Text)
      → p.cached ≡ some domains
      → Discovery repr api p (some (p, domains, none))
  found :
      (version : ℕ) (versions : List Version) (raw_domains : List (Option Text))
      → p.cached ≡ none
      → Gave api.service versions
      → active_version versions ≡ some version
      → Gave (api.domain_list version) raw_domains
      → Discovery repr api p
          (some (record p { cached = some (names_of raw_domains) }, names_of raw_domains, none))
  service_failed :
      (r : PurgeResult)
      → p.cached ≡ none
      → Failed api.service r
      → Discovery repr api p (some (p, [], some r))
  inactive :
      (versions : List Version)
      → p.cached ≡ none
      → Gave api.service versions
      → active_version versions ≡ none
      → Discovery repr api p (some (p, [], some (no_active_version repr p.service_id)))
  list_failed :
      (r : PurgeResult) (version : ℕ) (versions : List Version)
      → p.cached ≡ none
      → Gave api.service versions
      → active_version versions ≡ some version
      → Failed (api.domain_list version) r
      → Discovery repr api p (some (p, [], some r))
  service_raised : p.cached ≡ none → Raises api.service → Discovery repr api p none
  list_raised :
      (version : ℕ) (versions : List Version)
      → p.cached ≡ none
      → Gave api.service versions
      → active_version versions ≡ some version
      → Raises (api.domain_list version)
      → Discovery repr api p none

data Got {A : Type 0} (reply : ApiReply A) : Option (PurgeResult ⊎ A) → Type 1 where
  body_of : (a : A) → Gave reply a → Got reply (some (inr a))
  error_of : (r : PurgeResult) → Failed reply r → Got reply (some (inl r))
  exception_of : Raises reply → Got reply none

api_get-Got : {A : Type 0} (reply : ApiReply A) → Got reply (api_get reply)
api_get-Got (get_error e) = error_of _ (unreachable e refl refl)
api_get-Got get_raised = exception_of (no_reply refl)
api_get-Got (answered code none) = elim (Bool-cases (is_success code)) [
  | inl s ↦ rw s (exception_of (no_json code refl s))
  | inr s ↦ rw s (error_of _ (bad_status code none refl s refl))
]
api_get-Got (answered code (some a)) = elim (Bool-cases (is_success code)) [
  | inl s ↦ rw s (body_of a (record { code = code; same = refl; success = s }))
  | inr s ↦ rw s (error_of _ (bad_status code (some a) refl s refl))
]

module _ (repr : Text → Text) (api : Api) (p : FastlyProvider) (empty : p.cached ≡ none) where
  second :
      (version : ℕ) (versions : List Version) (x : Option (PurgeResult ⊎ List (Option Text)))
      → Gave api.service versions
      → active_version versions ≡ some version
      → Got (api.domain_list version) x
      → Discovery repr api p (discovered repr p x)
  second version versions x g a (body_of raw f) = found version versions raw empty g a f
  second version versions x g a (error_of r f) = list_failed r version versions empty g a f
  second version versions x g a (exception_of f) = list_raised version versions empty g a f

  first :
      (x : Option (PurgeResult ⊎ List Version))
      → Got api.service x
      → Discovery repr api p (on_service repr api p x)
  first x (error_of r f) = service_failed r empty f
  first x (exception_of f) = service_raised empty f
  first x (body_of versions g) = elim (Option-cases (active_version versions)) [
    | inl a ↦ rw a (inactive versions empty g a)
    | inr (version, a) ↦ rw a (
        second version versions (api_get (api.domain_list version)) g a
          (api_get-Got (api.domain_list version)))
  ]

ask :
    (repr : Text → Text) (api : Api) (p : FastlyProvider) (o : Option (List Text))
    → p.cached ≡ o
    → Discovery repr api p (unless_cached repr api p o)
ask repr api p none e = first repr api p e (api_get api.service) (api_get-Got api.service)
ask repr api p (some domains) e = from_cache domains e

pub ensure_domains-Discovery :
    (repr : Text → Text) (api : Api) (p : FastlyProvider)
    → Discovery repr api p (ensure_domains repr api p)
unfolding ensure_domains
ensure_domains-Discovery repr api p = ask repr api p p.cached refl
