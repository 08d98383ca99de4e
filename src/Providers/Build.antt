-- ===== src/Providers/Build.antt =====
-- `build_providers` of src/mirror_mirage/providers/__init__.py.
pub mod OneCdn
pub mod Built
use mirror_mirage.Prelude.{
  ℕ, ◌≡◌, refl, ◌↔◌, Bool, true, false, Option, none, some, [], ◌∷◌, All, inl, inr, Option-cases,
}
use mirror_mirage.Text.{Text, codes}
use mirror_mirage.FilePath.{text_keys}
use mirror_mirage.Dict
use mirror_mirage.Dict.{Dict}
use mirror_mirage.Outcome.{Outcome, value, raised, key_error, raised_ne_value, bind_inv, ◌>>=◌}
use mirror_mirage.Config.{CdnConfig, fastly, cloudfront, gcp_cdn, Config}

-- The provider's class with the arguments of its constructor.
pub data Provider : Type 0 where
  dry_run_provider : Text → Text → Provider
  fastly_provider : Text → Text → Bool → Provider
  cloudfront_provider : Text → Text → Option Text → Option Text → Provider
  gcp_provider : Text → Text → Text → ℕ → Provider

-- `cdn.type`
abbrev pub type_of : CdnConfig → Text
type_of (fastly c) = codes "fastly"
type_of (cloudfront c) = codes "cloudfront"
type_of (gcp_cdn c) = codes "gcp_cdn"

-- `creds[key]`
abbrev pub required : Text → Dict Text Text → Outcome Text
required key creds = elim (Dict.get key creds) [ none ↦ raised (key_error key) | some v ↦ value v ]

abbrev pub creds_or_empty : Option (Dict Text Text) → Dict Text Text
creds_or_empty none = []
creds_or_empty (some creds) = creds

-- The branches of the loop for a real provider.
unfoldable pub real_provider : Dict Text Text → CdnConfig → Outcome Provider
real_provider creds (fastly c) = do
  token ← required (codes "api_token") creds
  value (fastly_provider c.service_id token c.purge_all_service_domains)
real_provider creds (cloudfront c) = value (
    cloudfront_provider c.distribution_id c.region (Dict.get (codes "access_key_id") creds)
      (Dict.get (codes "secret_access_key") creds))
real_provider creds (gcp_cdn c) = do
  file ← required (codes "service_account_file") creds
  value (gcp_provider c.project c.url_map file c.quota_per_minute)

-- One round of the loop.
abbrev pub provider_of : Bool → Dict Text (Dict Text Text) → Text → CdnConfig → Outcome Provider
provider_of true credentials name cdn = value (dry_run_provider name (type_of cdn))
provider_of false credentials name cdn =
    real_provider (creds_or_empty (Dict.get name credentials)) cdn

-- The loop over `cfg.cdns.items()`, onto the dictionary built so far.
unfoldable pub build_each :
    Bool
    → Dict Text (Dict Text Text)
    → Dict Text CdnConfig
    → Dict Text Provider
    → Outcome (Dict Text Provider)
build_each dry_run credentials [] providers = value providers
build_each dry_run credentials ((name, cdn) ∷ cdns) providers = do
  provider ← provider_of dry_run credentials name cdn
  build_each dry_run credentials cdns (Dict.put name provider providers)

-- `build_providers(cfg, dry_run=dry_run)`
unfoldable pub build_providers : Config → Bool → Outcome (Dict Text Provider)
unfolding build_each
build_providers cfg dry_run = build_each dry_run cfg.credentials cfg.cdns []

-- The credentials that the constructor of the provider cannot do without.
abbrev pub HasKeys : Dict Text Text → CdnConfig → Type 0
HasKeys creds (fastly c) = (v : Text) × (Dict.get (codes "api_token") creds ≡ some v)
HasKeys creds (cloudfront c) = Unit
HasKeys creds (gcp_cdn c) = (v : Text) × (Dict.get (codes "service_account_file") creds ≡ some v)

-- Every CDN of the dictionary has them.
abbrev pub AllKeys : Dict Text (Dict Text Text) → Dict Text CdnConfig → Type 0
AllKeys credentials cdns =
    All
      (λ (entry : Text × CdnConfig).
        HasKeys (creds_or_empty (Dict.get entry.0 credentials)) entry.1)
      cdns

required_given :
    (key : Text) (creds : Dict Text Text) (f : Text → Provider) (p : Provider)
    → (required key creds >>= λ v. value (f v)) ≡ value p
    → (v : Text) × (Dict.get key creds ≡ some v)
required_given key creds f p h = elim (Option-cases (Dict.get key creds)) [
  | inl e ↦ absurd (raised_ne_value (rw (e, required) at h))
  | inr (v, e) ↦ (v, e)
]

real_provider-HasKeys :
    (creds : Dict Text Text) (cdn : CdnConfig) (p : Provider)
    → real_provider creds cdn ≡ value p
    → HasKeys creds cdn
unfolding real_provider
real_provider-HasKeys creds (fastly c) p h =
    required_given (codes "api_token") creds
      (λ v. fastly_provider c.service_id v c.purge_all_service_domains) p h
real_provider-HasKeys creds (cloudfront c) p h = tt
real_provider-HasKeys creds (gcp_cdn c) p h =
    required_given (codes "service_account_file") creds
      (λ v. gcp_provider c.project c.url_map v c.quota_per_minute) p h

real_provider_total :
    (creds : Dict Text Text) (cdn : CdnConfig)
    → HasKeys creds cdn
    → (p : Provider) × (real_provider creds cdn ≡ value p)
unfolding real_provider
real_provider_total creds (fastly c) (v, e) =
    (fastly_provider c.service_id v c.purge_all_service_domains, rw (e, required))
real_provider_total creds (cloudfront c) h = (
  cloudfront_provider c.distribution_id c.region (Dict.get (codes "access_key_id") creds)
      (Dict.get (codes "secret_access_key") creds),
  refl,
)
real_provider_total creds (gcp_cdn c) (v, e) =
    (gcp_provider c.project c.url_map v c.quota_per_minute, rw (e, required))

module _ (credentials : Dict Text (Dict Text Text)) where
  build_each-AllKeys :
      (cdns : Dict Text CdnConfig) (before after : Dict Text Provider)
      → build_each false credentials cdns before ≡ value after
      → AllKeys credentials cdns
  unfolding build_each
  build_each-AllKeys [] before after h = tt
  build_each-AllKeys ((name, cdn) ∷ cdns) before after h =
      let creds = creds_or_empty (Dict.get name credentials) in
      let (p, e, k) =
        bind_inv (real_provider creds cdn)
          (λ p. build_each false credentials cdns (Dict.put name p before)) after h in
      (
        real_provider-HasKeys creds cdn p e,
        build_each-AllKeys cdns (Dict.put name p before) after k,
      )

  build_each_total :
      (cdns : Dict Text CdnConfig) (before : Dict Text Provider)
      → AllKeys credentials cdns
      → (after : Dict Text Provider) × (build_each false credentials cdns before ≡ value after)
  unfolding build_each
  build_each_total [] before h = (before, refl)
  build_each_total ((name, cdn) ∷ cdns) before (k, ks) =
      let (p, e) = real_provider_total (creds_or_empty (Dict.get name credentials)) cdn k in
      let (after, r) = build_each_total cdns (Dict.put name p before) ks in (after, rw e r)

  build_each-dry_run :
      (cdns : Dict Text CdnConfig) (before : Dict Text Provider)
      → (after : Dict Text Provider) × (build_each true credentials cdns before ≡ value after)
  unfolding build_each
  build_each-dry_run [] before = (before, refl)
  build_each-dry_run ((name, cdn) ∷ cdns) before =
      build_each-dry_run cdns (Dict.put name (dry_run_provider name (type_of cdn)) before)

-- Outside a dry run, the providers get built exactly if every Fastly CDN has an `api_token` and
-- every GCP CDN a `service_account_file` among its credentials; in a dry run they always do.
pub build_providers_iff :
    (cfg : Config)
    → (((ps : Dict Text Provider) × (build_providers cfg false ≡ value ps))
        ↔ AllKeys cfg.credentials cfg.cdns)
      × ((ps : Dict Text Provider) × (build_providers cfg true ≡ value ps))
unfolding build_providers
build_providers_iff cfg = (
  (
    λ (ps, e). build_each-AllKeys cfg.credentials cfg.cdns [] ps e,
    λ h. build_each_total cfg.credentials cfg.cdns [] h,
  ),
  build_each-dry_run cfg.credentials cfg.cdns [],
)
