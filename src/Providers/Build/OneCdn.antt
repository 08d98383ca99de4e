-- ===== src/Providers/Build/OneCdn.antt =====
-- The provider of one CDN, or the credential that it lacks, in `build_providers` of
-- src/mirror_mirage/providers/__init__.py.
use mirror_mirage.Prelude.{
  ◌≡◌, refl, ◌⊎◌, inl, inr, Bool, true, false, Option, none, some, ◌∷◌, ◌++◌, All, Option-cases,
}
use mirror_mirage.Text.{Text, codes}
use mirror_mirage.FilePath.{text_keys}
use mirror_mirage.Dict
use mirror_mirage.Dict.{Dict, keys, get-put_self, get-put_ne}
use mirror_mirage.Outcome.{Outcome, value, raised, key_error}
use mirror_mirage.Config.{CdnConfig, fastly, cloudfront, gcp_cdn}
use mirror_mirage.Providers.Build.{
  Provider, dry_run_provider, fastly_provider, cloudfront_provider, gcp_provider, type_of, required,
  creds_or_empty, real_provider, provider_of, AllKeys, HasKeys,
}

-- The provider for a CDN, from its configuration and its credentials.
abbrev pub Fits : Bool → Dict Text Text → Text → CdnConfig → Provider → Type 0
Fits true creds name cdn p = p ≡ dry_run_provider name (type_of cdn)
Fits false creds name (fastly c) p =
    (token : Text) × (Dict.get (codes "api_token") creds ≡ some token)
    × (p ≡ fastly_provider c.service_id token c.purge_all_service_domains)
Fits false creds name (cloudfront c) p =
    p
    ≡ cloudfront_provider c.distribution_id c.region (Dict.get (codes "access_key_id") creds)
        (Dict.get (codes "secret_access_key") creds)
Fits false creds name (gcp_cdn c) p =
    (file : Text) × (Dict.get (codes "service_account_file") creds ≡ some file)
    × (p ≡ gcp_provider c.project c.url_map file c.quota_per_minute)

-- The credential that a CDN cannot do without.
abbrev pub needed_key : CdnConfig → Option Text
needed_key (fastly c) = some (codes "api_token")
needed_key (cloudfront c) = none
needed_key (gcp_cdn c) = some (codes "service_account_file")

module _ (b : Bool) (credentials : Dict Text (Dict Text Text)) where
  abbrev pub CredsOf : Text → Dict Text Text
  CredsOf name = creds_or_empty (Dict.get name credentials)

  -- The dictionary holds the provider of the CDN under its name.
  abbrev pub HasProvider : Dict Text Provider → Text × CdnConfig → Type 0
  HasProvider ps (name, cdn) =
      (p : Provider) × (Dict.get name ps ≡ some p) × Fits b (CredsOf name) name cdn p

  -- The first CDN that lacks a credential that it needs.
  pub record Missing (cdns : Dict Text CdnConfig) (key : Text) : Type 0 where
    pub real : b ≡ false
    pub before : Dict Text CdnConfig
    pub after : Dict Text CdnConfig
    pub name : Text
    pub cdn : CdnConfig
    pub split : cdns ≡ before ++ (name, cdn) ∷ after
    pub earlier : AllKeys credentials before
    pub needs : needed_key cdn ≡ some key
    pub missing : Dict.get key (CredsOf name) ≡ none

  pub data Built (cdns : Dict Text CdnConfig) : Outcome (Dict Text Provider) → Type 0 where
    built :
        (ps : Dict Text Provider)
        → keys ps ≡ keys cdns
        → All (HasProvider ps) cdns
        → Built cdns (value ps)
    lacking : (key : Text) → Missing cdns key → Built cdns (raised (key_error key))

  -- What one round gives.
  pub data Round (name : Text) (cdn : CdnConfig) : Outcome Provider → Type 0 where
    gave :
        (p : Provider)
        → Fits b (CredsOf name) name cdn p
        → (b ≡ true) ⊎ HasKeys (CredsOf name) cdn
        → Round name cdn (value p)
    lacks :
        (key : Text)
        → b ≡ false
        → needed_key cdn ≡ some key
        → Dict.get key (CredsOf name) ≡ none
        → Round name cdn (raised (key_error key))

pub provider_of-Round :
    (b : Bool) (credentials : Dict Text (Dict Text Text)) (name : Text) (cdn : CdnConfig)
    → Round b credentials name cdn (provider_of b credentials name cdn)
unfolding real_provider
provider_of-Round true credentials name cdn = gave _ refl (inl refl)
provider_of-Round false credentials name (cloudfront c) = gave _ refl (inr tt)
provider_of-Round false credentials name (fastly c) =
    let creds = creds_or_empty (Dict.get name credentials) in
    elim (Option-cases (Dict.get (codes "api_token") creds)) [
      | inl e ↦ rw (e, required) (lacks _ refl refl e)
      | inr (v, e) ↦ rw (e, required) (gave _ (v, e, refl) (inr (v, e)))
    ]
provider_of-Round false credentials name (gcp_cdn c) =
    let creds = creds_or_empty (Dict.get name credentials) in
    elim (Option-cases (Dict.get (codes "service_account_file") creds)) [
      | inl e ↦ rw (e, required) (lacks _ refl refl e)
      | inr (v, e) ↦ rw (e, required) (gave _ (v, e, refl) (inr (v, e)))
    ]
