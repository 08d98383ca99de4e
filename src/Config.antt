-- ===== src/Config.antt =====
-- The records of src/mirror_mirage/config.py. A number of seconds, a float in the
-- source, is a natural number of clock ticks of any fixed length.
pub mod Load
use mirror_mirage.Prelude.{ℕ, Bool, List}
use mirror_mirage.Text.{Text}
use mirror_mirage.FilePath.{FilePath}
use mirror_mirage.Dict.{Dict}

abbrev pub Seconds : Type 0
Seconds = ℕ

pub record FastlyCdn : Type 0 where
  pub service_id : Text
  pub purge_all_service_domains : Bool

pub record CloudFrontCdn : Type 0 where
  pub distribution_id : Text
  pub region : Text

pub record GcpCdnConfig : Type 0 where
  pub project : Text
  pub url_map : Text
  pub quota_per_minute : ℕ

-- The union that the field `type` discriminates.
pub data CdnConfig : Type 0 where
  fastly : FastlyCdn → CdnConfig
  cloudfront : CloudFrontCdn → CdnConfig
  gcp_cdn : GcpCdnConfig → CdnConfig

pub record Binding : Type 0 where
  pub cdn : Text
  pub url_prefix : Text

pub record WatchConfig : Type 0 where
  pub path : FilePath
  pub ignore : List Text
  pub flush_on_delete : Bool
  pub bindings : List Binding

pub record RetryConfig : Type 0 where
  pub max_attempts : ℕ
  pub initial_backoff_seconds : Seconds
  pub max_backoff_seconds : Seconds

pub record DaemonConfig : Type 0 where
  pub batch_quiet_window_seconds : Seconds
  pub batch_max_size : ℕ
  pub batch_max_age_seconds : Seconds
  pub queue_db : FilePath
  pub retry : RetryConfig

pub record Config : Type 0 where
  pub cdns : Dict Text CdnConfig
  pub watches : List WatchConfig
  pub daemon : DaemonConfig
  pub credentials : Dict Text (Dict Text Text)
