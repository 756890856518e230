-- ===== src/Config.antt =====
-- The settings of config.py. A time span is a number of microseconds.
pub mod Queues
pub mod Numbers
pub mod Bounds
pub mod Settings
use celery_diagnostics_obser.Prelude.{ℕ, String, Bool, List}

pub record ObserverConfig : Type 0 where
  pub broker_url : String
  pub queues : List String
  pub project_key : String
  pub ingest_url : String
  pub telemetry_policy : String
  pub identity_key : String
  pub mode : String
  pub app : String
  pub observer_id : String
  pub sample_interval : ℕ
  pub inspect_interval : ℕ
  pub batch_size : ℕ
  pub flush_interval : ℕ
  pub spool_path : String
  pub log_level : String
  pub dry_run : Bool
  pub print_sanitized_events : Bool
  pub active_probes : Bool
  pub broker_message_scan_limit : ℕ

-- MODE_STANDALONE and MODE_PROJECT_AWARE
abbrev pub mode_standalone : String
mode_standalone = "standalone"

abbrev pub mode_project_aware : String
mode_project_aware = "project-aware"
