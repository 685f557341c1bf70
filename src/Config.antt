-- ===== src/Config.antt =====
-- The configuration that bitci.json holds: internal/bitci/config.go, the types.
pub mod Order
pub mod Validate
pub mod Plan
use bitci.Prelude.{ℕ, List}
use bitci.Prelude.Text.{Text}
use bitci.Prelude.Int.{ℤ}
use bitci.Prelude.Dict.{Dict}

pub record Task : Type 0 where
  pub run : List Text
  pub env : Dict Text Text
  pub needs : List Text
  pub resources : List Text
  pub paths : List Text
  pub timeout : ℤ
  pub max_retries : ℤ

pub record Config : Type 0 where
  pub version : ℤ
  pub resources : Dict Text ℤ
  pub min_free_bytes : ℕ
  pub prepare : List Text
  pub log_retention : ℤ
  pub redact : List Text
  pub tasks : Dict Text Task

-- One constructor for each message; `out_of_fuel` is the model's own.
pub data ConfigError : Type 0 where
  bad_version no_tasks empty_prepare negative_log_retention : ConfigError
  empty_redact redact_line_break : ConfigError
  bad_limit no_argv negative_timeout negative_max_retries : Text → ConfigError
  bad_variable nul_in_value : (task variable : Text) → ConfigError
  unknown_need : (task need : Text) → ConfigError
  unknown_resource repeated_resource : (task resource : Text) → ConfigError
  dependency_cycle unknown_task : Text → ConfigError
  out_of_fuel : ConfigError
