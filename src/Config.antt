-- ===== src/Config.antt =====
-- The package config: the records of config/config.go.
pub mod Durations
pub mod Validate
pub mod Load
use orchard_gh_bridge.Base.{ℕ, Bool, Text, List, Dict}
use orchard_gh_bridge.Base.Int.{ℤ}

pub record AutoSizeConfig : Type 0 where
  pub enabled : Bool
  pub reserve_cpu : ℕ
  pub reserve_memory_mib : ℕ

pub record VmConfig : Type 0 where
  pub image : Text
  pub cpu : ℕ
  pub memory : ℕ
  pub docker_port : ℤ
  pub disk_size : ℕ
  pub labels : Dict Text
  pub auto_size : AutoSizeConfig

pub record ScaleSetConfig : Type 0 where
  pub name : Text
  pub github_config_url : Text
  pub labels : List Text
  pub runner_group : Text
  pub max_runners : ℤ
  pub vm : VmConfig

pub record OrchardConfig : Type 0 where
  pub address : Text
  pub username : Text
  pub password : Text
  pub insecure : Bool

pub record GithubConfig : Type 0 where
  pub app_id : ℤ
  pub installation_id : ℤ
  pub private_key_path : Text
  pub private_key : Text
  pub token : Text

pub record HealthConfig : Type 0 where
  pub port : ℤ

pub record MetricsConfig : Type 0 where
  pub enabled : Bool
  pub port : ℤ

pub record Config : Type 0 where
  pub log_level : Text
  pub max_vms : ℤ
  pub max_vm_age : Text
  pub worker_stale_after : Text
  pub worker_prune_after : Text
  pub max_pending_age : Text
  pub orchard : OrchardConfig
  pub github : GithubConfig
  pub scale_sets : List ScaleSetConfig
  pub health : HealthConfig
  pub metrics : MetricsConfig
