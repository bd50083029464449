-- ===== src/Config.antt =====
-- config/pkg/config and common/pkg/util/sni.go: the configurations of the controller and the agent.
pub mod MTls
pub mod Generate
use supernetes.Prelude.{ℕ, String, Option, if◌then◌else◌, ◌==◌, string_eq}
use supernetes.Prelude.Results.{Result, ok, failed, and_then}
use supernetes.Prelude.Texts.{◌++◌}
use supernetes.Agent.Filters.{Filter}

pub record MTlsConfig : Type 0 where
  pub ca : String
  pub key : String
  pub cert : String

pub record ReconcileConfig : Type 0 where
  pub node_interval : ℕ
  pub workload_interval : ℕ

pub record ControllerConfig : Type 0 where
  pub port : ℕ
  pub mtls_config : MTlsConfig
  pub reconcile : ReconcileConfig

pub record SlurmConfig : Type 0 where
  pub account : String
  pub partition : String
  pub filter : Option Filter

pub record AgentConfig : Type 0 where
  pub endpoint : String
  pub mtls_config : MTlsConfig
  pub slurm_config : SlurmConfig

-- `Hostname`; `parse` is url.Parse, followed by the method Hostname.
unfoldable pub hostname : (String → Result String) → String → Result String
unfolding and_then
hostname parse endpoint = and_then (parse endpoint) (λ first.
    and_then (if first == "" then parse ("//" ++ endpoint) else ok first)
      (λ name. if name == "" then failed "unable to parse hostname" else ok name))
