-- ===== src/Agent/Startup.antt =====
-- agent/pkg/agent/agent.go: what the agent checks before it connects, and the credentials it uses.
use supernetes.Prelude.{
  String, List, [], ◌∷◌, Bool, Option, none, some, if◌then◌else◌, ◌==◌, string_eq,
}
use supernetes.Prelude.Results.{Result, ok, failed}
use supernetes.Agent.Filters.{match_partition}
use supernetes.Config.{AgentConfig, hostname}

-- `Flags.NewOptions`: the path of the configuration
unfoldable pub new_options : String → Result String
new_options config_path =
    if config_path == ""
    then failed "path to agent configuration file must be provided"
    else ok config_path

-- the sanity check of Run
unfoldable pub may_start : AgentConfig → Bool
unfolding match_partition
may_start config = match_partition config.slurm_config.filter config.slurm_config.partition

-- `tls.Config`; its least version is always TLS 1.3.
pub record TlsConfig (Identity Pool : Type 0) : Type 0 where
  pub server_name : String
  pub certificates : List Identity
  pub root_cas : Pool

-- `loadCreds`, or nothing where it ends the agent; `key_pair` is tls.X509KeyPair and
-- `append_certs` the pool that AppendCertsFromPEM makes of an empty one.
module _ {Identity Pool : Type 0} (key_pair : String → String → Option Identity)
    (append_certs : String → Option Pool) (parse : String → Result String) where
  unfoldable pub with_hostname : Identity → Pool → Result String → Option (TlsConfig Identity Pool)
  with_hostname cert ca (failed err) = none
  with_hostname cert ca (ok name) =
      some (record { server_name = name; certificates = cert ∷ []; root_cas = ca })

  unfoldable pub load_creds : AgentConfig → Option (TlsConfig Identity Pool)
  unfolding with_hostname hostname
  load_creds config = elim (key_pair config.mtls_config.cert config.mtls_config.key) [
    | none ↦ none
    | some cert ↦ elim (append_certs config.mtls_config.ca) [
      | none ↦ none
      | some ca ↦ with_hostname cert ca (hostname parse config.endpoint)
    ]
  ]
