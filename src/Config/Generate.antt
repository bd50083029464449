-- ===== src/Config/Generate.antt =====
-- config/pkg/run/generate.go: the command that writes the configurations of a controller and its
-- agent.
pub mod Order
pub mod Agreement
use supernetes.Prelude.{
  ◌++◌, ℕ, String, List, [], ◌∷◌, Bool, true, false, Option, none, some, if◌then◌else◌, ◌==◌,
  string_eq, nat_beq, ◌||◌, ◌&&◌,
}
use supernetes.Prelude.Results.{Result, ok, failed, and_then}
use supernetes.Agent.Filters.{Filter}
use supernetes.Config.{MTlsConfig, ControllerConfig, AgentConfig}
use supernetes.Config.MTls.{Crypto, validity_period, create_pair}

pub record GenerateOptions : Type 0 where
  pub agent_config_path : String
  pub agent_endpoint : String
  pub controller_config_path : String
  pub controller_port : ℕ
  pub controller_secret : Bool
  pub controller_secret_name : String
  pub controller_secret_namespace : String
  pub node_reconciliation_interval : ℕ
  pub workload_reconciliation_interval : ℕ
  pub slurm_account : String
  pub slurm_partition : String
  pub filter_partition_regex : String
  pub filter_node_regex : String
  pub cert_days_valid : ℕ

-- an early return with an error
unfoldable pub guard : Bool → String → Result GenerateOptions → Result GenerateOptions
guard b message rest = if b then failed message else rest

-- `NewGenerateOptions`
unfoldable pub new_generate_options : GenerateOptions → Result GenerateOptions
unfolding guard
new_generate_options g =
    guard (g.agent_config_path == "") "agent configuration file path must be provided" (
      guard (g.agent_endpoint == "") "agent connection endpoint must be provided" (
        guard (g.controller_config_path == "") "controller configuration file path must be provided"
          (guard (g.controller_secret && (g.controller_secret_name == ""))
            "controller secret name must be provided"
            (guard (g.controller_secret && (g.controller_secret_namespace == ""))
              "controller secret namespace must be provided"
              (guard (g.slurm_account == "") "Slurm account must be provided" (
                guard (g.slurm_partition == "") "Slurm partition must be provided" (
                  guard (nat_beq g.cert_days_valid 0)
                    "mTLS certificates must be valid for at least 1 day" (ok g))))))))

-- What the command calls: regexp.Compile, given by what its result matches; the YAML encodings of
-- a configuration and of a secret; url.Parse; and the file system, which answers a chmod and a
-- write of the n-th file with an error or none.
pub data Chmod : Type 0 where
  changed not_exist : Chmod
  refused : String → Chmod

pub record Libraries (Public Private : Type 0) : Type 0 where
  pub crypto : Crypto Public Private
  pub parse : String → Result String
  pub compile : String → Result (String → Bool)
  pub encode_controller : ControllerConfig → Result String
  pub encode_secret : String → String → String → Result String
  pub encode_agent : AgentConfig → Result String
  pub chmod : String → Chmod
  pub write_file : String → String → Option String

-- a call of the file system; the mode is always 0600
pub data Call : Type 0 where
  chmods : String → Call
  writes : String → String → Call

-- the calls of the file system that were made, in order, and the error
abbrev pub Written : Type 0
Written = List Call × Option String

module _ {Public Private : Type 0} (libs : Libraries Public Private) where
  -- `writeConfig`; os.WriteFile is called, whatever it leaves of the file when it fails.
  unfoldable pub write_config : String → String → Written
  write_config path contents = elim (libs.chmod path) [
    | refused err ↦ (chmods path ∷ [], some err)
    | changed ↦ (chmods path ∷ writes path contents ∷ [], libs.write_file path contents)
    | not_exist ↦ (chmods path ∷ writes path contents ∷ [], libs.write_file path contents)
  ]

  unfoldable pub filter_of : GenerateOptions → Result (Option Filter)
  unfolding and_then
  filter_of g =
      if (g.filter_partition_regex == "") && (g.filter_node_regex == "")
      then ok none
      else and_then (libs.compile g.filter_partition_regex) (λ partition_regex.
        and_then (libs.compile g.filter_node_regex) (λ node_regex.
          ok (some (record { partition_regex = partition_regex; node_regex = node_regex }))))

  unfoldable pub controller_config : GenerateOptions → MTlsConfig → ControllerConfig
  controller_config g m = record {
    port = g.controller_port;
    mtls_config = m;
    reconcile = record {
      node_interval = g.node_reconciliation_interval;
      workload_interval = g.workload_reconciliation_interval;
    };
  }

  unfoldable pub agent_config : GenerateOptions → MTlsConfig → Option Filter → AgentConfig
  agent_config g m filter = record {
    endpoint = g.agent_endpoint;
    mtls_config = m;
    slurm_config = record {
      account = g.slurm_account;
      partition = g.slurm_partition;
      filter = filter;
    };
  }

  -- `ToSecret` and EncodeK8s, or Encode
  unfoldable pub controller_bytes : GenerateOptions → ControllerConfig → Result String
  unfolding and_then
  controller_bytes g config =
      if g.controller_secret
      then and_then (libs.encode_controller config)
          (λ bytes. libs.encode_secret g.controller_secret_name g.controller_secret_namespace bytes)
      else libs.encode_controller config

  -- Generate up to its first write: what is to be written for the controller and for the agent
  unfoldable pub prepare : ℕ → GenerateOptions → Result (String × String)
  unfolding and_then validity_period create_pair controller_bytes controller_config filter_of
      agent_config
  prepare now g =
      and_then
        (create_pair libs.crypto libs.parse (validity_period g.cert_days_valid) g.agent_endpoint
          now)
        (λ pair. and_then (controller_bytes g (controller_config g pair.0)) (λ bytes.
          and_then (filter_of g) (λ filter.
            and_then (libs.encode_agent (agent_config g pair.1 filter))
              (λ agent_bytes. ok (bytes, agent_bytes)))))

  -- the second writeConfig, after the calls of the first one
  unfoldable pub write_agent : GenerateOptions → String → List Call → Option String → Written
  unfolding write_config
  write_agent g agent_bytes calls (some err) = (calls, some err)
  write_agent g agent_bytes calls none =
      let (more, err) = write_config g.agent_config_path agent_bytes in (calls ++ more, err)

  unfoldable pub write_both : GenerateOptions → String → String → Written
  unfolding write_config write_agent
  write_both g bytes agent_bytes =
      let (calls, err) = write_config g.controller_config_path bytes in
      write_agent g agent_bytes calls err

  unfoldable pub write_prepared : GenerateOptions → Result (String × String) → Written
  unfolding write_both
  write_prepared g (failed err) = ([], some err)
  write_prepared g (ok (bytes, agent_bytes)) = write_both g bytes agent_bytes

  -- `Generate`
  unfoldable pub generate : ℕ → GenerateOptions → Written
  unfolding prepare write_prepared
  generate now g = write_prepared g (prepare now g)
