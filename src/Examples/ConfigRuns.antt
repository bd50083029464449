-- ===== src/Examples/ConfigRuns.antt =====
-- Runs of the generation of the configurations.
use supernetes.Prelude.{ℕ, ◌+◌, ◌*◌, String, true, false, ◌≡◌, refl, none, string_eq, arith}
use supernetes.Prelude.Results.{Result, ok}
use supernetes.Config.{MTlsConfig}
use supernetes.Config.MTls.{Crypto, ca, validity_period, add_duration, encode_cert, encode_priv_key}
use supernetes.Config.MTls.Validity.{add_duration-validity_period}
use supernetes.Config.Generate.{GenerateOptions, Libraries, changed, prepare, generate}
use supernetes.Config.Generate.Order.{expected, generate-until_error}
use supernetes.Config.Generate.Agreement.{IsAgreed, prepare-IsAgreed}

add_duration-validity_period_example :
    add_duration 63900000000000000000 (validity_period 365)
    ≡ 63900000000000000000 + 365 * 86400000000000
add_duration-validity_period_example =
    (add_duration-validity_period 63900000000000000000 365 (omega arith)).0 (omega arith)

abbrev crypto : Crypto ℕ ℕ
crypto = record {
  generate_key = λ n. ok (n, n);
  random_serial = λ n. ok n;
  create_certificate = λ certificate parent public private. ok certificate.common_name;
  pem_encode = λ block_type block_data. ok block_data;
  marshal_pkcs8 = λ key. ok "key";
}

abbrev parse : String → Result String
parse endpoint = ok "example.org"

abbrev issued : MTlsConfig
issued = record {
  ca = "Supernetes mTLS root CA";
  key = "key";
  cert = "Supernetes mTLS server (controller)";
}

abbrev issued_agent : MTlsConfig
issued_agent = record {
  ca = "Supernetes mTLS root CA";
  key = "key";
  cert = "Supernetes mTLS client (agent)";
}

abbrev options : GenerateOptions
options = record {
  agent_config_path = "agent.yaml";
  agent_endpoint = "example.org:443";
  controller_config_path = "controller.yaml";
  controller_port = 443;
  controller_secret = false;
  controller_secret_name = "";
  controller_secret_namespace = "";
  node_reconciliation_interval = 60;
  workload_reconciliation_interval = 10;
  slurm_account = "project";
  slurm_partition = "standard";
  filter_partition_regex = "";
  filter_node_regex = "";
  cert_days_valid = 365;
}

abbrev libraries : Libraries ℕ ℕ
libraries = record {
  crypto = crypto;
  parse = parse;
  compile = λ regex. ok (λ s. true);
  encode_controller = λ config. ok "controller";
  encode_secret = λ name namespace bytes. ok "secret";
  encode_agent = λ config. ok "agent";
  chmod = λ path. changed;
  write_file = λ path contents. none;
}

generate-until_error_example :
    generate libraries 5 options ≡ expected libraries options (prepare libraries 5 options)
generate-until_error_example = (generate-until_error libraries 5 options).0

prepare-IsAgreed_example : IsAgreed libraries 5 options "controller" "agent"
unfolding prepare encode_cert encode_priv_key
prepare-IsAgreed_example = prepare-IsAgreed libraries 5 options "controller" "agent" refl
