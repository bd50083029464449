-- ===== src/Config/Generate/Agreement.antt =====
-- Generate and the agent: what the agent makes of the configuration that is generated for it.
use supernetes.Prelude.{
  ℕ, String, List, [], ◌∷◌, Bool, true, false, ◌≡◌, ap, ◌∙◌, sym, Option, none, some, if◌then◌else◌,
  ◌==◌, string_eq, ◌&&◌,
}
use supernetes.Prelude.Results.{Result, ok, failed, and_then, and_then-ok, ok-injective}
use supernetes.Agent.Filters.{Filter, match_partition}
use supernetes.Agent.Startup.{may_start, TlsConfig, with_hostname, load_creds}
use supernetes.Config.{ControllerConfig, AgentConfig, hostname}
use supernetes.Config.MTls.{
  client, server, Certificate, CertificateData, dns_names_of, validity_period, create_pair,
}
use supernetes.Config.MTls.Binding.{IsIssued, create_pair-IsIssued}
use supernetes.Config.Generate.{
  GenerateOptions, Libraries, filter_of, controller_config, agent_config, controller_bytes, prepare,
}

module _ {Public Private : Type 0} (libs : Libraries Public Private) where
  names-server :
      (endpoint : String) {names : List String}
      → dns_names_of libs.parse endpoint server ≡ ok names
      → (host : String) × (hostname libs.parse endpoint ≡ ok host) × (names ≡ host ∷ [])
  unfolding dns_names_of
  names-server endpoint e =
      let (host, found, e1) = and_then-ok (hostname libs.parse endpoint) e in
      (host, found, sym (ok-injective e1))

  -- the agent's answer to its sanity check
  abbrev pub partition_matches : GenerateOptions → Result (String → Bool) → Bool
  partition_matches g (failed err) = false
  partition_matches g (ok matches) = matches g.slurm_partition

  abbrev pub is_unfiltered : GenerateOptions → Bool
  is_unfiltered g = (g.filter_partition_regex == "") && (g.filter_node_regex == "")

  of_filter :
      (g : GenerateOptions) (unfiltered : Bool) {filter : Option Filter}
      → (if unfiltered
          then ok none
          else and_then (libs.compile g.filter_partition_regex) (λ partition_regex.
            and_then (libs.compile g.filter_node_regex) (λ node_regex.
              ok (some (record { partition_regex = partition_regex; node_regex = node_regex })))))
        ≡ ok filter
      → match_partition filter g.slurm_partition
        ≡ (if unfiltered then true else partition_matches g (libs.compile g.filter_partition_regex))
  unfolding match_partition
  of_filter g true e = ap (λ f. match_partition f g.slurm_partition) (sym (ok-injective e))
  of_filter g false e =
      let (matches, compiled, e1) = and_then-ok (libs.compile g.filter_partition_regex) e in
      let (nodes, _, e2) = and_then-ok (libs.compile g.filter_node_regex) e1 in
      ap (λ f. match_partition f g.slurm_partition) (sym (ok-injective e2))
      ∙ ap (partition_matches g) (sym compiled)

  -- What the two files hold: configurations with the two parts of one mTLS binding, in which the
  -- agent connects to the host that the certificate of the controller is for, and starts exactly
  -- if the partition passes the filter.
  abbrev pub IsAgreed : ℕ → GenerateOptions → String → String → Type 0
  IsAgreed now g bytes agent_bytes =
      (controller : ControllerConfig) × (agent : AgentConfig) × (authority : CertificateData Public
        Private)
      × (c : Certificate) × (a : Certificate) × (host : String) × (controller_bytes libs g
            controller
          ≡ ok bytes)
      × (libs.encode_agent agent ≡ ok agent_bytes)
      × IsIssued libs.crypto libs.parse (validity_period g.cert_days_valid) g.agent_endpoint now
          authority 1 server c controller.mtls_config
      × IsIssued libs.crypto libs.parse (validity_period g.cert_days_valid) g.agent_endpoint now
          authority 2 client a agent.mtls_config
      × (c.dns_names ≡ host ∷ [])
      × (hostname libs.parse agent.endpoint ≡ ok host)
      × (may_start agent ≡ (
          if is_unfiltered g
          then true
          else partition_matches g (libs.compile g.filter_partition_regex)))

  -- When Generate prepares two files, they agree: the certificate in the controller's and the one
  -- in the agent's are signed by one authority, which both files hold; the controller's
  -- certificate is for the host to which the agent connects; and the agent starts without a
  -- filter, or else exactly if the filter matches its partition.
  pub prepare-IsAgreed :
      (now : ℕ) (g : GenerateOptions) (bytes agent_bytes : String)
      → prepare libs now g ≡ ok (bytes, agent_bytes)
      → IsAgreed now g bytes agent_bytes
  unfolding prepare may_start agent_config
  prepare-IsAgreed now g bytes agent_bytes e =
      let (pair, paired, e1) =
        and_then-ok
          (create_pair libs.crypto libs.parse (validity_period g.cert_days_valid) g.agent_endpoint
            now)
          e in
      let (bytes', written, e2) =
        and_then-ok (controller_bytes libs g (controller_config libs g pair.0)) e1 in
      let (filter, filtered, e3) = and_then-ok (filter_of libs g) e2 in
      let (agent_bytes', encoded, e4) =
        and_then-ok (libs.encode_agent (agent_config libs g pair.1 filter)) e3 in
      let same = ok-injective e4 in
      let (authority, c, a, _, _, c_issued, a_issued) =
        create_pair-IsIssued libs.crypto libs.parse (validity_period g.cert_days_valid)
          g.agent_endpoint now pair.0 pair.1 paired in
      let (_, _, _, _, _, _, _, _, _, _, (_, _, _, _, _, named)) = c_issued in
      let (host, found, names) = names-server g.agent_endpoint named in
      (
        controller_config libs g pair.0,
        agent_config libs g pair.1 filter,
        authority,
        c,
        a,
        host,
        written ∙ ap (λ p. ok p.0) same,
        encoded ∙ ap (λ p. ok p.1) same,
        c_issued,
        a_issued,
        names,
        found,
        of_filter g (is_unfiltered g) (unfold filter_of in filtered),
      )

-- The agent accepts only a controller with the host name of its endpoint, and presents one
-- certificate.
load_creds-hostname :
    {Identity Pool : Type 0} (key_pair : String → String → Option Identity)
    (append_certs : String → Option Pool) (parse : String → Result String) (config : AgentConfig)
    (t : TlsConfig Identity Pool)
    → load_creds key_pair append_certs parse config ≡ some t
    → hostname parse config.endpoint ≡ ok t.server_name
unfolding load_creds with_hostname
load_creds-hostname {Identity = Identity} {Pool = Pool} key_pair append_certs parse config t e =
    by_parts (key_pair config.mtls_config.cert config.mtls_config.key)
      (append_certs config.mtls_config.ca) (hostname parse config.endpoint) e
  where
    by_parts :
        (identity : Option Identity) (pool : Option Pool) (name : Result String)
        → elim identity as (λ o. Option (TlsConfig Identity Pool)) [
          | none ↦ none
          | some cert ↦ elim pool as (λ o. Option (TlsConfig Identity Pool)) [
            | none ↦ none
            | some ca ↦ with_hostname key_pair append_certs parse cert ca name
          ]
        ]
          ≡ some t
        → name ≡ ok t.server_name
    by_parts none pool name q = absurd (cc q)
    by_parts (some cert) none name q = absurd (cc q)
    by_parts (some cert) (some ca) (failed err) q = absurd (cc q)
    by_parts (some cert) (some ca) (ok host) q = cc q
