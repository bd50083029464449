-- ===== src/Controller/Client.antt =====
-- controller/pkg/client, DisableKubeProxy of controller/pkg/vk/proxy.go, and loadCreds and Serve of
-- controller/pkg/endpoint/endpoint.go: what the controller sets up, and how that fails.
use supernetes.Prelude.{
  ℕ, String, List, [], ◌∷◌, Bool, true, ◌≡◌, ◌≢◌, refl, Option, none, some, if◌then◌else◌,
  string_eq, ◌==◌,
}
use supernetes.Prelude.Texts.{◌++◌}
use supernetes.Prelude.Results.{Result, ok, failed, and_then, wrap}

-- `rest.Config`, with its limits as multiples of the default ones, and the rest of it
pub record KubeConfig (C : Type 0) : Type 0 where
  pub settings : C
  pub qps : ℕ
  pub burst : ℕ

-- what rest.InClusterConfig returns
pub data InCluster (C : Type 0) : Type 0 where
  inside : C → InCluster C
  not_in_cluster : InCluster C
  other_error : String → InCluster C

module _ {C : Type 0} where
  -- `loadInClusterConfig`: nothing outside of a cluster
  unfoldable pub load_in_cluster_config : InCluster C → Result (Option C)
  load_in_cluster_config (inside config) = ok (some config)
  load_in_cluster_config not_in_cluster = ok none
  load_in_cluster_config (other_error err) = failed err

  -- `loadKubeconfig`, for the value of KUBECONFIG, empty where it is unset
  unfoldable pub load_kubeconfig :
      (String → Result (List ℕ)) → (List ℕ → Result C) → String → Result C
  unfolding and_then
  load_kubeconfig read_file parse kubecfg_env =
      if kubecfg_env == ""
      then failed "KUBECONFIG unset"
      else and_then (read_file kubecfg_env) parse

  unfoldable pub or_kubeconfig : Result C → Option C → Result C
  unfolding wrap
  or_kubeconfig outside none = wrap "unable to load cluster configuration" outside
  or_kubeconfig outside (some config) = ok config

  unfoldable pub with_limits : C → KubeConfig C
  with_limits config = record { settings = config; qps = 100; burst = 100 }

  unfoldable pub map_ok : Result C → Result (KubeConfig C)
  unfolding with_limits
  map_ok (ok config) = ok (with_limits config)
  map_ok (failed err) = failed err

  -- `NewKubeConfig`
  unfoldable pub new_kube_config :
      InCluster C
      → (String → Result (List ℕ))
      → (List ℕ → Result C)
      → String
      → Result (KubeConfig C)
  unfolding load_in_cluster_config load_kubeconfig or_kubeconfig map_ok and_then wrap
  new_kube_config in_cluster read_file parse kubecfg_env = map_ok (
      and_then (wrap "unable to load in-cluster configuration" (load_in_cluster_config in_cluster))
        (or_kubeconfig (load_kubeconfig read_file parse kubecfg_env)))

-- what the patch of a DaemonSet returns
pub data Patched : Type 0 where
  patched not_found : Patched
  patch_failed : String → Patched

-- the error that is left of it
unfoldable pub patch_error : Patched → Option String
patch_error patched = none
patch_error not_found = none
patch_error (patch_failed err) = some ("patching kube-proxy DaemonSet failed: " ++ err)

-- `DisableKubeProxy`, for a client that may fail to be made: its error
unfoldable pub disable_kube_proxy : {K : Type 0} → Result K → (K → Patched) → Option String
unfolding patch_error
disable_kube_proxy (failed err) patch = some err
disable_kube_proxy (ok client) patch = patch_error (patch client)

-- `tls.Config` of the endpoint; its least version is always TLS 1.3.
pub record ServerTls (Identity Pool : Type 0) : Type 0 where
  pub certificates : List Identity
  pub require_client_cert : Bool
  pub client_cas : Pool

-- `loadCreds`, or nothing where it ends the controller; `key_pair` is tls.X509KeyPair and
-- `append_certs` the pool that AppendCertsFromPEM makes of an empty one.
unfoldable pub load_creds :
    {Identity Pool : Type 0}
    → (String → String → Option Identity)
    → (String → Option Pool)
    → String
    → String
    → String
    → Option (ServerTls Identity Pool)
load_creds key_pair append_certs ca cert key = elim (key_pair cert key) [
  | none ↦ none
  | some identity ↦ elim (append_certs ca) [
    | none ↦ none
    | some pool ↦
        some
          (record { certificates = identity ∷ []; require_client_cert = true; client_cas = pool })
  ]
]

-- A kube-proxy that is not deployed is no error, and every other failure is.
disable_kube_proxy-none :
    {K : Type 0} (client : K) (patch : K → Patched)
    → ((err : String) → patch client ≢ patch_failed err)
    → disable_kube_proxy (ok client) patch ≡ none
unfolding disable_kube_proxy
disable_kube_proxy-none client patch fine = harmless (patch client) fine
  where
    harmless : (p : Patched) → ((err : String) → p ≢ patch_failed err) → patch_error p ≡ none
    harmless patched h = refl
    harmless not_found h = refl
    harmless (patch_failed err) h = absurd (h err refl)

-- Outside of a cluster the kubeconfig decides; inside it is not looked at.
new_kube_config-load_kubeconfig :
    {C : Type 0} (read_file : String → Result (List ℕ)) (parse : List ℕ → Result C)
    (kubecfg_env : String) (config : C)
    → (new_kube_config (inside config) read_file parse kubecfg_env ≡ ok (with_limits config))
      × (load_kubeconfig read_file parse kubecfg_env ≡ ok config
          → new_kube_config not_in_cluster read_file parse kubecfg_env ≡ ok (with_limits config))
unfolding new_kube_config map_ok or_kubeconfig load_in_cluster_config and_then wrap
new_kube_config-load_kubeconfig read_file parse kubecfg_env config =
    (refl, λ loaded. rw loaded refl)
