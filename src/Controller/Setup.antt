-- ===== src/Controller/Setup.antt =====
-- How the controller sets up its reconcilers: Start of controller/pkg/vk/auth/auth.go, and
-- NewReconciler of controller/pkg/node/reconciler.go and controller/pkg/workload/reconciler.go.
use supernetes.Prelude.{
  ℕ, zero, suc, ◌<◌, String, List, [], ◌∷◌, ◌++◌, Bool, true, false, ◌≡◌, refl, Option, none, some,
  replicate, nat_beq, arith,
}
use supernetes.Prelude.Texts
use supernetes.Prelude.Results.{Result, ok, failed, and_then}
use supernetes.Controller.Loop.{Reconciler, make}

-- PollUntilContextCancel: what is there at each poll until the timeout; the first that is there
unfoldable pub poll : {B : Type 0} → List (Option B) → Option B
poll [] = none
poll (none ∷ polls) = poll polls
poll (some bundle ∷ polls) = some bundle

-- `auth`: the content provider of the API server's authority, and the pool of clients' authorities
pub record Auth (A Pool : Type 0) : Type 0 where
  pub api_server_ca : A
  pub client_ca_pool : Pool

-- `nReconciler` and the loop around it; no instances are there yet.
pub record NodeReconciler (K V : Type 0) : Type 0 where
  pub kube_client : K
  pub vk_auth : V
  pub is_openshift : Bool
  pub loop : Reconciler

-- `wlReconciler` and the loop around it; the inventory is not set yet.
pub record WorkloadReconciler (M K : Type 0) : Type 0 where
  pub manager : M
  pub k8s_client : K
  pub loop : Reconciler

-- `timeout` is the error of a poll that ends without a bundle.
module _ {A B Pool : Type 0} (append_certs : B → Option Pool) (quote : B → String)
    (timeout : String) where
  unfoldable pub auth_pool : A → B → Option Pool → Result (Auth A Pool)
  auth_pool ca bundle none = failed (Texts.◌++◌ "couldn't parse API server CA " (quote bundle))
  auth_pool ca bundle (some pool) = ok (record { api_server_ca = ca; client_ca_pool = pool })

  unfoldable pub auth_bundle : A → Option B → Result (Auth A Pool)
  unfolding auth_pool
  auth_bundle ca none = failed (Texts.◌++◌ "failed to retrieve API server CA: %w: " timeout)
  auth_bundle ca (some bundle) = auth_pool ca bundle (append_certs bundle)

  -- `Start`, given the content provider and what its polls find
  unfoldable pub start_auth : Result A → List (Option B) → Result (Auth A Pool)
  unfolding auth_bundle poll and_then
  start_auth controller polls = and_then controller (λ ca. auth_bundle ca (poll polls))

-- `reconciler.New` with a logger
unfoldable pub new_loop : ℕ → Result Reconciler
unfolding make
new_loop interval = elim (make true interval) [
  | none ↦ failed "must specify reconciliation interval"
  | some r ↦ ok r
]

-- `NewReconciler` of nodes: the detector, the question whether the cluster is OpenShift, the
-- client and the authentication, each asked only after the one before
unfoldable pub new_node_reconciler :
    {D K V : Type 0}
    → Result D
    → (D → Result Bool)
    → Result K
    → (K → Result V)
    → ℕ
    → Result (NodeReconciler K V)
unfolding and_then new_loop
new_node_reconciler detector is_openshift client start interval = and_then detector (λ d.
    and_then (is_openshift d) (λ openshift. and_then client (λ k. and_then (start k) (λ v.
      and_then (new_loop interval)
        (λ r. ok (record { kube_client = k; vk_auth = v; is_openshift = openshift; loop = r }))))))

-- `NewReconciler` of workloads
unfoldable pub new_workload_reconciler :
    {M K : Type 0} → Result M → Result K → ℕ → Result (WorkloadReconciler M K)
unfolding and_then new_loop
new_workload_reconciler manager client interval = and_then manager (λ m. and_then client (λ k.
    and_then (new_loop interval) (λ r. ok (record { manager = m; k8s_client = k; loop = r }))))

-- However often the bundle is not there yet, the first one that is there decides.
poll-replicate :
    {B : Type 0} (n : ℕ) (bundle : B) (later : List (Option B))
    → poll (replicate n none ++ (some bundle ∷ later)) ≡ some bundle
unfolding poll
poll-replicate zero bundle later = refl
poll-replicate (suc n) bundle later = poll-replicate n bundle later

-- A reconciler is made only with an interval, and its loop does not run yet.
new_loop-idle :
    (interval : ℕ) → 0 < interval → new_loop interval ≡ ok (record { running = false; loops = 0 })
unfolding new_loop
new_loop-idle interval positive =
    let given : nat_beq interval 0 ≡ false = ground arith in rw (given, new_loop) refl
