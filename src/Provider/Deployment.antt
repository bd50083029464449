-- ===== src/Provider/Deployment.antt =====
-- provider.go: the pod that CreatePod leaves when the agent has answered, and its registration.
use supernetes.Prelude.{true, false, ◌≡◌, refl, Option, some, if◌then◌else◌, string_eq, ap, ◌∙◌}
use supernetes.Labels.{label_workload_identifier}
use supernetes.Api.{WorkloadMeta, Workload}
use supernetes.Kube.{Pod}
use supernetes.Tracker.{Tracker, track, label_or_empty}
use supernetes.Provider.{Provider, is_tracked, has_identifier, load_pending, register, settle}
use supernetes.Provider.Key.{key_for}
use supernetes.Provider.Conversion.{convert_to_workload}
use supernetes.Provider.Conversion.Labels.{lookup-apply_workload_meta_self}
use supernetes.Provider.Frames.{staged, staged_tracker}
use supernetes.Provider.Creation.{
  initial_status, load_pending-pod, is_tracked-status, has_identifier-staged, needs_deployment,
  loaded, staged-cases, needs_deployment-loaded, convert-loaded,
}

module _ (client : Workload → Option WorkloadMeta) (pod : Pod) (p : Provider)
    (meta : WorkloadMeta) where
  -- the pod after the deployment
  staged-settled :
      needs_deployment pod ≡ true
      → client (convert_to_workload pod p.node_name) ≡ some meta
      → (staged client pod p).0 ≡ settle (loaded client pod p) (some meta)
  staged-settled needed answered =
      ap (λ s. s.0) (staged-cases client pod p)
      ∙ rw (needs_deployment-loaded client pod p, needed)
          (ap (settle (loaded client pod p)) (ap client (convert-loaded client pod p) ∙ answered))

  label-settled :
      label_or_empty label_workload_identifier (settle (loaded client pod p) (some meta))
      ≡ meta.identifier
  unfolding label_or_empty settle
  label-settled =
      rw (lookup-apply_workload_meta_self meta (loaded client pod p), label_or_empty) refl

  pub label-staged :
      needs_deployment pod ≡ true
      → client (convert_to_workload pod p.node_name) ≡ some meta
      → label_or_empty label_workload_identifier (staged client pod p).0 ≡ meta.identifier
  label-staged needed answered =
      ap (label_or_empty label_workload_identifier) (staged-settled needed answered) ∙ label-settled

module _ {ℓ} {U : Type ℓ} (client : Workload → Option WorkloadMeta) (pod : Pod) (p : Provider)
    (meta : WorkloadMeta) where
  registered :
      (self : U) (t : Tracker U)
      → has_identifier (staged client pod p).0 ≡ true
      → register self (staged client pod p).0 t ≡ track (staged client pod p).0 self t
  unfolding register
  registered self t known = rw known refl

  -- A pod whose workload was just created is registered for status updates.
  pub tracker-staged :
      (self : U) (t : Tracker U)
      → is_tracked pod ≡ true
      → has_identifier pod ≡ false
      → client (convert_to_workload pod p.node_name) ≡ some meta
      → staged_tracker client self pod p t ≡ track (staged client pod p).0 self t
  tracker-staged self t tracked new answered =
      let known = has_identifier-staged client pod p tracked (meta, answered) in
      let still : is_tracked (load_pending (key_for pod.meta) pod p).0 ≡ true =
        ap is_tracked (load_pending-pod pod p)
        ∙ is_tracked-status pod (initial_status pod p)
        ∙ tracked in
      ap (λ b. if b then register self (staged client pod p).0 t else t) still
      ∙ registered self t known
