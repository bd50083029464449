-- ===== src/Controller/Workloads.antt =====
-- controller/pkg/workload: the workloads of the agent, applied to the cluster as untracked pods.
pub mod Pods
pub mod Reconciler
use mathlib.Core.Option
use supernetes.Prelude.{ℕ, ◌+◌, String, List, [], ◌∷◌, Option, none, some, string_eq}
use supernetes.Prelude.Dict.{Dict, insert}
use supernetes.Prelude.Texts.{codes, text_of, scoped}
use supernetes.Labels.{
  namespace_workload, label_workload_identifier, label_workload_kind, scope_extra, kind_untracked,
  workload_unallocated, container_placeholder, image_placeholder,
}
use supernetes.Api.{Workload, WorkloadPhase}
use supernetes.Kube.{Pod, PodPhase}
use supernetes.Controller.Kinds.{Gvk, ObjectKinds, add_gvk}
use supernetes.Controller.Names.{pod_name}

unfoldable pub workload_phase_to_pod_phase : WorkloadPhase → PodPhase
workload_phase_to_pod_phase WorkloadPhase.pending = PodPhase.pending
workload_phase_to_pod_phase WorkloadPhase.running = PodPhase.running
workload_phase_to_pod_phase WorkloadPhase.succeeded = PodPhase.succeeded
workload_phase_to_pod_phase WorkloadPhase.failed = PodPhase.failed
workload_phase_to_pod_phase WorkloadPhase.unknown = PodPhase.unknown

-- the loop of convertToPod over the extra metadata
unfoldable pub add_extra : Dict String String → Dict String String → Dict String String
unfolding insert
add_extra [] labels = labels
add_extra ((k, v) ∷ extra) labels = add_extra extra (insert (scoped scope_extra k) v labels)

unfoldable pub pod_labels : Workload → Dict String String
unfolding add_extra
pod_labels workload = add_extra workload.meta.extra (
    (label_workload_identifier, workload.meta.identifier)
    ∷ (label_workload_kind, kind_untracked)
    ∷ [])

-- a pod with its type metadata
pub record TypedPod : Type 0 where
  pub gvk : Gvk
  pub pod : Pod

-- The toleration and the grace period are the same for all pods and are not kept, nor are the
-- fields that are nil.
unfoldable pub pod_of : Workload → Option String → ℕ → Pod
unfolding pod_labels pod_name workload_phase_to_pod_phase text_of
pod_of workload node index = record {
  meta = record {
    name = text_of (pod_name (codes workload.meta.identifier) (codes workload.meta.name) index);
    namespace = namespace_workload;
    labels = pod_labels workload;
  };
  spec = record {
    node_name = elim node [ none ↦ "" | some name ↦ name ];
    containers =
        record { name = container_placeholder; image = image_placeholder; command = []; args = [] }
        ∷ [];
    scheduling_gates = elim node [ none ↦ workload_unallocated ∷ [] | some name ↦ [] ];
  };
  status = record {
    phase = workload_phase_to_pod_phase workload.status.phase;
    message = "";
    start_time = workload.status.start_time;
    conditions = [];
    container_statuses = [];
  };
}

-- `kinds` is what the scheme says of pods; `none` is its error.
unfoldable pub convert_to_pod : ObjectKinds → Workload → Option String → ℕ → Option TypedPod
unfolding pod_of add_gvk
convert_to_pod kinds workload node index =
    Option.map (λ gvk. record { gvk = gvk; pod = pod_of workload node index }) (add_gvk kinds)

-- the loop of convertToPods over the nodes from `index` on
unfoldable pub convert_from : ObjectKinds → Workload → ℕ → List String → Option (List TypedPod)
unfolding convert_to_pod
convert_from kinds workload index [] = some []
convert_from kinds workload index (node ∷ nodes) =
    elim (convert_to_pod kinds workload (some node) index) [
      | none ↦ none
      | some pod ↦ Option.map (λ pods. pod ∷ pods) (convert_from kinds workload (index + 1) nodes)
    ]

unfoldable pub convert_nodes : ObjectKinds → Workload → List String → Option (List TypedPod)
unfolding convert_to_pod convert_from
convert_nodes kinds workload [] =
    Option.map (λ pod. pod ∷ []) (convert_to_pod kinds workload none 0)
convert_nodes kinds workload (node ∷ nodes) = convert_from kinds workload 0 (node ∷ nodes)

unfoldable pub convert_to_pods : ObjectKinds → Workload → Option (List TypedPod)
unfolding convert_nodes
convert_to_pods kinds workload = convert_nodes kinds workload workload.status.nodes
