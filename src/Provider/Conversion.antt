-- ===== src/Provider/Conversion.antt =====
-- controller/pkg/provider/conversion.go: pods to workloads, and metadata back to pods.
pub mod Labels
pub mod Nodes
use supernetes.Prelude.{
  String, List, [], ◌∷◌, Bool, Option, none, some, map, ◌==◌, string_eq, if◌then◌else◌,
}
use supernetes.Prelude.Dict.{Dict, lookup, insert}
use supernetes.Prelude.Texts.{◌++◌, split, trim_prefix, scoped, comma}
use supernetes.Labels.{label_workload_identifier, label_additional_nodes, scope_extra, scope_option}
use supernetes.Api.{WorkloadMeta, WorkloadContainer, Workload, WorkloadPhase}
use supernetes.Kube.{Container, ObjectMeta, Pod}

unfoldable pub get_nodes : Pod → String → List String
unfolding lookup split
get_nodes pod node_name = elim (lookup label_additional_nodes pod.meta.labels) [
  | none ↦ node_name ∷ []
  | some additional ↦ node_name ∷ split comma additional
]

-- the loop of `getLabels`
unfoldable pub collect_labels :
    String → Dict String String → Dict String String → Dict String String
unfolding insert trim_prefix
collect_labels scope labels [] = labels
collect_labels scope labels ((k, v) ∷ rest) =
    let kt = trim_prefix k (scope ++ "/") in
    collect_labels scope (if kt == k then labels else insert kt v labels) rest

unfoldable pub get_labels : Pod → String → Dict String String
unfolding collect_labels
get_labels pod scope = collect_labels scope [] pod.meta.labels

unfoldable pub workload_meta : Pod → WorkloadMeta
unfolding lookup get_labels
workload_meta pod = record {
  name = pod.meta.name;
  identifier = elim (lookup label_workload_identifier pod.meta.labels) [ none ↦ "" | some id ↦ id ];
  extra = get_labels pod scope_extra;
}

unfoldable pub convert_container : Container → WorkloadContainer
convert_container c = record { name = c.name; image = c.image; command = c.command; args = c.args }

-- `Status` is left at its zero value.
unfoldable pub convert_to_workload : Pod → String → Workload
unfolding workload_meta convert_container get_nodes get_labels
convert_to_workload pod node_name = record {
  meta = workload_meta pod;
  spec = record {
    containers = map convert_container pod.spec.containers;
    node_names = get_nodes pod node_name;
    job_options = get_labels pod scope_option;
  };
  status = record { phase = WorkloadPhase.pending; start_time = 0; nodes = [] };
}

-- the loop of `applyWorkloadMeta` over `meta.Extra`
unfoldable pub apply_extra : Dict String String → Dict String String → Dict String String
unfolding insert
apply_extra [] labels = labels
apply_extra ((k, v) ∷ extra) labels = apply_extra extra (insert (scoped scope_extra k) v labels)

unfoldable pub apply_workload_meta : WorkloadMeta → Pod → Pod
unfolding apply_extra insert
apply_workload_meta meta pod = record pod {
  meta = record pod.meta {
    labels =
        insert label_workload_identifier meta.identifier (apply_extra meta.extra pod.meta.labels);
  };
}
