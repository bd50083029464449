-- ===== src/Controller/Workloads/Pods.antt =====
-- convertToPods: the pods of one workload.
use supernetes.Prelude.{
  ℕ, ◌+◌, String, List, [], ◌∷◌, ◌≡◌, refl, ap, ◌∙◌, none, some, map, arith, string_eq, beq-cases,
}
use supernetes.Prelude.Dict.{Dict, lookup, insert, lookup-insert}
use supernetes.Prelude.Texts.{◌++◌, strip_prefix, strip_prefix-append, scoped}
use supernetes.Labels.{
  label_workload_identifier, label_workload_kind, scope_extra, kind_untracked, workload_unallocated,
}
use supernetes.Api.{Workload}
use supernetes.Controller.Kinds.{Gvk, ObjectKinds, add_gvk}
use supernetes.Controller.Workloads.{
  add_extra, pod_labels, TypedPod, pod_of, convert_to_pod, convert_from, convert_nodes,
  convert_to_pods,
}

-- An extra label does not take the place of another one.
lookup-add_extra :
    (key : String) (extra labels : Dict String String)
    → strip_prefix (scope_extra ++ "/") key ≡ none
    → lookup key (add_extra extra labels) ≡ lookup key labels
unfolding add_extra
lookup-add_extra key [] labels h = refl
lookup-add_extra key ((k, v) ∷ extra) labels h =
    lookup-add_extra key extra (insert (scoped scope_extra k) v labels) h
    ∙ ground (
      arith,
      lookup-insert (scoped scope_extra k) key v labels,
      beq-cases (scoped scope_extra k) key,
      strip_prefix-append (scope_extra ++ "/") k,
    )

-- A pod of a workload carries the identifier of the workload and the kind `untracked`, whatever
-- the extra metadata of the workload holds.
pub pod_labels-lookup :
    (workload : Workload)
    → (lookup label_workload_identifier (pod_labels workload) ≡ some workload.meta.identifier)
      × (lookup label_workload_kind (pod_labels workload) ≡ some kind_untracked)
unfolding pod_labels lookup strip_prefix
pod_labels-lookup workload = (
  lookup-add_extra label_workload_identifier workload.meta.extra _ refl,
  lookup-add_extra label_workload_kind workload.meta.extra _ refl,
)

-- the pods of the nodes, from `index` on
abbrev pub pods_from : Gvk → Workload → ℕ → List String → List TypedPod
pods_from gvk workload index [] = []
pods_from gvk workload index (node ∷ nodes) =
    record { gvk = gvk; pod = pod_of workload (some node) index }
    ∷ pods_from gvk workload (index + 1) nodes

pub convert_from-pods :
    (kinds : ObjectKinds) (gvk : Gvk) (workload : Workload) (index : ℕ) (nodes : List String)
    → add_gvk kinds ≡ some gvk
    → convert_from kinds workload index nodes ≡ some (pods_from gvk workload index nodes)
unfolding convert_from convert_to_pod
convert_from-pods kinds gvk workload index [] h = refl
convert_from-pods kinds gvk workload index (node ∷ nodes) h =
    rw (h, convert_from-pods kinds gvk workload (index + 1) nodes h, convert_from, convert_to_pod)
      refl

pods_from-nodes :
    (gvk : Gvk) (workload : Workload) (index : ℕ) (nodes : List String)
    → map (λ p. p.pod.spec.node_name) (pods_from gvk workload index nodes) ≡ nodes
unfolding pod_of
pods_from-nodes gvk workload index [] = refl
pods_from-nodes gvk workload index (node ∷ nodes) =
    ap (λ xs. node ∷ xs) (pods_from-nodes gvk workload (index + 1) nodes)

-- the scheduling gates of the pods
abbrev pub gates : List TypedPod → List (List String)
gates = map (λ p. p.pod.spec.scheduling_gates)

pods_from-gates :
    (gvk : Gvk) (workload : Workload) (index : ℕ) (nodes : List String)
    → gates (pods_from gvk workload index nodes) ≡ map (λ node. []) nodes
unfolding pod_of
pods_from-gates gvk workload index [] = refl
pods_from-gates gvk workload index (node ∷ nodes) =
    ap (λ xs. [] ∷ xs) (pods_from-gates gvk workload (index + 1) nodes)

-- what the nodes of the pods must be
abbrev pub nodes_or_none : List String → List String
nodes_or_none [] = "" ∷ []
nodes_or_none (node ∷ nodes) = node ∷ nodes

-- and their scheduling gates
abbrev pub expected_gates : List String → List (List String)
expected_gates [] = (workload_unallocated ∷ []) ∷ []
expected_gates (node ∷ nodes) = map (λ n. []) (node ∷ nodes)

-- If the scheme knows one kind for pods, convertToPods succeeds. It gives one pod for each node of
-- the workload, in order and with no scheduling gate, or, for a workload without nodes, one pod on
-- no node that is held back by the gate of unallocated workloads.
pub convert_to_pods-nodes :
    (kinds : ObjectKinds) (gvk : Gvk) (workload : Workload)
    → add_gvk kinds ≡ some gvk
    → (pods : List TypedPod) × (convert_to_pods kinds workload ≡ some pods)
      × (map (λ p. p.pod.spec.node_name) pods ≡ nodes_or_none workload.status.nodes)
      × (gates pods ≡ expected_gates workload.status.nodes)
unfolding convert_to_pods convert_nodes convert_to_pod pod_of
convert_to_pods-nodes kinds gvk workload h = of_nodes workload.status.nodes
  where
    of_nodes :
        (nodes : List String)
        → (pods : List TypedPod) × (convert_nodes kinds workload nodes ≡ some pods)
          × (map (λ p. p.pod.spec.node_name) pods ≡ nodes_or_none nodes)
          × (gates pods ≡ expected_gates nodes)
    of_nodes [] = (record { gvk = gvk; pod = pod_of workload none 0 } ∷ [], rw h refl, refl, refl)
    of_nodes (node ∷ nodes) = (
      pods_from gvk workload 0 (node ∷ nodes),
      convert_from-pods kinds gvk workload 0 (node ∷ nodes) h,
      pods_from-nodes gvk workload 0 (node ∷ nodes),
      pods_from-gates gvk workload 0 (node ∷ nodes),
    )
