-- ===== src/Controller/Inventory.antt =====
-- controller/pkg/inventory/inventory.go: the pods that the workload reconciler has applied.
pub mod Difference
use mathlib.Core.Option
use supernetes.Prelude.{
  String, List, [], ◌∷◌, ◌++◌, Bool, true, false, Option, none, some, map, ◌==◌, string_eq,
  if◌then◌else◌,
}
use supernetes.Kube.{Pod}
use supernetes.Controller.Kinds.{Gvk, ObjectKinds, add_gvk}

-- `object.ObjMetadata`
pub record ObjMetadata : Type 0 where
  pub namespace : String
  pub name : String
  pub group : String
  pub kind : String

-- `kustomizev1.ResourceRef`
pub record ResourceRef : Type 0 where
  pub id : String
  pub version : String

abbrev pub Inventory : Type 0
Inventory = List ResourceRef

-- `Action` of ssa
pub data Action : Type 0 where
  created configured unchanged deleted skipped unknown : Action

-- `ssa.ChangeSetEntry`
pub record Change : Type 0 where
  pub metadata : ObjMetadata
  pub group_version : String
  pub action : Action

-- an unstructured object, as far as a deletion reads it
pub record Stale : Type 0 where
  pub gvk : Gvk
  pub name : String
  pub namespace : String

-- The object package of cli-utils and the scheme, which the inventory calls; `group_version` is
-- `GroupVersion().String()`.
pub record Objects : Type 0 where
  pub text : ObjMetadata → String
  pub parse : String → Option ObjMetadata
  pub diff : List ObjMetadata → List ObjMetadata → List ObjMetadata
  pub kinds : Pod → ObjectKinds
  pub group_version : Gvk → String

unfoldable pub ref_of : Objects → Pod → Gvk → ResourceRef
ref_of o pod gvk = record {
  id = o.text (record {
    namespace = pod.meta.namespace;
    name = pod.meta.name;
    group = gvk.group;
    kind = gvk.kind;
  });
  version = o.group_version gvk;
}

-- the loop of Populate: the entries it leaves, and whether it reached the end without an error
unfoldable pub populate_all : Objects → Inventory → List Pod → Inventory × Bool
unfolding add_gvk ref_of
populate_all o entries [] = (entries, true)
populate_all o entries (pod ∷ pods) = elim (add_gvk (o.kinds pod)) [
  | none ↦ (entries, false)
  | some gvk ↦ populate_all o (entries ++ (ref_of o pod gvk ∷ [])) pods
]

-- Populate, given what the pod list of the cluster returns
unfoldable pub populate : Objects → Inventory → Option (List Pod) → Inventory × Bool
unfolding populate_all
populate o entries none = (entries, false)
populate o entries (some pods) = populate_all o entries pods

unfoldable pub change_ref : Objects → Change → ResourceRef
change_ref o change = record { id = o.text change.metadata; version = change.group_version }

-- `set` is nothing when it is nil.
unfoldable pub add_change_set : Objects → Inventory → Option (List Change) → Inventory
unfolding change_ref
add_change_set o entries none = entries
add_change_set o entries (some changes) = entries ++ map (change_ref o) changes

unfoldable pub list_metadata : Objects → Inventory → Option (List ObjMetadata)
list_metadata o [] = some []
list_metadata o (e ∷ entries) = elim (o.parse e.id) [
  | none ↦ none
  | some m ↦ Option.map (λ ms. m ∷ ms) (list_metadata o entries)
]

unfoldable pub version_of : Objects → Inventory → ObjMetadata → String
version_of o [] m = ""
version_of o (e ∷ entries) m =
    let rest = version_of o entries m in if e.id == o.text m then e.version else rest

unfoldable pub stale_of : Objects → Inventory → ObjMetadata → Stale
unfolding version_of
stale_of o entries m = record {
  gvk = record { group = m.group; version = version_of o entries m; kind = m.kind };
  name = m.name;
  namespace = m.namespace;
}

unfoldable pub diff : Objects → Inventory → Inventory → Option (List Stale)
unfolding list_metadata stale_of
diff o entries target = elim (list_metadata o entries) [
  | none ↦ none
  | some a_list ↦ elim (list_metadata o target) [
    | none ↦ none
    | some b_list ↦ some (map (stale_of o entries) (o.diff a_list b_list))
  ]
]
