-- ===== src/Examples/GarbageRuns.antt =====
-- Runs of the workload reconciler and its inventory.
use supernetes.Prelude.{
  ℕ, ◌+◌, String, List, [], ◌∷◌, Bool, true, false, subst, ◌&&◌, ◌≡◌, ◌↔◌, refl, none, some,
  string_eq, Eq, ◌==◌, beq-cases, arith, map, contains, if◌then◌else◌,
}
use supernetes.Prelude.Streams.{Stream, eof, message}
use supernetes.Controller.Inventory.{ObjMetadata, Change, Action, Stale, Objects, change_ref}
use supernetes.Controller.Inventory.Difference.{IsIn, IsDiffing, stale_key}
use supernetes.Controller.Workloads.Reconciler.{
  End, Services, receive, reconcile, apply_workload, to_unstructured, settle_changes, needs_status,
  update_change, track_primary, end_of,
}
use supernetes.Controller.Workloads.{convert_to_pods, convert_nodes, convert_from, convert_to_pod}
use supernetes.Controller.Kinds.{add_gvk}
use supernetes.Api.{Workload}
use supernetes.Examples.{workload_on}
use mathlib.Core.Option.{some-injective}
use supernetes.Controller.Inventory.Difference.{IsParsed}
use supernetes.Controller.Workloads.Reconciler.Collection.{
  IsParsing, applied, round_of, reconcile-garbage, deleted,
}

abbrev metadata_beq : ObjMetadata → ObjMetadata → Bool
metadata_beq a b =
    (a.namespace == b.namespace) && (a.name == b.name) && (a.group == b.group) && (a.kind == b.kind)

metadata_beq_iff : (a b : ObjMetadata) → (metadata_beq a b ≡ true) ↔ (a ≡ b)
metadata_beq_iff a b = ground (
  arith,
  beq-cases a.namespace b.namespace,
  beq-cases a.name b.name,
  beq-cases a.group b.group,
  beq-cases a.kind b.kind,
)

instance abbrev metadata_eq : Eq ObjMetadata
metadata_eq = record { test = metadata_beq; test_iff = metadata_beq_iff }

abbrev difference : List ObjMetadata → List ObjMetadata → List ObjMetadata
difference [] b = []
difference (m ∷ a) b = let rest = difference a b in if contains m b then rest else m ∷ rest

contains-IsIn : (m : ObjMetadata) (b : List ObjMetadata) → (contains m b ≡ true) ↔ IsIn m b
unfolding contains
contains-IsIn m [] = ground arith
contains-IsIn m (x ∷ b) = ground (arith, beq-cases m x, beq-cases x m, contains-IsIn m b)

difference-IsIn :
    (m : ObjMetadata) (a b : List ObjMetadata) → IsIn m (difference a b) ↔ (IsIn m a × ¬ IsIn m b)
difference-IsIn m [] b = ground arith
difference-IsIn m (x ∷ a) b =
    ground (arith, difference-IsIn m a b, contains-IsIn x b, beq-cases m x)

abbrev metadata : String → ObjMetadata
metadata name = record { namespace = "default"; name = name; group = ""; kind = "Pod" }

abbrev objects : Objects
objects = record {
  text = λ m. m.name;
  parse = λ name. some (metadata name);
  diff = difference;
  kinds = λ pod. none;
  group_version = λ gvk. gvk.version;
}

abbrev change : String → Change
change name = record { metadata = metadata name; group_version = "v1"; action = Action.created }

abbrev services : Services ℕ ℕ
services = record {
  list_untracked = λ k. none;
  pod_kinds = some (record { group = ""; version = "v1"; kind = "Pod" } ∷ [], false);
  to_object = λ pod. some 0;
  apply_all = λ os k. (k, some (change "a" ∷ []));
  delete_all = λ stale k. (k + 1, some []);
  update_status = λ pod k. (k, true);
  track_status = λ pod k. (k, true);
}

objects-IsDiffing : IsDiffing objects
objects-IsDiffing m a b = difference-IsIn m a b

services-IsParsing : IsParsing services objects
services-IsParsing os k changes e = subst (IsParsed objects) (some-injective _ _ e) (refl, tt)

abbrev stream : Stream Workload
stream = message (workload_on ("n1" ∷ [])) eof

stream_done : (receive services objects stream [] 0).ending ≡ End.done
unfolding receive apply_workload to_unstructured settle_changes needs_status update_change
    track_primary end_of convert_to_pods convert_nodes convert_from convert_to_pod add_gvk
stream_done = refl

-- a workload that is there again, and one object that is not
reconcile-garbage_example :
    (stale : List Stale) × ((m : ObjMetadata)
      → IsIn m (map stale_key stale) ↔ (
          IsIn m (metadata "a" ∷ metadata "b" ∷ [])
          × ¬ IsIn m (map (λ c. c.metadata) (applied services objects stream 0))))
    × (reconcile services objects
          (some stream)
          (some (map (change_ref objects) (change "a" ∷ change "b" ∷ [])))
          0
        ≡ deleted services objects
            (map (change_ref objects) (change "a" ∷ change "b" ∷ []))
            (map (change_ref objects) (applied services objects stream 0))
            (services.delete_all stale (receive services objects stream [] 0).state))
reconcile-garbage_example =
    reconcile-garbage services objects stream 0 (change "a" ∷ change "b" ∷ []) (refl, (refl, tt))
      services-IsParsing objects-IsDiffing stream_done

-- the object `a` is applied in the round of the workload
applied_a : applied services objects stream 0 ≡ change "a" ∷ []
unfolding applied round_of to_unstructured settle_changes needs_status update_change track_primary
    end_of convert_to_pods convert_nodes convert_from convert_to_pod add_gvk
applied_a = refl
