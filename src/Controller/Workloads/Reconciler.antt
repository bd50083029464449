-- ===== src/Controller/Workloads/Reconciler.antt =====
-- wlReconciler of controller/pkg/workload/reconciler.go.
pub mod Collection
use mathlib.Core.Option
use supernetes.Prelude.{
  ℕ, zero, suc, ◌+◌, String, List, [], ◌∷◌, Bool, true, false, Option, none, some, nat_beq,
  if◌then◌else◌,
}
use supernetes.Prelude.Streams.{Stream, eof, broken, message}
use supernetes.Api.{Workload}
use supernetes.Kube.{Pod}
use supernetes.Controller.Kinds.{ObjectKinds}
use supernetes.Controller.Inventory.{
  Inventory, Action, Change, Stale, Objects, populate, add_change_set, diff,
}
use supernetes.Controller.Workloads.{TypedPod, convert_to_pods}

-- What the reconciler calls, over a state `K` of the cluster, the provider and the tracker. A call
-- leaves a state also when it fails; `Object` is `unstructured.Unstructured`.
pub record Services (K : Type 0) (Object : Type 0) : Type 0 where
  pub list_untracked : K → Option (List Pod)
  pub pod_kinds : ObjectKinds
  pub to_object : TypedPod → Option Object
  pub apply_all : List Object → K → K × Option (List Change)
  pub delete_all : List Stale → K → K × Option (List Change)
  pub update_status : Pod → K → K × Bool
  pub track_status : Pod → K → K × Bool

-- how a call ends; `panicked` is an index that is out of range
pub data End : Type 0 where
  done failed panicked : End

unfoldable pub end_of : Bool → End
end_of true = End.done
end_of false = End.failed

abbrev pub get_elem? : ℕ → List TypedPod → Option TypedPod
get_elem? i [] = none
get_elem? i (pod ∷ pods) = elim i [ zero ↦ some pod | suc j ↦ get_elem? j pods ]

-- created, or unchanged apart from the status
unfoldable pub needs_status : Action → Bool
needs_status Action.created = true
needs_status Action.unchanged = true
needs_status _ = false

-- what one round of the receive loop adds to the new inventory
pub record Round (K : Type 0) : Type 0 where
  pub state : K
  pub inventory : Inventory
  pub ending : End

-- what Reconcile leaves: the inventory of the reconciler, which is nothing while it is nil
pub record Outcome (K : Type 0) : Type 0 where
  pub state : K
  pub inventory : Option Inventory
  pub ending : End

module _ {K Object : Type 0} where
  unfoldable pub to_unstructured : Services K Object → List TypedPod → Option (List Object)
  to_unstructured s [] = some []
  to_unstructured s (pod ∷ pods) = elim (s.to_object pod) [
    | none ↦ none
    | some object ↦ Option.map (λ objects. object ∷ objects) (to_unstructured s pods)
  ]

  -- the status update of the provider, and for the primary pod that of the tracked pod
  unfoldable pub track_primary : Services K Object → ℕ → Pod → K × Bool → K × End
  unfolding end_of
  track_primary s i pod (k, false) = (k, End.failed)
  track_primary s zero pod (k, true) = let (k2, ok) = s.track_status pod k in (k2, end_of ok)
  track_primary s (suc i) pod (k, true) = (k, End.done)

  unfoldable pub update_change : Services K Object → List TypedPod → ℕ → K → K × End
  unfolding track_primary
  update_change s pods i k = elim (get_elem? i pods) [
    | none ↦ (k, End.panicked)
    | some pod ↦ track_primary s i pod.pod (s.update_status pod.pod k)
  ]

  -- the loop over the entries of a change set, from `i` on
  unfoldable pub settle_changes : Services K Object → List TypedPod → ℕ → List Change → K → K × End
  unfolding needs_status update_change
  settle_changes s pods i [] k = (k, End.done)
  settle_changes s pods i (change ∷ changes) k = elim (needs_status change.action) [
    | true ↦
        let (k2, e) = update_change s pods i k in
        elim e [
          | End.done ↦ settle_changes s pods (i + 1) changes k2
          | End.failed ↦ (k2, End.failed)
          | End.panicked ↦ (k2, End.panicked)
        ]
    | false ↦ settle_changes s pods (i + 1) changes k
  ]

  -- one round of the receive loop
  unfoldable pub apply_workload : Services K Object → Objects → Workload → Inventory → K → Round K
  unfolding convert_to_pods to_unstructured add_change_set settle_changes
  apply_workload s o workload inventory k = elim (convert_to_pods s.pod_kinds workload) [
    | none ↦ record { state = k; inventory = inventory; ending = End.failed }
    | some pods ↦ elim (to_unstructured s pods) [
      | none ↦ record { state = k; inventory = inventory; ending = End.failed }
      | some objects ↦
          let (k2, changes) = s.apply_all objects k in
          elim changes [
            | none ↦ record { state = k2; inventory = inventory; ending = End.failed }
            | some changes ↦
                let (k3, e) = settle_changes s pods 0 changes k2 in
                record {
                  state = k3;
                  inventory = add_change_set o inventory (some changes);
                  ending = e;
                }
          ]
    ]
  ]

  unfoldable pub receive : Services K Object → Objects → Stream Workload → Inventory → K → Round K
  unfolding apply_workload
  receive s o eof inventory k = record { state = k; inventory = inventory; ending = End.done }
  receive s o broken inventory k = record { state = k; inventory = inventory; ending = End.failed }
  receive s o (message workload stream) inventory k =
      let round = apply_workload s o workload inventory k in
      elim round.ending [
        | End.done ↦ receive s o stream round.inventory round.state
        | End.failed ↦ round
        | End.panicked ↦ round
      ]

  -- the garbage collection, and the change of inventories
  unfoldable pub collect : Services K Object → Objects → Inventory → Inventory → K → Outcome K
  unfolding diff
  collect s o current new k = elim (diff o current new) [
    | none ↦ record { state = k; inventory = some current; ending = End.failed }
    | some stale ↦
        let (k2, changes) = s.delete_all stale k in
        elim changes [
          | none ↦ record { state = k2; inventory = some current; ending = End.failed }
          | some changes ↦ record { state = k2; inventory = some new; ending = End.done }
        ]
  ]

  -- Reconcile from the point where the reconciler has an inventory
  unfoldable pub reconcile_with :
      Services K Object → Objects → Stream Workload → Inventory → K → Outcome K
  unfolding receive collect
  reconcile_with s o stream current k =
      let round = receive s o stream [] k in
      elim round.ending [
        | End.done ↦ collect s o current round.inventory round.state
        | e ↦ record { state = round.state; inventory = some current; ending = e }
      ]

  -- Reconcile of a reconciler that had no inventory, after Populate
  unfoldable pub reconcile_populated :
      Services K Object → Objects → Stream Workload → K → Inventory × Bool → Outcome K
  unfolding reconcile_with
  reconcile_populated s o stream k (current, true) = reconcile_with s o stream current k
  reconcile_populated s o stream k (current, false) = record {
    state = k;
    inventory = some current;
    ending = End.failed;
  }

  -- `Reconcile`; no stream is the error of the List call.
  unfoldable pub reconcile :
      Services K Object → Objects → Option (Stream Workload) → Option Inventory → K → Outcome K
  unfolding populate reconcile_with reconcile_populated
  reconcile s o none current k = record { state = k; inventory = current; ending = End.failed }
  reconcile s o (some stream) (some current) k = reconcile_with s o stream current k
  reconcile s o (some stream) none k =
      reconcile_populated s o stream k (populate o [] (s.list_untracked k))
