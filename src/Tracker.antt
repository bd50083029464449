-- ===== src/Tracker.antt =====
-- controller/pkg/tracker: the map from workload identifiers to tracked pods and their updaters.
pub mod Laws
use supernetes.Prelude.{String, Bool, Option, none, some, string_eq}
use supernetes.Prelude.Dict.{Dict, lookup, insert, delete}
use supernetes.Labels.{label_workload_identifier}
use supernetes.Kube.{ObjectMeta, Pod}

-- `pod.Labels[key]`, the empty string on a missing key
unfoldable pub label_or_empty : String → Pod → String
unfolding lookup
label_or_empty key pod = elim (lookup key pod.meta.labels) [ none ↦ "" | some v ↦ v ]

-- `tracked`; `U` is the type of references to status updaters.
pub record Tracked {ℓ} (U : Type ℓ) : Type ℓ where
  pub meta : ObjectMeta
  pub status_updater : U

abbrev pub Tracker {ℓ} : Type ℓ → Type ℓ
Tracker U = Dict String (Tracked U)

module _ {ℓ} {U : Type ℓ} where
  unfoldable pub track : Pod → U → Tracker U → Tracker U
  unfolding label_or_empty insert
  track pod updater t =
      insert (label_or_empty label_workload_identifier pod)
        (record { meta = pod.meta; status_updater = updater }) t

  unfoldable pub untrack : Pod → Tracker U → Tracker U
  unfolding label_or_empty delete
  untrack pod t = delete (label_or_empty label_workload_identifier pod) t

  -- the status of `pod` under the metadata of the tracked pod, if there is one
  unfoldable pub forward {κ} :
      {R : Type κ} → (U → Pod → Bool → R) → R → Pod → Bool → Option (Tracked U) → R
  forward update idle pod cache none = idle
  forward update idle pod cache (some info) =
      update info.status_updater (record pod { meta = info.meta }) cache

  -- `Tracker.UpdateStatus`: `update u p c` is what the updater `u` makes of the status, `idle` the
  -- result when nothing is tracked.
  unfoldable pub update_status {κ} :
      {R : Type κ} → (U → Pod → Bool → R) → R → Pod → Bool → Tracker U → R
  unfolding label_or_empty lookup forward
  update_status update idle pod cache t =
      forward update idle pod cache (lookup (label_or_empty label_workload_identifier pod) t)
