-- ===== src/Provider.antt =====
-- controller/pkg/provider/provider.go: the pods of one virtual node. Each operation takes the
-- state and returns the new one; the mutex makes every operation one step. What goes out, calls
-- of the notifier and requests to the agent, is kept in order in the state.
pub mod Phase
pub mod Key
pub mod Conversion
pub mod Frames
pub mod Creation
pub mod Views
pub mod Invariant
pub mod StartTimes
pub mod Logs
pub mod Handler
pub mod Deployment
use supernetes.Prelude.{
  ℕ, String, List, [], ◌∷◌, ◌++◌, Bool, true, false, not, ◌||◌, Option, none, some, ◌==◌, string_eq,
  if◌then◌else◌, map,
}
use supernetes.Prelude.Dict.{Dict, lookup, insert, delete, has}
use supernetes.Labels.{label_workload_identifier, label_workload_kind, kind_untracked}
use supernetes.Api.{WorkloadMeta, Workload}
use supernetes.Kube.{PodPhase, phase_eq, PodStatus, Pod}
use supernetes.Tracker.{Tracker, track, untrack}
use Phase.{change_phase}
use Key.{PodKey, key_eq, key_for, key_from}
use Conversion.{convert_to_workload, workload_meta, apply_workload_meta}

-- what is sent to the agent
pub data Request : Type 0 where
  create_workload : Workload → Request
  delete_workload : WorkloadMeta → Request

-- `podProvider`. `notifier` says whether NotifyPods has set it; `notified` are its calls, and
-- `requests` those of the workload client, oldest first.
pub record Provider : Type 0 where
  pub pods : Dict PodKey Pod
  pub pending_status : Dict PodKey PodStatus
  pub node_name : String
  pub notifier : Bool
  pub notified : List Pod
  pub requests : List Request

-- `missing` is errdefs.NotFound; `nil_call` the panic of a call of the unset notifier.
pub data Result {ℓ} (A : Type ℓ) : Type ℓ where
  ok : A → Result A
  missing : PodKey → Result A
  nil_call : Result A

-- `NewPodProvider`
unfoldable pub new_pod_provider : String → Provider
new_pod_provider node_name = record {
  pods = [];
  pending_status = [];
  node_name = node_name;
  notifier = false;
  notified = [];
  requests = [];
}

unfoldable pub notify_pods : Provider → Provider
notify_pods p = record p { notifier = true }

-- `p.pods[key] = pod; p.notifier(pod)`
unfoldable pub put_and_notify : PodKey → Pod → Provider → Result Provider
unfolding insert
put_and_notify key pod p =
    if p.notifier
    then ok (record p { pods = insert key pod p.pods; notified = p.notified ++ pod ∷ [] })
    else nil_call

abbrev pub with_message : String → Pod → Pod
with_message m pod = record pod { status = record pod.status { message = m } }

-- the absence of the untracked kind label
unfoldable pub is_tracked : Pod → Bool
unfolding lookup
is_tracked pod = elim (lookup label_workload_kind pod.meta.labels) [
  | none ↦ true
  | some l ↦ not (l == kind_untracked)
]

unfoldable pub has_identifier : Pod → Bool
unfolding has
has_identifier pod = has label_workload_identifier pod.meta.labels

-- a status that was cached before the pod came
unfoldable pub load_pending : PodKey → Pod → Provider → Pod × Provider
unfolding lookup delete
load_pending key pod p = elim (lookup key p.pending_status) [
  | none ↦ (pod, p)
  | some status ↦
      (record pod { status = status }, record p { pending_status = delete key p.pending_status })
]

-- what a Create answer does to the pod; `none` is an error
unfoldable pub settle : Pod → Option WorkloadMeta → Pod
unfolding apply_workload_meta
settle pod none = record pod { status = record pod.status { phase = PodPhase.failed } }
settle pod (some meta) = apply_workload_meta meta pod

-- `client` is the agent's answer to a Create request.
unfoldable pub deploy : (Workload → Option WorkloadMeta) → Pod → Provider → Pod × Provider
unfolding convert_to_workload settle
deploy client pod p =
    let workload = convert_to_workload pod p.node_name in
    (
      settle pod (client workload),
      record p { requests = p.requests ++ create_workload workload ∷ [] },
    )

-- `deploy` unless the pod has an identifier already
unfoldable pub schedule : (Workload → Option WorkloadMeta) → Pod → Provider → Pod × Provider
unfolding has_identifier deploy
schedule client pod p = if has_identifier pod then (pod, p) else deploy client pod p

module _ {ℓ} {U : Type ℓ} where
  -- A pod that has an identifier now is registered under `self`, the reference to this provider.
  unfoldable pub register : U → Pod → Tracker U → Tracker U
  unfolding has_identifier track
  register self pod t = if has_identifier pod then track pod self t else t

  unfoldable pub finish_create :
      ℕ → PodKey → Pod → Provider → Tracker U → Result (Pod × Provider × Tracker U)
  unfolding change_phase put_and_notify
  finish_create now key pod p t =
      let pod' =
        with_message "Supernetes workload was created" (change_phase now pod pod.status.phase) in
      elim (put_and_notify key pod' p) [
        | ok p' ↦ ok (pod', p', t)
        | missing k ↦ missing k
        | nil_call ↦ nil_call
      ]

  -- The pod comes back too, since CreatePod changes the one that it is given.
  unfoldable pub create_pod :
      (Workload → Option WorkloadMeta)
      → ℕ
      → U
      → Pod
      → Provider
      → Tracker U
      → Result (Pod × Provider × Tracker U)
  unfolding key_for load_pending is_tracked schedule register finish_create
  create_pod client now self pod p t =
      let key = key_for pod.meta in
      let (pod1, p1) = load_pending key pod p in
      if is_tracked pod1
      then (let (pod2, p2) = schedule client pod1 p1 in
          finish_create now key pod2 p2 (register self pod2 t))
      else finish_create now key pod1 p1 t

  -- The agent's answer to the Delete request is only logged.
  unfoldable pub delete_pod : ℕ → Pod → Provider → Tracker U → Result (Pod × Provider × Tracker U)
  unfolding key_for is_tracked untrack change_phase has delete workload_meta
  delete_pod now pod p t =
      let key = key_for pod.meta in
      let pod' =
        with_message "Supernetes workload was deleted" (change_phase now pod PodPhase.succeeded) in
      let requests =
        if is_tracked pod
        then p.requests ++ delete_workload (workload_meta pod) ∷ []
        else p.requests in
      let t' = if is_tracked pod then untrack pod t else t in
      if not (has key p.pods)
      then missing key
      else if p.notifier
      then ok (
        pod',
        record p {
          pods = delete key p.pods;
          requests = requests;
          notified = p.notified ++ pod' ∷ [];
        },
        t',
      )
      else nil_call

unfoldable pub update_pod : ℕ → Pod → Provider → Result Provider
unfolding key_for change_phase put_and_notify
update_pod now pod p =
    put_and_notify (key_for pod.meta)
      (with_message "Supernetes workload was updated" (change_phase now pod pod.status.phase)) p

unfoldable pub get_pod : String → String → Provider → Result Pod
unfolding key_from lookup
get_pod namespace name p = elim (lookup (key_from name namespace) p.pods) [
  | none ↦ missing (key_from name namespace)
  | some pod ↦ ok pod
]

unfoldable pub get_pod_status : String → String → Provider → Result PodStatus
unfolding key_from lookup
get_pod_status namespace name p = elim (lookup (key_from name namespace) p.pods) [
  | none ↦ missing (key_from name namespace)
  | some pod ↦ ok pod.status
]

unfoldable pub get_pods : Provider → List Pod
get_pods p = map (λ entry. entry.1) p.pods

-- `UpdateStatus` of a pod that the provider does not have
unfoldable pub cache_status : PodKey → PodStatus → Bool → Provider → Provider
unfolding insert
cache_status key status cache p =
    if cache then record p { pending_status = insert key status p.pending_status } else p

unfoldable pub update_status : ℕ → Pod → Bool → Provider → Result Provider
unfolding key_for lookup cache_status change_phase put_and_notify
update_status now updated cache p = elim (lookup (key_for updated.meta) p.pods) [
  | none ↦ ok (cache_status (key_for updated.meta) updated.status cache p)
  | some pod ↦
      if pod.status.phase == updated.status.phase
      then ok p
      else put_and_notify (key_for updated.meta)
          (with_message "Supernetes workload status was updated"
            (change_phase now (record pod { status = updated.status }) updated.status.phase))
          p
]
