-- ===== src/Provider/Frames.antt =====
-- provider.go: what the steps of CreatePod leave as it is.
use supernetes.Prelude.{
  ℕ, ◌≡◌, refl, Option, none, some, ◌==◌, if◌then◌else◌, arith, string_eq, beq-cases, Bool-cases,
  inl, inr, ap,
}
use supernetes.Prelude.Dict.{lookup, lookup-delete}
use supernetes.Api.{WorkloadMeta, Workload}
use supernetes.Kube.{Pod}
use supernetes.Tracker.{Tracker}
use supernetes.Provider.{
  Provider, is_tracked, has_identifier, load_pending, settle, schedule, register, finish_create,
  create_pod,
}
use supernetes.Provider.Key.{PodKey, key_eq, key_for}
use supernetes.Provider.Conversion.{apply_workload_meta, convert_to_workload}

pub key_for-apply :
    (meta : WorkloadMeta) (pod : Pod)
    → key_for (apply_workload_meta meta pod).meta ≡ key_for pod.meta
unfolding key_for apply_workload_meta
key_for-apply meta pod = refl

key_for-settle :
    (pod : Pod) (o : Option WorkloadMeta) → key_for (settle pod o).meta ≡ key_for pod.meta
unfolding settle
key_for-settle pod none = refl
key_for-settle pod (some meta) = key_for-apply meta pod

module _ (key : PodKey) (pod : Pod) (p : Provider) where
  pub meta-load_pending : (load_pending key pod p).0.meta ≡ pod.meta
  unfolding load_pending
  meta-load_pending = ground arith

  pub pods-load_pending : (load_pending key pod p).1.pods ≡ p.pods
  unfolding load_pending
  pods-load_pending = ground arith

  pub notifier-load_pending : (load_pending key pod p).1.notifier ≡ p.notifier
  unfolding load_pending
  notifier-load_pending = ground arith

  pub requests-load_pending : (load_pending key pod p).1.requests ≡ p.requests
  unfolding load_pending
  requests-load_pending = ground arith

  pub node_name-load_pending : (load_pending key pod p).1.node_name ≡ p.node_name
  unfolding load_pending
  node_name-load_pending = ground arith

  pub notified-load_pending : (load_pending key pod p).1.notified ≡ p.notified
  unfolding load_pending
  notified-load_pending = ground arith

  -- The cached status is used once: it is gone afterwards, the others stay.
  pub pending-load_pending :
      (j : PodKey)
      → lookup j (load_pending key pod p).1.pending_status
        ≡ (if key == j then none else lookup j p.pending_status)
  unfolding load_pending
  pending-load_pending j = ground (arith, lookup-delete key j p.pending_status, beq-cases key j)

module _ (client : Workload → Option WorkloadMeta) (pod : Pod) (p : Provider) where
  pub key_for-schedule : key_for (schedule client pod p).0.meta ≡ key_for pod.meta
  unfolding schedule
  key_for-schedule = elim (Bool-cases (has_identifier pod)) [
    | inl had ↦ rw (had, schedule)
    | inr new ↦
        rw (new, schedule) (key_for-settle pod (client (convert_to_workload pod p.node_name)))
  ]

  pub pods-schedule : (schedule client pod p).1.pods ≡ p.pods
  unfolding schedule
  pods-schedule = ground arith

  pub notifier-schedule : (schedule client pod p).1.notifier ≡ p.notifier
  unfolding schedule
  notifier-schedule = ground arith

  pub pending-schedule : (schedule client pod p).1.pending_status ≡ p.pending_status
  unfolding schedule
  pending-schedule = ground arith

-- CreatePod up to its last step: the cached status and the deployment of a tracked pod.
abbrev pub staged : (Workload → Option WorkloadMeta) → Pod → Provider → Pod × Provider
staged client pod p =
    let (pod1, p1) = load_pending (key_for pod.meta) pod p in
    if is_tracked pod1 then schedule client pod1 p1 else (pod1, p1)

-- the pod, the state and the tracker that go into the last step
abbrev pub staged_tracker {ℓ} :
    {U : Type ℓ} → (Workload → Option WorkloadMeta) → U → Pod → Provider → Tracker U → Tracker U
staged_tracker client self pod p t =
    if is_tracked (load_pending (key_for pod.meta) pod p).0
    then register self (staged client pod p).0 t
    else t

pub create_pod-eq-finish {ℓ} :
    {U : Type ℓ} (client : Workload → Option WorkloadMeta) (now : ℕ) (self : U) (pod : Pod)
    (p : Provider) (t : Tracker U)
    → create_pod client now self pod p t
      ≡ finish_create now
          (key_for pod.meta)
          (staged client pod p).0
          (staged client pod p).1
          (staged_tracker client self pod p t)
create_pod-eq-finish client now self pod p t =
    elim (Bool-cases (is_tracked (load_pending (key_for pod.meta) pod p).0)) [
      | inl y ↦ unfold create_pod in rw y
      | inr n ↦ unfold create_pod in rw n
    ]

module _ (client : Workload → Option WorkloadMeta) (pod : Pod) (p : Provider) where
  pub key_for-staged : key_for (staged client pod p).0.meta ≡ key_for pod.meta
  key_for-staged = ground (
    arith,
    key_for-schedule client (load_pending (key_for pod.meta) pod p).0
        (load_pending (key_for pod.meta) pod p).1,
    ap key_for (meta-load_pending (key_for pod.meta) pod p),
  )

  pub pods-staged : (staged client pod p).1.pods ≡ p.pods
  pods-staged = ground (
    arith,
    pods-schedule client (load_pending (key_for pod.meta) pod p).0
        (load_pending (key_for pod.meta) pod p).1,
    pods-load_pending (key_for pod.meta) pod p,
  )

  pub notifier-staged : (staged client pod p).1.notifier ≡ p.notifier
  notifier-staged = ground (
    arith,
    notifier-schedule client (load_pending (key_for pod.meta) pod p).0
        (load_pending (key_for pod.meta) pod p).1,
    notifier-load_pending (key_for pod.meta) pod p,
  )

  pub pending-staged :
      (j : PodKey)
      → lookup j (staged client pod p).1.pending_status
        ≡ (if key_for pod.meta == j then none else lookup j p.pending_status)
  pending-staged j = ground (
    arith,
    ap (lookup j) (
        pending-schedule client (load_pending (key_for pod.meta) pod p).0
          (load_pending (key_for pod.meta) pod p).1),
    pending-load_pending (key_for pod.meta) pod p j,
  )
