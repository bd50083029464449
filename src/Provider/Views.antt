-- ===== src/Provider/Views.antt =====
-- provider.go: each operation as a change of the map from keys to pods.
use supernetes.Prelude.{
  ℕ, [], ◌∷◌, ◌++◌, Bool, true, false, ◌≡◌, ◌≢◌, ◌&&◌, refl, Option, none, some, ◌==◌,
  if◌then◌else◌, arith, string_eq, beq-cases, Bool-cases, inl, inr, ◌∙◌,
}
use supernetes.Prelude.Dict.{lookup, insert, delete, has, lookup-insert, lookup-delete}
use supernetes.Api.{WorkloadMeta, Workload}
use supernetes.Kube.{PodPhase, phase_eq, Pod}
use supernetes.Tracker.{Tracker, untrack}
use supernetes.Provider.{
  Provider, ok, missing, with_message, is_tracked, put_and_notify, finish_create, create_pod,
  delete_pod, update_status, cache_status, delete_workload,
}
use supernetes.Provider.Phase.{change_phase}
use supernetes.Provider.Key.{PodKey, key_eq, key_for}
use supernetes.Provider.Conversion.{workload_meta}
use supernetes.Provider.Frames.{
  staged, staged_tracker, create_pod-eq-finish, key_for-staged, pods-staged, notifier-staged,
  pending-staged,
}

pub key_for-change :
    (now : ℕ) (pod : Pod) (phase : PodPhase)
    → key_for (change_phase now pod phase).meta ≡ key_for pod.meta
unfolding key_for change_phase
key_for-change now pod phase = refl

-- what CreatePod stores and sends to the notifier
abbrev pub created : (Workload → Option WorkloadMeta) → ℕ → Pod → Provider → Pod
created client now pod p =
    with_message "Supernetes workload was created"
      (change_phase now (staged client pod p).0 (staged client pod p).0.status.phase)

abbrev pub created_provider : (Workload → Option WorkloadMeta) → ℕ → Pod → Provider → Provider
created_provider client now pod p = record (staged client pod p).1 {
  pods = insert (key_for pod.meta) (created client now pod p) (staged client pod p).1.pods;
  notified = (staged client pod p).1.notified ++ created client now pod p ∷ [];
}

finish_create-ok {ℓ} :
    {U : Type ℓ} (now : ℕ) (key : PodKey) (pod : Pod) (p : Provider) (t : Tracker U)
    → p.notifier ≡ true
    → let pod' =
        with_message "Supernetes workload was created" (change_phase now pod pod.status.phase) in
      finish_create now key pod p t
      ≡ ok (pod', record p { pods = insert key pod' p.pods; notified = p.notified ++ pod' ∷ [] }, t)
unfolding finish_create
finish_create-ok now key pod p t h = rw (h, put_and_notify)

pub create_pod-ok {ℓ} :
    {U : Type ℓ} (client : Workload → Option WorkloadMeta) (now : ℕ) (self : U) (pod : Pod)
    (p : Provider) (t : Tracker U)
    → p.notifier ≡ true
    → create_pod client now self pod p t
      ≡ ok (
        created client now pod p,
        created_provider client now pod p,
        staged_tracker client self pod p t,
      )
create_pod-ok client now self pod p t h =
    create_pod-eq-finish client now self pod p t
    ∙ finish_create-ok now (key_for pod.meta) (staged client pod p).0 (staged client pod p).1
        (staged_tracker client self pod p t) (notifier-staged client pod p ∙ h)

-- Once the notifier is set, CreatePod succeeds: under the key of the pod it stores a pod of that
-- key and forgets the status cached for it, and it changes nothing under other keys.
create_pod-view {ℓ} :
    {U : Type ℓ} (client : Workload → Option WorkloadMeta) (now : ℕ) (self : U) (pod : Pod)
    (p : Provider) (t : Tracker U)
    → p.notifier ≡ true
    → (pod' : Pod) × (p' : Provider) × (t' : Tracker U) × (create_pod client now self pod p t
        ≡ ok (pod', p', t'))
      × (key_for pod'.meta ≡ key_for pod.meta)
      × ((j : PodKey)
          → (lookup j p'.pods ≡ (if key_for pod.meta == j then some pod' else lookup j p.pods))
            × (lookup j p'.pending_status
                ≡ (if key_for pod.meta == j then none else lookup j p.pending_status)))
create_pod-view client now self pod p t h = (
  created client now pod p,
  created_provider client now pod p,
  staged_tracker client self pod p t,
  create_pod-ok client now self pod p t h,
  key_for-change now (staged client pod p).0 (staged client pod p).0.status.phase
      ∙ key_for-staged client pod p,
  λ j. (
    rw (pods-staged client pod p)
        (lookup-insert (key_for pod.meta) j (created client now pod p) p.pods),
    pending-staged client pod p j,
  ),
)

-- DeletePod of a pod that is not there fails with NotFound; otherwise, once the notifier is set,
-- it removes that pod alone, tells the notifier of it with phase Succeeded, and, exactly if the
-- pod is tracked, asks the agent to delete its workload and untracks it.
pub delete_pod-view {ℓ} :
    {U : Type ℓ} (now : ℕ) (pod : Pod) (p : Provider) (t : Tracker U)
    → p.notifier ≡ true
    → (has (key_for pod.meta) p.pods ≡ false → delete_pod now pod p t ≡ missing (key_for pod.meta))
      × (has (key_for pod.meta) p.pods ≡ true
          → (pod' : Pod) × (p' : Provider) × (delete_pod now pod p t
              ≡ ok (pod', p', if is_tracked pod then untrack pod t else t))
            × (pod'.status.phase ≡ PodPhase.succeeded)
            × (p'.notified ≡ p.notified ++ pod' ∷ [])
            × (p'.requests ≡ (
                if is_tracked pod
                then p.requests ++ delete_workload (workload_meta pod) ∷ []
                else p.requests))
            × ((j : PodKey)
                → lookup j p'.pods ≡ (if key_for pod.meta == j then none else lookup j p.pods)))
unfolding delete_pod
delete_pod-view now pod p t h =
    (λ n. rw (n, delete_pod), λ y. (gone, after, rw (y, h, delete_pod), phase, refl, refl, views))
  where
    gone : Pod
    gone = with_message "Supernetes workload was deleted" (change_phase now pod PodPhase.succeeded)

    after : Provider
    after = record p {
      pods = delete (key_for pod.meta) p.pods;
      notified = p.notified ++ gone ∷ [];
      requests =
          if is_tracked pod
          then p.requests ++ delete_workload (workload_meta pod) ∷ []
          else p.requests;
    }

    phase : gone.status.phase ≡ PodPhase.succeeded
    phase = unfold change_phase in refl

    views :
        (j : PodKey)
        → lookup j after.pods ≡ (if key_for pod.meta == j then none else lookup j p.pods)
    views j = lookup-delete (key_for pod.meta) j p.pods

-- the effect of a status update on the view of one key
abbrev pub Updated : ℕ → Pod → Pod → Provider → Provider → Type 0
Updated now updated pod p p' =
    (pod' : Pod) × (pod'.status.phase ≡ updated.status.phase)
    × (pod'.status.start_time ≡ updated.status.start_time)
    × (p'.notified ≡ p.notified ++ pod' ∷ [])
    × (p'.pending_status ≡ p.pending_status)
    × ((j : PodKey)
        → lookup j p'.pods ≡ (if key_for updated.meta == j then some pod' else lookup j p.pods))

module _ (now : ℕ) (updated : Pod) (cache : Bool) (p : Provider) where
  pub cached_view :
      (j : PodKey)
      → lookup j (cache_status (key_for updated.meta) updated.status cache p).pending_status ≡ (
          if cache && (key_for updated.meta == j)
          then some updated.status
          else lookup j p.pending_status)
  unfolding cache_status
  cached_view j = elim (Bool-cases cache) [
    | inl y ↦
        rw (y, cache_status)
          (lookup-insert (key_for updated.meta) j updated.status p.pending_status)
    | inr n ↦ rw (n, cache_status)
  ]

  pub cached_frame :
      ((cache_status (key_for updated.meta) updated.status cache p).pods ≡ p.pods)
      × ((cache_status (key_for updated.meta) updated.status cache p).notified ≡ p.notified)
  unfolding cache_status
  cached_frame = ground arith

  pub update_status-absent :
      lookup (key_for updated.meta) p.pods ≡ none
      → update_status now updated cache p
        ≡ ok (cache_status (key_for updated.meta) updated.status cache p)
  update_status-absent gone = unfold update_status in rw (gone, update_status)

  -- the pod that takes the new status
  abbrev pub refreshed : Pod → Pod
  refreshed pod =
      with_message "Supernetes workload status was updated"
        (change_phase now (record pod { status = updated.status }) updated.status.phase)

  pub update_status-same :
      (pod : Pod)
      → lookup (key_for updated.meta) p.pods ≡ some pod
      → pod.status.phase ≡ updated.status.phase
      → update_status now updated cache p ≡ ok p
  unfolding update_status
  update_status-same pod present same =
      ground (arith, beq-cases pod.status.phase updated.status.phase)

  pub update_status-changed :
      (pod : Pod)
      → p.notifier ≡ true
      → lookup (key_for updated.meta) p.pods ≡ some pod
      → pod.status.phase ≢ updated.status.phase
      → update_status now updated cache p
        ≡ ok (record p {
          pods = insert (key_for updated.meta) (refreshed pod) p.pods;
          notified = p.notified ++ refreshed pod ∷ [];
        })
  unfolding update_status
  update_status-changed pod h present differs =
      elim (beq-cases pod.status.phase updated.status.phase) [
        | inl (y, e) ↦ absurd (differs e)
        | inr (n, _) ↦ rw (present, update_status) (rw n (rw (h, put_and_notify)))
      ]

-- UpdateStatus, once the notifier is set, always succeeds. For a pod that is not there it stores
-- the status if it may be cached and changes nothing otherwise; for a pod of the same phase it
-- changes nothing; else the pod takes the new phase and start time, the notifier is told once, and
-- no other pod and no cached status changes.
pub update_status-view :
    (now : ℕ) (updated : Pod) (cache : Bool) (p : Provider)
    → p.notifier ≡ true
    → (lookup (key_for updated.meta) p.pods ≡ none
        → (p' : Provider) × (update_status now updated cache p ≡ ok p')
          × (p'.pods ≡ p.pods)
          × (p'.notified ≡ p.notified)
          × ((j : PodKey)
              → lookup j p'.pending_status ≡ (
                  if cache && (key_for updated.meta == j)
                  then some updated.status
                  else lookup j p.pending_status)))
      × ((pod : Pod)
          → lookup (key_for updated.meta) p.pods ≡ some pod
          → (pod.status.phase ≡ updated.status.phase → update_status now updated cache p ≡ ok p)
            × (pod.status.phase ≢ updated.status.phase
                → (p' : Provider) × (update_status now updated cache p ≡ ok p')
                  × Updated now updated pod p p'))
update_status-view now updated cache p h = (absent, present)
  where
    key : PodKey
    key = key_for updated.meta

    absent :
        lookup key p.pods ≡ none
        → (p' : Provider) × (update_status now updated cache p ≡ ok p')
          × (p'.pods ≡ p.pods)
          × (p'.notified ≡ p.notified)
          × ((j : PodKey)
              → lookup j p'.pending_status
                ≡ (if cache && (key == j) then some updated.status else lookup j p.pending_status))
    absent n = (
      cache_status key updated.status cache p,
      update_status-absent now updated cache p n,
      (cached_frame now updated cache p).0,
      (cached_frame now updated cache p).1,
      cached_view now updated cache p,
    )

    present :
        (pod : Pod)
        → lookup key p.pods ≡ some pod
        → (pod.status.phase ≡ updated.status.phase → update_status now updated cache p ≡ ok p)
          × (pod.status.phase ≢ updated.status.phase
              → (p' : Provider) × (update_status now updated cache p ≡ ok p')
                × Updated now updated pod p p')
    present pod found = (
      update_status-same now updated cache p pod found,
      λ differs. (
        record p {
          pods = insert key (refreshed now updated cache p pod) p.pods;
          notified = p.notified ++ refreshed now updated cache p pod ∷ [];
        },
        update_status-changed now updated cache p pod h found differs,
        (
          refreshed now updated cache p pod,
          unfold change_phase in refl,
          unfold change_phase in refl,
          refl,
          refl,
          λ j. lookup-insert key j (refreshed now updated cache p pod) p.pods,
        ),
      ),
    )
