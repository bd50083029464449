-- ===== src/Provider/StartTimes.antt =====
-- provider.go: what UpdateStatus makes of the start times of the containers.
use supernetes.Prelude.{ℕ, ◌≡◌, ◌≢◌, refl, ◌∷◌, ◌++◌, Bool, true, some, [], All, All-map, arith}
use supernetes.Prelude.Dict.{lookup, insert}
use supernetes.Kube.{PodPhase, Pod}
use supernetes.Provider.{Provider, ok, update_status}
use supernetes.Provider.Phase.{change_phase, container_state, is_running}
use supernetes.Provider.Phase.Carry.{find_last, searched_status, change_phase-statuses}
use supernetes.Provider.Phase.Lifecycle.{IsFinal, EndedSince}
use supernetes.Provider.Key.{key_eq, key_for}
use supernetes.Provider.Views.{refreshed, update_status-changed}

ended_at_zero :
    (now : ℕ) (phase : PodPhase)
    → IsFinal phase
    → (pod : Pod) → pod.status.container_statuses ≡ []
    → All (EndedSince 0 now phase []) (change_phase now pod phase).status.container_statuses
ended_at_zero now phase final pod none_before = rw (change_phase-statuses now pod phase) (
    rw none_before (
      All-map (EndedSince 0 now phase []) (searched_status now phase []) pod.spec.containers
        (λ c. unfold container_state is_running find_last in ground (arith, final))))

-- When UpdateStatus ends a pod with a status that lists no containers, which is what the workload
-- reconciler sends, the notifier is told of a pod whose containers all started at time 0 and were
-- never restarted, whatever the pod reported before.
update_status-ended :
    (now : ℕ) (updated : Pod) (cache : Bool) (p : Provider) (pod : Pod)
    → p.notifier ≡ true
    → lookup (key_for updated.meta) p.pods ≡ some pod
    → pod.status.phase ≢ updated.status.phase
    → IsFinal updated.status.phase
    → updated.status.container_statuses ≡ []
    → (p' : Provider) × (pod' : Pod) × (update_status now updated cache p ≡ ok p')
      × (p'.notified ≡ p.notified ++ pod' ∷ [])
      × All (EndedSince 0 now updated.status.phase []) pod'.status.container_statuses
update_status-ended now updated cache p pod h found differs final none_listed = (
  record p {
    pods = insert (key_for updated.meta) (refreshed now updated cache p pod) p.pods;
    notified = p.notified ++ refreshed now updated cache p pod ∷ [];
  },
  refreshed now updated cache p pod,
  update_status-changed now updated cache p pod h found differs,
  refl,
  ended_at_zero now updated.status.phase final (record pod { status = updated.status }) none_listed,
)
