-- ===== src/Examples/ProviderRuns.antt =====
-- Runs of the provider and the tracker.
use supernetes.Prelude.{ℕ, List, [], ◌∷◌, Bool, false, ◌≡◌, refl, string_eq}
use supernetes.Prelude.Dict.{lookup, has}
use supernetes.Kube.{PodPhase, phase_eq, Pod}
use supernetes.Tracker.{Tracker, untrack}
use supernetes.Provider.{
  missing, ok, delete_pod, update_status, new_pod_provider, notify_pods, is_tracked, load_pending,
  schedule,
}
use supernetes.Provider.Key.{key_eq, key_for}
use supernetes.Provider.Conversion.{workload_meta, apply_workload_meta}
use supernetes.Provider.Conversion.Labels.{workload_meta-apply}
use supernetes.Provider.Views.{
  created, created_provider, create_pod-ok, delete_pod-view, update_status-view,
}
use supernetes.Provider.Frames.{staged_tracker}
use supernetes.Provider.Creation.{create_pod_effect, create_pod_again, intended_phase}
use supernetes.Provider.Invariant.{IsValid, here, next, creates, Reach-IsValid}
use supernetes.Examples.{
  fresh_pod, known_pod, pod_with, empty_provider, provider_of, answer, client,
}

abbrev no_tracker : Tracker ℕ
no_tracker = []

create_pod_again_example :
    (created_provider client 2
      (created client 1 fresh_pod empty_provider)
      (created_provider client 1 fresh_pod empty_provider)).requests
    ≡ (created_provider client 1 fresh_pod empty_provider).requests
unfolding is_tracked load_pending schedule
create_pod_again_example =
    create_pod_again client client 1 2 0 fresh_pod empty_provider no_tracker refl refl
      (answer, refl) (create_pod-ok client 1 0 fresh_pod empty_provider no_tracker refl)
      (create_pod-ok client 2 0 (created client 1 fresh_pod empty_provider)
        (created_provider client 1 fresh_pod empty_provider)
        (staged_tracker client 0 fresh_pod empty_provider no_tracker) refl)

create_pod_effect_example :
    (created client 1 fresh_pod empty_provider).status.phase
    ≡ intended_phase client fresh_pod empty_provider
create_pod_effect_example =
    (create_pod_effect client 1 0 fresh_pod empty_provider no_tracker refl
      (create_pod-ok client 1 0 fresh_pod empty_provider no_tracker refl)).0

Reach-IsValid_example :
    IsValid (created_provider client 1 fresh_pod (notify_pods (new_pod_provider "node-1")))
unfolding notify_pods
Reach-IsValid_example = Reach-IsValid ℕ "node-1" (
    next here (
      creates client 1 0 fresh_pod no_tracker
        (create_pod-ok client 1 0 fresh_pod _ no_tracker refl)))

delete_pod-view_example :
    delete_pod 3 known_pod empty_provider no_tracker ≡ missing (key_for known_pod.meta)
delete_pod-view_example =
    (delete_pod-view 3 known_pod empty_provider no_tracker refl).0 (unfold has lookup in refl)

update_status-view_example :
    update_status 4 known_pod false (provider_of known_pod) ≡ ok (provider_of known_pod)
update_status-view_example =
    ((update_status-view 4 known_pod false (provider_of known_pod) refl).1 known_pod
        (unfold lookup key_for in refl)).0
      refl

abbrev ended_pod : Pod
ended_pod = pod_with known_pod.meta.labels PodPhase.succeeded

workload_meta-apply_example :
    (workload_meta (apply_workload_meta answer fresh_pod)).identifier ≡ "7"
unfolding lookup
workload_meta-apply_example = (workload_meta-apply answer fresh_pod tt (refl, tt)).0

abbrev note : ℕ → Pod → Bool → List ℕ
note updater pod cache = updater ∷ []
