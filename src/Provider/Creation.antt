-- ===== src/Provider/Creation.antt =====
-- provider.go: what CreatePod asks of the agent, and which phase and registration follow.
use supernetes.Prelude.{
  ℕ, String, List, [], ◌∷◌, ◌++◌, Bool, true, false, not, ◌≡◌, ◌&&◌, refl, Option, none, some,
  if◌then◌else◌, arith, string_eq, Bool-cases, inl, inr, ap, ◌∙◌, sym,
}
use supernetes.Prelude.Dict.{lookup}
use supernetes.Api.{WorkloadMeta, Workload}
use supernetes.Kube.{PodPhase, PodStatus, phase_eq, Pod}
use supernetes.Tracker.{Tracker}
use supernetes.Provider.{
  Provider, Request, with_message, ok, is_tracked, has_identifier, load_pending, schedule, settle,
  create_pod, create_workload,
}
use supernetes.Provider.Phase.{change_phase}
use supernetes.Provider.Key.{key_eq, key_for}
use supernetes.Provider.Conversion.{convert_to_workload}
use supernetes.Provider.Conversion.Labels.{lookup-apply_workload_meta_self}
use supernetes.Provider.Frames.{
  staged, notifier-staged, requests-load_pending, node_name-load_pending,
}
use supernetes.Provider.Views.{created, created_provider, create_pod-ok}

-- the status with which the creation starts: the cached one, if there is one
abbrev pub initial_status : Pod → Provider → PodStatus
initial_status pod p = elim (lookup (key_for pod.meta) p.pending_status) [
  | none ↦ pod.status
  | some s ↦ s
]

pub load_pending-pod :
    (pod : Pod) (p : Provider)
    → (load_pending (key_for pod.meta) pod p).0 ≡ record pod { status = initial_status pod p }
unfolding load_pending
load_pending-pod pod p = ground arith

-- whether the agent is asked to create the workload of a pod
abbrev pub needs_deployment : Pod → Bool
needs_deployment pod = is_tracked pod && not (has_identifier pod)

abbrev pub phase_after : PodPhase → Option WorkloadMeta → PodPhase
phase_after phase none = PodPhase.failed
phase_after phase (some meta) = phase

abbrev pub intended_phase : (Workload → Option WorkloadMeta) → Pod → Provider → PodPhase
intended_phase client pod p =
    if needs_deployment pod
    then phase_after (initial_status pod p).phase (client (convert_to_workload pod p.node_name))
    else (initial_status pod p).phase

abbrev pub intended_requests : Pod → Provider → List Request
intended_requests pod p =
    if needs_deployment pod
    then p.requests ++ create_workload (convert_to_workload pod p.node_name) ∷ []
    else p.requests

module _ (pod : Pod) (s : PodStatus) where
  pub is_tracked-status : is_tracked (record pod { status = s }) ≡ is_tracked pod
  unfolding is_tracked
  is_tracked-status = refl

  has_identifier-status : has_identifier (record pod { status = s }) ≡ has_identifier pod
  unfolding has_identifier
  has_identifier-status = refl

  convert-status :
      (n : String) → convert_to_workload (record pod { status = s }) n ≡ convert_to_workload pod n
  unfolding convert_to_workload
  convert-status n = refl

phase-settle :
    (pod : Pod) (o : Option WorkloadMeta)
    → (settle pod o).status.phase ≡ phase_after pod.status.phase o
unfolding settle
phase-settle pod none = refl
phase-settle pod (some meta) = refl

module _ (client : Workload → Option WorkloadMeta) (pod : Pod) (p : Provider) where
  schedule-old : has_identifier pod ≡ true → schedule client pod p ≡ (pod, p)
  schedule-old h = unfold schedule in rw h

  schedule-new :
      has_identifier pod ≡ false
      → schedule client pod p ≡ (
        settle pod (client (convert_to_workload pod p.node_name)),
        record p {
          requests = p.requests ++ create_workload (convert_to_workload pod p.node_name) ∷ [];
        },
      )
  schedule-new h = unfold schedule in rw h

module _ (client : Workload → Option WorkloadMeta) (pod : Pod) (p : Provider) where
  abbrev pub loaded : Pod
  loaded = record pod { status = initial_status pod p }

  abbrev rest : Provider
  rest = (load_pending (key_for pod.meta) pod p).1

  pub staged-cases : staged client pod p ≡ (
      if needs_deployment loaded
      then (
        settle loaded (client (convert_to_workload loaded rest.node_name)),
        record rest {
          requests =
              rest.requests ++ create_workload (convert_to_workload loaded rest.node_name) ∷ [];
        },
      )
      else (loaded, rest))
  staged-cases = rw (load_pending-pod pod p) (elim (Bool-cases (is_tracked loaded)) [
    | inl y ↦ elim (Bool-cases (has_identifier loaded)) [
      | inl had ↦ rw (y, had) (schedule-old client loaded rest had)
      | inr new ↦ rw (y, new) (schedule-new client loaded rest new)
    ]
    | inr n ↦ rw n
  ])

  pub needs_deployment-loaded : needs_deployment loaded ≡ needs_deployment pod
  needs_deployment-loaded =
      ap (λ b. b && not (has_identifier loaded)) (is_tracked-status pod (initial_status pod p))
      ∙ ap (λ b. is_tracked pod && not b) (has_identifier-status pod (initial_status pod p))

  pub convert-loaded :
      convert_to_workload loaded rest.node_name ≡ convert_to_workload pod p.node_name
  convert-loaded =
      convert-status pod (initial_status pod p) rest.node_name
      ∙ ap (convert_to_workload pod) (node_name-load_pending (key_for pod.meta) pod p)

  phase-staged : (staged client pod p).0.status.phase ≡ intended_phase client pod p
  phase-staged = rw staged-cases (
      ground (
        arith,
        needs_deployment-loaded,
        convert-loaded,
        phase-settle loaded (client (convert_to_workload loaded rest.node_name)),
        ap client convert-loaded,
      ))

  requests-staged : (staged client pod p).1.requests ≡ intended_requests pod p
  requests-staged = rw staged-cases (
      ground (
        arith,
        needs_deployment-loaded,
        ap create_workload convert-loaded,
        requests-load_pending (key_for pod.meta) pod p,
      ))

-- A successful CreatePod leaves the pod in the phase of the status cached for it, or in its own if
-- there is none; only where the agent was asked and failed, the phase is Failed. The agent is sent
-- one Create request exactly if the pod is tracked and has no workload identifier, and nothing
-- else. The notifier is set.
pub create_pod_effect {ℓ} :
    {U : Type ℓ} (client : Workload → Option WorkloadMeta) (now : ℕ) (self : U) (pod : Pod)
    (p : Provider) (t : Tracker U) {pod' : Pod} {p' : Provider} {t' : Tracker U}
    → p.notifier ≡ true
    → create_pod client now self pod p t ≡ ok (pod', p', t')
    → (pod'.status.phase ≡ intended_phase client pod p)
      × (p'.requests ≡ intended_requests pod p)
      × (p'.notifier ≡ true)
create_pod_effect client now self pod p t {pod'} {p'} {t'} h e =
    let same = sym (create_pod-ok client now self pod p t h) ∙ e in
    let on_pod : created client now pod p ≡ pod' = cc in
    let on_p : created_provider client now pod p ≡ p' = cc in
    (
      rw (← on_pod) (unfold change_phase in phase-staged client pod p),
      rw (← on_p) (requests-staged client pod p),
      rw (← on_p) (notifier-staged client pod p ∙ h),
    )

-- A pod keeps its identifier through the creation, and gets one from an answer of the agent.
identified-settle :
    (pod : Pod) (meta : WorkloadMeta) → has_identifier (settle pod (some meta)) ≡ true
unfolding has_identifier settle
identified-settle pod meta = ground (arith, lookup-apply_workload_meta_self meta pod)

has_identifier-change :
    (m : String) (now : ℕ) (pod : Pod) (phase : PodPhase)
    → has_identifier (with_message m (change_phase now pod phase)) ≡ has_identifier pod
unfolding has_identifier change_phase
has_identifier-change m now pod phase = refl

-- the identifier of the pod that a creation leaves, when the agent answered or was not needed
abbrev pub IsAnswered : (Workload → Option WorkloadMeta) → Pod → Provider → Type 0
IsAnswered client pod p =
    (meta : WorkloadMeta) × (client (convert_to_workload pod p.node_name) ≡ some meta)

pub has_identifier-staged :
    (client : Workload → Option WorkloadMeta) (pod : Pod) (p : Provider)
    → is_tracked pod ≡ true
    → IsAnswered client pod p
    → has_identifier (staged client pod p).0 ≡ true
has_identifier-staged client pod p tracked (meta, answered) =
    let still = is_tracked-status pod (initial_status pod p) ∙ tracked in
    rw (staged-cases client pod p) (elim (Bool-cases (has_identifier (loaded client pod p))) [
      | inl had ↦ rw (had, still) had
      | inr new ↦
          rw (new, still)
            (rw (convert-loaded client pod p)
              (rw answered (identified-settle (loaded client pod p) meta)))
    ])

-- A workload is submitted once: after a successful CreatePod of a tracked pod that the agent
-- answered, CreatePod of the resulting pod sends nothing, whatever the agent would answer.
pub create_pod_again {ℓ} :
    {U : Type ℓ} (client client' : Workload → Option WorkloadMeta) (now now' : ℕ) (self : U)
    (pod : Pod) (p : Provider) (t : Tracker U) {pod' pod'' : Pod} {p' p'' : Provider}
    {t' t'' : Tracker U}
    → p.notifier ≡ true
    → is_tracked pod ≡ true
    → IsAnswered client pod p
    → create_pod client now self pod p t ≡ ok (pod', p', t')
    → create_pod client' now' self pod' p' t' ≡ ok (pod'', p'', t'')
    → p''.requests ≡ p'.requests
create_pod_again client client' now now' self pod p t {pod'} {p'} {t'} h tracked answered first
      second =
    let same = sym (create_pod-ok client now self pod p t h) ∙ first in
    let on_pod : created client now pod p ≡ pod' = cc in
    let known : has_identifier pod' ≡ true = rw (← on_pod) (
      has_identifier-change "Supernetes workload was created" now (staged client pod p).0
        (staged client pod p).0.status.phase
      ∙ has_identifier-staged client pod p tracked answered) in
    let (_, requests, _) =
      create_pod_effect client' now' self pod' p' t'
        (create_pod_effect client now self pod p t h first).2 second in
    ground (arith, requests, known)
