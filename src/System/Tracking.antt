-- ===== src/System/Tracking.antt =====
-- From the pod of a user to a batch job, and from the job back to the status of the pod: the pod
-- provider, the agent, the conversions of jobs and workloads, and the tracker together.
use supernetes.Prelude.{
  ℕ, String, List, [], ◌∷◌, Bool, true, false, ◌≡◌, refl, ◌∙◌, Option, none, some, string_eq,
  beq-cases, beq_refl, inl, inr,
}
use supernetes.Prelude.Decimal.{decimal}
use supernetes.Prelude.Dict.{Dict, lookup, lookup-insert}
use supernetes.Prelude.Texts.{◌++◌, text_of}
use supernetes.Labels.{label_workload_identifier}
use supernetes.Api.{WorkloadMeta, Workload}
use supernetes.Kube.{Pod, phase_eq}
use supernetes.Tracker.{Tracker, track, label_or_empty}
use supernetes.Tracker
use supernetes.Provider
use supernetes.Tracker.Laws.{update_status-track}
use supernetes.Provider.{Provider, ok, is_tracked, has_identifier, create_pod}
use supernetes.Provider.Phase.{change_phase}
use supernetes.Provider.Key.{key_eq, key_for}
use supernetes.Provider.Conversion.{convert_to_workload}
use supernetes.Provider.Frames.{staged, staged_tracker, key_for-staged, notifier-staged}
use supernetes.Provider.Views.{
  created, created_provider, create_pod-ok, refreshed, key_for-change, update_status-same,
  update_status-changed,
}
use supernetes.Provider.Deployment.{label-staged, tracker-staged}
use supernetes.Controller.Kinds.{Gvk, ObjectKinds, add_gvk}
use supernetes.Controller.Workloads.{
  TypedPod, workload_phase_to_pod_phase, convert_nodes, convert_to_pod, pod_of, convert_to_pods,
}
use supernetes.Controller.Workloads.Pods.{pod_labels-lookup, pods_from, convert_from-pods}
use supernetes.Agent.Jobs.{Job, parse_job_state, convert_to_api}
use supernetes.Agent.Scripts.{Environment, compose_script, run}
use supernetes.Agent.Scripts.JobNumbers.{job_id-decimal}
use supernetes.Agent.Server.{create}

-- the answer of sbatch for a job
abbrev pub answer_of : ℕ → String
answer_of n = "Submitted batch job " ++ (text_of (decimal n) ++ "\n")

-- The agent answers a Create request with the number of the job.
create-answer :
    (env : Environment) (order : Dict String String → Dict String String)
    (sbatch : String → Option String) (workload : Workload) (script : String) (n : ℕ)
    → compose_script env order workload ≡ some script
    → sbatch script ≡ some (answer_of n)
    → create env order sbatch workload
      ≡ some (record workload.meta { identifier = text_of (decimal n) })
unfolding create run
create-answer env order sbatch workload script n composed answered =
    rw (composed, answered, job_id-decimal n, create, run) refl

module _ (kinds : ObjectKinds) (gvk : Gvk) (workload : Workload) where
  primary_label :
      (place : Option String) (index : ℕ)
      → (label_or_empty label_workload_identifier (pod_of workload place index)
          ≡ workload.meta.identifier)
        × ((pod_of workload place index).status.phase
            ≡ workload_phase_to_pod_phase workload.status.phase)
  unfolding pod_of label_or_empty
  primary_label place index = (rw ((pod_labels-lookup workload).0, label_or_empty) refl, refl)

  -- the first pod of a workload
  abbrev pub IsPrimary : List String → TypedPod → Type 0
  IsPrimary nodes primary =
      (rest : List TypedPod) × (convert_nodes kinds workload nodes ≡ some (primary ∷ rest))
      × (label_or_empty label_workload_identifier primary.pod ≡ workload.meta.identifier)
      × (primary.pod.status.phase ≡ workload_phase_to_pod_phase workload.status.phase)

  convert-IsPrimary :
      (nodes : List String)
      → add_gvk kinds ≡ some gvk
      → (primary : TypedPod) × IsPrimary nodes primary
  unfolding convert_nodes convert_to_pod
  convert-IsPrimary [] h = (
    record { gvk = gvk; pod = pod_of workload none 0 },
    ([], rw h refl, (primary_label none 0).0, refl),
  )
  convert-IsPrimary (node ∷ nodes) h = (
    record { gvk = gvk; pod = pod_of workload (some node) 0 },
    (
      pods_from gvk workload 1 nodes,
      convert_from-pods kinds gvk workload 0 (node ∷ nodes) h,
      (primary_label (some node) 0).0,
      refl,
    ),
  )

-- a status update for a pod that is stored: afterwards the stored pod has the reported phase
arrives :
    (now : ℕ) (q pod : Pod) (p : Provider)
    → p.notifier ≡ true
    → lookup (key_for q.meta) p.pods ≡ some pod
    → (p' : Provider) × (pod' : Pod) × (Provider.update_status now q false p ≡ ok p')
      × (lookup (key_for q.meta) p'.pods ≡ some pod')
      × (pod'.status.phase ≡ q.status.phase)
arrives now q pod p notifier there = elim (beq-cases pod.status.phase q.status.phase) [
  | inl (_, e) ↦ (p, pod, update_status-same now q false p pod there e, there, e)
  | inr (_, differs) ↦ (
    _,
    refreshed now q false p pod,
    update_status-changed now q false p pod notifier there differs,
    lookup-insert (key_for q.meta) (key_for q.meta) (refreshed now q false p pod) p.pods
        ∙ rw (beq_refl (key_for q.meta)) refl,
    unfold change_phase in refl,
  )
]

-- the effect of a reported status on the provider
module _ {ℓ} {U : Type ℓ} (client : Workload → Option WorkloadMeta) (now now' : ℕ) (self : U)
    (pod : Pod) (p : Provider) (t : Tracker U) (meta : WorkloadMeta) (notifier : p.notifier ≡ true)
    (tracked : is_tracked pod ≡ true) (new : has_identifier pod ≡ false)
    (answered : client (convert_to_workload pod p.node_name) ≡ some meta) where
  forwarded :
      {R : Type ℓ} (update : U → Pod → Bool → R) (idle : R) (q : Pod) (cache : Bool)
      → label_or_empty label_workload_identifier q ≡ meta.identifier
      → Tracker.update_status update idle q cache (staged_tracker client self pod p t)
        ≡ update self (record q { meta = (staged client pod p).0.meta }) cache
  forwarded update idle q cache labelled =
      let is_its : label_or_empty label_workload_identifier (staged client pod p).0
          ≡ meta.identifier =
        label-staged client pod p meta (rw (tracked, new) refl) answered in
      rw (
        tracker-staged client pod p meta self t tracked new answered,
        update_status-track update idle (staged client pod p).0 q self cache t,
        is_its,
        labelled,
        beq_refl meta.identifier,
      )

  stored :
      lookup (key_for (staged client pod p).0.meta) (created_provider client now pod p).pods
      ≡ some (created client now pod p)
  stored =
      lookup-insert (key_for pod.meta) (key_for (staged client pod p).0.meta)
        (created client now pod p) (staged client pod p).1.pods
      ∙ rw (key_for-staged client pod p, beq_refl (key_for pod.meta)) refl

-- what the pod of a user becomes once its job has been reported as `j`
abbrev pub ReportsStatus {ℓ} :
    {U : Type ℓ}
    → (Workload → Option WorkloadMeta)
    → ObjectKinds
    → (String → Bool)
    → ℕ
    → ℕ
    → U
    → Pod
    → Provider
    → Tracker U
    → Job
    → Type ℓ
ReportsStatus {U = U} client kinds node_filter now now' self pod p t j =
    (pod' : Pod) × (p' : Provider) × (t' : Tracker U) × (primary : TypedPod) × (rest : List
      TypedPod)
    × (update : Pod) × (p'' : Provider) × (pod'' : Pod) × (create_pod client now self pod p t
        ≡ ok (pod', p', t'))
    × (convert_to_pods kinds (convert_to_api node_filter j) ≡ some (primary ∷ rest))
    × (Tracker.update_status {R = Option (U × Pod × Bool)} (λ u q cache. some (u, q, cache)) none
          primary.pod false t'
        ≡ some (self, update, false))
    × (Provider.update_status now' update false p' ≡ ok p'')
    × (lookup (key_for pod'.meta) p''.pods ≡ some pod'')
    × (pod''.status.phase ≡ workload_phase_to_pod_phase (parse_job_state j.job_state))

-- A tracked pod without an identifier is created on an agent whose sbatch accepts the script and
-- prints the job number of `j`. Then CreatePod succeeds; the workload that the agent lists for
-- the job converts to pods; the tracker sends the status of the first of them to the provider of
-- the pod; and after that update the pod that the provider stores has the phase of the job's
-- state. The notifier is set, and the scheme knows one kind for pods.
pub create_pod-update_status {ℓ} :
    {U : Type ℓ} (env : Environment) (order : Dict String String → Dict String String)
    (sbatch : String → Option String) (kinds : ObjectKinds) (gvk : Gvk)
    (node_filter : String → Bool) (now now' : ℕ) (self : U) (pod : Pod) (p : Provider)
    (t : Tracker U) (j : Job) (script : String)
    → p.notifier ≡ true
    → is_tracked pod ≡ true
    → has_identifier pod ≡ false
    → compose_script env order (convert_to_workload pod p.node_name) ≡ some script
    → sbatch script ≡ some (answer_of j.job_id)
    → add_gvk kinds ≡ some gvk
    → ReportsStatus (create env order sbatch) kinds node_filter now now' self pod p t j
unfolding convert_to_api
create_pod-update_status env order sbatch kinds gvk node_filter now now' self pod p t j script
      notifier tracked new composed submitted scheme =
    let client = create env order sbatch in
    let workload = convert_to_workload pod p.node_name in
    let meta : WorkloadMeta = record workload.meta { identifier = text_of (decimal j.job_id) } in
    let answered = create-answer env order sbatch workload script j.job_id composed submitted in
    let (primary, (rest, converted, labelled, phase)) =
      convert-IsPrimary kinds gvk (convert_to_api node_filter j)
        (convert_to_api node_filter j).status.nodes scheme in
    let update : Pod = record primary.pod { meta = (staged client pod p).0.meta } in
    let (p'', pod'', updated, present, changed) =
      arrives now' update (created client now pod p) (created_provider client now pod p)
        (notifier-staged client pod p ∙ notifier)
        (stored client now now' self pod p t meta notifier tracked new answered) in
    (
      created client now pod p,
      created_provider client now pod p,
      staged_tracker client self pod p t,
      primary,
      rest,
      update,
      p'',
      pod'',
      create_pod-ok client now self pod p t notifier,
      unfold convert_to_pods in converted,
      forwarded client now now' self pod p t meta notifier tracked new answered
          (λ u q cache. some (u, q, cache)) none primary.pod false labelled,
      updated,
      rw (key_for-change now (staged client pod p).0 (staged client pod p).0.status.phase) present,
      changed ∙ phase,
    )
