-- ===== src/Provider/Invariant.antt =====
-- provider.go: every pod is stored under its own key, and a status is cached only for a pod that
-- is not there. The notifier is set, as NotifyPods is called first.
use supernetes.Prelude.{
  ℕ, String, [], ◌∷◌, ◌++◌, Bool, true, ◌≡◌, refl, Option, none, some, arith, string_eq, beq-cases,
  Option-cases, inl, inr, ap, ◌∙◌,
}
use supernetes.Prelude.Dict.{lookup, insert, delete, lookup-insert, lookup-delete, has}
use supernetes.Api.{WorkloadMeta, Workload}
use supernetes.Kube.{phase_eq, PodStatus, Pod}
use supernetes.Tracker.{Tracker}
use supernetes.Provider.{
  Provider, ok, create_pod, delete_pod, update_pod, update_status, with_message, new_pod_provider,
  notify_pods, put_and_notify, cache_status,
}
use supernetes.Provider.Phase.{change_phase}
use supernetes.Provider.Key.{PodKey, key_eq, key_for}
use supernetes.Provider.Frames.{
  staged, key_for-staged, pods-staged, notifier-staged, pending-staged,
}
use supernetes.Provider.Views.{
  created, created_provider, create_pod-ok, key_for-change, cached_view, cached_frame,
  update_status-same, update_status-absent, update_status-changed, refreshed,
}

pub record IsValid (p : Provider) : Type 0 where
  pub ready : p.notifier ≡ true
  pub at_key : (k : PodKey) (pod : Pod) → lookup k p.pods ≡ some pod → key_for pod.meta ≡ k
  pub absent :
      (k : PodKey) (s : PodStatus) → lookup k p.pending_status ≡ some s → lookup k p.pods ≡ none

-- Storing a pod under its key, when no status is cached for that key.
put-IsValid :
    (key : PodKey) (pod : Pod) (p : Provider)
    → key_for pod.meta ≡ key
    → lookup key p.pending_status ≡ none
    → IsValid p
    → IsValid (record p { pods = insert key pod p.pods; notified = p.notified ++ pod ∷ [] })
put-IsValid key pod p same none_cached v = record {
  ready = v.ready;
  at_key = λ k q e. ground (arith, lookup-insert key k pod p.pods, beq-cases key k, v.at_key k q);
  absent = λ k s e. ground (arith, lookup-insert key k pod p.pods, beq-cases key k, v.absent k s);
}

staged-IsValid :
    (client : Workload → Option WorkloadMeta) (pod : Pod) (p : Provider)
    → IsValid p
    → IsValid (staged client pod p).1
staged-IsValid client pod p v = record {
  ready = notifier-staged client pod p ∙ v.ready;
  at_key = rw (pods-staged client pod p) v.at_key;
  absent = rw (pods-staged client pod p) (λ k s e.
      ground (arith, pending-staged client pod p k, beq-cases (key_for pod.meta) k, v.absent k s));
}

created-IsValid :
    (client : Workload → Option WorkloadMeta) (now : ℕ) (pod : Pod) (p : Provider)
    → IsValid p
    → IsValid (created_provider client now pod p)
created-IsValid client now pod p v =
    put-IsValid (key_for pod.meta) (created client now pod p) (staged client pod p).1
      (key_for-change now (staged client pod p).0 (staged client pod p).0.status.phase
        ∙ key_for-staged client pod p)
      (ground (
        arith,
        pending-staged client pod p (key_for pod.meta),
        beq-cases (key_for pod.meta) (key_for pod.meta),
      ))
      (staged-IsValid client pod p v)

delete-IsValid :
    (key : PodKey) (p p' : Provider)
    → p'.pods ≡ delete key p.pods
    → p'.pending_status ≡ p.pending_status
    → p'.notifier ≡ p.notifier
    → IsValid p
    → IsValid p'
delete-IsValid key p p' pods pending notifier v = record {
  ready = notifier ∙ v.ready;
  at_key = λ k q e. ground (arith, ap (lookup k) pods, lookup-delete key k p.pods, v.at_key k q);
  absent = λ k s e.
      ground (
        arith,
        ap (lookup k) pods,
        ap (lookup k) pending,
        lookup-delete key k p.pods,
        v.absent k s,
      );
}

cached-IsValid :
    (now : ℕ) (updated : Pod) (cache : Bool) (p : Provider)
    → lookup (key_for updated.meta) p.pods ≡ none
    → IsValid p
    → IsValid (cache_status (key_for updated.meta) updated.status cache p)
cached-IsValid now updated cache p gone v =
    let frame = (cached_frame now updated cache p).0 in
    record {
      ready = notifier_kept;
      at_key = λ k q e. ground (arith, ap (lookup k) frame, v.at_key k q);
      absent = λ k s e. ground (
        arith,
        ap (lookup k) frame,
        cached_view now updated cache p k,
        beq-cases (key_for updated.meta) k,
        v.absent k s,
      );
    }
  where
    notifier_kept : (cache_status (key_for updated.meta) updated.status cache p).notifier ≡ true
    notifier_kept = unfold cache_status in ground (arith, v.ready)

-- the pod that UpdatePod stores
abbrev touched : ℕ → Pod → Pod
touched now pod =
    with_message "Supernetes workload was updated" (change_phase now pod pod.status.phase)

update_pod-ok :
    (now : ℕ) (pod : Pod) (p : Provider)
    → p.notifier ≡ true
    → update_pod now pod p
      ≡ ok (record p {
        pods = insert (key_for pod.meta) (touched now pod) p.pods;
        notified = p.notified ++ touched now pod ∷ [];
      })
unfolding update_pod
update_pod-ok now pod p h = rw (h, put_and_notify)

none_cached :
    (key : PodKey) (p : Provider)
    → IsValid p
    → has key p.pods ≡ true
    → lookup key p.pending_status ≡ none
none_cached key p v known = elim (Option-cases (lookup key p.pending_status)) [
  | inl none_there ↦ none_there
  | inr (s, cached) ↦ unfold has in ground (arith, v.absent key s cached)
]

deleted-IsValid {ℓ} :
    {U : Type ℓ} (now : ℕ) (pod : Pod) (p : Provider) (t : Tracker U) {pod' : Pod} {p' : Provider}
    {t' : Tracker U}
    → delete_pod now pod p t ≡ ok (pod', p', t')
    → IsValid p
    → IsValid p'
deleted-IsValid now pod p t {p' = p'} e v =
    delete-IsValid (key_for pod.meta) p p' fields.0 fields.1 fields.2 v
  where
    fields :
        (p'.pods ≡ delete (key_for pod.meta) p.pods)
        × (p'.pending_status ≡ p.pending_status)
        × (p'.notifier ≡ p.notifier)
    fields = unfold delete_pod in ground (arith, v.ready)

reported-IsValid :
    (now : ℕ) (updated : Pod) (cache : Bool) (p : Provider) {p' : Provider}
    → update_status now updated cache p ≡ ok p'
    → IsValid p
    → IsValid p'
reported-IsValid now updated cache p {p'} e v =
    elim (Option-cases (lookup (key_for updated.meta) p.pods)) [
      | inl gone ↦
          let same : cache_status (key_for updated.meta) updated.status cache p ≡ p' =
            cc (update_status-absent now updated cache p gone, e) in
          rw (← same) (cached-IsValid now updated cache p gone v)
      | inr (pod, found) ↦ elim (beq-cases pod.status.phase updated.status.phase) [
        | inl (_, same) ↦
            let kept : p ≡ p' = cc (update_status-same now updated cache p pod found same, e) in
            rw (← kept) v
        | inr (_, differs) ↦
            let known : has (key_for updated.meta) p.pods ≡ true =
              unfold has in ground (arith, found) in
            let same : record p {
              pods = insert (key_for updated.meta) (refreshed now updated cache p pod) p.pods;
              notified = p.notified ++ refreshed now updated cache p pod ∷ [];
            }
                ≡ p' =
              cc (update_status-changed now updated cache p pod v.ready found differs, e) in
            rw (← same) (
              put-IsValid (key_for updated.meta) (refreshed now updated cache p pod) p
                (key_for-change now (record pod { status = updated.status }) updated.status.phase
                  ∙ v.at_key (key_for updated.meta) pod found)
                (none_cached (key_for updated.meta) p v known) v)
      ]
    ]

-- One call of the provider that returns without an error. Virtual Kubelet updates only pods that
-- the provider has.
pub data Step {ℓ} (U : Type ℓ) (p p' : Provider) : Type ℓ where
  creates :
      (client : Workload → Option WorkloadMeta) (now : ℕ) (self : U) (pod : Pod) (t : Tracker U)
      {pod' : Pod} {t' : Tracker U}
      → create_pod client now self pod p t ≡ ok (pod', p', t')
      → Step U p p'
  updates :
      (now : ℕ) (pod : Pod)
      → has (key_for pod.meta) p.pods ≡ true
      → update_pod now pod p ≡ ok p'
      → Step U p p'
  deletes :
      (now : ℕ) (pod : Pod) (t : Tracker U) {pod' : Pod} {t' : Tracker U}
      → delete_pod now pod p t ≡ ok (pod', p', t')
      → Step U p p'
  reports :
      (now : ℕ) (updated : Pod) (cache : Bool)
      → update_status now updated cache p ≡ ok p'
      → Step U p p'

pub data Reach {ℓ} (U : Type ℓ) (p : Provider) : Provider → Type ℓ where
  here : Reach U p p
  next : {q r : Provider} → Reach U p q → Step U q r → Reach U p r

Step-IsValid {ℓ} : {U : Type ℓ} {p p' : Provider} → Step U p p' → IsValid p → IsValid p'
Step-IsValid {p} {p'} (creates client now self pod t e) v =
    let same : created_provider client now pod p ≡ p' =
      cc (create_pod-ok client now self pod p t v.ready, e) in
    rw (← same) (created-IsValid client now pod p v)
Step-IsValid {p} {p'} (updates now pod known e) v =
    let same : record p {
      pods = insert (key_for pod.meta) (touched now pod) p.pods;
      notified = p.notified ++ touched now pod ∷ [];
    }
        ≡ p' =
      cc (update_pod-ok now pod p v.ready, e) in
    rw (← same) (
      put-IsValid (key_for pod.meta) (touched now pod) p (key_for-change now pod pod.status.phase)
        (none_cached (key_for pod.meta) p v known) v)
Step-IsValid {p} (deletes now pod t e) v = deleted-IsValid now pod p t e v
Step-IsValid {p} (reports now updated cache e) v = reported-IsValid now updated cache p e v

-- From a new provider whose notifier is set, every sequence of successful calls in which UpdatePod
-- is called only for pods that are there keeps each pod under its own key and caches statuses only
-- for pods that are not there.
pub Reach-IsValid {ℓ} :
    (U : Type ℓ) (node : String) {p : Provider}
    → Reach U (notify_pods (new_pod_provider node)) p
    → IsValid p
Reach-IsValid U node here =
    unfold notify_pods new_pod_provider lookup in
    record { ready = refl; at_key = λ k pod e. cc; absent = λ k s e. refl }
Reach-IsValid U node (next r s) = Step-IsValid s (Reach-IsValid U node r)
