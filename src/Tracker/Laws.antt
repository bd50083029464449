-- ===== src/Tracker/Laws.antt =====
-- tracker.go: a status update reaches the updater that tracked its workload last.
use supernetes.Prelude.{
  String, Bool, ◌≡◌, ◌==◌, string_eq, if◌then◌else◌, Option, none, some, true, false, ap, ◌∙◌, refl,
}
use supernetes.Prelude.Dict.{lookup, lookup-insert, lookup-delete}
use supernetes.Labels.{label_workload_identifier}
use supernetes.Kube.{Pod}
use supernetes.Tracker.{Tracked, Tracker, label_or_empty, track, untrack, forward, update_status}

abbrev pub identifier : Pod → String
identifier pod = label_or_empty label_workload_identifier pod

module _ {ℓ κ} {U : Type ℓ} {R : Type κ} (update : U → Pod → Bool → R) (idle : R) where
  forward-if :
      (q : Pod) (cache : Bool) (b : Bool) (o o' : Option (Tracked U))
      → forward update idle q cache (if b then o else o')
        ≡ (if b then forward update idle q cache o else forward update idle q cache o')
  forward-if q cache true o o' = refl
  forward-if q cache false o o' = refl

  pub update_status-track :
      (pod q : Pod) (u : U) (cache : Bool) (t : Tracker U)
      → update_status update idle q cache (track pod u t) ≡ (
          if identifier pod == identifier q
          then update u (record q { meta = pod.meta }) cache
          else update_status update idle q cache t)
  unfolding update_status track
  update_status-track pod q u cache t =
      ap (forward update idle q cache) (
        lookup-insert (identifier pod) (identifier q)
          (record { meta = pod.meta; status_updater = u }) t)
      ∙ forward-if q cache (identifier pod == identifier q)
          (some (record { meta = pod.meta; status_updater = u })) (lookup (identifier q) t)

  -- After a pod is untracked, an update of its workload does nothing, and any other update goes
  -- where it went before.
  update_status-untrack :
      (pod q : Pod) (cache : Bool) (t : Tracker U)
      → update_status update idle q cache (untrack pod t)
        ≡ (if identifier pod == identifier q then idle else update_status update idle q cache t)
  unfolding update_status untrack
  update_status-untrack pod q cache t =
      ap (forward update idle q cache) (lookup-delete (identifier pod) (identifier q) t)
      ∙ forward-if q cache (identifier pod == identifier q) none (lookup (identifier q) t)
