-- ===== src/Provider/Phase/Lifecycle.antt =====
-- The statuses that change_phase in phase.go gives a pod that runs and then ends.
use supernetes.Prelude.{ℕ, String, ◌≡◌, false, Option, none, some, List, string_eq, ◌⊎◌}
use supernetes.Kube.{PodPhase, Container, ContainerStatus, Terminated}
use supernetes.Provider.Phase.Carry.{find_last, restarts}

-- what the statuses of a running pod have in common
abbrev RunsSince : ℕ → (String → ℕ) → ContainerStatus → Type 0
RunsSince t count s = (s.state.running ≡ some t) × (s.restart_count ≡ count s.name)

abbrev IsFound : List ContainerStatus → Container → Type 0
IsFound ss c = (s : ContainerStatus) × (find_last c.name ss ≡ some s)

abbrev pub ended : ℕ → PodPhase → ℕ → Option Terminated
ended start PodPhase.succeeded now = some (record {
  exit_code = 0;
  reason = "Completed";
  message = "Supernetes workload terminated";
  started_at = start;
  finished_at = now;
})
ended start _ now = some (record {
  exit_code = 1;
  reason = "Error";
  message = "Supernetes workload terminated";
  started_at = start;
  finished_at = now;
})

abbrev pub IsFinal : PodPhase → Type 0
IsFinal phase = (phase ≡ PodPhase.succeeded) ⊎ (phase ≡ PodPhase.failed)

-- what is said of each status of the ended pod
abbrev pub EndedSince : ℕ → ℕ → PodPhase → List ContainerStatus → ContainerStatus → Type 0
EndedSince t1 t2 phase old s =
    (s.state.terminated ≡ ended t1 phase t2)
    × (s.state.running ≡ none)
    × (s.ready ≡ false)
    × (s.restart_count ≡ restarts (find_last s.name old))
