-- ===== src/Provider/Phase.antt =====
-- controller/pkg/provider/phase.go: the status that a pod gets when its phase changes.
pub mod Carry
pub mod Lifecycle
use supernetes.Prelude.{ℕ, String, Bool, true, none, some, List, [], ◌∷◌, map, ◌==◌, string_eq}
use supernetes.Prelude.Dict.{Dict, lookup, insert}
use supernetes.Kube.{
  PodPhase, phase_eq, Container, ContainerState, ContainerStatus, ConditionType, PodCondition, Pod,
}

unfoldable pub is_running : PodPhase → Bool
is_running phase = phase == PodPhase.running

-- the four conditions, in the order of the source
unfoldable pub phase_conditions : PodPhase → List PodCondition
unfolding is_running
phase_conditions phase =
    record { type = ConditionType.containers_ready; status = is_running phase }
    ∷ record { type = ConditionType.initialized; status = true }
    ∷ record { type = ConditionType.pod_ready; status = is_running phase }
    ∷ record { type = ConditionType.pod_scheduled; status = true }
    ∷ []

-- the local type `containerStatus`
pub record Carried : Type 0 where
  pub start_time : ℕ
  pub restart_count : ℕ

unfoldable pub carry : ContainerStatus → Carried
carry s = record {
  start_time = elim s.state.running [ none ↦ 0 | some t ↦ t ];
  restart_count = s.restart_count;
}

-- the loop that fills `containerStatuses`; a later status of a name replaces an earlier one
unfoldable pub carry_all : Dict String Carried → List ContainerStatus → Dict String Carried
unfolding carry insert
carry_all d [] = d
carry_all d (s ∷ ss) = carry_all (insert s.name (carry s) d) ss

abbrev no_state : ContainerState
no_state = record { waiting = none; running = none; terminated = none }

unfoldable pub container_state : ℕ → PodPhase → ℕ → ContainerState
container_state now PodPhase.pending start = record no_state {
  waiting = some (record { reason = "Pending"; message = "Supernetes workload pending" });
}
container_state now PodPhase.running start = record no_state { running = some now }
container_state now PodPhase.succeeded start = record no_state {
  terminated = some (record {
    exit_code = 0;
    reason = "Completed";
    message = "Supernetes workload terminated";
    started_at = start;
    finished_at = now;
  });
}
container_state now PodPhase.failed start = record no_state {
  terminated = some (record {
    exit_code = 1;
    reason = "Error";
    message = "Supernetes workload terminated";
    started_at = start;
    finished_at = now;
  });
}
container_state now PodPhase.unset start = no_state
container_state now PodPhase.unknown start = no_state

-- `startTime` and `RestartCount` keep their zero values where no status is found.
unfoldable pub carried_of : Dict String Carried → Container → Carried
unfolding lookup
carried_of d c = elim (lookup c.name d) [
  | none ↦ record { start_time = 0; restart_count = 0 }
  | some s ↦ s
]

-- the body of the loop over `pod.Spec.Containers`
unfoldable pub container_status : ℕ → PodPhase → Dict String Carried → Container → ContainerStatus
unfolding is_running container_state carried_of
container_status now phase d c = record {
  name = c.name;
  image = c.image;
  ready = is_running phase;
  restart_count = (carried_of d c).restart_count;
  state = container_state now phase (carried_of d c).start_time;
}

unfoldable pub change_phase : ℕ → Pod → PodPhase → Pod
unfolding phase_conditions carry_all container_status
change_phase now pod phase = record pod {
  status = record pod.status {
    phase = phase;
    conditions = phase_conditions phase;
    container_statuses =
        map (container_status now phase (carry_all [] pod.status.container_statuses))
          pod.spec.containers;
  };
}
