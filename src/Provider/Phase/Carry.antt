-- ===== src/Provider/Phase/Carry.antt =====
-- What change_phase in phase.go carries over: the loop with its map against a search of the
-- previous statuses.
use supernetes.Prelude.{
  ℕ, String, ◌≡◌, refl, ap, fun_ext, Option, none, some, List, [], ◌∷◌, map, ◌==◌, string_eq,
  if◌then◌else◌, arith,
}
use supernetes.Prelude.Dict.{Dict, lookup, insert, lookup-insert}
use supernetes.Kube.{PodPhase, Container, ContainerStatus, Pod}
use supernetes.Provider.Phase.{
  Carried, carry, carry_all, carried_of, container_state, container_status, change_phase,
  is_running,
}

-- the last status of a name
unfoldable pub find_last : String → List ContainerStatus → Option ContainerStatus
find_last k [] = none
find_last k (s ∷ ss) = elim (find_last k ss) [
  | some t ↦ some t
  | none ↦ if s.name == k then some s else none
]

abbrev pub carry_or : Option Carried → Option ContainerStatus → Option Carried
carry_or old none = old
carry_or old (some s) = some (carry s)

pub lookup-carry_all :
    (k : String) (d : Dict String Carried) (ss : List ContainerStatus)
    → lookup k (carry_all d ss) ≡ carry_or (lookup k d) (find_last k ss)
unfolding carry_all find_last
lookup-carry_all k d [] = refl
lookup-carry_all k d (s ∷ ss) =
    ground
      (arith, lookup-carry_all k (insert s.name (carry s) d) ss, lookup-insert s.name k (carry s) d)

abbrev pub started : Option ContainerStatus → ℕ
started none = 0
started (some s) = elim s.state.running [ none ↦ 0 | some t ↦ t ]

abbrev pub restarts : Option ContainerStatus → ℕ
restarts none = 0
restarts (some s) = s.restart_count

-- The status of one container by a search of the previous statuses, with no map.
abbrev pub searched_status : ℕ → PodPhase → List ContainerStatus → Container → ContainerStatus
searched_status now phase old c = record {
  name = c.name;
  image = c.image;
  ready = is_running phase;
  restart_count = restarts (find_last c.name old);
  state = container_state now phase (started (find_last c.name old));
}

carried_of-started :
    (old : List ContainerStatus) (c : Container)
    → (carried_of (carry_all [] old) c).start_time ≡ started (find_last c.name old)
unfolding carried_of carry lookup
carried_of-started old c = ground (arith, lookup-carry_all c.name [] old)

carried_of-restarts :
    (old : List ContainerStatus) (c : Container)
    → (carried_of (carry_all [] old) c).restart_count ≡ restarts (find_last c.name old)
unfolding carried_of carry lookup
carried_of-restarts old c = ground (arith, lookup-carry_all c.name [] old)

container_status-eq-searched :
    (now : ℕ) (phase : PodPhase) (old : List ContainerStatus) (c : Container)
    → container_status now phase (carry_all [] old) c ≡ searched_status now phase old c
unfolding container_status
container_status-eq-searched now phase old c =
    rw (carried_of-started old c) (rw (carried_of-restarts old c))

-- Every container gets, in the order of the spec, a status with its name and image, ready exactly
-- while the pod runs, whose restart count and start time are those of the last previous status of
-- that name, or 0 where there is none.
pub change_phase-statuses :
    (now : ℕ) (pod : Pod) (phase : PodPhase)
    → (change_phase now pod phase).status.container_statuses
      ≡ map (searched_status now phase pod.status.container_statuses) pod.spec.containers
unfolding change_phase
change_phase-statuses now pod phase =
    ap (λ f. map f pod.spec.containers)
      (fun_ext (container_status-eq-searched now phase pod.status.container_statuses))
