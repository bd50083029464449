-- ===== src/Kube.antt =====
-- The parts of the Kubernetes objects that the controller reads and writes. A time is a number
-- of seconds, and 0 is the zero `metav1.Time`.
use supernetes.Prelude.{ℕ, String, Bool, ◌≡◌, ◌↔◌, Option, List, Eq, nat_beq, arith}
use supernetes.Prelude.Dict.{Dict}

-- `corev1.PodPhase`; `unset` is the empty string.
pub data PodPhase : Type 0 where
  unset pending running succeeded failed unknown : PodPhase

abbrev phase_index : PodPhase → ℕ
phase_index PodPhase.unset = 0
phase_index PodPhase.pending = 1
phase_index PodPhase.running = 2
phase_index PodPhase.succeeded = 3
phase_index PodPhase.failed = 4
phase_index PodPhase.unknown = 5

abbrev pub phase_beq : PodPhase → PodPhase → Bool
phase_beq p q = nat_beq (phase_index p) (phase_index q)

pub phase_beq_iff : (p q : PodPhase) → (phase_beq p q ≡ Bool.true) ↔ (p ≡ q)
phase_beq_iff p q = ground arith

instance abbrev pub phase_eq : Eq PodPhase
phase_eq = record { test = phase_beq; test_iff = phase_beq_iff }

-- `metav1.ObjectMeta`; a nil label map reads as an empty one.
pub record ObjectMeta : Type 0 where
  pub name : String
  pub namespace : String
  pub labels : Dict String String

pub record Container : Type 0 where
  pub name : String
  pub image : String
  pub command : List String
  pub args : List String

pub record Waiting : Type 0 where
  pub reason : String
  pub message : String

pub record Terminated : Type 0 where
  pub exit_code : ℕ
  pub reason : String
  pub message : String
  pub started_at : ℕ
  pub finished_at : ℕ

-- `corev1.ContainerState`; `running` holds its `StartedAt`.
pub record ContainerState : Type 0 where
  pub waiting : Option Waiting
  pub running : Option ℕ
  pub terminated : Option Terminated

pub record ContainerStatus : Type 0 where
  pub name : String
  pub image : String
  pub ready : Bool
  pub restart_count : ℕ
  pub state : ContainerState

pub data ConditionType : Type 0 where
  containers_ready initialized pod_ready pod_scheduled : ConditionType

pub record PodCondition : Type 0 where
  pub type : ConditionType
  pub status : Bool

pub record PodStatus : Type 0 where
  pub phase : PodPhase
  pub message : String
  pub start_time : ℕ
  pub conditions : List PodCondition
  pub container_statuses : List ContainerStatus

pub record PodSpec : Type 0 where
  pub node_name : String
  pub containers : List Container
  pub scheduling_gates : List String

pub record Pod : Type 0 where
  pub meta : ObjectMeta
  pub spec : PodSpec
  pub status : PodStatus

-- `corev1.NodeAddressType`; `other` is any other string.
pub data NodeAddressType : Type 0 where
  hostname internal_ip external_ip internal_dns external_dns other : NodeAddressType
