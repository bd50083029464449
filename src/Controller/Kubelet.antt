-- ===== src/Controller/Kubelet.antt =====
-- controller/pkg/vk: the Virtual Kubelet instance of a node, and its HTTP server.
pub mod Starting
pub mod Server
pub mod Ready
pub mod Serving
use supernetes.Prelude.{
  ℕ, String, List, [], ◌∷◌, ◌++◌, Bool, true, false, Option, none, some, if◌then◌else◌, ◌==◌,
  string_eq,
}
use supernetes.Prelude.Dict.{Dict}
use supernetes.Kube.{Pod, NodeAddressType}
use supernetes.Provider.{Provider, Result, ok, missing, nil_call, new_pod_provider, update_status}
use supernetes.Controller.Nodes.{Node}
use supernetes.Controller.Environment.{Environment, address_of}

-- `corev1.NodeCondition`; a status that is not set is `false`, a time that is not set is 0.
pub record NodeCondition : Type 0 where
  pub kind : String
  pub status : Bool
  pub reason : String
  pub message : String
  pub last_heartbeat_time : ℕ
  pub last_transition_time : ℕ

pub data NodePhase : Type 0 where
  pending running : NodePhase

-- `corev1.Node`, as far as it is set; the integers of the capacity are 64-bit patterns.
pub record KubeNode : Type 0 where
  pub name : String
  pub labels : Dict String String
  pub taints : List String
  pub phase : NodePhase
  pub conditions : List NodeCondition
  pub cpu : ℕ
  pub memory : ℕ
  pub pods : ℕ
  pub addresses : List (NodeAddressType × String)
  pub daemon_port : ℕ

pub record Instance : Type 0 where
  pub node_spec : KubeNode
  pub pod_provider : Option Provider
  pub enable_kubelet_server : Bool
  pub disable_auth : Bool

unfoldable pub unset : String → NodeCondition
unset kind = record {
  kind = kind;
  status = false;
  reason = "";
  message = "";
  last_heartbeat_time = 0;
  last_transition_time = 0;
}

-- the internal address of the node, when the controller knows its own
unfoldable pub internal_address : Option String → List (NodeAddressType × String)
internal_address none = []
internal_address (some address) = (NodeAddressType.internal_ip, address) ∷ []

-- `show` is the method String of `netip.Addr`.
unfoldable pub new_instance : {A : Type 0} → (A → String) → Node → Environment A → Bool → Instance
unfolding unset internal_address address_of
new_instance show node env is_openshift =
    let address : Option String = elim (address_of env) [ none ↦ none | some a ↦ some (show a) ] in
    record {
      node_spec = record {
        name = node.name;
        labels =
            ("type", "virtual-kubelet")
            ∷ ("kubernetes.io/role", "supernetes")
            ∷ ("kubernetes.io/hostname", node.name)
            ∷ [];
        taints = "supernetes-node/no-schedule" ∷ [];
        phase = NodePhase.pending;
        conditions =
            unset "Ready"
            ∷ unset "DiskPressure"
            ∷ unset "MemoryPressure"
            ∷ unset "PIDPressure"
            ∷ unset "NetworkUnavailable"
            ∷ [];
        cpu = node.cpu_count;
        memory = node.mem_bytes;
        pods = 100;
        addresses = (NodeAddressType.hostname, node.name) ∷ internal_address address;
        daemon_port = 0;
      };
      pod_provider = none;
      enable_kubelet_server = elim address [ none ↦ false | some a ↦ true ];
      disable_auth = is_openshift;
    }

unfoldable pub now_ready : ℕ → NodeCondition → NodeCondition
now_ready now c = record c {
  message = "Kubelet is ready";
  reason = "KubeletReady";
  status = true;
  last_heartbeat_time = now;
  last_transition_time = now;
}

-- the loop of setReady, which stops at the first condition of the type `Ready`
unfoldable pub ready_conditions : ℕ → List NodeCondition → List NodeCondition
unfolding now_ready
ready_conditions now [] = []
ready_conditions now (c ∷ cs) =
    let rest = ready_conditions now cs in
    if c.kind == "Ready" then now_ready now c ∷ cs else c ∷ rest

unfoldable pub set_ready : ℕ → KubeNode → KubeNode
unfolding ready_conditions
set_ready now n = record n {
  phase = NodePhase.running;
  conditions = ready_conditions now n.conditions;
}

-- what Run does to the instance: each run has a provider of its own
unfoldable pub renew_provider : Instance → Instance
unfolding new_pod_provider
renew_provider i = record i { pod_provider = some (new_pod_provider i.node_spec.name) }

-- `UpdateStatus`: nothing happens while the instance has no provider.
unfoldable pub forward_status : ℕ → Pod → Bool → Instance → Result Instance
unfolding update_status
forward_status now pod cache i = elim i.pod_provider [
  | none ↦ ok i
  | some p ↦ elim (update_status now pod cache p) [
    | ok p' ↦ ok (record i { pod_provider = some p' })
    | missing key ↦ missing key
    | nil_call ↦ nil_call
  ]
]
