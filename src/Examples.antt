-- ===== src/Examples.antt =====
-- Concrete runs: every property at an input where its conditions hold.
mod ProviderRuns
mod LogRuns
mod ControllerRuns
mod AgentRuns
mod GarbageRuns
mod SystemRuns
mod KubeletRuns
mod ConfigRuns
mod StreamRuns
mod JobRuns
mod FloatRuns
use supernetes.Prelude.{ℕ, String, List, [], ◌∷◌, Bool, true, Option, some}
use supernetes.Prelude.Dict.{Dict}
use supernetes.Api.{WorkloadMeta, Workload, WorkloadPhase}
use supernetes.Kube.{PodPhase, PodStatus, Pod}
use supernetes.Provider.{Provider}
use supernetes.Provider.Key.{key_for}

abbrev pub status_of : PodPhase → PodStatus
status_of phase = record {
  phase = phase;
  message = "";
  start_time = 5;
  conditions = [];
  container_statuses = [];
}

abbrev pub pod_with : Dict String String → PodPhase → Pod
pod_with labels phase = record {
  meta = record { name = "web"; namespace = "default"; labels = labels };
  spec = record {
    node_name = "node-1";
    containers = record { name = "main"; image = "alpine"; command = []; args = [] } ∷ [];
    scheduling_gates = [];
  };
  status = status_of phase;
}

abbrev pub fresh_pod : Pod
fresh_pod = pod_with (("supernetes-extra/owner", "ada") ∷ []) PodPhase.pending

abbrev pub known_pod : Pod
known_pod = pod_with (("supernetes-workload/idenfitier", "7") ∷ []) PodPhase.running

abbrev pub empty_provider : Provider
empty_provider = record {
  pods = [];
  pending_status = [];
  node_name = "node-1";
  notifier = true;
  notified = [];
  requests = [];
}

abbrev pub provider_of : Pod → Provider
provider_of pod = record empty_provider { pods = (key_for pod.meta, pod) ∷ [] }

abbrev pub answer : WorkloadMeta
answer = record { name = "web"; identifier = "7"; extra = [] }

abbrev pub client : Workload → Option WorkloadMeta
client workload = some answer

abbrev pub workload_on : List String → Workload
workload_on nodes = record {
  meta = record { name = "My Job"; identifier = "42"; extra = ("job-state", "RUNNING") ∷ [] };
  spec = record { containers = []; node_names = nodes; job_options = ("time", "1:00") ∷ [] };
  status = record { phase = WorkloadPhase.running; start_time = 5; nodes = nodes };
}
