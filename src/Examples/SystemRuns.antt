-- ===== src/Examples/SystemRuns.antt =====
-- Runs of the whole system.
use supernetes.Prelude.{ℕ, String, [], ◌∷◌, true, false, refl, Option, some, string_eq}
use supernetes.Agent.Jobs.{Job}
use supernetes.Agent.Scripts.{Environment, compose_script, options}
use supernetes.Agent.Server.{create}
use supernetes.Controller.Kinds.{Gvk, add_gvk}
use supernetes.Provider.{is_tracked, has_identifier}
use supernetes.Provider.Conversion.{convert_to_workload}
use supernetes.Tracker.{Tracker}
use supernetes.System.Tracking.{answer_of, ReportsStatus, create_pod-update_status}
use supernetes.Examples.{fresh_pod, empty_provider}

abbrev agent_environment : Environment
agent_environment = record {
  account = "project";
  partition = "standard";
  output = "/io/%j.out";
  quote = λ s. s;
  agent_path = some "/bin/agent";
  encode = λ cs. some "";
}

abbrev running_job : Job
running_job = record {
  job_id = 42;
  name = "web";
  partition = "standard";
  job_state = "RUNNING";
  nodes = "n1" ∷ [];
  start_time = 5;
}

abbrev v1_pod : Gvk
v1_pod = record { group = ""; version = "v1"; kind = "Pod" }

abbrev untracked : Tracker ℕ
untracked = []

abbrev sbatch : String → Option String
sbatch script = some (answer_of 42)

create_pod-update_status_example :
    ReportsStatus
      (create agent_environment (λ d. d) sbatch)
      (some (v1_pod ∷ [], false))
      (λ n. true)
      1
      2
      0
      fresh_pod
      empty_provider
      untracked
      running_job
unfolding is_tracked has_identifier compose_script options convert_to_workload
create_pod-update_status_example =
    create_pod-update_status agent_environment (λ d. d) sbatch (some (v1_pod ∷ [], false)) v1_pod
      (λ n. true) 1 2 0 fresh_pod empty_provider untracked running_job _ refl refl refl refl refl
      (unfold add_gvk in refl)
