-- ===== src/Examples/AgentRuns.antt =====
-- Runs of the agent.
use supernetes.Prelude.{
  ℕ, String, List, [], ◌∷◌, true, ◌≡◌, refl, Option, none, some, map, string_eq, arith, select,
}
use supernetes.Prelude.Dict.{Dict}
use supernetes.Agent.Filters.{Filter, match_partition, match_node}
use supernetes.Agent.Jobs.{Job, convert_to_api}
use supernetes.Agent.Nodes.{SlurmNode}
use supernetes.Agent.Server.{list}
use supernetes.Agent.Server.Listing.{list-jobs}
use supernetes.Agent.Scripts.{Environment}
use supernetes.Agent.LogFiles.{missing, contents, wanted, tail_f}
use supernetes.Agent.LogFiles.Follow.{tail_f-follow}

abbrev no_time : List ℕ → Option ℕ
no_time time = none

abbrev parse_nine : List ℕ → Option ℕ
parse_nine time = some 9

tail_f-follow_example :
    tail_f no_time [] 1 true (
      missing
      ∷ contents ((b'a' ∷ []) ∷ (b'b' ∷ []) ∷ []) true
      ∷ contents ((b'c' ∷ []) ∷ []) true
      ∷ [])
    ≡ (
      record { timestamp = 0; line = b'b' ∷ [] } ∷ record { timestamp = 0; line = b'c' ∷ [] } ∷ [],
      true,
    )
unfolding wanted
tail_f-follow_example =
    tail_f-follow no_time [] 1 1 ((b'a' ∷ []) ∷ (b'b' ∷ []) ∷ []) (((b'c' ∷ []) ∷ []) ∷ [])
      (omega arith)

abbrev environment : Environment
environment = record {
  account = "project";
  partition = "standard";
  output = "/io/%j.out";
  quote = λ s. s;
  agent_path = some "/bin/agent";
  encode = λ cs. some "";
}

abbrev script_options : Dict String String
script_options =
    ("job-name", "My Job")
    ∷ ("account", "project")
    ∷ ("partition", "standard")
    ∷ ("output", "/io/%j.out")
    ∷ ("time", "1:00")
    ∷ []

abbrev in_order : Dict String String → Dict String String
in_order d = d

abbrev script : String
script =
    "#!/bin/bash\n#SBATCH --job-name My Job\n#SBATCH --account project\n#SBATCH --partition standard\n#SBATCH --output /io/%j.out\n#SBATCH --time 1:00\nexec /bin/agent dispatch "

abbrev job : Job
job = record {
  job_id = 7;
  name = "j";
  partition = "standard";
  job_state = "R";
  nodes = "n1" ∷ [];
  start_time = 5;
}

abbrev standard_only : Option Filter
standard_only = some (record { partition_regex = λ p. true; node_regex = λ n. true })

list-jobs_example : list standard_only (λ w. true) (some (job ∷ [])) ≡ (
  map
      (convert_to_api (match_node standard_only))
      (select (λ j. match_partition standard_only j.partition) (job ∷ [])),
  true,
)
list-jobs_example = list-jobs standard_only (λ w. true) (job ∷ []) (λ w. refl)

abbrev slurm_node : SlurmNode
slurm_node = record {
  name = "n1";
  partitions = "standard" ∷ [];
  cpus = 4;
  real_memory = 8;
  alloc_memory = 4;
  free_bytes = 9000000;
  cpu_load = 0;
}
