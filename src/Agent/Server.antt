-- ===== src/Agent/Server.antt =====
-- workloadServer of agent/pkg/server/workload.go, apart from the tailing of log files.
pub mod Listing
pub mod Streaming
pub mod Answer
use supernetes.Prelude.{
  String, List, [], ◌∷◌, Bool, true, false, Option, none, some, ◌==◌, string_eq, if◌then◌else◌,
}
use supernetes.Prelude.Dict.{Dict}
use supernetes.Prelude.Texts.{◌++◌, strip_prefix}
use supernetes.Api.{Workload, WorkloadMeta}
use supernetes.Agent.Filters.{Filter, match_partition, match_node}
use supernetes.Agent.Scontrol.{scancel}
use supernetes.Prelude.Results.{Result, failed}
use supernetes.Agent.Jobs.{Job, convert_to_api}
use supernetes.Agent.Scripts.{Environment, run}

-- `Create`: the metadata with the identifier of the job
unfoldable pub create :
    Environment
    → (Dict String String → Dict String String)
    → (String → Option String)
    → Workload
    → Option WorkloadMeta
unfolding run
create env order sbatch workload = elim (run env order sbatch workload) [
  | none ↦ none
  | some job_id ↦ some (record workload.meta { identifier = job_id })
]

-- the loop of List over the jobs: the workloads sent, and whether all of them could be; `send` is
-- whether `Send` returns no error.
unfoldable pub send_jobs : Option Filter → (Workload → Bool) → List Job → List Workload × Bool
unfolding match_partition match_node convert_to_api
send_jobs filter send [] = ([], true)
send_jobs filter send (j ∷ jobs) =
    let rest = send_jobs filter send jobs in
    let workload = convert_to_api (match_node filter) j in
    if match_partition filter j.partition
    then (if send workload then (workload ∷ rest.0, rest.1) else ([], false))
    else rest

-- `List`, given what ReadJobData returns
unfoldable pub list : Option Filter → (Workload → Bool) → Option (List Job) → List Workload × Bool
unfolding send_jobs
list filter send none = ([], false)
list filter send (some jobs) = send_jobs filter send jobs

-- The path that Logs opens, nothing where the request is refused. `join` is path.Join.
unfoldable pub log_path : (String → String → String) → String → String → Option String
unfolding strip_prefix
log_path join io_dir identifier =
    let path = join io_dir (identifier ++ ".out") in
    if identifier == ""
    then none
    else elim (strip_prefix io_dir path) [ none ↦ none | some rest ↦ some path ]

-- `Update`, `Get` and `GetStatus`, for the name of the method
unfoldable pub unimplemented {ℓ} : {A : Type ℓ} → String → Result A
unimplemented method = failed ("method " ++ method ++ " not implemented")

-- `Delete`: the error of scancel; the reply is always nil.
unfoldable pub delete : (List String → Option String) → WorkloadMeta → Option String
unfolding scancel
delete command workload = scancel command workload
