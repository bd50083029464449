-- ===== src/Agent/Jobs.antt =====
-- agent/pkg/job: the jobs that Slurm reports, as workloads.
use supernetes.Prelude.{
  ℕ, String, List, [], ◌∷◌, Bool, ◌||◌, Option, none, some, ◌==◌, string_eq, if◌then◌else◌, select,
}
use supernetes.Prelude.Texts.{text_of}
use supernetes.Prelude.Decimal.{decimal}
use supernetes.Api.{Workload, WorkloadPhase}

-- The parts of a `Job` that the agent reads; `nodes` are the `Nodename`s of its
-- `JobResources.AllocatedNodes`, and `start_time` is the whole part of `StartTime.Number`.
pub record Job : Type 0 where
  pub job_id : ℕ
  pub name : String
  pub partition : String
  pub job_state : String
  pub nodes : List String
  pub start_time : ℕ

-- a case of the switch
abbrev is_case : String → String → String → Bool
is_case state short long = (state == short) || (state == long)

unfoldable pub parse_job_state : String → WorkloadPhase
parse_job_state s =
    if is_case s "BF" "BOOT_FAIL"
    then WorkloadPhase.failed
    else if is_case s "CA" "CANCELLED"
    then WorkloadPhase.failed
    else if is_case s "CD" "COMPLETED"
    then WorkloadPhase.succeeded
    else if is_case s "CF" "CONFIGURING"
    then WorkloadPhase.pending
    else if is_case s "CG" "COMPLETING"
    then WorkloadPhase.running
    else if is_case s "DL" "DEADLINE"
    then WorkloadPhase.failed
    else if is_case s "F" "FAILED"
    then WorkloadPhase.failed
    else if is_case s "NF" "NODE_FAIL"
    then WorkloadPhase.failed
    else if is_case s "OOM" "OUT_OF_MEMORY"
    then WorkloadPhase.failed
    else if is_case s "PD" "PENDING"
    then WorkloadPhase.pending
    else if is_case s "PR" "PREEMPTED"
    then WorkloadPhase.failed
    else if is_case s "R" "RUNNING"
    then WorkloadPhase.running
    else if is_case s "RD" "RESV_DEL_HOLD"
    then WorkloadPhase.pending
    else if is_case s "RF" "REQUEUE_FED"
    then WorkloadPhase.pending
    else if is_case s "RH" "REQUEUE_HOLD"
    then WorkloadPhase.pending
    else if is_case s "RQ" "REQUEUED"
    then WorkloadPhase.pending
    else if is_case s "RS" "RESIZING"
    then WorkloadPhase.pending
    else if is_case s "RV" "REVOKED"
    then WorkloadPhase.unknown
    else if is_case s "SI" "SIGNALING"
    then WorkloadPhase.pending
    else if is_case s "SE" "SPECIAL_EXIT"
    then WorkloadPhase.succeeded
    else if is_case s "SO" "STAGE_OUT"
    then WorkloadPhase.pending
    else if is_case s "ST" "STOPPED"
    then WorkloadPhase.pending
    else if is_case s "S" "SUSPENDED"
    then WorkloadPhase.pending
    else if is_case s "TO" "TIMEOUT"
    then WorkloadPhase.failed
    else WorkloadPhase.unknown

-- `JobState.UnmarshalJSON`, given what the text is as a string and as an array of strings
unfoldable pub unmarshal_job_state : Option String → Option (List String) → Option String
unmarshal_job_state (some state) states = some state
unmarshal_job_state none none = none
unmarshal_job_state none (some []) = some ""
unmarshal_job_state none (some (state ∷ states)) = some state

-- `ConvertToApi`; the specification is left at its zero value.
unfoldable pub convert_to_api : (String → Bool) → Job → Workload
unfolding parse_job_state text_of decimal
convert_to_api node_filter j = record {
  meta = record {
    name = j.name;
    identifier = text_of (decimal j.job_id);
    extra = ("job-state", j.job_state) ∷ [];
  };
  spec = record { containers = []; node_names = []; job_options = [] };
  status = record {
    phase = parse_job_state j.job_state;
    start_time = j.start_time;
    nodes = select node_filter j.nodes;
  };
}
