-- ===== src/Agent/Dispatch.antt =====
-- agent/pkg/dispatch: running the containers of a workload inside its job.
pub mod ExitCodes
pub mod Output
use supernetes.Prelude.{ℕ, max, String, List, [], ◌∷◌, ◌++◌, Bool, true, false, Option, none, some}
use supernetes.Prelude.Texts.{scoped}
use supernetes.Api.{WorkloadContainer}

abbrev docker_url : String → String
docker_url image = scoped "docker:/" image

-- what exec.LookPath returns
pub data Lookup : Type 0 where
  found : String → Lookup
  not_found other_error : Lookup

-- the loop of containerRuntime; nothing where it ends in log.Fatal
unfoldable pub find_runtime : (String → Lookup) → List String → Option String
find_runtime look_path [] = none
find_runtime look_path (runtime ∷ runtimes) = elim (look_path runtime) [
  | Lookup.found path ↦ some path
  | Lookup.not_found ↦ find_runtime look_path runtimes
  | Lookup.other_error ↦ none
]

unfoldable pub container_runtime : (String → Lookup) → Option String
unfolding find_runtime
container_runtime look_path = find_runtime look_path ("singularity" ∷ "apptainer" ∷ [])

unfoldable pub subcommand : List String → String
subcommand [] = "run"
subcommand (c ∷ cs) = "exec"

-- the arguments of the container runtime; the lists that Go appends are copied.
unfoldable pub runtime_args : WorkloadContainer → List String
unfolding subcommand
runtime_args container =
    subcommand container.command
    ∷ "--compat"
    ∷ docker_url container.image
    ∷ (container.command ++ container.args)

-- the line that is written for a line of a container, less its newline; the timestamp is
-- `time.Now().Format(time.RFC3339)`.
unfoldable pub format_line : List ℕ → List ℕ → List ℕ → List ℕ
format_line timestamp name line = timestamp ++ (b' ' ∷ (name ++ (b' ' ∷ line)))

-- how a container ends; the exit code of one that a signal ends is -1
pub data Exit : Type 0 where
  success signalled : Exit
  exited : ℕ → Exit
  other_failure : Exit

-- The code is only compared by `max` with one that is not negative, so that 0 stands for -1.
unfoldable pub exit_code : Exit → ℕ
exit_code Exit.success = 0
exit_code Exit.signalled = 0
exit_code (Exit.exited code) = code
exit_code Exit.other_failure = 1

-- the exit code of the job, from those of its containers in the order they arrive
unfoldable pub highest : ℕ → List Exit → ℕ
unfolding exit_code
highest code [] = code
highest code (e ∷ es) = highest (max code (exit_code e)) es
