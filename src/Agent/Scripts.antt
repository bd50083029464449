-- ===== src/Agent/Scripts.antt =====
-- agent/pkg/sbatch/sbatch.go: the batch script of a workload, and the answer of sbatch.
pub mod Options
pub mod JobIds
pub mod JobNumbers
use supernetes.Prelude.{
  ℕ, List, Bool, true, false, ◌&&◌, Option, none, some, map, leb, nat_beq, if◌then◌else◌, string_eq,
  ◌==◌,
}
use mathlib.Core.Option
use mathlib.Core.List
use Prim.Native.Char.{Char, code}
use supernetes.Prelude.Dict.{Dict, insert, delete, has}
use supernetes.Prelude.Texts.{◌++◌, join, comma, strip_prefix}
use Prim.Native.String.{String, [], ◌∷◌}
use supernetes.Api.{Workload, WorkloadContainer}

-- `SlurmConfig` and what the environment of the agent provides: the joined path of the output
-- files, `strconv.Quote`, the path of the agent and the encoded containers.
pub record Environment : Type 0 where
  pub account : String
  pub partition : String
  pub output : String
  pub quote : String → String
  pub agent_path : Option String
  pub encode : List WorkloadContainer → Option String

-- the options that the agent sets itself
unfoldable pub managed_options : Environment → Workload → Dict String String
unfolding join
managed_options env workload =
    List.◌∷◌ ("job-name", workload.meta.name)
      (List.◌∷◌ ("account", env.account)
        (List.◌∷◌ ("partition", env.partition)
          (List.◌∷◌ ("output", env.output)
            (List.◌∷◌ ("nodelist", join comma workload.spec.node_names) List.[]))))

-- the loop over the options of the job; nothing when one of them is managed by the agent
unfoldable pub extra_options :
    Dict String String → Dict String String → Dict String String → Option (Dict String String)
unfolding has insert
extra_options managed extra List.[] = some extra
extra_options managed extra (List.◌∷◌ (option, value) options) =
    let rest = extra_options managed (insert option value extra) options in
    if has option managed then none else rest

unfoldable pub without_empty_nodelist : List String → Dict String String → Dict String String
unfolding delete
without_empty_nodelist List.[] managed = delete "nodelist" managed
without_empty_nodelist (List.◌∷◌ node nodes) managed = managed

-- `maps.Copy(dst, src)`
unfoldable pub copy_options : Dict String String → Dict String String → Dict String String
unfolding insert
copy_options List.[] dst = dst
copy_options (List.◌∷◌ (option, value) src) dst = copy_options src (insert option value dst)

-- the options of the script
unfoldable pub options : Environment → Workload → Option (Dict String String)
unfolding managed_options extra_options without_empty_nodelist copy_options
options env workload =
    let managed = managed_options env workload in
    Option.map
      (λ extra. copy_options extra (without_empty_nodelist workload.spec.node_names managed))
      (extra_options managed List.[] workload.spec.job_options)

unfoldable pub option_lines : Environment → Dict String String → String
option_lines env List.[] = ""
option_lines env (List.◌∷◌ (option, value) rest) =
    "#SBATCH --" ++ (option ++ (" " ++ (env.quote value ++ ("\n" ++ option_lines env rest))))

-- composeScript; `order` is the order in which Go happens to visit the map of the options.
unfoldable pub compose_script :
    Environment → (Dict String String → Dict String String) → Workload → Option String
unfolding options option_lines
compose_script env order workload = elim (options env workload) [
  | none ↦ none
  | some opts ↦ elim env.agent_path [
    | none ↦ none
    | some path ↦ elim (env.encode workload.spec.containers) [
      | none ↦ none
      | some containers ↦ some (
          "#!/bin/bash\n"
          ++ (option_lines env (order opts)
              ++ ("exec " ++ (env.quote path ++ (" dispatch " ++ containers)))))
    ]
  ]
]

-- `\d`
unfoldable pub is_digit : Char → Bool
is_digit c = (leb b'0' (code c)) && (leb (code c) b'9')

-- `(\d+)\n$`, from the first digit on: the digits before the newline at the end
unfoldable pub digits_line : String → Option String
digits_line [] = none
digits_line (c ∷ s) =
    let rest = digits_line s in
    if is_digit c
    then Option.map (λ ds. c ∷ ds) rest
    else if nat_beq (code c) b'\n' && (s == "")
    then some ""
    else none

-- `\d+` has at least one digit.
unfoldable pub non_empty : Option String → Option String
non_empty none = none
non_empty (some []) = none
non_empty (some (c ∷ s)) = some (c ∷ s)

-- the match of `jobIdRegex`
unfoldable pub job_id : String → Option String
unfolding is_digit digits_line non_empty strip_prefix
job_id stdout = elim (strip_prefix "Submitted batch job " stdout) [
  | none ↦ none
  | some rest ↦ non_empty (digits_line rest)
]

-- `runtime.Run`; `sbatch` is what the command writes for a script, nothing when it fails.
unfoldable pub run :
    Environment
    → (Dict String String → Dict String String)
    → (String → Option String)
    → Workload
    → Option String
unfolding compose_script job_id
run env order sbatch workload = elim (compose_script env order workload) [
  | none ↦ none
  | some script ↦ elim (sbatch script) [ none ↦ none | some stdout ↦ job_id stdout ]
]
