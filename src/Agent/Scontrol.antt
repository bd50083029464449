-- ===== src/Agent/Scontrol.antt =====
-- agent/pkg/scontrol, and the commands of agent/pkg/job, agent/pkg/node and agent/pkg/scancel: what
-- Slurm is asked, and what its answers are read as.
pub mod Numbers
pub mod Decoding
use mathlib.Core.Option
use supernetes.Prelude.{
  String, List, [], ◌∷◌, ◌++◌, Bool, true, false, Option, none, some, map, if◌then◌else◌, length,
  replicate, not,
}
use supernetes.Prelude.Results.{Result, ok, failed, and_then}
use supernetes.Prelude.Floats.{Floats}
use supernetes.Prelude.Decimal.{decimal}
use supernetes.Prelude.Texts
use supernetes.Api.{WorkloadMeta}

pub record Number (F : Type 0) : Type 0 where
  pub set : Bool
  pub infinite : Bool
  pub number : F

-- `Version`
pub record Version : Type 0 where
  pub major : String
  pub minor : String
  pub micro : String

module _ {F D : Type 0} (floats : Floats F D) where
  -- `Number.UnmarshalJSON`, given what the text is as a float32 and as the fields of a `Number`
  unfoldable pub unmarshal_number : Option F → Option (Number F) → Option (Number F)
  unmarshal_number (some x) fields =
      some (record { set = floats.is_positive x; infinite = floats.is_inf x; number = x })
  unmarshal_number none fields = fields

  unfoldable pub to_float : Number F → F
  to_float n =
      if n.set
      then (if n.infinite
          then (if floats.is_negative n.number then floats.negative_inf else floats.inf)
          else n.number)
      else floats.nan

-- `Version.UnmarshalJSON`, given what the text is with integer fields, already as texts, and with
-- string fields
unfoldable pub unmarshal_version : Option Version → Option Version → Option Version
unmarshal_version (some version) fields = some version
unmarshal_version none fields = fields

-- `errors.Join` of errors that may be nil: the texts of the others, one a line
unfoldable pub not_nil : List (Option String) → List String
not_nil [] = []
not_nil (none ∷ errs) = not_nil errs
not_nil (some err ∷ errs) = err ∷ not_nil errs

unfoldable pub join_lines : List String → String
join_lines [] = ""
join_lines (line ∷ []) = line
join_lines (line ∷ next ∷ lines) =
    let rest = join_lines (next ∷ lines) in Texts.◌++◌ line (Texts.◌++◌ "\n" rest)

unfoldable pub errors_join : List (Option String) → String
unfolding not_nil join_lines
errors_join errs = join_lines (not_nil errs)

-- What json.UnmarshalStrict makes of a text: the strict errors, the other error, and the value.
pub record Unmarshalled (T : Type 0) : Type 0 where
  pub strict_errs : List String
  pub err : Option String
  pub value : T

-- the loops over the errors and the warnings, which begin with as many zero values
unfoldable pub response_errs : List String → List (Option String)
response_errs errs = replicate (length errs) none ++ map some errs

unfoldable pub response_warns : List String → List String
response_warns warns = replicate (length warns) "" ++ warns

-- The errors and warnings of a value are given by their texts; `name` is the type, `%T`.
module _ {T : Type 0} (name : String) (errors warnings : T → List String) where
  unfoldable pub check_warnings : T → List String → Result T × List (List String)
  unfolding response_warns
  check_warnings value [] = (ok value, [])
  check_warnings value (w ∷ warns) = (ok value, response_warns (w ∷ warns) ∷ [])

  unfoldable pub check_errors : T → List String → Result T × List (List String)
  unfolding check_warnings response_errs errors_join
  check_errors value [] = check_warnings value (warnings value)
  check_errors value (e ∷ errs) =
      (failed (errors_join (some "errors in scontrol response" ∷ response_errs (e ∷ errs))), [])

  unfoldable pub fail_decode : Unmarshalled T → Result T × List (List String)
  unfolding errors_join
  fail_decode u = (
    failed (
        errors_join (
          some (Texts.◌++◌ "unable to decode JSON input into " name)
          ∷ u.err
          ∷ map some u.strict_errs)),
    [],
  )

  unfoldable pub decode_by :
      Unmarshalled T → Option String → List String → Result T × List (List String)
  unfolding fail_decode check_errors
  decode_by u none [] = check_errors u.value (errors u.value)
  decode_by u none (e ∷ errs) = fail_decode u
  decode_by u (some err) strict = fail_decode u

  -- `Decode`: the value or an error, and the warnings that are logged
  unfoldable pub decode : Unmarshalled T → Result T × List (List String)
  unfolding decode_by
  decode u = decode_by u u.err u.strict_errs

  -- `ReadJobData` and `ReadNodeData` for `entity` "job" and "node"; `scontrol` runs the command.
  module _ (scontrol : List String → Result String)
      (unmarshal_strict : String → Unmarshalled T) where
    unfoldable pub run_scontrol : List String → Result String
    run_scontrol args = scontrol ("--json" ∷ args)

    unfoldable pub read_args : String → Option String → List String
    read_args entity none = "show" ∷ entity ∷ []
    read_args entity (some id) = "show" ∷ entity ∷ id ∷ []

    unfoldable pub read_data : String → Option String → Result T
    unfolding run_scontrol read_args decode and_then
    read_data entity id =
        and_then (run_scontrol (read_args entity id)) (λ bytes. (decode (unmarshal_strict bytes)).0)

-- `scancel.Run`: the error of the command
unfoldable pub scancel : (List String → Option String) → WorkloadMeta → Option String
scancel command meta = command ("scancel" ∷ meta.identifier ∷ [])
