-- ===== src/Agent/Scripts/JobIds.antt =====
-- The job identifier in the answer of sbatch.
use mathlib.Core.Option
use Prim.Native.Char.{Char}
use Prim.Native.String.{String, [], ◌∷◌}
use supernetes.Prelude.{true, ◌≡◌, ◌≢◌, refl, ap, ◌∙◌, some, string_eq}
use text.Mathlib.TextLemmas.{cons-append}
use supernetes.Prelude.Texts.{◌++◌, strip_prefix-append}
use supernetes.Agent.Scripts.{is_digit, digits_line, job_id}

-- ASCII digits only
abbrev pub IsDigits : String → Type 0
IsDigits [] = Unit
IsDigits (c ∷ s) = (is_digit c ≡ true) × IsDigits s

digits_line-digit :
    (c : Char) (s : String)
    → is_digit c ≡ true
    → digits_line (c ∷ s) ≡ Option.map (λ ds. c ∷ ds) (digits_line s)
unfolding digits_line
digits_line-digit c s h = rw h refl

digits_line-newline : (ds : String) → IsDigits ds → digits_line (ds ++ "\n") ≡ some ds
unfolding digits_line
digits_line-newline [] h = unfold is_digit in refl
digits_line-newline (c ∷ ds) h = rw (cons-append c ds "\n") (
    digits_line-digit c (ds ++ "\n") h.0
    ∙ ap (Option.map (λ s. c ∷ s)) (digits_line-newline ds h.1))

-- The identifier in an answer of sbatch that has the expected form is found: it is one digit or
-- more, and a newline ends the answer.
pub job_id-answer :
    (ds : String)
    → IsDigits ds
    → ds ≢ ""
    → job_id ("Submitted batch job " ++ (ds ++ "\n")) ≡ some ds
unfolding job_id
job_id-answer [] h some_digit = absurd (some_digit refl)
job_id-answer (c ∷ ds) h some_digit =
    rw
      (
        strip_prefix-append "Submitted batch job " ((c ∷ ds) ++ "\n"),
        digits_line-newline (c ∷ ds) h,
        job_id,
      )
      refl
