-- ===== src/Agent/Scripts/JobNumbers.antt =====
-- Job numbers as sbatch writes them and as the agent reports them.
use mathlib.Core.List.{List}
use Prim.Native.String.{String, [], ◌∷◌}
use supernetes.Prelude.{
  ℕ, zero, suc, ◌+◌, ◌-◌, ◌<◌, Bool, false, some, ◌≡◌, ◌≢◌, refl, All, arith, true,
}
use supernetes.Prelude.Decimal.{decimal, IsDigit, decimal-IsDigit, decimal-ne-nil}
use supernetes.Prelude.Texts.{◌++◌, text_of}
use supernetes.Agent.Scripts.{is_digit, job_id}
use supernetes.Agent.Scripts.JobIds.{IsDigits, job_id-answer}

-- whether the first character of a text is a digit
abbrev text_is_digit : String → Bool
text_is_digit [] = false
text_is_digit (c ∷ s) = is_digit c

-- the text of one digit
digit-true : (k : ℕ) → k < 10 → text_is_digit (text_of (List.◌∷◌ (b'0' + k) List.[])) ≡ true
unfolding text_of is_digit
digit-true zero h = refl
digit-true (suc zero) h = refl
digit-true (suc (suc zero)) h = refl
digit-true (suc (suc (suc zero))) h = refl
digit-true (suc (suc (suc (suc zero)))) h = refl
digit-true (suc (suc (suc (suc (suc zero))))) h = refl
digit-true (suc (suc (suc (suc (suc (suc zero)))))) h = refl
digit-true (suc (suc (suc (suc (suc (suc (suc zero))))))) h = refl
digit-true (suc (suc (suc (suc (suc (suc (suc (suc zero)))))))) h = refl
digit-true (suc (suc (suc (suc (suc (suc (suc (suc (suc zero))))))))) h = refl
digit-true (suc (suc (suc (suc (suc (suc (suc (suc (suc (suc k)))))))))) h = absurd (omega arith)

text_of-IsDigits : (ds : List ℕ) → All IsDigit ds → IsDigits (text_of ds)
unfolding text_of
text_of-IsDigits List.[] h = tt
text_of-IsDigits (List.◌∷◌ d ds) h =
    let same : d ≡ b'0' + (d - b'0') = omega (arith, h.0) in
    (rw same (digit-true (d - b'0') (omega (arith, h.0))), text_of-IsDigits ds h.1)

text_of-ne-nil : (ds : List ℕ) → ds ≢ List.[] → text_of ds ≢ ""
unfolding text_of
text_of-ne-nil List.[] h e = h refl
text_of-ne-nil (List.◌∷◌ d ds) h e = cc e

-- The text of a number is read back from the answer of sbatch.
pub job_id-decimal :
    (n : ℕ)
    → job_id ("Submitted batch job " ++ (text_of (decimal n) ++ "\n")) ≡ some (text_of (decimal n))
job_id-decimal n =
    job_id-answer (text_of (decimal n)) (text_of-IsDigits (decimal n) (decimal-IsDigit n))
      (text_of-ne-nil (decimal n) (decimal-ne-nil n))
