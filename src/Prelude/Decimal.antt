-- ===== src/Prelude/Decimal.antt =====
-- Decimal digits: strconv.Itoa and the verb %d on numbers that are not negative.
use Prim.Native.Nat.{ℕ, zero, suc, ◌+◌, ◌*◌, ◌/◌, ◌%◌, ◌≤◌, ◌<◌, ◌-◌}
use mathlib.Core.Path.{◌≡◌, refl, sym, ap, ◌∙◌}
use mathlib.Core.Logic.{◌≢◌, inl, inr}
use mathlib.Core.List.{List, [], ◌∷◌, ◌++◌}
use native.Mathlib.Omega.{arith}
use supernetes.Prelude.Tests.{ltb, if◌then◌else◌, Bool-cases}
use supernetes.Prelude.Lists.{All, All-append}

-- the digits of a number; the fuel is more than the number of digits
decimal_fuel : ℕ → ℕ → List ℕ
decimal_fuel zero n = []
decimal_fuel (suc f) n =
    let front = decimal_fuel f (n / 10) in
    if ltb n 10 then (b'0' + n) ∷ [] else front ++ (b'0' + n % 10) ∷ []

unfoldable pub decimal : ℕ → List ℕ
unfolding decimal_fuel
decimal n = decimal_fuel (suc n) n

-- the number that digits stand for
abbrev pub value_from : ℕ → List ℕ → ℕ
value_from acc [] = acc
value_from acc (d ∷ ds) = value_from (acc * 10 + (d - b'0')) ds

value_from-concat :
    (acc : ℕ) (ds : List ℕ) (d : ℕ)
    → value_from acc (ds ++ d ∷ []) ≡ value_from acc ds * 10 + (d - b'0')
value_from-concat acc [] d = refl
value_from-concat acc (x ∷ ds) d = value_from-concat (acc * 10 + (x - b'0')) ds d

value-decimal_fuel : (f n : ℕ) → n < f → value_from 0 (decimal_fuel f n) ≡ n
unfolding decimal_fuel
value-decimal_fuel zero n h = absurd (omega arith)
value-decimal_fuel (suc f) n h = elim (Bool-cases (ltb n 10)) [
  | inl y ↦ rw y (omega arith)
  | inr more ↦ rw more (
      rw (value_from-concat 0 (decimal_fuel f (n / 10)) (b'0' + n % 10))
        (ground (arith, value-decimal_fuel f (n / 10))))
]

concat-ne-nil : (ds : List ℕ) (d : ℕ) → (ds ++ d ∷ []) ≢ []
concat-ne-nil [] d e = cc e
concat-ne-nil (x ∷ ds) d e = cc e

-- A number has a digit.
pub decimal-ne-nil : (n : ℕ) → decimal n ≢ []
unfolding decimal decimal_fuel
decimal-ne-nil n = elim (Bool-cases (ltb n 10)) [
  | inl y ↦ rw y (λ e. cc e)
  | inr more ↦ rw more (concat-ne-nil (decimal_fuel n (n / 10)) (b'0' + n % 10))
]

-- Digits determine their number.
pub decimal-injective : (m n : ℕ) → decimal m ≡ decimal n → m ≡ n
unfolding decimal
decimal-injective m n e =
    sym (value-decimal_fuel (suc m) m (omega arith))
    ∙ ap (value_from 0) e
    ∙ value-decimal_fuel (suc n) n (omega arith)

abbrev pub IsDigit : ℕ → Type 0
IsDigit d = (b'0' ≤ d) × (d ≤ b'9')

decimal_fuel-IsDigit : (f n : ℕ) → All IsDigit (decimal_fuel f n)
unfolding decimal_fuel
decimal_fuel-IsDigit zero n = tt
decimal_fuel-IsDigit (suc f) n = elim (Bool-cases (ltb n 10)) [
  | inl y ↦ rw y (ground arith)
  | inr more ↦ rw more (
      All-append IsDigit (decimal_fuel f (n / 10)) ((b'0' + n % 10) ∷ [])
        (decimal_fuel-IsDigit f (n / 10)) (omega arith))
]

pub decimal-IsDigit : (n : ℕ) → All IsDigit (decimal n)
unfolding decimal
decimal-IsDigit n = decimal_fuel-IsDigit (suc n) n
