-- ===== src/Examples/FloatRuns.antt =====
-- Runs of the output of scontrol and of the metrics, over a small kind of floating point number.
use supernetes.Prelude.{
  ℕ, ◌+◌, ◌*◌, ◌/◌, String, List, [], ◌∷◌, Bool, true, false, ◌≡◌, refl, none, ltb, if◌then◌else◌,
}
use supernetes.Prelude.Results.{ok}
use supernetes.Prelude.Floats.{Floats, IsIeee}
use supernetes.Agent.Scontrol.{
  Number, Unmarshalled, unmarshal_number, to_float, decode, response_warns, not_nil,
}
use supernetes.Agent.Scontrol.Decoding.{decode-judged}
use supernetes.Agent.Scontrol.Numbers.{to_float-unmarshal_number}
use supernetes.Controller.Metrics.{Sample, new_metrics_provider, cpu_metric}
use supernetes.Controller.Metrics.Integral.{run, reported_load, run-nan}

data Value : Type 0 where
  not_a_number infinity minus_infinity : Value
  finite : ℕ → Value

abbrev times : Value → Value → Value
times not_a_number y = not_a_number
times infinity y = infinity
times minus_infinity y = minus_infinity
times (finite a) not_a_number = not_a_number
times (finite a) infinity = infinity
times (finite a) minus_infinity = minus_infinity
times (finite a) (finite b) = finite (a * b)

abbrev plus : Value → Value → Value
plus not_a_number y = not_a_number
plus infinity not_a_number = not_a_number
plus infinity infinity = infinity
plus infinity minus_infinity = not_a_number
plus infinity (finite b) = infinity
plus minus_infinity not_a_number = not_a_number
plus minus_infinity infinity = not_a_number
plus minus_infinity minus_infinity = minus_infinity
plus minus_infinity (finite b) = minus_infinity
plus (finite a) not_a_number = not_a_number
plus (finite a) infinity = infinity
plus (finite a) minus_infinity = minus_infinity
plus (finite a) (finite b) = finite (a + b)

abbrev is_nan : Value → Bool
is_nan not_a_number = true
is_nan infinity = false
is_nan minus_infinity = false
is_nan (finite a) = false

abbrev is_inf : Value → Bool
is_inf not_a_number = false
is_inf infinity = true
is_inf minus_infinity = false
is_inf (finite a) = false

abbrev is_positive : Value → Bool
is_positive not_a_number = false
is_positive infinity = true
is_positive minus_infinity = false
is_positive (finite a) = ltb 0 a

abbrev is_negative : Value → Bool
is_negative not_a_number = false
is_negative infinity = false
is_negative minus_infinity = true
is_negative (finite a) = false

abbrev hundredth : Value → Value
hundredth not_a_number = not_a_number
hundredth infinity = infinity
hundredth minus_infinity = minus_infinity
hundredth (finite a) = finite (a / 100)

abbrev values : Floats Value Value
values = record {
  nan = not_a_number;
  inf = infinity;
  negative_inf = minus_infinity;
  is_positive = is_positive;
  is_negative = is_negative;
  is_inf = is_inf;
  hundredth = hundredth;
  nought = finite 0;
  add = plus;
  mul = times;
  widen = λ x. x;
  of_uint = finite;
  seconds = λ d. finite (d / 1000000000);
  is_nan = is_nan;
}

one_infinity : (x : Value) → is_inf x ≡ true → x ≡ infinity
one_infinity not_a_number h = absurd (cc h)
one_infinity infinity h = refl
one_infinity minus_infinity h = absurd (cc h)
one_infinity (finite a) h = absurd (cc h)

nan_times : (x y : Value) → is_nan x ≡ true → is_nan (times x y) ≡ true
nan_times not_a_number y h = refl
nan_times infinity y h = absurd (cc h)
nan_times minus_infinity y h = absurd (cc h)
nan_times (finite a) y h = absurd (cc h)

nan_plus_left : (x y : Value) → is_nan x ≡ true → is_nan (plus x y) ≡ true
nan_plus_left not_a_number y h = refl
nan_plus_left infinity y h = absurd (cc h)
nan_plus_left minus_infinity y h = absurd (cc h)
nan_plus_left (finite a) y h = absurd (cc h)

nan_plus_right : (x y : Value) → is_nan y ≡ true → is_nan (plus x y) ≡ true
nan_plus_right not_a_number y h = refl
nan_plus_right infinity not_a_number h = refl
nan_plus_right minus_infinity not_a_number h = refl
nan_plus_right (finite a) not_a_number h = refl
nan_plus_right x infinity h = absurd (cc h)
nan_plus_right x minus_infinity h = absurd (cc h)
nan_plus_right x (finite b) h = absurd (cc h)

values-IsIeee : IsIeee values
values-IsIeee = record {
  inf_unique = one_infinity;
  nan_widen = refl;
  nan_mul = nan_times;
  nan_add_left = nan_plus_left;
  nan_add_right = nan_plus_right;
}

not_both : (x : Value) → is_positive x ≡ true → is_negative x ≡ false
not_both not_a_number h = absurd (cc h)
not_both infinity h = refl
not_both minus_infinity h = absurd (cc h)
not_both (finite a) h = refl

-- the number 5, and the load 0 of an idle node
abbrev five : Number Value
five = record { set = true; infinite = false; number = finite 5 }

abbrev idle_load : Number Value
idle_load = record { set = false; infinite = false; number = finite 0 }

to_float-unmarshal_number_example :
    to_float values five ≡ (if is_positive (finite 5) then finite 5 else not_a_number)
unfolding unmarshal_number
to_float-unmarshal_number_example =
    (to_float-unmarshal_number values values-IsIeee (finite 5) none five not_both).0 refl

abbrev sample : Sample Value
sample = record { cpu_load = finite 300; ws_bytes = 4096 }

run-nan_example :
    is_nan
      (cpu_metric values (
        run values values-IsIeee
          ((1000, record { cpu_load = reported_load values values-IsIeee idle_load; ws_bytes = 7 })
            ∷ (2000, sample)
            ∷ (3000, sample)
            ∷ [])
          (new_metrics_provider values (finite 0)))).value
    ≡ true
unfolding unmarshal_number
run-nan_example =
    run-nan values values-IsIeee (finite 0) none idle_load 1000 2000 7 sample ((3000, sample) ∷ [])
      (new_metrics_provider values (finite 0)) refl refl

-- an answer with a warning, which is accepted
abbrev warned : Unmarshalled (List String)
warned = record { strict_errs = []; err = none; value = "slow" ∷ [] }

decode-judged_example :
    decode "Data" (λ v. []) (λ v. v) warned ≡ (ok ("slow" ∷ []), ("" ∷ "slow" ∷ []) ∷ [])
unfolding response_warns not_nil
decode-judged_example = decode-judged "Data" (λ v. []) (λ v. v) warned
