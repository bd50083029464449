-- ===== src/Agent/Scontrol/Numbers.antt =====
-- Which numbers are read back from the output of scontrol.
use supernetes.Prelude.{
  true, false, ◌≡◌, refl, sym, ap, ◌∙◌, Option, none, some, if◌then◌else◌, Bool-cases, inl, inr,
}
use supernetes.Prelude.Floats.{Floats, IsIeee}
use supernetes.Agent.Scontrol.{Number, unmarshal_number, to_float}

module _ {F D : Type 0} (floats : Floats F D) (laws : IsIeee floats) where
  infinite-number : (x : F) → (if floats.is_inf x then floats.inf else x) ≡ x
  infinite-number x = elim (Bool-cases (floats.is_inf x)) [
    | inl y ↦ rw y (sym (laws.inf_unique x y))
    | inr n ↦ rw n refl
  ]

  -- A number of the output of scontrol that is written as a plain number is read back as it is,
  -- positive infinity included, if it is positive; zero and the negative numbers are read as NaN.
  -- One that is written with its fields is read as the fields say. IEEE 754 has one positive
  -- infinity, which is not negative.
  pub to_float-unmarshal_number :
      (x : F) (fields : Option (Number F)) (n : Number F)
      → ((y : F) → floats.is_positive y ≡ true → floats.is_negative y ≡ false)
      → (unmarshal_number floats (some x) fields ≡ some n
          → to_float floats n ≡ (if floats.is_positive x then x else floats.nan))
        × (unmarshal_number floats none fields ≡ some n → fields ≡ some n)
  unfolding unmarshal_number to_float
  to_float-unmarshal_number x fields n signs = (plain, λ e. e)
    where
      read : Number F
      read = record { set = floats.is_positive x; infinite = floats.is_inf x; number = x }

      of_some : {a b : Number F} → some a ≡ some b → a ≡ b
      of_some {a = a} {b = b} q = cc q

      plain :
          some read ≡ some n → to_float floats n ≡ (if floats.is_positive x then x else floats.nan)
      plain e = ap (to_float floats) (sym (of_some e)) ∙ elim (Bool-cases (floats.is_positive x)) [
        | inl y ↦ rw (y, signs x y) (infinite-number x)
        | inr not_set ↦ rw not_set refl
      ]
