-- ===== src/Prelude/Results.antt =====
-- A value or an error, as Go's functions with an error return it.
use Prim.Native.String.{String}
use mathlib.Core.Path.{◌≡◌, refl, ap}
use supernetes.Prelude.Texts

pub data Result {ℓ} (A : Type ℓ) : Type ℓ where
  ok : A → Result A
  failed : String → Result A

-- `if err != nil { return …, err }`
unfoldable pub and_then {ℓ κ} : {A : Type ℓ} {B : Type κ} → Result A → (A → Result B) → Result B
and_then (ok a) f = f a
and_then (failed err) f = failed err

-- `fmt.Errorf("…: %w", err)`
unfoldable pub wrap {ℓ} : {A : Type ℓ} → String → Result A → Result A
wrap message (ok a) = ok a
wrap message (failed err) = failed (Texts.◌++◌ message (Texts.◌++◌ ": " err))

pub and_then-ok {ℓ κ} :
    {A : Type ℓ} {B : Type κ} (r : Result A) {f : A → Result B} {b : B}
    → and_then r f ≡ ok b
    → (a : A) × (r ≡ ok a) × (f a ≡ ok b)
unfolding and_then
and_then-ok (ok a) e = (a, refl, e)
and_then-ok (failed err) e = absurd (cc e)

pub wrap-ok {ℓ} :
    {A : Type ℓ} (message : String) (r : Result A) {a : A} → wrap message r ≡ ok a → r ≡ ok a
unfolding wrap
wrap-ok message (ok b) e = e
wrap-ok message (failed err) e = absurd (cc e)

value_or {ℓ} : {A : Type ℓ} → A → Result A → A
value_or a (ok b) = b
value_or a (failed err) = a

pub ok-injective {ℓ} : {A : Type ℓ} {a b : A} → ok a ≡ ok b → a ≡ b
unfolding value_or
ok-injective {a = a} e = ap (value_or a) e
