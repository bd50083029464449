-- ===== src/Prelude/Texts/Trim.antt =====
-- strings.TrimPrefix
use Prim.Native.Char.{Char, code}
use Prim.Native.String.{String, [], ◌∷◌, ◌++◌, count}
use mathlib.Core.Path.{◌≡◌, ap, ap₂, sym}
use mathlib.Core.Option.{Option, none, some}
use native.Mathlib.Omega.{arith}
use text.Mathlib.TextEquality.{Char-path}
use text.Mathlib.TextLemmas.{
  cons-append, nil-append, length-append, length-cons, append_cancel_left,
}
use supernetes.Prelude.Tests.{nat_beq, if◌then◌else◌, Bool-cases}
use supernetes.Prelude.Equality.{nat_beq_iff}
use mathlib.Core.Logic.{◌≢◌, inl, inr}

unfoldable pub strip_prefix : String → String → Option String
strip_prefix [] s = some s
strip_prefix (a ∷ p) [] = none
strip_prefix (a ∷ p) (b ∷ s) = if nat_beq (code a) (code b) then strip_prefix p s else none

-- strings.TrimPrefix(s, p)
unfoldable pub trim_prefix : String → String → String
unfolding strip_prefix
trim_prefix s p = elim (strip_prefix p s) [ none ↦ s | some t ↦ t ]

pub strip_prefix-append : (p s : String) → strip_prefix p (p ++ s) ≡ some s
unfolding strip_prefix
strip_prefix-append [] s = rw nil-append
strip_prefix-append (a ∷ p) s = rw cons-append (ground (arith, strip_prefix-append p s))

pub eq_of_strip_prefix : (p s t : String) → strip_prefix p s ≡ some t → s ≡ p ++ t
unfolding strip_prefix
eq_of_strip_prefix [] s t h = rw nil-append (ground arith)
eq_of_strip_prefix (a ∷ p) [] t h = cc
eq_of_strip_prefix (a ∷ p) (b ∷ s) t h = elim (Bool-cases (nat_beq (code a) (code b))) [
  | inl e ↦ rw cons-append (
      ap₂ ◌∷◌ (Char-path b a (sym ((nat_beq_iff (code a) (code b)).0 e)))
        (eq_of_strip_prefix p s t (ground arith)))
  | inr n ↦ ground arith
]

-- A prefix that is not empty is not the whole of what it stands before.
pub append-ne_self : (c : Char) (p s : String) → (c ∷ p) ++ s ≢ s
append-ne_self c p s e = omega (arith, length-append (c ∷ p) s, length-cons c p, ap count e)

pub append_cancel : (p s t : String) → p ++ s ≡ p ++ t → s ≡ t
append_cancel = append_cancel_left

pub append-ne_prefix : (p : String) (c : Char) (s : String) → (p ++ (c ∷ [])) ++ s ≢ s
append-ne_prefix p c s e =
    omega (
      arith,
      length-append (p ++ (c ∷ [])) s,
      length-append p (c ∷ []),
      length-cons c [],
      ap count e,
    )

pub trim_prefix-append : (p s : String) → trim_prefix (p ++ s) p ≡ s
unfolding trim_prefix
trim_prefix-append p s = ground (arith, strip_prefix-append p s)

-- A key under a scope: the scope, a slash and the key.
abbrev pub scoped : String → String → String
scoped scope k = (scope ++ "/") ++ k
