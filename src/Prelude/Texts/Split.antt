-- ===== src/Prelude/Texts/Split.antt =====
-- strings.Split and strings.Join for a separator of one character.
use Prim.Native.Char.{Char, code}
use Prim.Native.String.{String, [], ◌∷◌, ◌++◌}
use mathlib.Core.Path.{◌≡◌, refl, ◌∙◌, ap, ap₂, sym}
use mathlib.Core.List.{List}
use text.Mathlib.TextEquality.{Char-path}
use text.Mathlib.TextLemmas.{append-nil, append_assoc, cons-append, nil-append}
use supernetes.Prelude.Tests.{nat_beq, if◌then◌else◌, Bool-cases}
use supernetes.Prelude.Equality.{nat_beq_iff}
use mathlib.Core.Logic.{inl, inr}

abbrev pub as_text : Char → String
as_text c = c ∷ []

unfoldable pub split_from : Char → String → String → List String
split_from sep cur [] = List.◌∷◌ cur List.[]
split_from sep cur (c ∷ s) =
    let closed = List.◌∷◌ cur (split_from sep [] s) in
    let longer = split_from sep (cur ++ as_text c) s in
    if nat_beq (code c) (code sep) then closed else longer

unfoldable pub split : Char → String → List String
unfolding split_from
split sep s = split_from sep [] s

unfoldable pub join : Char → List String → String
join sep List.[] = []
join sep (List.◌∷◌ x List.[]) = x
join sep (List.◌∷◌ x (List.◌∷◌ y ys)) = x ++ (sep ∷ join sep (List.◌∷◌ y ys))

-- `split_from` returns at least one part.
join-cons :
    (sep : Char) (x t s : String)
    → join sep (List.◌∷◌ x (split_from sep t s)) ≡ x ++ (sep ∷ join sep (split_from sep t s))
unfolding join split_from
join-cons sep x t [] = refl
join-cons sep x t (c ∷ s) = elim (Bool-cases (nat_beq (code c) (code sep))) [
  | inl e ↦ rw e
  | inr n ↦ rw n (join-cons sep x (t ++ as_text c) s)
]

join-split_from : (sep : Char) (cur s : String) → join sep (split_from sep cur s) ≡ cur ++ s
unfolding join split_from
join-split_from sep cur [] = sym (append-nil cur)
join-split_from sep cur (c ∷ s) = elim (Bool-cases (nat_beq (code c) (code sep))) [
  | inl e ↦ rw e (
      join-cons sep cur [] s
      ∙ ap (λ t. cur ++ t)
          (ap₂ ◌∷◌ (sym (Char-path c sep ((nat_beq_iff (code c) (code sep)).0 e)))
            (join-split_from sep [] s ∙ nil-append s)))
  | inr n ↦ rw n (
      join-split_from sep (cur ++ as_text c) s
      ∙ append_assoc cur (as_text c) s
      ∙ ap (λ t. cur ++ t) (cons-append c [] s ∙ ap (λ t. c ∷ t) (nil-append s)))
]

-- Joining the parts of a text gives the text back.
pub join-split : (sep : Char) (s : String) → join sep (split sep s) ≡ s
unfolding split
join-split sep s = join-split_from sep [] s ∙ nil-append s

-- A text before the parts of another is joined to it by one separator.
pub join-cons_split :
    (sep : Char) (x s : String) → join sep (List.◌∷◌ x (split sep s)) ≡ x ++ ((sep ∷ []) ++ s)
unfolding split
join-cons_split sep x s =
    join-cons sep x [] s
    ∙ ap (λ t. x ++ t) (ap (λ t. sep ∷ t) (join-split_from sep [] s) ∙ sym (cons-append sep [] s))

abbrev pub comma : Char
comma = ","

abbrev pub space : Char
space = " "

abbrev pub slash : Char
slash = "/"
