-- ===== src/Controller/Names/Shape.antt =====
-- toLowerRFC1123: the code points of the result, and where its dashes stand.
use supernetes.Prelude.{ℕ, List, [], ◌∷◌, Bool, true, false, ◌≡◌, ◌⊎◌, refl, nat_beq, arith}
use supernetes.Controller.Names.{is_alphanumeric, dash, ends_in_dash, drop_dashes}

-- what a result may hold
abbrev pub IsNameChar : ℕ → Type 0
IsNameChar c = (is_alphanumeric c ≡ true) ⊎ (c ≡ dash)

-- no two dashes in a row
abbrev pub HasNoDoubleDash : List ℕ → Type 0
HasNoDoubleDash [] = Unit
HasNoDoubleDash (c ∷ cs) = ((c ≡ dash) → ends_in_dash cs ≡ false) × HasNoDoubleDash cs

pub ends_in_dash-drop_dashes : (cs : List ℕ) → ends_in_dash (drop_dashes cs) ≡ false
unfolding drop_dashes ends_in_dash
ends_in_dash-drop_dashes [] = refl
ends_in_dash-drop_dashes (c ∷ cs) = ground (arith, ends_in_dash-drop_dashes cs)

-- the other end
unfoldable pub last_is_dash : List ℕ → Bool
last_is_dash [] = false
last_is_dash (c ∷ []) = nat_beq c dash
last_is_dash (c ∷ d ∷ cs) = last_is_dash (d ∷ cs)
