-- ===== src/Agent/LogFiles/Tail.antt =====
-- The ring buffer of tailF holds the latest lines.
use supernetes.Prelude.{
  ℕ, zero, suc, ◌-◌, ◌<◌, List, [], ◌∷◌, ◌++◌, append_assoc, append-nil, ◌≡◌, refl, sym, ap, ◌∙◌,
  none, some, replicate, length, drop, map, arith, length-append,
}
use supernetes.Agent.LogFiles.{Ring, new_ring, push, push_all, values, send_lines}

module _ {A : Type 0} where
  push_all-drop :
      (ring : Ring A) (lines : List A)
      → 0 < length ring
      → push_all ring lines ≡ drop (length lines) (ring ++ map some lines)
  unfolding push_all push
  push_all-drop ring [] h = sym (append-nil ring)
  push_all-drop [] (line ∷ lines) h = absurd (omega arith)
  push_all-drop (x ∷ ring) (line ∷ lines) h =
      push_all-drop (ring ++ (some line ∷ [])) lines
        (omega (arith, length-append ring (some line ∷ [])))
      ∙ ap (drop (length lines)) (append_assoc ring (some line ∷ []) (map some lines))

  values-some : (k : ℕ) (lines : List A) → values (drop k (map some lines)) ≡ drop k lines
  unfolding values
  values-some zero [] = refl
  values-some zero (line ∷ lines) = ap (λ ls. line ∷ ls) (values-some zero lines)
  values-some (suc k) [] = refl
  values-some (suc k) (line ∷ lines) = values-some k lines

  values-ring :
      (n k : ℕ) (lines : List A)
      → values (drop k (replicate n none ++ map some lines)) ≡ drop (k - n) lines
  unfolding values
  values-ring zero k lines =
      let same : k ≡ k - 0 = omega arith in values-some k lines ∙ ap (λ i. drop i lines) same
  values-ring (suc n) zero lines =
      let same : 0 - n ≡ 0 - suc n = omega arith in
      values-ring n zero lines ∙ ap (λ i. drop i lines) same
  values-ring (suc n) (suc k) lines =
      let same : k - n ≡ suc k - suc n = omega arith in
      values-ring n k lines ∙ ap (λ i. drop i lines) same

  -- A round of tailF that tails n lines, n positive, sends exactly the last n of them in order, or
  -- all of them where they are fewer.
  pub send_lines-latest :
      (n : ℕ) (lines : List A) → 0 < n → send_lines n lines ≡ drop (length lines - n) lines
  unfolding send_lines new_ring
  send_lines-latest zero lines h = absurd (omega arith)
  send_lines-latest (suc n) lines h =
      ap values (push_all-drop (replicate (suc n) none) lines (omega arith))
      ∙ values-ring (suc n) (length lines) lines
