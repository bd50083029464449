-- ===== src/Agent/LogFiles/Follow.antt =====
-- What tailF sends over all its rounds.
use supernetes.Prelude.{
  ℕ, zero, suc, ◌-◌, ◌<◌, List, [], ◌∷◌, ◌++◌, true, Option, ◌≡◌, refl, ap, ◌∙◌, map, replicate,
  length, drop,
}
use supernetes.Agent.LogFiles.{ParsedLine, missing, contents, wanted, send_lines, tail_f}
use supernetes.Agent.LogFiles.Tail.{send_lines-latest}

module _ (parse_time : List ℕ → Option ℕ) (container : List ℕ) where
  abbrev pub wanted_all : List (List (List ℕ)) → List ParsedLine
  wanted_all [] = []
  wanted_all (lines ∷ rounds) = wanted parse_time container lines ++ wanted_all rounds

  tail_f-all :
      (rounds : List (List (List ℕ)))
      → tail_f parse_time container 0 true (map (λ ls. contents ls true) rounds)
        ≡ (wanted_all rounds, true)
  unfolding tail_f
  tail_f-all [] = refl
  tail_f-all (lines ∷ rounds) =
      ap (λ r. (wanted parse_time container lines ++ r.0, r.1)) (tail_f-all rounds)

  -- tailF that follows a file waits until there is one. From the first round that finds it, it
  -- sends the n latest lines of the container, n positive, and from every later round all of them;
  -- it returns nil when the context is cancelled. No file operation fails.
  pub tail_f-follow :
      (n waits : ℕ) (first : List (List ℕ)) (rounds : List (List (List ℕ)))
      → 0 < n
      → tail_f parse_time container n true
          (replicate waits missing ++ (contents first true ∷ map (λ ls. contents ls true) rounds))
        ≡ (
          drop (length (wanted parse_time container first) - n) (wanted parse_time container first)
              ++ wanted_all rounds,
          true,
        )
  unfolding tail_f
  tail_f-follow n zero first rounds some =
      ap (λ r. (send_lines n (wanted parse_time container first) ++ r.0, r.1)) (tail_f-all rounds)
      ∙ ap (λ ls. (ls ++ wanted_all rounds, true))
          (send_lines-latest n (wanted parse_time container first) some)
  tail_f-follow n (suc waits) first rounds some = tail_f-follow n waits first rounds some
