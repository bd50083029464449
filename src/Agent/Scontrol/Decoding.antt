-- ===== src/Agent/Scontrol/Decoding.antt =====
-- When the output of scontrol is accepted, and which errors and warnings are reported.
use supernetes.Prelude.{
  String, List, [], ◌∷◌, ◌++◌, ◌≡◌, refl, ap, ◌∙◌, Option, none, some, map, length, replicate, ℕ,
  zero, suc,
}
use supernetes.Prelude.Texts
use supernetes.Prelude.Results.{Result, ok, failed}
use supernetes.Agent.Scontrol.{
  not_nil, join_lines, errors_join, Unmarshalled, response_errs, response_warns, check_warnings,
  check_errors, fail_decode, decode_by, decode,
}

not_nil-map : (errs : List String) → not_nil (map some errs) ≡ errs
unfolding not_nil
not_nil-map [] = refl
not_nil-map (err ∷ errs) = ap (λ es. err ∷ es) (not_nil-map errs)

not_nil-replicate :
    (n : ℕ) (errs : List (Option String)) → not_nil (replicate n none ++ errs) ≡ not_nil errs
unfolding not_nil
not_nil-replicate zero errs = refl
not_nil-replicate (suc n) errs = not_nil-replicate n errs

-- The nil errors that stand before the errors of a response leave no trace in the text.
errors_join-response_errs :
    (first : String) (errs : List String)
    → errors_join (some first ∷ response_errs errs) ≡ join_lines (first ∷ errs)
unfolding errors_join response_errs not_nil
errors_join-response_errs first errs =
    ap (λ es. join_lines (first ∷ es))
      (not_nil-replicate (length errs) (map some errs) ∙ not_nil-map errs)

module _ {T : Type 0} (name : String) (errors warnings : T → List String) where
  -- what was wrong with a text
  abbrev pub problems : Unmarshalled T → List String
  problems u = not_nil (u.err ∷ map some u.strict_errs)

  abbrev pub logged : List String → List (List String)
  logged [] = []
  logged (w ∷ warns) = response_warns (w ∷ warns) ∷ []

  abbrev pub accepted : T → List String → Result T × List (List String)
  accepted value [] = (ok value, logged (warnings value))
  accepted value (e ∷ errs) = (failed (join_lines ("errors in scontrol response" ∷ e ∷ errs)), [])

  abbrev pub judged : Unmarshalled T → List String → Result T × List (List String)
  judged u [] = accepted u.value (errors u.value)
  judged u (p ∷ ps) =
      (failed (join_lines (Texts.◌++◌ "unable to decode JSON input into " name ∷ p ∷ ps)), [])

  check_warnings-logged :
      (value : T) (warns : List String)
      → check_warnings name errors warnings value warns ≡ (ok value, logged warns)
  unfolding check_warnings
  check_warnings-logged value [] = refl
  check_warnings-logged value (w ∷ warns) = refl

  check_errors-accepted :
      (value : T) (errs : List String)
      → check_errors name errors warnings value errs ≡ accepted value errs
  unfolding check_errors
  check_errors-accepted value [] = check_warnings-logged value (warnings value)
  check_errors-accepted value (e ∷ errs) =
      ap (λ t. (failed t, [])) (errors_join-response_errs "errors in scontrol response" (e ∷ errs))

  decode_by-judged :
      (u : Unmarshalled T) (err : Option String) (strict : List String)
      → u.err ≡ err
      → u.strict_errs ≡ strict
      → decode_by name errors warnings u err strict ≡ judged u (not_nil (err ∷ map some strict))
  unfolding decode_by fail_decode errors_join not_nil
  decode_by-judged u none [] e s = check_errors-accepted u.value (errors u.value)
  decode_by-judged u none (x ∷ xs) e s = rw (e, s) refl
  decode_by-judged u (some err) strict e s = rw (e, s) refl

  -- Decode accepts a text exactly if unmarshalling it reports nothing and the value lists no errors.
  -- Otherwise its error names what was reported, each text once and in order, after a heading. The
  -- warnings of an accepted value are logged after as many empty texts.
  pub decode-judged : (u : Unmarshalled T) → decode name errors warnings u ≡ judged u (problems u)
  unfolding decode
  decode-judged u = decode_by-judged u u.err u.strict_errs refl refl
