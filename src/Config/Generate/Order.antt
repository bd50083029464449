-- ===== src/Config/Generate/Order.antt =====
-- NewGenerateOptions and Generate: which options are accepted, and which files are written.
use supernetes.Prelude.{
  ℕ, String, [], ◌∷◌, Bool, true, not, List, All, ◌≡◌, ◌↔◌, Option, ◌++◌, ap, ◌∙◌, refl, sym, inl,
  inr, none, some, ◌==◌, string_eq, nat_beq, ◌||◌, ◌&&◌, arith, Option-cases,
}
use mathlib.Core.Option.{none-ne-some}
use supernetes.Prelude.Results.{Result, ok, failed}
use supernetes.Config.Generate.{
  GenerateOptions, guard, new_generate_options, Chmod, changed, not_exist, refused, Libraries, Call,
  chmods, writes, Written, write_config, prepare, write_agent, write_both, write_prepared, generate,
}

-- the options that must be given
abbrev pub is_complete : GenerateOptions → Bool
is_complete g =
    not (g.agent_config_path == "")
    && (not (g.agent_endpoint == "")
        && (not (g.controller_config_path == "")
            && (not (
                  g.controller_secret
                  && ((g.controller_secret_name == "") || (g.controller_secret_namespace == "")))
                && (not (g.slurm_account == "")
                    && (not (g.slurm_partition == "") && not (nat_beq g.cert_days_valid 0))))))

-- NewGenerateOptions accepts exactly the options that are complete, and leaves them as they are.
new_generate_options_complete :
    (g h : GenerateOptions)
    → (new_generate_options g ≡ ok h → (is_complete g ≡ true) × (g ≡ h))
      × (is_complete g ≡ true → new_generate_options g ≡ ok g)
unfolding new_generate_options guard
new_generate_options_complete g h = (λ e. ground (arith, e), λ c. ground (arith, c))

module _ {Public Private : Type 0} (libs : Libraries Public Private) where
  -- the error of a call; that a file does not exist yet is none for chmod.
  abbrev chmod_error : Chmod → Option String
  chmod_error changed = none
  chmod_error not_exist = none
  chmod_error (refused err) = some err

  abbrev pub error_of : Call → Option String
  error_of (chmods path) = chmod_error (libs.chmod path)
  error_of (writes path contents) = libs.write_file path contents

  -- calls up to the first that fails, and its error
  unfoldable pub until_error : List Call → Written
  until_error [] = ([], none)
  until_error (c ∷ cs) = elim (error_of c) [
    | some err ↦ (c ∷ [], some err)
    | none ↦ (c ∷ (until_error cs).0, (until_error cs).1)
  ]

  -- the calls that write both files
  abbrev pub planned : GenerateOptions → String × String → List Call
  planned g (bytes, agent_bytes) =
      chmods g.controller_config_path
      ∷ writes g.controller_config_path bytes
      ∷ chmods g.agent_config_path
      ∷ writes g.agent_config_path agent_bytes
      ∷ []

  abbrev pub expected : GenerateOptions → Result (String × String) → Written
  expected g (failed err) = ([], some err)
  expected g (ok files) = until_error (planned g files)

  write_config-until_error :
      (path contents : String)
      → write_config libs path contents ≡ until_error (chmods path ∷ writes path contents ∷ [])
  unfolding write_config until_error
  write_config-until_error path contents =
      by_cases (libs.chmod path) (libs.write_file path contents) refl refl
    where
      by_cases :
          (c : Chmod) (err : Option String)
          → libs.chmod path ≡ c
          → libs.write_file path contents ≡ err
          → write_config libs path contents ≡ until_error (chmods path ∷ writes path contents ∷ [])
      by_cases (refused err) w e f = rw (e, write_config, until_error) refl
      by_cases changed none e f = rw (e, f, write_config, until_error) refl
      by_cases changed (some err) e f = rw (e, f, write_config, until_error) refl
      by_cases not_exist none e f = rw (e, f, write_config, until_error) refl
      by_cases not_exist (some err) e f = rw (e, f, write_config, until_error) refl

  -- calls that are made only if the ones before did not fail
  abbrev then_more : List Call → Option String → Written → Written
  then_more calls (some err) w = (calls, some err)
  then_more calls none w = (calls ++ w.0, w.1)

  then_more-first :
      (c : Call) (calls : List Call) (err : Option String) (w : Written)
      → then_more (c ∷ calls) err w ≡ (c ∷ (then_more calls err w).0, (then_more calls err w).1)
  then_more-first c calls (some err) w = refl
  then_more-first c calls none w = refl

  until_error-append :
      (xs ys : List Call)
      → until_error (xs ++ ys) ≡ then_more (until_error xs).0 (until_error xs).1 (until_error ys)
  unfolding until_error
  until_error-append [] ys = refl
  until_error-append (c ∷ xs) ys = elim (Option-cases (error_of c)) [
    | inr (err, e) ↦ rw (e, until_error) refl
    | inl e ↦
        rw (e, until_error)
          (ap (λ (w : Written). (c ∷ w.0, w.1)) (until_error-append xs ys)
            ∙ sym (then_more-first c (until_error xs).0 (until_error xs).1 (until_error ys)))
  ]

  write_agent-then_more :
      (g : GenerateOptions) (agent_bytes : String) (calls : List Call) (err : Option String)
      → write_agent libs g agent_bytes calls err
        ≡ then_more calls err (write_config libs g.agent_config_path agent_bytes)
  unfolding write_agent
  write_agent-then_more g agent_bytes calls (some err) = refl
  write_agent-then_more g agent_bytes calls none = refl

  write_both-until_error :
      (g : GenerateOptions) (bytes agent_bytes : String)
      → write_both libs g bytes agent_bytes ≡ until_error (planned g (bytes, agent_bytes))
  unfolding write_both
  write_both-until_error g bytes agent_bytes =
      let first = write_config libs g.controller_config_path bytes in
      write_agent-then_more g agent_bytes first.0 first.1
      ∙ ap (λ (w : Written). then_more w.0 w.1 (write_config libs g.agent_config_path agent_bytes))
          (write_config-until_error g.controller_config_path bytes)
      ∙ ap
          (then_more
            (until_error
              (chmods g.controller_config_path ∷ writes g.controller_config_path bytes ∷ [])).0
            (until_error
              (chmods g.controller_config_path ∷ writes g.controller_config_path bytes ∷ [])).1)
          (write_config-until_error g.agent_config_path agent_bytes)
      ∙ sym (
          until_error-append
            (chmods g.controller_config_path ∷ writes g.controller_config_path bytes ∷ [])
            (chmods g.agent_config_path ∷ writes g.agent_config_path agent_bytes ∷ []))

  until_error-All : (cs : List Call) → ((until_error cs).1 ≡ none) ↔ All (λ c. error_of c ≡ none) cs
  unfolding until_error
  until_error-All [] = (λ e. tt, λ all. refl)
  until_error-All (c ∷ cs) = elim (Option-cases (error_of c)) [
    | inr (err, e) ↦ (
      rw (e, until_error) λ same. absurd (none-ne-some _ (sym same)),
      λ all. absurd (none-ne-some _ (sym all.0 ∙ e)),
    )
    | inl e ↦ (
      rw (e, until_error) λ same. (refl, (until_error-All cs).0 same),
      λ all. rw (e, until_error) ((until_error-All cs).1 all.1),
    )
  ]

  generate-expected :
      (g : GenerateOptions) (r : Result (String × String)) → write_prepared libs g r ≡ expected g r
  unfolding write_prepared
  generate-expected g (failed err) = refl
  generate-expected g (ok (bytes, agent_bytes)) = write_both-until_error g bytes agent_bytes

  -- Generate touches no file unless everything could be prepared. Otherwise it restricts and writes
  -- the controller's file and then the agent's, up to the first of these four calls that fails,
  -- whose error it returns; that a file is not there yet is no failure. It returns no error
  -- exactly when all four calls succeeded, so that both files were written as prepared.
  pub generate-until_error :
      (now : ℕ) (g : GenerateOptions)
      → (generate libs now g ≡ expected g (prepare libs now g))
        × ((files : String × String)
            → prepare libs now g ≡ ok files
            → ((generate libs now g).1 ≡ none) ↔ All (λ c. error_of c ≡ none) (planned g files))
  unfolding generate
  generate-until_error now g = (
    generate-expected g (prepare libs now g),
    λ files prepared.
        rw (generate-expected g (prepare libs now g), prepared) (until_error-All (planned g files)),
  )
