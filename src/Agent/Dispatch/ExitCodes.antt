-- ===== src/Agent/Dispatch/ExitCodes.antt =====
-- The exit code of a job.
use supernetes.Prelude.{ℕ, ◌≤◌, max, List, [], ◌∷◌, ◌≡◌, ◌⊎◌, inl, inr, refl, All, arith}
use supernetes.Agent.Dispatch.{Exit, exit_code, highest}

highest-bounds :
    (code : ℕ) (es : List Exit)
    → (code ≤ highest code es) × All (λ e. exit_code e ≤ highest code es) es
unfolding highest
highest-bounds code [] = (omega arith, tt)
highest-bounds code (e ∷ es) =
    let (above, each) = highest-bounds (max code (exit_code e)) es in
    (omega arith, (omega arith, each))

highest-reached :
    (code : ℕ) (es : List Exit)
    → (highest code es ≡ code) ⊎ ((e : Exit) × (highest code es ≡ exit_code e))
unfolding highest
highest-reached code [] = inl refl
highest-reached code (e ∷ es) = elim (highest-reached (max code (exit_code e)) es) [
  | inr (f, at_f) ↦ inr (f, at_f)
  | inl h ↦ elim (le_or code (exit_code e)) [
    | inl below ↦ inr (e, omega arith)
    | inr above ↦ inl (omega arith)
  ]
]
  where
    le_or : (a b : ℕ) → (a ≤ b) ⊎ (b ≤ a)
    le_or a b = ground arith

-- a container that ran without an error, or that a signal ended
abbrev pub IsSilent : Exit → Type 0
IsSilent e = (e ≡ Exit.success) ⊎ (e ≡ Exit.signalled)

exits_with_zero : (es : List Exit) → All IsSilent es → highest 0 es ≡ 0
unfolding highest exit_code
exits_with_zero [] h = refl
exits_with_zero (Exit.success ∷ es) h = exits_with_zero es h.1
exits_with_zero (Exit.signalled ∷ es) h = exits_with_zero es h.1
exits_with_zero (Exit.exited c ∷ es) (inl e, h) = absurd (cc e)
exits_with_zero (Exit.exited c ∷ es) (inr e, h) = absurd (cc e)
exits_with_zero (Exit.other_failure ∷ es) (inl e, h) = absurd (cc e)
exits_with_zero (Exit.other_failure ∷ es) (inr e, h) = absurd (cc e)

-- The exit code of a job is at least that of each of its containers, and it is 0 if every
-- container either succeeded or was ended by a signal.
highest-exit :
    (es : List Exit)
    → All (λ e. exit_code e ≤ highest 0 es) es × (All IsSilent es → highest 0 es ≡ 0)
highest-exit es = ((highest-bounds 0 es).1, exits_with_zero es)
