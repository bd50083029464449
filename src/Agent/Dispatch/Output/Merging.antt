-- ===== src/Agent/Dispatch/Output/Merging.antt =====
-- The standard output of a job is a merge of the lines of its containers.
use supernetes.Prelude.{
  ℕ, List, [], ◌∷◌, ◌++◌, append_assoc, append-nil, true, false, ◌≡◌, refl, sym, ap, ◌∙◌, subst,
  Option, none, some, nat_beq, if◌then◌else◌, Bool-cases, nat_beq_iff, inl, inr,
}
use mathlib.Core.Option.{some-injective, none-ne-some}
use supernetes.Prelude.Scanner.{scan}
use supernetes.Agent.Dispatch.Output.{
  Output, Action, locks, writes, unlocks, output, set_lines, formatter, lock_with, write_next,
  unlock, act, Reach, here, next,
}

-- a line as it was read: the pipe, the time and the text
pub record Entry (T : Type 0) : Type 0 where
  pub pipe : ℕ
  pub time : T
  pub text : List ℕ

-- the texts of the lines of one pipe
unfoldable pub texts_of : {T : Type 0} → ℕ → List (Entry T) → List (List ℕ)
texts_of i [] = []
texts_of i (e ∷ es) = let rest = texts_of i es in if nat_beq e.pipe i then e.text ∷ rest else rest

abbrev pub pending : Option (List ℕ) → List ℕ
pending none = []
pending (some bytes) = bytes

texts_of-append :
    {T : Type 0} (i : ℕ) (es fs : List (Entry T))
    → texts_of i (es ++ fs) ≡ texts_of i es ++ texts_of i fs
unfolding texts_of
texts_of-append i [] fs = refl
texts_of-append i (e ∷ es) fs =
    elim (nat_beq e.pipe i)
      as (λ b.
        (if b then e.text ∷ texts_of i (es ++ fs) else texts_of i (es ++ fs))
        ≡ (if b then e.text ∷ texts_of i es else texts_of i es) ++ texts_of i fs) [
          | true ↦ ap (λ t. e.text ∷ t) (texts_of-append i es fs)
          | false ↦ texts_of-append i es fs
        ]

module _ {T : Type 0} (format_time : T → List ℕ) (name : ℕ → List ℕ) where
  unfoldable pub formatted : List (Entry T) → List ℕ
  unfolding formatter
  formatted [] = []
  formatted (e ∷ es) = formatter format_time name e.pipe e.time e.text ++ formatted es

  formatted-append : (es fs : List (Entry T)) → formatted (es ++ fs) ≡ formatted es ++ formatted fs
  unfolding formatted
  formatted-append [] fs = refl
  formatted-append (e ∷ es) fs =
      ap (λ t. formatter format_time name e.pipe e.time e.text ++ t) (formatted-append es fs)
      ∙ sym (
          append_assoc (formatter format_time name e.pipe e.time e.text) (formatted es)
            (formatted fs))

  -- `es` is what was read so far: it and the lines left are those of the pipes, and the output is
  -- it up to what the goroutine with the mutex has yet to write
  abbrev pub IsMerge : (ℕ → List ℕ) → Output → List (Entry T) → Type 0
  IsMerge pipes o es =
      ((i : ℕ) → texts_of i es ++ o.lines i ≡ (scan (pipes i)).0)
      × (o.written ++ pending o.holder ≡ formatted es)

  lock-lines :
      (i : ℕ) (time : T) (line : List ℕ) (rest : List (List ℕ)) (o : Output) (es : List (Entry T))
      (j : ℕ)
      → o.lines i ≡ line ∷ rest
      → texts_of j (es ++ (record { pipe = i; time = time; text = line } ∷ []))
          ++ set_lines i rest o.lines j
        ≡ texts_of j es ++ o.lines j
  unfolding texts_of set_lines
  lock-lines i time line rest o es j first = elim (Bool-cases (nat_beq i j)) [
    | inr other ↦
        rw
          (
            texts_of-append j es (record { pipe = i; time = time; text = line } ∷ []),
            other,
            texts_of,
            append-nil (texts_of j es),
          )
          refl
    | inl same ↦
        let at_j : o.lines j ≡ line ∷ rest =
          subst (λ k. o.lines k ≡ line ∷ rest) ((nat_beq_iff i j).0 same) first in
        rw
          (
            texts_of-append j es (record { pipe = i; time = time; text = line } ∷ []),
            same,
            at_j,
            texts_of,
            append_assoc (texts_of j es) (line ∷ []) rest,
          )
          refl
  ]

  lock-IsMerge :
      (pipes : ℕ → List ℕ) (i : ℕ) (time : T) (o o' : Output) (es : List (Entry T))
      (lines : List (List ℕ)) (held : Option (List ℕ))
      → o.lines i ≡ lines
      → o.holder ≡ held
      → lock_with format_time name i time lines held o ≡ some o'
      → IsMerge pipes o es
      → (es' : List (Entry T)) × IsMerge pipes o' es'
  unfolding lock_with formatted
  lock-IsMerge pipes i time o o' es [] held first free step merge = absurd (none-ne-some _ step)
  lock-IsMerge pipes i time o o' es (line ∷ rest) (some waiting) first free step merge =
      absurd (none-ne-some _ step)
  lock-IsMerge pipes i time o o' es (line ∷ rest) none first free step (lines, bytes) =
      let e : Entry T = record { pipe = i; time = time; text = line } in
      (
        es ++ (e ∷ []),
        subst (λ o2. IsMerge pipes o2 (es ++ (e ∷ []))) (some-injective _ _ step)
            (
              λ j. lock-lines i time line rest o es j first ∙ lines j,
              ap (λ t. t ++ formatter format_time name i time line)
                    (sym (append-nil o.written)
                      ∙ ap (λ h. o.written ++ pending h) (sym free)
                      ∙ bytes)
                  ∙ ap (λ t. formatted es ++ t)
                      (sym (append-nil (formatter format_time name i time line)))
                  ∙ sym (formatted-append es (e ∷ [])),
            ),
      )

  write-IsMerge :
      (pipes : ℕ → List ℕ) (o o' : Output) (es : List (Entry T)) (held : Option (List ℕ))
      → o.holder ≡ held
      → write_next held o ≡ some o'
      → IsMerge pipes o es
      → IsMerge pipes o' es
  unfolding write_next
  write-IsMerge pipes o o' es none busy step merge = absurd (none-ne-some _ step)
  write-IsMerge pipes o o' es (some []) busy step merge = absurd (none-ne-some _ step)
  write-IsMerge pipes o o' es (some (b ∷ bytes)) busy step (lines, merged) =
      subst (λ o2. IsMerge pipes o2 es) (some-injective _ _ step)
        (
          lines,
          append_assoc o.written (b ∷ []) bytes
              ∙ ap (λ h. o.written ++ pending h) (sym busy)
              ∙ merged,
        )

  unlock-IsMerge :
      (pipes : ℕ → List ℕ) (o o' : Output) (es : List (Entry T)) (held : Option (List ℕ))
      → o.holder ≡ held
      → unlock held o ≡ some o'
      → IsMerge pipes o es
      → IsMerge pipes o' es
  unfolding unlock
  unlock-IsMerge pipes o o' es none busy step merge = absurd (none-ne-some _ step)
  unlock-IsMerge pipes o o' es (some (b ∷ bytes)) busy step merge = absurd (none-ne-some _ step)
  unlock-IsMerge pipes o o' es (some []) busy step (lines, merged) =
      subst (λ o2. IsMerge pipes o2 es) (some-injective _ _ step)
        (lines, ap (λ h. o.written ++ pending h) (sym busy) ∙ merged)

  act-IsMerge :
      (pipes : ℕ → List ℕ) (action : Action T) (o o' : Output) (es : List (Entry T))
      → act format_time name action o ≡ some o'
      → IsMerge pipes o es
      → (es' : List (Entry T)) × IsMerge pipes o' es'
  unfolding act
  act-IsMerge pipes (locks i time) o o' es step merge =
      lock-IsMerge pipes i time o o' es (o.lines i) o.holder refl refl step merge
  act-IsMerge pipes writes o o' es step merge =
      (es, write-IsMerge pipes o o' es o.holder refl step merge)
  act-IsMerge pipes unlocks o o' es step merge =
      (es, unlock-IsMerge pipes o o' es o.holder refl step merge)

  Reach-IsMerge :
      (pipes : ℕ → List ℕ) {o p : Output} (es : List (Entry T))
      → Reach format_time name o p
      → IsMerge pipes o es
      → (es' : List (Entry T)) × IsMerge pipes p es'
  Reach-IsMerge pipes es here merge = (es, merge)
  Reach-IsMerge pipes es (next action {p = p} {q = q} r step) merge =
      let (es', merge') = Reach-IsMerge pipes es r merge in
      act-IsMerge pipes action p q es' step merge'

  -- At every moment there is a sequence of entries, lines of the pipes with their times, such that
  -- the standard output of the job, with what the goroutine that holds the mutex has left to
  -- write, is these entries formatted one after another, no line broken by another one. For each
  -- pipe, its entries and the lines that are left are the lines of the pipe in order, none lost or
  -- doubled.
  pub Reach-output :
      (pipes : ℕ → List ℕ) {o : Output}
      → Reach format_time name (output pipes) o
      → (es : List (Entry T)) × ((i : ℕ) → texts_of i es ++ o.lines i ≡ (scan (pipes i)).0)
        × (o.written ++ pending o.holder ≡ formatted es)
  unfolding output texts_of formatted
  Reach-output pipes r =
      let (es, (lines, bytes)) = Reach-IsMerge pipes [] r (λ i. refl, refl) in (es, lines, bytes)
