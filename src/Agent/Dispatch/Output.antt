-- ===== src/Agent/Dispatch/Output.antt =====
-- outputBuffer of agent/pkg/dispatch/dispatch.go: the goroutines that copy the standard output and
-- the standard error of every container to the standard output of the job, and their mutex.
pub mod Merging
use supernetes.Prelude.{
  ℕ, List, [], ◌∷◌, ◌++◌, Bool, true, false, ◌≡◌, Option, none, some, nat_beq, if◌then◌else◌,
}
use supernetes.Prelude.Scanner.{scan}
use supernetes.Agent.Dispatch.{format_line}

-- `lines` are those that the scanner of each pipe still returns. `holder` is what the goroutine in
-- writeLine, which holds the mutex, has yet to write; `written` is the standard output.
pub record Output : Type 0 where
  pub lines : ℕ → List (List ℕ)
  pub holder : Option (List ℕ)
  pub written : List ℕ

-- what can happen next: readFromStream of a pipe gets its next line at a time and locks the mutex,
-- the operating system takes the next byte, or the mutex is unlocked
pub data Action (T : Type 0) : Type 0 where
  locks : ℕ → T → Action T
  writes unlocks : Action T

-- the pipes before anything is read
unfoldable pub output : (ℕ → List ℕ) → Output
unfolding scan
output pipes = record { lines = λ i. (scan (pipes i)).0; holder = none; written = [] }

-- the lines of the pipes, without the first one of a pipe
unfoldable pub set_lines : ℕ → List (List ℕ) → (ℕ → List (List ℕ)) → ℕ → List (List ℕ)
set_lines i rest lines j = if nat_beq i j then rest else lines j

unfoldable pub write_next : Option (List ℕ) → Output → Option Output
write_next none o = none
write_next (some []) o = none
write_next (some (b ∷ bytes)) o =
    some (record o { holder = some bytes; written = o.written ++ (b ∷ []) })

unfoldable pub unlock : Option (List ℕ) → Output → Option Output
unlock none o = none
unlock (some (b ∷ bytes)) o = none
unlock (some []) o = some (record o { holder = none })

-- `T` are the times that can be formatted. `format_time` is `Format(time.RFC3339)`, `name` the container of a pipe.
module _ {T : Type 0} (format_time : T → List ℕ) (name : ℕ → List ℕ) where
  -- what is written for a line of a pipe
  unfoldable pub formatter : ℕ → T → List ℕ → List ℕ
  unfolding format_line
  formatter i time line = format_line (format_time time) (name i) line ++ (b'\n' ∷ [])

  unfoldable pub lock_with : ℕ → T → List (List ℕ) → Option (List ℕ) → Output → Option Output
  unfolding formatter set_lines
  lock_with i time [] held o = none
  lock_with i time (line ∷ rest) (some waiting) o = none
  lock_with i time (line ∷ rest) none o =
      some (record o { lines = set_lines i rest o.lines; holder = some (formatter i time line) })

  unfoldable pub act : Action T → Output → Option Output
  unfolding lock_with write_next unlock
  act (locks i time) o = lock_with i time (o.lines i) o.holder o
  act writes o = write_next o.holder o
  act unlocks o = unlock o.holder o

  pub data Reach : Output → Output → Type 0 where
    here : {o : Output} → Reach o o
    next : (action : Action T) {o p q : Output} → Reach o p → act action p ≡ some q → Reach o q
