-- ===== src/Agent/LogFiles/Lines.antt =====
-- parseLine reads the lines that the dispatch command of the agent writes.
use supernetes.Prelude.{ℕ, List, [], ◌∷◌, ◌++◌, ◌≡◌, refl, Option, some, All, nat_beq, false}
use supernetes.Agent.Dispatch.{format_line}
use supernetes.Agent.LogFiles.{cut, parse_line}

-- a word without a space
abbrev pub IsWord : List ℕ → Type 0
IsWord = All (λ c. nat_beq c b' ' ≡ false)

cut-word : (word rest : List ℕ) → IsWord word → cut (word ++ (b' ' ∷ rest)) ≡ some (word, rest)
unfolding cut
cut-word [] rest h = refl
cut-word (c ∷ word) rest h = rw (h.0, cut-word word rest h.1, cut) refl

-- The agent parses what it wrote for a line of a container: the timestamp, the container and the
-- line come back, for any line. It relies on a format of the timestamp that has no space and is
-- parsed back, and on a name without spaces.
pub parse_line-format_line :
    (parse_time : List ℕ → Option ℕ) (time name line : List ℕ) (timestamp : ℕ)
    → IsWord time
    → IsWord name
    → parse_time time ≡ some timestamp
    → parse_line parse_time (format_line time name line)
      ≡ (record { timestamp = timestamp; line = line }, some name)
unfolding parse_line format_line
parse_line-format_line parse_time time name line timestamp ht hn h =
    rw (cut-word time (name ++ (b' ' ∷ line)) ht, cut-word name line hn, h, parse_line) refl
