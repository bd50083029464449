-- ===== src/Agent/LogFiles.antt =====
-- tailF and parseLine of agent/pkg/server/workload.go: the log lines of one container.
pub mod Tail
pub mod Lines
pub mod Follow
use supernetes.Prelude.{
  ℕ, zero, suc, ◌+◌, List, [], ◌∷◌, ◌++◌, Bool, true, false, Option, none, some, nat_beq,
  if◌then◌else◌, replicate, not,
}

-- `parsedLine`; a timestamp of 0 stands for the zero time.
pub record ParsedLine : Type 0 where
  pub timestamp : ℕ
  pub line : List ℕ

-- the bytes before and after the first space
unfoldable pub cut : List ℕ → Option (List ℕ × List ℕ)
cut [] = none
cut (c ∷ cs) =
    let rest = cut cs in
    if nat_beq c b' '
    then some ([], cs)
    else elim rest [ none ↦ none | some (before, after) ↦ some (c ∷ before, after) ]

-- `parseLine`: the line, and the container where it has one. `parse_time` is time.Parse for
-- RFC 3339.
unfoldable pub parse_line : (List ℕ → Option ℕ) → List ℕ → ParsedLine × Option (List ℕ)
unfolding cut
parse_line parse_time line =
    let plain : ParsedLine × Option (List ℕ) = (record { timestamp = 0; line = line }, none) in
    elim (cut line) [
      | none ↦ plain
      | some (time, rest) ↦ elim (cut rest) [
        | none ↦ plain
        | some (container, text) ↦ elim (parse_time time) [
          | none ↦ plain
          | some timestamp ↦ (record { timestamp = timestamp; line = text }, some container)
        ]
      ]
    ]

unfoldable pub bytes_beq : List ℕ → List ℕ → Bool
bytes_beq [] [] = true
bytes_beq [] (b ∷ bs) = false
bytes_beq (a ∷ xs) [] = false
bytes_beq (a ∷ xs) (b ∷ bs) = let rest = bytes_beq xs bs in if nat_beq a b then rest else false

-- a line of another container than the one asked for
unfoldable pub is_other : List ℕ → Option (List ℕ) → Bool
unfolding bytes_beq
is_other container_filter none = false
is_other container_filter (some container) = not (bytes_beq container container_filter)

-- the lines of a round that pass the filter
unfoldable pub wanted : (List ℕ → Option ℕ) → List ℕ → List (List ℕ) → List ParsedLine
unfolding parse_line is_other
wanted parse_time container_filter [] = []
wanted parse_time container_filter (l ∷ ls) =
    let (line, container) = parse_line parse_time l in
    let rest = wanted parse_time container_filter ls in
    if is_other container_filter container then rest else line ∷ rest

-- A `ring.Ring`, its elements from the current one on; none is nil.
abbrev pub Ring : Type 0 → Type 0
Ring A = List (Option A)

module _ {A : Type 0} where
  unfoldable pub new_ring : ℕ → Ring A
  new_ring n = replicate n none

  -- `buffer.Value = line; buffer = buffer.Next()`
  unfoldable pub push : Ring A → A → Ring A
  push [] line = []
  push (x ∷ ring) line = ring ++ (some line ∷ [])

  unfoldable pub push_all : Ring A → List A → Ring A
  unfolding push
  push_all ring [] = ring
  push_all ring (line ∷ lines) = push_all (push ring line) lines

  -- `buffer.Do`, which sends what is not nil
  unfoldable pub values : Ring A → List A
  values [] = []
  values (none ∷ ring) = values ring
  values (some line ∷ ring) = line ∷ values ring

  -- what a round sends: the `n` latest lines, or all of them where `n` is 0
  unfoldable pub send_lines : ℕ → List A → List A
  unfolding new_ring push_all values
  send_lines zero lines = lines
  send_lines (suc n) lines = values (push_all (new_ring (suc n)) lines)

-- What a round of tailF finds at the path: no file yet, an error of one of the file operations, or
-- a file with the lines that the scanner reads, and whether the scanner ended without an error.
-- The rounds end when the context is cancelled.
pub data Poll : Type 0 where
  missing failed : Poll
  contents : List (List ℕ) → Bool → Poll

-- The lines that tailF sends, and whether it returns nil; `n` is 0 for a tail that is not positive.
unfoldable pub tail_f : (List ℕ → Option ℕ) → List ℕ → ℕ → Bool → List Poll → List ParsedLine × Bool
unfolding wanted send_lines
tail_f parse_time container_filter n follow [] = ([], true)
tail_f parse_time container_filter n follow (missing ∷ polls) =
    tail_f parse_time container_filter n follow polls
tail_f parse_time container_filter n follow (failed ∷ polls) = ([], false)
tail_f parse_time container_filter n follow (contents lines fine ∷ polls) =
    let sent = send_lines n (wanted parse_time container_filter lines) in
    let (later, ok) = tail_f parse_time container_filter 0 follow polls in
    if fine then (if follow then (sent ++ later, ok) else (sent, true)) else (sent, false)
