-- ===== src/System/ContainerLogs.antt =====
-- From the containers of a job to the lines that the agent sends of one of them: the dispatch
-- command writes the log file, and tailF reads it.
use supernetes.Prelude.{
  ℕ, ◌≤◌, ◌<◌, List, [], ◌∷◌, ◌++◌, append_assoc, append-nil, Bool, true, false, ◌≡◌, refl, sym, ap,
  ◌∙◌, subst, Option, none, some, nat_beq, nat_beq_iff, if◌then◌else◌, not, map, Bool-cases, All,
  All-append, inl, inr, arith, length, length-append,
}
use supernetes.Prelude.Scanner.{
  scan, scan-HasNoNewline, scan-unlines, strip_return, unlines, HasNoNewline, IsLine,
}
use supernetes.Agent.Dispatch.{format_line}
use supernetes.Agent.Dispatch.Output.{Output, output, formatter, Reach}
use supernetes.Agent.Dispatch.Output.Merging.{Entry, texts_of, formatted, pending, Reach-output}
use supernetes.Agent.LogFiles.{
  ParsedLine, bytes_beq, is_other, wanted, send_lines, contents, tail_f,
}
use supernetes.Agent.LogFiles.Lines.{IsWord, parse_line-format_line}

-- a word on one line, no longer than the bound
abbrev pub IsToken : ℕ → List ℕ → Type 0
IsToken bound word = IsWord word × HasNoNewline word × (length word ≤ bound)

-- a line of a container whose formatted line is not too long for the scanner of tailF, with a name
-- of at most 63 bytes and a time of at most 25; it does not end in a carriage return.
abbrev pub IsShort : List ℕ → Type 0
IsShort line = (strip_return line ≡ line) × (length line < 65446)

-- the lines of the pipes of one container
unfoldable pub lines_of :
    {T : Type 0} → (T → ℕ) → (ℕ → List ℕ) → List ℕ → List (Entry T) → List ParsedLine
unfolding bytes_beq
lines_of seconds name container [] = []
lines_of seconds name container (e ∷ es) =
    let rest = lines_of seconds name container es in
    if bytes_beq (name e.pipe) container
    then record { timestamp = seconds e.time; line = e.text } ∷ rest
    else rest

strip_return-word :
    (word line : List ℕ)
    → strip_return line ≡ line
    → strip_return (word ++ (b' ' ∷ line)) ≡ word ++ (b' ' ∷ line)
unfolding strip_return
strip_return-word [] [] h = refl
strip_return-word [] (c ∷ line) h = ap (λ t. b' ' ∷ t) h
strip_return-word (w ∷ []) line h = ap (λ t. w ∷ t) (strip_return-word [] line h)
strip_return-word (w ∷ v ∷ word) line h = ap (λ t. w ∷ t) (strip_return-word (v ∷ word) line h)

format_line-IsLine :
    (time name line : List ℕ)
    → IsToken 25 time
    → IsToken 63 name
    → HasNoNewline line
    → IsShort line
    → IsLine (format_line time name line)
unfolding format_line
format_line-IsLine time name line (tw, tn, tl) (nw, nn, nl) plain (whole, short) = (
  All-append (λ c. nat_beq c b'\n' ≡ false) time (b' ' ∷ (name ++ (b' ' ∷ line))) tn
      (refl, All-append (λ c. nat_beq c b'\n' ≡ false) name (b' ' ∷ line) nn (refl, plain)),
  strip_return-word time (name ++ (b' ' ∷ line)) (strip_return-word name line whole),
  omega (
    arith,
    length-append time (b' ' ∷ (name ++ (b' ' ∷ line))),
    length-append name (b' ' ∷ line),
  ),
)

texts_of-first :
    {T : Type 0} (P : List ℕ → Type 0) (e : Entry T) (es : List (Entry T))
    → All P (texts_of e.pipe (e ∷ es))
    → P e.text
unfolding texts_of
texts_of-first P e es =
    let same : nat_beq e.pipe e.pipe ≡ true = (nat_beq_iff e.pipe e.pipe).1 refl in
    rw (same, texts_of) λ all. all.0

texts_of-later :
    {T : Type 0} (P : List ℕ → Type 0) (e : Entry T) (es : List (Entry T)) (i : ℕ)
    → All P (texts_of i (e ∷ es))
    → All P (texts_of i es)
unfolding texts_of
texts_of-later P e es i = elim (Bool-cases (nat_beq e.pipe i)) [
  | inl same ↦ rw (same, texts_of) λ all. all.1
  | inr other ↦ rw (other, texts_of) λ all. all
]

-- what holds of every line of the pipes holds of every entry
pub texts_of-All :
    {T : Type 0} (P : List ℕ → Type 0) (es : List (Entry T))
    → ((i : ℕ) → All P (texts_of i es))
    → All (λ e. P e.text) es
texts_of-All P [] h = tt
texts_of-All P (e ∷ es) h =
    (texts_of-first P e es (h e.pipe), texts_of-All P es (λ i. texts_of-later P e es i (h i)))

pub All-front : (P : List ℕ → Type 0) (xs ys : List (List ℕ)) → All P (xs ++ ys) → All P xs
All-front P [] ys h = tt
All-front P (x ∷ xs) ys h = (h.0, All-front P xs ys h.1)

not-swaps :
    (b : Bool) (xs ys : List ParsedLine) → (if not b then xs else ys) ≡ (if b then ys else xs)
not-swaps true xs ys = refl
not-swaps false xs ys = refl

module _ {T : Type 0} (seconds : T → ℕ) (format_time : T → List ℕ) (parse_time : List ℕ → Option ℕ)
    (name : ℕ → List ℕ) (container : List ℕ) where
  entry_line : Entry T → List ℕ
  entry_line e = format_line (format_time e.time) (name e.pipe) e.text

  formatted-unlines :
      (es : List (Entry T)) → formatted format_time name es ≡ unlines (map entry_line es)
  unfolding formatted unlines formatter entry_line
  formatted-unlines [] = refl
  formatted-unlines (e ∷ es) =
      append_assoc (entry_line e) (b'\n' ∷ []) (formatted format_time name es)
      ∙ ap (λ t. entry_line e ++ (b'\n' ∷ t)) (formatted-unlines es)

  entries-IsLine :
      (es : List (Entry T))
      → ((t : T) → IsToken 25 (format_time t))
      → ((i : ℕ) → IsToken 63 (name i))
      → All (λ e. HasNoNewline e.text) es
      → All (λ e. IsShort e.text) es
      → All IsLine (map entry_line es)
  unfolding entry_line
  entries-IsLine [] times names plain short = tt
  entries-IsLine (e ∷ es) times names plain short = (
    format_line-IsLine (format_time e.time) (name e.pipe) e.text (times e.time) (names e.pipe)
        plain.0 short.0,
    entries-IsLine es times names plain.1 short.1,
  )

  wanted-lines_of :
      (es : List (Entry T))
      → ((t : T) → IsToken 25 (format_time t))
      → ((i : ℕ) → IsToken 63 (name i))
      → ((t : T) → parse_time (format_time t) ≡ some (seconds t))
      → wanted parse_time container (map entry_line es) ≡ lines_of seconds name container es
  unfolding wanted entry_line lines_of is_other
  wanted-lines_of [] times names parses = refl
  wanted-lines_of (e ∷ es) times names parses =
      let parsed =
        parse_line-format_line parse_time (format_time e.time) (name e.pipe) e.text (seconds e.time)
          (times e.time).0 (names e.pipe).0 (parses e.time) in
      rw (parsed, wanted-lines_of es times names parses, wanted)
        (not-swaps (bytes_beq (name e.pipe) container) (lines_of seconds name container es) (
          record { timestamp = seconds e.time; line = e.text }
          ∷ lines_of seconds name container es))

  -- While no goroutine of dispatch is in the middle of a line, a tailF that reads the whole log of
  -- the job for a container sends exactly the lines that its pipes gave so far, with their times
  -- and in the order in which they were read, and nothing of the other containers; for each pipe,
  -- the lines that were read and those left are its lines in order. Times are formatted without
  -- spaces and newlines in at most 25 bytes and parsed back, names have neither and at most 63
  -- bytes; the lines are short enough for the scanner of tailF and end in no carriage return.
  pub tail_f-Reach :
      (pipes : ℕ → List ℕ) {o : Output}
      → ((t : T) → IsToken 25 (format_time t))
      → ((t : T) → parse_time (format_time t) ≡ some (seconds t))
      → ((i : ℕ) → IsToken 63 (name i))
      → ((i : ℕ) → All IsShort (scan (pipes i)).0)
      → Reach format_time name (output pipes) o
      → o.holder ≡ none
      → (es : List (Entry T)) × ((i : ℕ) → texts_of i es ++ o.lines i ≡ (scan (pipes i)).0)
        × (tail_f parse_time container 0 false (contents (scan o.written).0 (scan o.written).1 ∷ [])
            ≡ (lines_of seconds name container es, true))
  unfolding tail_f send_lines
  tail_f-Reach pipes {o} times parses names short r idle =
      let (es, lines, bytes) = Reach-output format_time name pipes r in
      let plain = texts_of-All HasNoNewline es (λ i.
        All-front HasNoNewline (texts_of i es) (o.lines i)
          (subst (All HasNoNewline) (sym (lines i)) (scan-HasNoNewline (pipes i)))) in
      let fit = texts_of-All IsShort es (λ i.
        All-front IsShort (texts_of i es) (o.lines i)
          (subst (All IsShort) (sym (lines i)) (short i))) in
      let written : o.written ≡ unlines (map entry_line es) =
        sym (append-nil o.written)
        ∙ ap (λ h. o.written ++ pending h) (sym idle)
        ∙ bytes
        ∙ formatted-unlines es in
      let read : scan o.written ≡ (map entry_line es, true) =
        ap scan written
        ∙ scan-unlines (map entry_line es) (entries-IsLine es times names plain fit) in
      (es, lines, rw (read, wanted-lines_of es times names parses) refl)
