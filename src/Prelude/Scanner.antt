-- ===== src/Prelude/Scanner.antt =====
-- bufio.Scanner with its default split function, ScanLines, over bytes that end.
use Prim.Native.Nat.{ℕ, ◌<◌}
use mathlib.Core.Path.{◌≡◌, refl}
use mathlib.Core.Logic.{inl, inr}
use mathlib.Core.Bool.{Bool, true, false}
use mathlib.Core.List.{List, [], ◌∷◌, ◌++◌}
use native.Mathlib.Omega.{arith}
use supernetes.Prelude.Tests.{Bool-cases, ltb, nat_beq, if◌then◌else◌}
use supernetes.Prelude.Lists.{All, length}

-- a byte at the front of the first line
unfoldable pub begin_line : ℕ → List (List ℕ) → List (List ℕ)
begin_line c [] = (c ∷ []) ∷ []
begin_line c (l ∷ ls) = (c ∷ l) ∷ ls

-- the texts between newlines; no empty text after the last newline
unfoldable pub split_lines : List ℕ → List (List ℕ)
unfolding begin_line
split_lines [] = []
split_lines (c ∷ cs) =
    let rest = split_lines cs in if nat_beq c b'\n' then [] ∷ rest else begin_line c rest

-- without one carriage return at the end
unfoldable pub strip_return : List ℕ → List ℕ
strip_return [] = []
strip_return (c ∷ []) = if nat_beq c b'\r' then [] else c ∷ []
strip_return (c ∷ d ∷ cs) = let rest = strip_return (d ∷ cs) in c ∷ rest

-- The tokens up to the first line that does not fit into the buffer of 64 KiB with its newline,
-- and whether there is none.
unfoldable pub tokens : List (List ℕ) → List (List ℕ) × Bool
unfolding strip_return
tokens [] = ([], true)
tokens (l ∷ ls) =
    let rest = tokens ls in
    if ltb (length l) 65536 then (strip_return l ∷ rest.0, rest.1) else ([], false)

-- the lines that `Scan` gives, and whether `Err` is nil at the end
unfoldable pub scan : List ℕ → List (List ℕ) × Bool
unfolding split_lines tokens
scan bytes = tokens (split_lines bytes)

abbrev pub HasNoNewline : List ℕ → Type 0
HasNoNewline = All (λ c. nat_beq c b'\n' ≡ false)

-- lines, each with its newline
unfoldable pub unlines : List (List ℕ) → List ℕ
unlines [] = []
unlines (l ∷ ls) = l ++ (b'\n' ∷ unlines ls)

-- a line that a scanner returns as it is
abbrev pub IsLine : List ℕ → Type 0
IsLine l = HasNoNewline l × (strip_return l ≡ l) × (length l < 65536)

split_lines-line :
    (l rest : List ℕ) → HasNoNewline l → split_lines (l ++ (b'\n' ∷ rest)) ≡ l ∷ split_lines rest
unfolding split_lines begin_line
split_lines-line [] rest h = refl
split_lines-line (c ∷ l) rest h = rw (h.0, split_lines-line l rest h.1, split_lines) refl

-- lines that are written one by one are read one by one
pub scan-unlines : (ls : List (List ℕ)) → All IsLine ls → scan (unlines ls) ≡ (ls, true)
unfolding scan unlines tokens
scan-unlines [] h = refl
scan-unlines (l ∷ ls) ((plain, whole, short), h) =
    let fits : ltb (length l) 65536 ≡ true = ground arith in
    rw (split_lines-line l (unlines ls) plain, fits, whole, scan-unlines ls h, tokens) refl

strip_return-HasNoNewline : (l : List ℕ) → HasNoNewline l → HasNoNewline (strip_return l)
unfolding strip_return
strip_return-HasNoNewline [] h = tt
strip_return-HasNoNewline (c ∷ []) h =
    elim (nat_beq c b'\r') as (λ b. HasNoNewline (if b then [] else c ∷ [])) [
      | true ↦ tt
      | false ↦ h
    ]
strip_return-HasNoNewline (c ∷ d ∷ cs) h = (h.0, strip_return-HasNoNewline (d ∷ cs) h.1)

begin_line-HasNoNewline :
    (c : ℕ) (ls : List (List ℕ))
    → nat_beq c b'\n' ≡ false
    → All HasNoNewline ls
    → All HasNoNewline (begin_line c ls)
unfolding begin_line
begin_line-HasNoNewline c [] h all = ((h, tt), tt)
begin_line-HasNoNewline c (l ∷ ls) h all = ((h, all.0), all.1)

split_lines-HasNoNewline : (bytes : List ℕ) → All HasNoNewline (split_lines bytes)
unfolding split_lines
split_lines-HasNoNewline [] = tt
split_lines-HasNoNewline (c ∷ cs) = elim (Bool-cases (nat_beq c b'\n')) [
  | inl end ↦ rw (end, split_lines) (tt, split_lines-HasNoNewline cs)
  | inr plain ↦
      rw (plain, split_lines)
        (begin_line-HasNoNewline c (split_lines cs) plain (split_lines-HasNoNewline cs))
]

tokens-HasNoNewline : (ls : List (List ℕ)) → All HasNoNewline ls → All HasNoNewline (tokens ls).0
unfolding tokens
tokens-HasNoNewline [] h = tt
tokens-HasNoNewline (l ∷ ls) h = elim (Bool-cases (ltb (length l) 65536)) [
  | inl fits ↦ rw (fits, tokens) (strip_return-HasNoNewline l h.0, tokens-HasNoNewline ls h.1)
  | inr long ↦ rw (long, tokens) tt
]

pub scan-HasNoNewline : (bytes : List ℕ) → All HasNoNewline (scan bytes).0
unfolding scan
scan-HasNoNewline bytes = tokens-HasNoNewline (split_lines bytes) (split_lines-HasNoNewline bytes)
