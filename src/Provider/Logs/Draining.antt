-- ===== src/Provider/Logs/Draining.antt =====
-- A caller of logReader.Read that reads to the end, as io.Copy does with its one buffer.
use supernetes.Prelude.{
  ℕ, zero, suc, ◌+◌, ◌≤◌, ◌<◌, min, List, [], ◌∷◌, ◌++◌, true, false, ◌≡◌, refl, sym, subst, ◌∙◌,
  ap, ◌∙◌, Option, none, some, ltb, nat_beq, if◌then◌else◌, All, inl, inr, Bool-cases, length, take,
  drop, arith, length-append, length-take, length-drop, ◌⊎◌, take_all,
}
use supernetes.Prelude.Streams.{Stream, eof, broken, message, messages}
use supernetes.Provider.Logs.{
  Chunk, Options, LogReader, ReadResult, ReadEnd, start_reader, copy, next_chunk, is_old, render,
  receive_line, read_line, handle_limit, read,
}
use supernetes.Provider.Logs.Reading.{drop-length, take_of_take}

-- the bytes of a read, and those of the later ones where it is not the last
unfoldable gather : ReadResult → Option (List ℕ × ReadEnd) → Option (List ℕ × ReadEnd)
gather r later =
    let bytes = take r.n r.buffer in
    elim r.ending [
      | ReadEnd.fine ↦ elim later [
        | none ↦ none
        | some (more, ending) ↦ some (bytes ++ more, ending)
      ]
      | ReadEnd.at_eof ↦ some (bytes, ReadEnd.at_eof)
      | ReadEnd.failed ↦ some (bytes, ReadEnd.failed)
      | ReadEnd.panicked ↦ some ([], ReadEnd.panicked)
    ]

-- The bytes that at most `fuel` reads into the buffer `p` give, and how the last of them ends;
-- nothing where the end is not reached. `clock` tells the time of each read.
unfoldable pub read_all :
    (ℕ → List ℕ) → (ℕ → ℕ) → ℕ → LogReader → List ℕ → Option (List ℕ × ReadEnd)
unfolding read gather
read_all format clock zero l p = none
read_all format clock (suc fuel) l p =
    let r = read format (clock fuel) l p in gather r (read_all format clock fuel r.reader r.buffer)

-- the lines that options without `sinceSeconds` ask for
unfoldable pub asked : Options → List Chunk → List Chunk
asked opts [] = []
asked opts (c ∷ chunks) =
    let rest = asked opts chunks in
    if ltb 0 opts.tail then c ∷ rest else if ltb c.timestamp opts.since_time then rest else c ∷ rest

unfoldable pub render_all : (ℕ → List ℕ) → Options → List Chunk → List ℕ
unfolding render
render_all format opts [] = []
render_all format opts (c ∷ chunks) = render format opts c ++ render_all format opts chunks

unfoldable pub end_of : Stream Chunk → ReadEnd
end_of eof = ReadEnd.at_eof
end_of broken = ReadEnd.failed
end_of (message c chunks) = end_of chunks

-- no line is longer than the buffer
abbrev pub IsFitting : (ℕ → List ℕ) → Options → ℕ → List Chunk → Type 0
IsFitting format opts size = All (λ c. length (render format opts c) ≤ size)

abbrev at : Options → ℕ → Stream Chunk → LogReader
at opts count chunks = record {
  opts = opts;
  chunks = chunks;
  cache = [];
  count = count;
  closed = false;
}

module _ (format : ℕ → List ℕ) (opts : Options) where
  received :
      (q : List ℕ) (count : ℕ) (c : Chunk) (chunks old : Stream Chunk)
      → opts.limit_bytes ≡ 0
      → length (render format opts c) ≤ length q
      → handle_limit (receive_line format (at opts count old) q 0 (message c chunks)) ≡ record {
        reader = at opts (count + length (render format opts c)) chunks;
        buffer =
            take (length (render format opts c)) (render format opts c)
            ++ drop (length (render format opts c)) q;
        n = length (render format opts c);
        ending = ReadEnd.fine;
      }
  unfolding receive_line copy handle_limit
  received q count c chunks old unlimited fits =
      let b = render format opts c in
      let all : min (length q) (length b) ≡ length b = omega arith in
      let sum : 0 + length b ≡ length b = omega arith in
      rw (all, drop-length b, unlimited, sum, handle_limit) refl

  -- a read with nothing in the cache
  read-next :
      (now count : ℕ) (p : List ℕ) (chunks : Stream Chunk)
      → 0 < length p
      → read format now (at opts count chunks) p
        ≡ handle_limit (receive_line format (at opts count chunks) p 0 (next_chunk now opts chunks))
  unfolding read read_line copy
  read-next now count p chunks room =
      let none_cached : min (length p) 0 ≡ 0 = omega arith in
      let more : nat_beq 0 (length p) ≡ false = ground arith in
      rw (none_cached, more, read_line) refl

  receive_line-chunks :
      (q : List ℕ) (count : ℕ) (old old2 chunks : Stream Chunk)
      → receive_line format (at opts count old) q 0 chunks
        ≡ receive_line format (at opts count old2) q 0 chunks
  unfolding receive_line
  receive_line-chunks q count old old2 eof = refl
  receive_line-chunks q count old old2 broken = refl
  receive_line-chunks q count old old2 (message c chunks) = refl

  -- a chunk that the loop leaves out
  read_all-skips :
      (clock : ℕ → ℕ) (fuel count : ℕ) (p : List ℕ) (c : Chunk) (chunks : Stream Chunk)
      → 0 < length p
      → ((now : ℕ) → next_chunk now opts (message c chunks) ≡ next_chunk now opts chunks)
      → read_all format clock fuel (at opts count (message c chunks)) p
        ≡ read_all format clock fuel (at opts count chunks) p
  unfolding read_all
  read_all-skips clock zero count p c chunks room skips = refl
  read_all-skips clock (suc fuel) count p c chunks room skips =
      let same : read format (clock fuel) (at opts count (message c chunks)) p
          ≡ read format (clock fuel) (at opts count chunks) p =
        read-next (clock fuel) count p (message c chunks) room
        ∙ ap (λ s. handle_limit (receive_line format (at opts count (message c chunks)) p 0 s))
            (skips (clock fuel))
        ∙ ap handle_limit (
            receive_line-chunks p count (message c chunks) chunks
              (next_chunk (clock fuel) opts chunks))
        ∙ sym (read-next (clock fuel) count p chunks room) in
      ap (λ r. gather r (read_all format clock fuel r.reader r.buffer)) same

  -- a chunk that is read
  read_all-takes :
      (clock : ℕ → ℕ) (fuel count : ℕ) (p : List ℕ) (c : Chunk) (chunks : Stream Chunk)
      → opts.limit_bytes ≡ 0
      → 0 < length p
      → length (render format opts c) ≤ length p
      → next_chunk (clock fuel) opts (message c chunks) ≡ message c chunks
      → (bytes : List ℕ) (ending : ReadEnd)
      → ((q : List ℕ)
          → length q ≡ length p
          → read_all format clock fuel (at opts (count + length (render format opts c)) chunks) q
            ≡ some (bytes, ending))
      → read_all format clock (suc fuel) (at opts count (message c chunks)) p
        ≡ some (render format opts c ++ bytes, ending)
  unfolding read_all
  read_all-takes clock fuel count p c chunks unlimited room fits e bytes ending later =
      let b = render format opts c in
      let buffer = take (length b) b ++ drop (length b) p in
      let step =
        read-next (clock fuel) count p (message c chunks) room
        ∙ ap (λ s. handle_limit (receive_line format (at opts count (message c chunks)) p 0 s)) e
        ∙ received p count c chunks (message c chunks) unlimited fits in
      let size : length buffer ≡ length p = omega (
        arith,
        length-append (take (length b) b) (drop (length b) p),
        length-take (length b) b,
        length-drop (length b) p,
      ) in
      let front : take (length b) buffer ≡ b =
        take_of_take (length b) b (drop (length b) p) (omega arith)
        ∙ take_all (length b) b (omega arith) in
      ap (λ r. gather r (read_all format clock fuel r.reader r.buffer)) step
      ∙ rw (later buffer size, front) refl

  next_chunk-taken :
      (now : ℕ) (c : Chunk) (chunks : Stream Chunk)
      → opts.since_seconds ≡ 0
      → (ltb 0 opts.tail ≡ true) ⊎ (ltb c.timestamp opts.since_time ≡ false)
      → next_chunk now opts (message c chunks) ≡ message c chunks
  unfolding next_chunk is_old
  next_chunk-taken now c chunks all (inl tail) = rw (tail, next_chunk) refl
  next_chunk-taken now c chunks all (inr recent) = ground arith

  next_chunk-skipped :
      (now : ℕ) (c : Chunk) (chunks : Stream Chunk)
      → ltb 0 opts.tail ≡ false
      → ltb c.timestamp opts.since_time ≡ true
      → next_chunk now opts (message c chunks) ≡ next_chunk now opts chunks
  unfolding next_chunk is_old
  next_chunk-skipped now c chunks no_tail old = ground arith

  drained :
      (clock : ℕ → ℕ) (fuel count : ℕ) (p : List ℕ) (chunks : Stream Chunk)
      → opts.limit_bytes ≡ 0
      → opts.since_seconds ≡ 0
      → 0 < length p
      → IsFitting format opts (length p) (messages chunks)
      → length (messages chunks) < fuel
      → read_all format clock fuel (at opts count chunks) p
        ≡ some (render_all format opts (asked opts (messages chunks)), end_of chunks)
  unfolding read_all render_all asked end_of gather handle_limit receive_line next_chunk messages
  drained clock zero count p chunks unlimited all room fit enough = absurd (omega arith)
  drained clock (suc fuel) count p eof unlimited all room fit enough =
      ap (λ r. gather r (read_all format clock fuel r.reader r.buffer))
        (read-next (clock fuel) count p eof room)
      ∙ rw (unlimited, handle_limit) refl
  drained clock (suc fuel) count p broken unlimited all room fit enough =
      ap (λ r. gather r (read_all format clock fuel r.reader r.buffer))
        (read-next (clock fuel) count p broken room)
      ∙ rw (unlimited, handle_limit) refl
  drained clock (suc fuel) count p (message c chunks) unlimited all room fit enough =
      let taken : (ltb 0 opts.tail ≡ true) ⊎ (ltb c.timestamp opts.since_time ≡ false)
          → read_all format clock (suc fuel) (at opts count (message c chunks)) p
            ≡ some (
              render format opts c ++ render_all format opts (asked opts (messages chunks)),
              end_of chunks,
            ) =
        λ h.
          read_all-takes clock fuel count p c chunks unlimited room fit.0
            (next_chunk-taken (clock fuel) c chunks all h)
            (render_all format opts (asked opts (messages chunks))) (end_of chunks)
            (λ q same.
              drained clock fuel (count + length (render format opts c)) q chunks unlimited all
                (omega arith)
                (subst (λ n. IsFitting format opts n (messages chunks)) (sym same) fit.1)
                (omega arith)) in
      elim (Bool-cases (ltb 0 opts.tail)) [
        | inl tail ↦ taken (inl tail) ∙ rw (tail, asked) refl
        | inr no_tail ↦ elim (Bool-cases (ltb c.timestamp opts.since_time)) [
          | inr recent ↦ taken (inr recent) ∙ rw (no_tail, recent, asked) refl
          | inl old ↦
              read_all-skips clock (suc fuel) count p c chunks room
                (λ now. next_chunk-skipped now c chunks no_tail old)
              ∙ drained clock (suc fuel) count p chunks unlimited all room fit.1 (omega arith)
              ∙ rw (no_tail, old, asked) refl
        ]
      ]

-- A caller that reads the log to the end with a buffer that fits every line, without a limit of
-- bytes and without `sinceSeconds`, gets exactly the lines asked for, in order, and then EOF or
-- the error of the stream; it takes at most one read more than there are chunks.
pub read_all-start_reader :
    (format : ℕ → List ℕ) (clock : ℕ → ℕ) (fuel : ℕ) (opts : Options) (chunks : Stream Chunk)
    (p : List ℕ)
    → opts.limit_bytes ≡ 0
    → opts.since_seconds ≡ 0
    → 0 < length p
    → IsFitting format opts (length p) (messages chunks)
    → length (messages chunks) < fuel
    → read_all format clock fuel (start_reader chunks opts) p
      ≡ some (render_all format opts (asked opts (messages chunks)), end_of chunks)
unfolding start_reader
read_all-start_reader format clock fuel opts chunks p = drained format opts clock fuel 0 p chunks
