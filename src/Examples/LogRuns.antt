-- ===== src/Examples/LogRuns.antt =====
-- Runs of the log reader.
use supernetes.Prelude.{ℕ, List, [], ◌∷◌, false, ◌≡◌, refl, some, arith}
use supernetes.Prelude.Streams.{Stream, eof, broken, message, messages}
use supernetes.Provider.Logs.{Chunk, Options, LogReader, start_reader, next_chunk, render, read}
use supernetes.Provider.Logs.Draining.{read_all, asked, render_all, end_of, read_all-start_reader}
use supernetes.Provider.Logs.Reading.{read_overwrites_cache}

abbrev chunk : Chunk
chunk = record { timestamp = 1; line = b'o' ∷ b'k' ∷ [] }

-- the reader of one line, with some bytes in its cache
abbrev reader : List ℕ → LogReader
reader cache = record {
  opts = record {
    limit_bytes = 0;
    tail = 0;
    since_seconds = 0;
    since_time = 0;
    timestamps = false;
  };
  chunks = message chunk eof;
  cache = cache;
  count = 0;
  closed = false;
}

abbrev no_format : ℕ → List ℕ
no_format time = []

read_overwrites_cache_example : (read no_format 9 (reader (7 ∷ [])) (0 ∷ 0 ∷ 0 ∷ [])).n ≡ 4
unfolding render
read_overwrites_cache_example =
    (read_overwrites_cache no_format 9 (reader (7 ∷ [])) (0 ∷ 0 ∷ 0 ∷ []) chunk eof (omega arith)
      (unfold next_chunk in refl)).0

-- two lines, of which the options leave out the first, and an error at the end
abbrev two_chunks : Stream Chunk
two_chunks = message (record chunk { timestamp = 0 }) (message chunk broken)

abbrev recent : Options
recent = record { limit_bytes = 0; tail = 0; since_seconds = 0; since_time = 1; timestamps = false }

read_all-start_reader_example :
    read_all no_format (λ k. k) 3 (start_reader two_chunks recent) (0 ∷ 0 ∷ 0 ∷ [])
    ≡ some (render_all no_format recent (asked recent (messages two_chunks)), end_of two_chunks)
unfolding messages render
read_all-start_reader_example =
    read_all-start_reader no_format (λ k. k) 3 recent two_chunks (0 ∷ 0 ∷ 0 ∷ []) refl refl
      (omega arith) (omega arith, (omega arith, tt)) (omega arith)

-- these are the bytes of the second line
second_line :
    render_all no_format recent (asked recent (messages two_chunks)) ≡ b'o' ∷ b'k' ∷ b'\n' ∷ []
unfolding messages render render_all asked
second_line = refl
