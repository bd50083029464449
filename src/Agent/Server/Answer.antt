-- ===== src/Agent/Server/Answer.antt =====
-- Logs of agent/pkg/server/workload.go from the request to the chunks, its goroutines left out.
use supernetes.Prelude.{ℕ, String, List, [], ◌∷◌, Bool, Option, none, some, map, if◌then◌else◌}
use supernetes.Prelude.Streams.{Stream, eof, broken, message}
use supernetes.Api.{WorkloadLogRequest}
use supernetes.Provider.Logs.{Chunk}
use supernetes.Agent.LogFiles.{ParsedLine, Poll, tail_f}
use supernetes.Agent.Server.{log_path}

unfoldable pub chunk_of : ParsedLine → Chunk
chunk_of l = record { timestamp = l.timestamp; line = l.line }

-- the chunks, and how the stream ends
unfoldable pub stream_of : List Chunk → Bool → Stream Chunk
stream_of [] fine = if fine then eof else broken
stream_of (c ∷ cs) fine = message c (stream_of cs fine)

-- `Logs`: `join` is path.Join, `utf8` the bytes of a text, and `polls` what the rounds of tailF find
-- at a path.
unfoldable pub answer_logs :
    (String → String → String)
    → String
    → (List ℕ → Option ℕ)
    → (String → List ℕ)
    → (String → List Poll)
    → WorkloadLogRequest
    → Stream Chunk
unfolding log_path tail_f chunk_of stream_of
answer_logs join io_dir parse_time utf8 polls request =
    elim (log_path join io_dir request.meta.identifier) [
      | none ↦ broken
      | some path ↦
          let (lines, fine) =
            tail_f parse_time (utf8 request.container) request.tail request.follow (polls path) in
          stream_of (map chunk_of lines) fine
    ]
