-- ===== src/System/PodLogs.antt =====
-- The logs of a pod, from the output of the containers of its job to the bytes that are read of
-- GetContainerLogs: dispatch, the workload server, the pod provider and the log reader together.
use supernetes.Prelude.{
  ℕ, ◌<◌, String, suc, List, [], ◌∷◌, ◌++◌, Bool, true, false, ◌≡◌, refl, sym, ap, ◌∙◌, subst,
  Option, none, some, map, ltb, All, arith, length, length-append, Bool-cases, inl, inr,
}
use supernetes.Prelude.Scanner.{scan}
use supernetes.Prelude.Streams.{messages}
use supernetes.Kube.{Pod}
use supernetes.Provider.{Provider, ok, get_pod}
use supernetes.Provider.Conversion.{workload_meta}
use supernetes.Provider.Handler.{
  Logs, reading, to_int32, log_request, get_container_logs, open_stream, send_request,
}
use supernetes.Provider.Logs.{Chunk, Options, render, start_reader, LogReader, ReadEnd}
use supernetes.Provider.Logs.Draining.{
  read_all, asked, render_all, end_of, IsFitting, read_all-start_reader,
}
use supernetes.Agent.Dispatch.Output.{Output, output, Reach}
use supernetes.Agent.Dispatch.Output.Merging.{Entry, texts_of}
use supernetes.Agent.LogFiles.{ParsedLine, bytes_beq, contents, tail_f, Poll}
use supernetes.Agent.Server.{log_path}
use supernetes.Agent.Server.Answer.{chunk_of, stream_of, answer_logs}
use supernetes.System.ContainerLogs.{
  IsToken, IsShort, lines_of, texts_of-All, All-front, tail_f-Reach,
}

messages-stream_of : (cs : List Chunk) → messages (stream_of cs true) ≡ cs
unfolding messages stream_of
messages-stream_of [] = refl
messages-stream_of (c ∷ cs) = ap (λ t. c ∷ t) (messages-stream_of cs)

end_of-stream_of : (cs : List Chunk) → end_of (stream_of cs true) ≡ ReadEnd.at_eof
unfolding end_of stream_of
end_of-stream_of [] = refl
end_of-stream_of (c ∷ cs) = end_of-stream_of cs

-- a line that fits into a buffer, with its newline
abbrev pub IsWithin : ℕ → List ℕ → Type 0
IsWithin size line = length line < size

-- options that ask for everything, without timestamps
abbrev pub everything : Options
everything = record {
  limit_bytes = 0;
  tail = 0;
  since_seconds = 0;
  since_time = 0;
  timestamps = false;
}

-- the bytes of lines, each with its newline
unfoldable pub print_lines : List ParsedLine → List ℕ
print_lines [] = []
print_lines (l ∷ ls) = (l.line ++ (b'\n' ∷ [])) ++ print_lines ls

render_all-asked :
    (format : ℕ → List ℕ) (ls : List ParsedLine)
    → render_all format everything (asked everything (map chunk_of ls)) ≡ print_lines ls
unfolding render_all asked chunk_of print_lines render
render_all-asked format [] = refl
render_all-asked format (l ∷ ls) =
    let young : ltb l.timestamp 0 ≡ false = ground arith in
    rw (young, asked) (ap (λ t. (l.line ++ (b'\n' ∷ [])) ++ t) (render_all-asked format ls))

lines_of-IsFitting :
    {T : Type 0} (seconds : T → ℕ) (name : ℕ → List ℕ) (container : List ℕ) (format : ℕ → List ℕ)
    (size : ℕ) (es : List (Entry T))
    → All (λ e. IsWithin size e.text) es
    → IsFitting format everything size (map chunk_of (lines_of seconds name container es))
unfolding lines_of chunk_of render
lines_of-IsFitting seconds name container format size [] h = tt
lines_of-IsFitting seconds name container format size (e ∷ es) h =
    elim (Bool-cases (bytes_beq (name e.pipe) container)) [
      | inl mine ↦
          rw (mine, lines_of)
            (
              omega (arith, h.0, length-append e.text (b'\n' ∷ [])),
              lines_of-IsFitting seconds name container format size es h.1,
            )
      | inr other ↦
          rw (other, lines_of) (lines_of-IsFitting seconds name container format size es h.1)
    ]

-- a caller that reads all chunks of these lines, and then EOF
read_all-lines :
    (format : ℕ → List ℕ) (clock : ℕ → ℕ) (ls : List ParsedLine) (buffer : List ℕ)
    → 0 < length buffer
    → IsFitting format everything (length buffer) (map chunk_of ls)
    → read_all format clock
        (suc (length (map chunk_of ls)))
        (start_reader (stream_of (map chunk_of ls) true) everything)
        buffer
      ≡ some (print_lines ls, ReadEnd.at_eof)
read_all-lines format clock ls buffer room fit =
    let chunks = stream_of (map chunk_of ls) true in
    let back = messages-stream_of (map chunk_of ls) in
    let enough : length (messages chunks) < suc (length (map chunk_of ls)) =
      subst (λ cs. length cs < suc (length (map chunk_of ls))) (sym back) (omega arith) in
    read_all-start_reader format clock (suc (length (map chunk_of ls))) everything chunks buffer
      refl refl room (subst (IsFitting format everything (length buffer)) (sym back) fit) enough
    ∙ ap (λ cs. some (render_all format everything (asked everything cs), end_of chunks)) back
    ∙ ap (λ e. some (render_all format everything (asked everything (map chunk_of ls)), e))
        (end_of-stream_of (map chunk_of ls))
    ∙ ap (λ bytes. some (bytes, ReadEnd.at_eof)) (render_all-asked format ls)

module _ (join : String → String → String) (io_dir : String) (parse_time : List ℕ → Option ℕ)
    (utf8 : String → List ℕ) (polls : String → List Poll) where
  -- The provider asks the agent, which has no error, for all the logs of a container.
  abbrev pub logs_of : String → String → String → Provider → Logs
  logs_of namespace pod_name container p =
      get_container_logs none (λ request. none) (answer_logs join io_dir parse_time utf8 polls)
        namespace pod_name container false everything p

  answer_logs-sent :
      (container path : String) (pod : Pod) (found : List (List ℕ)) (fine : Bool)
      (ls : List ParsedLine)
      → log_path join io_dir (workload_meta pod).identifier ≡ some path
      → polls path ≡ contents found fine ∷ []
      → tail_f parse_time (utf8 container) 0 false (contents found fine ∷ []) ≡ (ls, true)
      → answer_logs join io_dir parse_time utf8 polls (log_request pod container false everything)
        ≡ stream_of (map chunk_of ls) true
  unfolding log_request to_int32 answer_logs
  answer_logs-sent container path pod found fine ls placed file sent =
      rw (placed, answer_logs, file, sent) refl

  logs_of-reading :
      (namespace pod_name container path : String) (p : Provider) (pod : Pod)
      (found : List (List ℕ)) (fine : Bool) (ls : List ParsedLine)
      → get_pod namespace pod_name p ≡ ok pod
      → log_path join io_dir (workload_meta pod).identifier ≡ some path
      → polls path ≡ contents found fine ∷ []
      → tail_f parse_time (utf8 container) 0 false (contents found fine ∷ []) ≡ (ls, true)
      → logs_of namespace pod_name container p
        ≡ reading (start_reader (stream_of (map chunk_of ls) true) everything)
  unfolding get_container_logs open_stream send_request
  logs_of-reading namespace pod_name container path p pod found fine ls known placed file sent =
      rw (known, get_container_logs)
        (ap (λ chunks. reading (start_reader chunks everything))
          (answer_logs-sent container path pod found fine ls placed file sent))

  -- What is read of the logs of a container of a pod, from GetContainerLogs to EOF, is exactly the
  -- lines that the pipes of the container gave so far, each with a newline and in the order in
  -- which they were read; for each pipe these and the lines left are its lines in order. The
  -- options ask for everything; the provider knows the pod, the agent finds the log of its job,
  -- and no goroutine of dispatch is in the middle of a line. Times, names and lines are as tailF
  -- needs them, and lines fit into the buffer of the caller.
  pub logs_of-read_all :
      {T : Type 0} (seconds : T → ℕ) (format_time : T → List ℕ) (name : ℕ → List ℕ)
      (pipes : ℕ → List ℕ) {o : Output} (namespace pod_name container path : String) (p : Provider)
      (pod : Pod) (format : ℕ → List ℕ) (clock : ℕ → ℕ) (buffer : List ℕ)
      → ((t : T) → IsToken 25 (format_time t))
      → ((t : T) → parse_time (format_time t) ≡ some (seconds t))
      → ((i : ℕ) → IsToken 63 (name i))
      → ((i : ℕ) → All IsShort (scan (pipes i)).0)
      → ((i : ℕ) → All (IsWithin (length buffer)) (scan (pipes i)).0)
      → 0 < length buffer
      → Reach format_time name (output pipes) o
      → o.holder ≡ none
      → get_pod namespace pod_name p ≡ ok pod
      → log_path join io_dir (workload_meta pod).identifier ≡ some path
      → polls path ≡ contents (scan o.written).0 (scan o.written).1 ∷ []
      → (es : List (Entry T)) × (reader : LogReader) × ((i : ℕ)
          → texts_of i es ++ o.lines i ≡ (scan (pipes i)).0)
        × (logs_of namespace pod_name container p ≡ reading reader)
        × (read_all format clock
              (suc (length (map chunk_of (lines_of seconds name (utf8 container) es))))
              reader
              buffer
            ≡ some (print_lines (lines_of seconds name (utf8 container) es), ReadEnd.at_eof))
  logs_of-read_all seconds format_time name pipes {o = o} namespace pod_name container path p pod
        format clock buffer times parses names short within room r idle known placed file =
      let (es, lines, sent) =
        tail_f-Reach seconds format_time parse_time name (utf8 container) pipes times parses names
          short r idle in
      let ls = lines_of seconds name (utf8 container) es in
      let fit = texts_of-All (IsWithin (length buffer)) es (λ i.
        All-front (IsWithin (length buffer)) (texts_of i es) (o.lines i)
          (subst (All (IsWithin (length buffer))) (sym (lines i)) (within i))) in
      (
        es,
        start_reader (stream_of (map chunk_of ls) true) everything,
        lines,
        logs_of-reading namespace pod_name container path p pod (scan o.written).0
            (scan o.written).1 ls known placed file sent,
        read_all-lines format clock ls buffer room
            (lines_of-IsFitting seconds name (utf8 container) format (length buffer) es fit),
      )
