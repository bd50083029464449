-- ===== src/Examples/JobRuns.antt =====
-- Runs of the dispatch command and of its log file, and of the loops of the controller.
use supernetes.Prelude.{
  String, map, ℕ, ◌≤◌, zero, suc, List, [], ◌∷◌, ◌++◌, Bool, true, false, ◌≡◌, refl, Option, none,
  some, nat_beq, if◌then◌else◌, All, length, arith,
}
use supernetes.Prelude.Texts
use supernetes.Prelude.Texts.{strip_prefix}
use supernetes.Prelude.Dict.{lookup}
use supernetes.Examples.{known_pod, provider_of}
use supernetes.Provider.{ok, get_pod}
use supernetes.Provider.Key.{key_for, key_from}
use supernetes.Provider.Conversion.{workload_meta}
use supernetes.Provider.Handler.{reading}
use supernetes.Provider.Logs.{LogReader, ReadEnd}
use supernetes.Provider.Logs.Draining.{read_all}
use supernetes.Agent.Server.{log_path}
use supernetes.Agent.Server.Answer.{chunk_of}
use supernetes.System.PodLogs.{IsWithin, print_lines, logs_of, logs_of-read_all}
use supernetes.Prelude.Scanner.{scan, split_lines, begin_line, strip_return, tokens}
use supernetes.Agent.Dispatch.{format_line}
use supernetes.Agent.Dispatch.Output.{
  Output, locks, writes, unlocks, output, set_lines, lock_with, write_next, unlock, formatter, act,
  Reach, here, next,
}
use supernetes.Agent.Dispatch.Output.Merging.{Entry, texts_of, formatted, pending, Reach-output}
use supernetes.Agent.LogFiles.{Poll, contents, tail_f}
use supernetes.System.ContainerLogs.{IsToken, IsShort, lines_of, tail_f-Reach}
use supernetes.Controller.Loop.Ticks.{
  State, starts, stop_begins, idle, Place, stop_begin, cancel_last, cancel,
}
use supernetes.Controller.Loop.Ticks
use supernetes.Controller.Loop.Ticks.Stopping.{EndsWithin, Reach-IsSound, Reach-stop_ends}

-- two times, of which one is second 0 and the other second 1
abbrev format_time : Bool → List ℕ
format_time false = b'0' ∷ []
format_time true = b'1' ∷ []

abbrev seconds : Bool → ℕ
seconds false = 0
seconds true = 1

abbrev parse_time : List ℕ → Option ℕ
parse_time [] = none
parse_time (c ∷ cs) = if nat_beq c b'1' then some 1 else some 0

-- the pipes of a container `a`, and those of another one
abbrev name : ℕ → List ℕ
name zero = b'a' ∷ []
name (suc i) = b'b' ∷ []

abbrev pipes : ℕ → List ℕ
pipes zero = b'o' ∷ b'\n' ∷ b'k' ∷ []
pipes (suc i) = []

-- the line is locked for, written in its six bytes, and unlocked after
abbrev after : Output
after = record {
  lines = set_lines 0 ((b'k' ∷ []) ∷ []) (output pipes).lines;
  holder = none;
  written = b'1' ∷ b' ' ∷ b'a' ∷ b' ' ∷ b'o' ∷ b'\n' ∷ [];
}

one_line : Reach format_time name (output pipes) after
unfolding output scan split_lines begin_line tokens strip_return act lock_with write_next unlock
    formatter format_line
one_line =
    next unlocks
      (next writes
        (next writes
          (next writes
            (next writes (next writes (next writes (next (locks 0 true) here refl) refl) refl) refl)
            refl)
          refl)
        refl)
      refl

Reach-output_example :
    (es : List (Entry Bool)) × ((i : ℕ) → texts_of i es ++ after.lines i ≡ (scan (pipes i)).0)
    × (after.written ++ pending after.holder ≡ formatted format_time name es)
Reach-output_example = Reach-output format_time name pipes one_line

is_time : (t : Bool) → IsToken 25 (format_time t)
is_time false = ((refl, tt), (refl, tt), omega arith)
is_time true = ((refl, tt), (refl, tt), omega arith)

parses : (t : Bool) → parse_time (format_time t) ≡ some (seconds t)
parses false = refl
parses true = refl

is_name : (i : ℕ) → IsToken 63 (name i)
is_name zero = ((refl, tt), (refl, tt), omega arith)
is_name (suc i) = ((refl, tt), (refl, tt), omega arith)

short : (i : ℕ) → All IsShort (scan (pipes i)).0
unfolding scan split_lines begin_line tokens strip_return
short zero = ((refl, omega arith), ((refl, omega arith), tt))
short (suc i) = tt

tail_f-Reach_example :
    (es : List (Entry Bool)) × ((i : ℕ) → texts_of i es ++ after.lines i ≡ (scan (pipes i)).0)
    × (tail_f parse_time
          (b'a' ∷ [])
          0
          false
          (contents (scan after.written).0 (scan after.written).1 ∷ [])
        ≡ (lines_of seconds name (b'a' ∷ []) es, true))
tail_f-Reach_example =
    tail_f-Reach seconds format_time parse_time name (b'a' ∷ []) pipes is_time parses is_name short
      one_line refl

-- a reconciler was started and stopped while it reconciled
abbrev stopping : State
stopping = record {
  running = false;
  stopping = true;
  over = false;
  loops = record { place = Place.reconciling; cancelled = true } ∷ [];
}

stopped : Ticks.Reach idle stopping
unfolding Ticks.act Ticks.start stop_begin cancel_last cancel
stopped = Ticks.next stop_begins (Ticks.next starts Ticks.here refl) refl

Reach-IsSound_example : length stopping.loops ≤ 1
Reach-IsSound_example = (Reach-IsSound stopping stopped).0

Reach-stop_ends_example : EndsWithin 3 stopping
Reach-stop_ends_example = Reach-stop_ends stopping stopped refl

-- the job 7 of the pod
abbrev join : String → String → String
join dir file = Texts.◌++◌ dir (Texts.◌++◌ "/" file)

abbrev polls : String → List Poll
polls path = contents (scan after.written).0 (scan after.written).1 ∷ []

within : (i : ℕ) → All (IsWithin 4) (scan (pipes i)).0
unfolding scan split_lines begin_line tokens strip_return
within zero = (omega arith, (omega arith, tt))
within (suc i) = tt

known : get_pod "default" "web" (provider_of known_pod) ≡ ok known_pod
unfolding get_pod key_from key_for lookup
known = refl

placed : log_path join "/io" (workload_meta known_pod).identifier ≡ some "/io/7.out"
unfolding log_path strip_prefix workload_meta lookup
placed = refl

logs_of-read_all_example :
    (es : List (Entry Bool)) × (reader : LogReader) × ((i : ℕ)
      → texts_of i es ++ after.lines i ≡ (scan (pipes i)).0)
    × (logs_of join "/io" parse_time
          (λ s. b'a' ∷ [])
          polls
          "default"
          "web"
          "a"
          (provider_of known_pod)
        ≡ reading reader)
    × (read_all
          (λ t. [])
          (λ k. k)
          (suc (length (map chunk_of (lines_of seconds name (b'a' ∷ []) es))))
          reader
          (0 ∷ 0 ∷ 0 ∷ 0 ∷ [])
        ≡ some (print_lines (lines_of seconds name (b'a' ∷ []) es), ReadEnd.at_eof))
logs_of-read_all_example =
    logs_of-read_all join "/io" parse_time (λ s. b'a' ∷ []) polls seconds format_time name pipes
      "default" "web" "a" "/io/7.out" (provider_of known_pod) known_pod (λ t. []) (λ k. k)
      (0 ∷ 0 ∷ 0 ∷ 0 ∷ []) is_time parses is_name short within (omega arith) one_line refl known
      placed refl
