-- ===== src/Agent/Server/Streaming.antt =====
-- Logs of agent/pkg/server/workload.go, after its checks: the handler, the goroutine that tails the
-- file and the goroutine that waits for the controller, with the channels between them.
pub mod Delivery
use supernetes.Prelude.{
  String, List, [], ◌∷◌, ◌++◌, Bool, true, false, not, ◌≡◌, Option, none, some, if◌then◌else◌, ◌&&◌,
}

pub data Error : Type 0 where
  eof : Error
  canceled : Error
  other : String → Error

-- whether Logs still runs, was stopped, or failed to send
pub data Outcome : Type 0 where
  running : Outcome
  stopped : Option Error → Outcome
  send_failed : Error → Outcome

-- The unbuffered channel `lines` is the line that tailF waits to hand over, `stop` the buffer of
-- the channel of size 1. `produced` are the lines that tailF has put to the channel so far.
pub record Streaming (L : Type 0) : Type 0 where
  pub produced : List L
  pub offered : Option L
  pub sent : List L
  pub stop : Option (Option Error)
  pub tail_done : Bool
  pub receive_done : Bool
  pub outcome : Outcome

-- what can happen next, one statement of one goroutine at a time
pub data Action (L : Type 0) : Type 0 where
  offers : L → Action L
  sends : Action L
  fails : Error → Action L
  tail_ends : Option Error → Action L
  receive_ends : Error → Action L
  stops : Action L

-- EOF and the cancellation of the context are expected.
unfoldable pub expected : Option Error → Option Error
expected none = none
expected (some eof) = none
expected (some canceled) = none
expected (some (other message)) = some (other message)

-- `select { case stop <- err: default: }`
unfoldable pub put : Option Error → Option (Option Error) → Option (Option Error)
put err none = some err
put err (some first) = some first

abbrev pub is_running : Outcome → Bool
is_running running = true
is_running (stopped err) = false
is_running (send_failed err) = false

module _ {L : Type 0} where
  unfoldable pub logs : Streaming L
  logs = record {
    produced = [];
    offered = none;
    sent = [];
    stop = none;
    tail_done = false;
    receive_done = false;
    outcome = running;
  }

  -- tailF reaches its next send to `lines`
  unfoldable pub offer : L → Option L → Streaming L → Option (Streaming L)
  offer line (some waiting) s = none
  offer line none s =
      if not s.tail_done
      then some (record s { produced = s.produced ++ line ∷ []; offered = some line })
      else none

  -- the handler receives the line and sends it to the controller
  unfoldable pub send : Option L → Streaming L → Option (Streaming L)
  send none s = none
  send (some line) s =
      if is_running s.outcome
      then some (record s { sent = s.sent ++ line ∷ []; offered = none })
      else none

  unfoldable pub fail : Error → Option L → Streaming L → Option (Streaming L)
  fail err none s = none
  fail err (some line) s =
      if is_running s.outcome
      then some (record s { offered = none; outcome = send_failed err })
      else none

  -- tailF returns, which it cannot while it waits for its line to be received
  unfoldable pub end_tail : Option Error → Option L → Streaming L → Option (Streaming L)
  unfolding put
  end_tail err (some line) s = none
  end_tail err none s =
      if not s.tail_done then some (record s { tail_done = true; stop = put err s.stop }) else none

  unfoldable pub end_receive : Error → Streaming L → Option (Streaming L)
  unfolding put
  end_receive err s =
      if not s.receive_done
      then some (record s { receive_done = true; stop = put (some err) s.stop })
      else none

  -- the handler receives from `stop` and returns
  unfoldable pub stop_with : Option (Option Error) → Streaming L → Option (Streaming L)
  unfolding expected
  stop_with none s = none
  stop_with (some err) s =
      if is_running s.outcome
      then some (record s { stop = none; outcome = stopped (expected err) })
      else none

  unfoldable pub act : Action L → Streaming L → Option (Streaming L)
  unfolding offer send fail end_tail end_receive stop_with
  act (offers line) s = offer line s.offered s
  act sends s = send s.offered s
  act (fails err) s = fail err s.offered s
  act (tail_ends err) s = end_tail err s.offered s
  act (receive_ends err) s = end_receive err s
  act stops s = stop_with s.stop s

  pub data Reach : Streaming L → Streaming L → Type 0 where
    here : {s : Streaming L} → Reach s s
    next : (action : Action L) {s t u : Streaming L} → Reach s t → act action t ≡ some u → Reach s u
