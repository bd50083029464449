-- ===== src/Controller/Loop.antt =====
-- controller/pkg/reconciler, a loop that can be started and stopped, and the callbacks of
-- controller/pkg/endpoint that do so.
pub mod Running
pub mod Ticks
use supernetes.Prelude.{ℕ, ◌+◌, ◌-◌, Bool, true, false, Option, none, some, nat_beq, if◌then◌else◌}

-- `reconciler`; `loops` counts the goroutines that run a loop.
pub record Reconciler : Type 0 where
  pub running : Bool
  pub loops : ℕ

-- New, of a logger that may be nil and an interval
unfoldable pub make : Bool → ℕ → Option Reconciler
make has_logger interval =
    if has_logger
    then (if nat_beq interval 0 then none else some (record { running = false; loops = 0 }))
    else none

unfoldable pub start : Reconciler → Reconciler
start r = if r.running then r else record { running = true; loops = r.loops + 1 }

-- The last context is cancelled, and all loops are waited for.
unfoldable pub stop : Reconciler → Reconciler
stop r = record { running = false; loops = 0 }

-- The loop ends by itself when the original context is cancelled.
pub data Step : Reconciler → Reconciler → Type 0 where
  starts : (r : Reconciler) → Step r (start r)
  stops : (r : Reconciler) → Step r (stop r)
  ends : (r : Reconciler) → Step r (record r { loops = 0 })

-- the reconcilers that a reconciler becomes
pub data Reach (r : Reconciler) : Reconciler → Type 0 where
  here : Reach r r
  next : {a b : Reconciler} → Reach r a → Step a b → Reach r b

-- `endpoint`: whether it is closing, and the tunnels that are open. The two reconcilers of the
-- controller are those that its callbacks start and stop.
pub record Endpoint : Type 0 where
  pub closing : Bool
  pub tunnels : ℕ
  pub nodes : Reconciler
  pub workloads : Reconciler

unfoldable pub on_connected : Endpoint → Endpoint
unfolding start
on_connected e = record e { nodes = start e.nodes; workloads = start e.workloads }

unfoldable pub on_idle : Endpoint → Endpoint
unfolding stop
on_idle e = record e { nodes = stop e.nodes; workloads = stop e.workloads }

-- OnReverseTunnelOpen: a closing endpoint closes the channel, and the callback runs all the same.
unfoldable pub tunnel_open : Endpoint → Endpoint
unfolding on_connected
tunnel_open e =
    let kept = if e.closing then e else record e { tunnels = e.tunnels + 1 } in on_connected kept

-- OnReverseTunnelClose, after a tunnel was removed
unfoldable pub tunnel_close : Endpoint → Endpoint
unfolding on_idle
tunnel_close e =
    let left = record e { tunnels = e.tunnels - 1 } in
    if nat_beq left.tunnels 0 then on_idle left else left

-- `Close`, up to the closing of the tunnels
unfoldable pub close : Endpoint → Endpoint
close e = record e { closing = true }
