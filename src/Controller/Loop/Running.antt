-- ===== src/Controller/Loop/Running.antt =====
-- How many loops run.
use supernetes.Prelude.{ℕ, true, false, ◌≡◌, arith, some, ◌≤◌}
use supernetes.Controller.Loop.{
  Reconciler, make, start, stop, Step, starts, stops, ends, Reach, here, next, Endpoint,
  tunnel_open, close,
}

-- A loop runs only while the reconciler is marked as running, and then at most one.
abbrev pub IsSingle : Reconciler → Type 0
IsSingle r = (r.loops ≤ 1) × (r.running ≡ false → r.loops ≡ 0)

Step-IsSingle : {a b : Reconciler} → Step a b → IsSingle a → IsSingle b
unfolding start stop
Step-IsSingle (starts r) h = ground (arith, h.0, h.1)
Step-IsSingle (stops r) h = ground arith
Step-IsSingle (ends r) h = ground arith

kept-IsSingle : {a b : Reconciler} → Reach a b → IsSingle a → IsSingle b
kept-IsSingle here h = h
kept-IsSingle (next before step) h = Step-IsSingle step (kept-IsSingle before h)

-- Whatever calls of Start and Stop are made of a new reconciler, at most one of its loops runs at
-- a time, and none after a Stop until the next Start.
Reach-IsSingle :
    (interval : ℕ) (r s : Reconciler) → make true interval ≡ some r → Reach r s → IsSingle s
unfolding make
Reach-IsSingle interval r s made reach = kept-IsSingle reach (ground (arith, made))

-- An endpoint that is closing closes the channel of an agent that connects, and starts both
-- reconcilers nevertheless.
tunnel_open_closing :
    (e : Endpoint)
    → let after = tunnel_open (close e) in
      (after.tunnels ≡ e.tunnels) × (after.nodes.running ≡ true) × (after.workloads.running ≡ true)
unfolding tunnel_open close
tunnel_open_closing e = ground arith
