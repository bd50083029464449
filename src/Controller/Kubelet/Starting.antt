-- ===== src/Controller/Kubelet/Starting.antt =====
-- Instance.Run of controller/pkg/vk/instance.go: the pod controller, the Kubelet server and the
-- node controller are started one after the other, each when the one before it is ready.
pub mod Order
pub mod Progress
use supernetes.Prelude.{
  ℕ, String, List, [], ◌∷◌, ◌++◌, Bool, true, false, ◌≡◌, Option, none, some, if◌then◌else◌, ◌||◌,
}
use supernetes.Prelude.Texts
use supernetes.Controller.Kubelet.{KubeNode, Instance, set_ready}

-- what Run starts in a goroutine of its own
pub data Part : Type 0 where
  pod_controller kubelet_server node_controller : Part

unfoldable pub part_beq : Part → Part → Bool
part_beq pod_controller pod_controller = true
part_beq kubelet_server kubelet_server = true
part_beq node_controller node_controller = true
part_beq pod_controller kubelet_server = false
part_beq pod_controller node_controller = false
part_beq kubelet_server pod_controller = false
part_beq kubelet_server node_controller = false
part_beq node_controller pod_controller = false
part_beq node_controller kubelet_server = false

unfoldable pub contains_part : Part → List Part → Bool
unfolding part_beq
contains_part part [] = false
contains_part part (p ∷ ps) = part_beq part p || contains_part part ps

-- A controller of Virtual Kubelet, as Run sees it: its channels Ready and Done, and Err.
pub record Controller : Type 0 where
  pub ready : Bool
  pub done : Bool
  pub err : Option String

-- the select statement that Run is at, or the error that it has returned
pub data Stage : Type 0 where
  waiting_pods : Stage
  waiting_server : Stage
  waiting_node : Stage
  returned : Option String → Stage

-- A run of an instance; `updates` are the calls of UpdateStatus of the node provider, `server` is
-- the port of the Kubelet server once its channel Ready is closed.
pub record Run : Type 0 where
  pub stage : Stage
  pub cancelled : Bool
  pub enable_kubelet_server : Bool
  pub pods : Controller
  pub server : Option ℕ
  pub node : Controller
  pub node_spec : KubeNode
  pub started : List Part
  pub updates : List KubeNode

unfoldable pub idle : Controller
idle = record { ready = false; done = false; err = none }

-- the start of Run; `cfg` is a copy of the configuration of the instance.
unfoldable pub fresh : Instance → Run
unfolding idle
fresh i = record {
  stage = waiting_pods;
  cancelled = false;
  enable_kubelet_server = i.enable_kubelet_server;
  pods = idle;
  server = none;
  node = idle;
  node_spec = i.node_spec;
  started = [];
  updates = [];
}

unfoldable pub return : Option String → Run → Run
return err r = record r { stage = returned err }

unfoldable pub start_pods : Run → Run
start_pods r = record r { started = r.started ++ pod_controller ∷ [] }

-- `errors.Wrap`
unfoldable pub wrapped : String → String → String
wrapped err message = Texts.◌++◌ message (Texts.◌++◌ ": " err)

-- `errors.Wrap` of an error that may be nil
unfoldable pub wrap_error : Option String → String → Option String
unfolding wrapped
wrap_error none message = none
wrap_error (some err) message = some (wrapped err message)

-- Run up to its first select statement; the arguments are the errors of NewNodeController and
-- NewPodController.
unfoldable pub run : Option String → Option String → Instance → Run
unfolding fresh return start_pods wrapped
run (some err) pods_err i = return (some (wrapped err "creating node controller failed")) (fresh i)
run none (some err) i = return (some (wrapped err "creating pod controller failed")) (fresh i)
run none none i = start_pods (fresh i)

-- the branches of the select statements
pub data Branch : Type 0 where
  ctx_done ready done : Branch

unfoldable pub start_node : Run → Run
start_node r = record r { stage = waiting_node; started = r.started ++ node_controller ∷ [] }

unfoldable pub start_server : Run → Run
start_server r = record r { stage = waiting_server; started = r.started ++ kubelet_server ∷ [] }

unfoldable pub with_port : ℕ → Run → Run
with_port port r = record r { node_spec = record r.node_spec { daemon_port = port } }

-- a branch that returns an error if its channel is closed
unfoldable pub on : Bool → Option String → Run → Option Run
unfolding return
on closed err r = if closed then some (return err r) else none

-- `ctx_err` is what ctx.Err returns of a cancelled context, `update_status` the answer of the node
-- provider, and `now` the time.
module _ (ctx_err : String) (update_status : KubeNode → Option String) (now : ℕ) where
  unfoldable pub mark_ready : Run → Run
  unfolding return set_ready wrap_error
  mark_ready r =
      let node_ready = set_ready now r.node_spec in
      return (wrap_error (update_status node_ready) "error marking node as ready")
        (record r { updates = r.updates ++ node_ready ∷ [] })

  -- the three select statements: the state after a branch, or nothing if it cannot be taken
  unfoldable pub wait_pods : Branch → Run → Option Run
  unfolding on start_server start_node
  wait_pods ctx_done r = on r.cancelled (some ctx_err) r
  wait_pods done r = on r.pods.done r.pods.err r
  wait_pods ready r =
      if r.pods.ready
      then some (if r.enable_kubelet_server then start_server r else start_node r)
      else none

  unfoldable pub wait_server : Branch → Run → Option Run
  unfolding on with_port start_node
  wait_server ctx_done r = on r.cancelled (some ctx_err) r
  wait_server done r = none
  wait_server ready r = elim r.server [
    | none ↦ none
    | some port ↦ some (start_node (with_port port r))
  ]

  unfoldable pub wait_node : Branch → Run → Option Run
  unfolding on mark_ready
  wait_node ctx_done r = on r.cancelled (some ctx_err) r
  wait_node done r = on r.node.done r.node.err r
  wait_node ready r = if r.node.ready then some (mark_ready r) else none

  unfoldable pub select : Stage → Branch → Run → Option Run
  unfolding wait_pods wait_server wait_node
  select waiting_pods b r = wait_pods b r
  select waiting_server b r = wait_server b r
  select waiting_node b r = wait_node b r
  select (returned err) b r = none

  -- One step of a run: Run takes a branch; a part that was started becomes ready; a controller
  -- that was started ends with an error or without; or the context is cancelled, by the caller or
  -- by the deferred call of a goroutine that ends.
  pub data Step : Run → Run → Type 0 where
    takes : (b : Branch) {r r' : Run} → select r.stage b r ≡ some r' → Step r r'
    pods_ready : (r : Run) → Step r (record r { pods = record r.pods { ready = true } })
    pods_done :
        (r : Run) (err : Option String)
        → Step r (record r { pods = record r.pods { done = true; err = err } })
    server_ready :
        (r : Run) (port : ℕ)
        → contains_part kubelet_server r.started ≡ true
        → r.server ≡ none
        → Step r (record r { server = some port })
    node_ready :
        (r : Run)
        → contains_part node_controller r.started ≡ true
        → Step r (record r { node = record r.node { ready = true } })
    node_done :
        (r : Run) (err : Option String)
        → contains_part node_controller r.started ≡ true
        → Step r (record r { node = record r.node { done = true; err = err } })
    cancels : (r : Run) → Step r (record r { cancelled = true })

  pub data Reach : Run → Run → Type 0 where
    here : {r : Run} → Reach r r
    next : {r s t : Run} → Reach r s → Step s t → Reach r t
