-- ===== src/Controller/Nodes.antt =====
-- controller/pkg/node/reconciler.go: one Virtual Kubelet instance for each node of the agent.
pub mod Tracking
pub mod Contexts
use supernetes.Prelude.{
  ℕ, ◌+◌, String, List, [], ◌∷◌, ◌++◌, Bool, true, false, Option, none, some, map, ◌==◌, string_eq,
  if◌then◌else◌, select, not,
}
use supernetes.Prelude.Dict.{Dict, lookup, insert, has}
use supernetes.Prelude.Streams.{Stream, eof, broken, message}
use supernetes.Kube.{Pod}

-- `NodeStatus` of node.proto; the load in hundredths
pub record NodeStatus : Type 0 where
  pub cpu_load : ℕ
  pub ws_bytes : ℕ

pub record Node : Type 0 where
  pub name : String
  pub cpu_count : ℕ
  pub mem_bytes : ℕ
  pub status : NodeStatus

-- The context of an instance: nil, not cancelled, or cancelled, by `stop` or by the instance.
pub data Context : Type 0 where
  unset active cancelled : Context

-- `instance`: `runs` counts the goroutines started for it, each of which calls Run with the context
-- that the instance has then; `statuses` are the calls of
-- UpdateNodeStatus, oldest first.
pub record Instance : Type 0 where
  pub tracked : Bool
  pub node : Node
  pub context : Context
  pub runs : ℕ
  pub statuses : List NodeStatus

unfoldable pub new_instance : Node → Instance
new_instance node = record {
  tracked = true;
  node = node;
  context = Context.unset;
  runs = 0;
  statuses = [];
}

-- context.WithCancel of the context of the reconciler, which may be cancelled already
unfoldable pub derived : Bool → Context
derived over = if over then Context.cancelled else Context.active

-- An instance with a context that is not cancelled is left alone; `over` is whether the context of
-- the reconciler is cancelled.
unfoldable pub start_in : Bool → Context → Instance → Instance
unfolding derived
start_in over Context.active i = i
start_in over _ i = record i { context = derived over; runs = i.runs + 1 }

unfoldable pub start : Bool → Instance → Instance
unfolding start_in
start over i = start_in over i.context i

unfoldable pub stop_in : Context → Instance → Instance
stop_in Context.unset i = i
stop_in _ i = record i { context = Context.cancelled }

unfoldable pub stop : Instance → Instance
unfolding stop_in
stop i = stop_in i.context i

abbrev pub Instances : Type 0
Instances = Dict String Instance

unfoldable pub untrack_all : Instances → Instances
untrack_all [] = []
untrack_all ((name, i) ∷ rest) = (name, record i { tracked = false }) ∷ untrack_all rest

-- the instance of a node that the agent reported
unfoldable pub seen : Node → Option Instance → Instance
unfolding new_instance
seen node none = new_instance node
seen node (some i) = record i { tracked = true }

-- one round of the receive loop
unfoldable pub receive_node : Node → Instances → Instances
unfolding seen lookup insert
receive_node node instances =
    let i = seen node (lookup node.name instances) in
    insert node.name (record i { statuses = i.statuses ++ node.status ∷ [] }) instances

-- the receive loop; `false` is the error of a broken stream
unfoldable pub receive : Stream Node → Instances → Bool × Instances
unfolding receive_node
receive eof instances = (true, instances)
receive broken instances = (false, instances)
receive (message node s) instances = receive s (receive_node node instances)

unfoldable pub settle : Bool → Instance → Instance
unfolding start stop
settle over i = if i.tracked then start over i else stop i

unfoldable pub settle_all : Bool → Instances → Instances
unfolding settle
settle_all over [] = []
settle_all over ((name, i) ∷ rest) = (name, settle over i) ∷ settle_all over rest

unfoldable pub keep_tracked : Instances → Instances
keep_tracked [] = []
keep_tracked ((name, i) ∷ rest) =
    if i.tracked then (name, i) ∷ keep_tracked rest else keep_tracked rest

-- what a reconciliation leaves: whether it succeeded, the instances, and those it dropped
pub record Outcome : Type 0 where
  pub success : Bool
  pub instances : Instances
  pub dropped : Instances

unfoldable pub drop_tracked : Instances → Instances
drop_tracked [] = []
drop_tracked ((name, i) ∷ rest) =
    if i.tracked then drop_tracked rest else (name, i) ∷ drop_tracked rest

-- `nReconciler.Reconcile` with a context that is cancelled or not; `none` is the error of the GetNodes call itself.
unfoldable pub reconcile : Bool → Option (Stream Node) → Instances → Outcome
unfolding untrack_all receive settle_all keep_tracked drop_tracked
reconcile over none instances = record { success = false; instances = instances; dropped = [] }
reconcile over (some stream) instances =
    let (success, received) = receive stream (untrack_all instances) in
    let settled = settle_all over received in
    if success
    then record { success = true; instances = keep_tracked settled; dropped = drop_tracked settled }
    else record { success = false; instances = received; dropped = [] }

-- `nReconcilerAdapter.UpdateStatus`: to the instance of the node of the pod, or nowhere. `update`
-- is the UpdateStatus of an instance.
unfoldable pub update_status {ℓ} :
    {R : Type ℓ} → (Instance → Pod → Bool → R) → R → Pod → Bool → Instances → R
unfolding lookup
update_status update idle pod cache instances =
    if pod.spec.node_name == ""
    then idle
    else elim (lookup pod.spec.node_name instances) [ none ↦ idle | some i ↦ update i pod cache ]
