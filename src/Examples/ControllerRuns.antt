-- ===== src/Examples/ControllerRuns.antt =====
-- Runs of the control loops of the controller.
use supernetes.Prelude.{List, [], ◌∷◌, true, false, ◌≡◌, refl, some, string_eq, contains, map}
use supernetes.Prelude.Dict.{has, insert, lookup}
use supernetes.Prelude.Streams.{eof, message, messages}
use supernetes.Controller.Kinds.{Gvk, add_gvk}
use supernetes.Controller.Nodes.{
  Node, Instance, Context, reconcile, untrack_all, receive, receive_node, seen, new_instance,
  settle_all, settle, start, start_in, keep_tracked, derived,
}
use supernetes.Controller.Nodes.Tracking.{has-reconcile}
use supernetes.Controller.Nodes.Contexts.{state_of, reconcile-contexts}
use supernetes.Controller.Workloads.{TypedPod, convert_to_pods}
use supernetes.Controller.Workloads.Pods.{gates, convert_to_pods-nodes}
use supernetes.Controller.Loop.{Endpoint}
use supernetes.Examples.{workload_on}

abbrev node : Node
node = record {
  name = "n1";
  cpu_count = 4;
  mem_bytes = 1024;
  status = record { cpu_load = 0; ws_bytes = 0 };
}

has-reconcile_example : has "n1" (reconcile false (some (message node eof)) []).instances ≡ true
unfolding contains messages
has-reconcile_example =
    (has-reconcile false (message node eof) [] "n1" tt (unfold reconcile in refl)).0

-- the instance of a node that is reported for the first time
abbrev kept : Instance
kept = record {
  tracked = true;
  node = node;
  context = Context.active;
  runs = 1;
  statuses = node.status ∷ [];
}

reconcile-contexts_example : state_of kept ≡ (Context.active, 1)
unfolding reconcile untrack_all receive receive_node seen new_instance insert lookup settle_all
    settle start start_in keep_tracked derived
reconcile-contexts_example =
    (reconcile-contexts false (message node eof) [] "n1" kept tt refl).0 refl

abbrev pod_gvk : Gvk
pod_gvk = record { group = ""; version = "v1"; kind = "Pod" }

convert_to_pods-nodes_example :
    (pods : List TypedPod) × (convert_to_pods
        (some (pod_gvk ∷ [], false))
        (workload_on ("a" ∷ "b" ∷ []))
      ≡ some pods)
    × (map (λ p. p.pod.spec.node_name) pods ≡ "a" ∷ "b" ∷ [])
    × (gates pods ≡ [] ∷ [] ∷ [])
convert_to_pods-nodes_example =
    convert_to_pods-nodes (some (pod_gvk ∷ [], false)) pod_gvk (workload_on ("a" ∷ "b" ∷ []))
      (unfold add_gvk in refl)

abbrev idle_endpoint : Endpoint
idle_endpoint = record {
  closing = false;
  tunnels = 0;
  nodes = record { running = false; loops = 0 };
  workloads = record { running = false; loops = 0 };
}
