-- ===== src/Controller/Kubelet/Starting/Progress.antt =====
-- Instance.Run: that it returns.
use supernetes.Prelude.{ℕ, String, [], ◌∷◌, ◌++◌, Bool, true, false, ◌≡◌, Option}
use supernetes.Controller.Kubelet.{KubeNode, set_ready}
use supernetes.Controller.Kubelet.Starting.{
  kubelet_server, node_controller, contains_part, Stage, waiting_pods, waiting_server, waiting_node,
  returned, Run, wrap_error, Reach,
}

abbrev pub is_returned : Stage → Bool
is_returned waiting_pods = false
is_returned waiting_server = false
is_returned waiting_node = false
is_returned (returned err) = true

module _ (ctx_err : String) (update_status : KubeNode → Option String) (now : ℕ) where
  -- a step sequence after which the node is marked as ready, by one call more
  abbrev pub CanFinish : Run → Type 0
  CanFinish r =
      (r' : Run) × Reach ctx_err update_status now r r'
      × (r'.stage
          ≡ returned (
              wrap_error (update_status (set_ready now r'.node_spec))
                "error marking node as ready"))
      × (r'.updates ≡ r.updates ++ set_ready now r'.node_spec ∷ [])

  -- What Run waits for was started.
  abbrev IsStarted : Stage → Run → Type 0
  IsStarted waiting_pods r = Unit
  IsStarted waiting_server r =
      (contains_part kubelet_server r.started ≡ true) × (r.enable_kubelet_server ≡ true)
  IsStarted waiting_node r = contains_part node_controller r.started ≡ true
  IsStarted (returned err) r = Unit
