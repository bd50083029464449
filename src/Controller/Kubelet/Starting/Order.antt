-- ===== src/Controller/Kubelet/Starting/Order.antt =====
-- Instance.Run: when the node is marked as ready.
use supernetes.Prelude.{
  chosen, subst, if◌then◌else◌, ℕ, String, [], ◌∷◌, Bool, true, ◌≡◌, refl, ◌⊎◌, inl, inr, Option,
  none, some, Bool-cases,
}
use supernetes.Controller.Kubelet.{KubeNode, Instance, set_ready}
use supernetes.Controller.Kubelet.Starting.{
  Stage, waiting_pods, waiting_server, waiting_node, returned, Branch, ctx_done, ready, done,
  Controller, Run, run, fresh, start_pods, return, start_node, start_server, with_port, on,
  mark_ready, wrap_error, wait_pods, wait_server, wait_node, select, Step, takes, pods_ready,
  pods_done, server_ready, node_ready, node_done, cancels, Reach, here, next,
}

pub port_chosen :
    (server : Option ℕ) (f : ℕ → Run) {r' : Run}
    → elim server as (λ o. Option Run) [ none ↦ none | some port ↦ some (f port) ] ≡ some r'
    → (port : ℕ) × (server ≡ some port) × (f port ≡ r')
port_chosen none f e = absurd (cc e)
port_chosen (some port) f e = (port, refl, cc e)

module _ (ctx_err : String) (update_status : KubeNode → Option String) (now : ℕ) where
  -- the port of the node is that of the server, if there is one to start
  abbrev pub HasPort : Run → Type 0
  HasPort r = r.enable_kubelet_server ≡ true → r.server ≡ some r.node_spec.daemon_port

  -- the node is marked as ready, by one call
  abbrev pub IsMarked : Run → Type 0
  IsMarked r =
      (r.pods.ready ≡ true)
      × (r.node.ready ≡ true)
      × HasPort r
      × (r.updates ≡ set_ready now r.node_spec ∷ [])
      × (r.stage
          ≡ returned (
              wrap_error (update_status (set_ready now r.node_spec)) "error marking node as ready"))

  abbrev pub IsWaiting : Stage → Run → Type 0
  IsWaiting waiting_pods r = r.updates ≡ []
  IsWaiting waiting_server r = (r.updates ≡ []) × (r.pods.ready ≡ true)
  IsWaiting waiting_node r = (r.updates ≡ []) × (r.pods.ready ≡ true) × HasPort r
  IsWaiting (returned err) r = (r.updates ≡ []) ⊎ IsMarked r

  abbrev pub IsOrdered : Run → Type 0
  IsOrdered r = IsWaiting r.stage r

  on-IsOrdered :
      (closed : Bool) (err : Option String) (r : Run) {r' : Run}
      → r.updates ≡ []
      → on closed err r ≡ some r'
      → IsOrdered r'
  unfolding on return
  on-IsOrdered closed err r none_yet e = subst IsOrdered (chosen closed e).1 (inl none_yet)

  begun :
      (r : Run)
      → r.updates ≡ []
      → r.pods.ready ≡ true
      → IsOrdered (if r.enable_kubelet_server then start_server r else start_node r)
  unfolding start_server start_node
  begun r h pods = elim (Bool-cases r.enable_kubelet_server) [
    | inl y ↦ rw y (h, pods)
    | inr n ↦ rw n (h, pods, λ y. absurd cc)
  ]

  pods-IsOrdered :
      (b : Branch) (r : Run) {r' : Run}
      → r.updates ≡ []
      → wait_pods ctx_err update_status now b r ≡ some r'
      → IsOrdered r'
  unfolding wait_pods
  pods-IsOrdered ctx_done r h e = on-IsOrdered r.cancelled (some ctx_err) r h e
  pods-IsOrdered done r h e = on-IsOrdered r.pods.done r.pods.err r h e
  pods-IsOrdered ready r h e =
      let (pods, same) = chosen r.pods.ready e in subst IsOrdered same (begun r h pods)

  server-IsOrdered :
      (b : Branch) (r : Run) {r' : Run}
      → r.updates ≡ []
      → r.pods.ready ≡ true
      → wait_server ctx_err update_status now b r ≡ some r'
      → IsOrdered r'
  unfolding wait_server start_node with_port
  server-IsOrdered ctx_done r h pods e = on-IsOrdered r.cancelled (some ctx_err) r h e
  server-IsOrdered done r h pods e = absurd (cc e)
  server-IsOrdered ready r h pods e =
      let (port, known, same) = port_chosen r.server (λ port. start_node (with_port port r)) e in
      subst IsOrdered same (h, pods, λ y. known)

  node-IsOrdered :
      (b : Branch) (r : Run) {r' : Run}
      → r.updates ≡ []
      → r.pods.ready ≡ true
      → HasPort r
      → wait_node ctx_err update_status now b r ≡ some r'
      → IsOrdered r'
  unfolding wait_node mark_ready return
  node-IsOrdered ctx_done r h pods port e = on-IsOrdered r.cancelled (some ctx_err) r h e
  node-IsOrdered done r h pods port e = on-IsOrdered r.node.done r.node.err r h e
  node-IsOrdered ready r h pods port e =
      let (node, same) = chosen r.node.ready e in
      subst IsOrdered same (inr (pods, node, port, rw h refl, refl))

  select-IsOrdered :
      (stage : Stage) (b : Branch) (r : Run) {r' : Run}
      → IsWaiting stage r
      → select ctx_err update_status now stage b r ≡ some r'
      → IsOrdered r'
  unfolding select
  select-IsOrdered waiting_pods b r h e = pods-IsOrdered b r h e
  select-IsOrdered waiting_server b r h e = server-IsOrdered b r h.0 h.1 e
  select-IsOrdered waiting_node b r h e = node-IsOrdered b r h.0 h.1 h.2 e
  select-IsOrdered (returned err) b r h e = absurd (cc e)

  -- The channels of Run that close stay closed, and the port of the server does not change.
  kept :
      (stage : Stage) (r : Run) (cancelled : Bool) (pods node : Controller) (server : Option ℕ)
      → (r.pods.ready ≡ true → pods.ready ≡ true)
      → (r.node.ready ≡ true → node.ready ≡ true)
      → (HasPort r → r.enable_kubelet_server ≡ true → server ≡ some r.node_spec.daemon_port)
      → IsWaiting stage r
      → IsWaiting stage
          (record r { cancelled = cancelled; pods = pods; node = node; server = server })
  kept waiting_pods r c pods node server p n s h = h
  kept waiting_server r c pods node server p n s h = (h.0, p h.1)
  kept waiting_node r c pods node server p n s h = (h.0, p h.1, s h.2)
  kept (returned err) r c pods node server p n s (inl h) = inl h
  kept (returned err) r c pods node server p n s (inr h) = inr (p h.0, n h.1, s h.2, h.3, h.4)

  Step-IsOrdered : {r r' : Run} → Step ctx_err update_status now r r' → IsOrdered r → IsOrdered r'
  Step-IsOrdered (takes b {r = r} e) h = select-IsOrdered r.stage b r h e
  Step-IsOrdered (pods_ready r) h =
      kept r.stage r r.cancelled (record r.pods { ready = true }) r.node r.server (λ y. refl)
        (λ y. y) (λ y. y) h
  Step-IsOrdered (pods_done r err) h =
      kept r.stage r r.cancelled (record r.pods { done = true; err = err }) r.node r.server (λ y. y)
        (λ y. y) (λ y. y) h
  Step-IsOrdered (server_ready r port started unset) h =
      kept r.stage r r.cancelled r.pods r.node (some port) (λ y. y) (λ y. y)
        (λ port y. absurd (cc (unset, port y))) h
  Step-IsOrdered (node_ready r started) h =
      kept r.stage r r.cancelled r.pods (record r.node { ready = true }) r.server (λ y. y)
        (λ y. refl) (λ y. y) h
  Step-IsOrdered (node_done r err started) h =
      kept r.stage r r.cancelled r.pods (record r.node { done = true; err = err }) r.server (λ y. y)
        (λ y. y) (λ y. y) h
  Step-IsOrdered (cancels r) h =
      kept r.stage r true r.pods r.node r.server (λ y. y) (λ y. y) (λ y. y) h

  pub Reach-IsOrdered :
      {r r' : Run} → Reach ctx_err update_status now r r' → IsOrdered r → IsOrdered r'
  Reach-IsOrdered here h = h
  Reach-IsOrdered (next before step) h = Step-IsOrdered step (Reach-IsOrdered before h)

  once-IsMarked : (stage : Stage) (r : Run) → IsWaiting stage r → (r.updates ≡ []) ⊎ IsMarked r
  once-IsMarked waiting_pods r h = inl h
  once-IsMarked waiting_server r h = inl h.0
  once-IsMarked waiting_node r h = inl h.0
  once-IsMarked (returned err) r h = h

  run-IsOrdered :
      (node_err pods_err : Option String) (i : Instance) → IsOrdered (run node_err pods_err i)
  unfolding run start_pods fresh return
  run-IsOrdered (some err) pods_err i = inl refl
  run-IsOrdered none (some err) i = inl refl
  run-IsOrdered none none i = refl

  -- However the channels close, Run marks the node as ready at most once, and only after the pod
  -- controller and the node controller became ready; the node then has the port of the Kubelet
  -- server if one is to be started, which was ready too. Run returns nil if that call succeeds, and its error
  -- wrapped if it fails.
  pub run-IsMarked :
      (node_err pods_err : Option String) (i : Instance) (r : Run)
      → Reach ctx_err update_status now (run node_err pods_err i) r
      → (r.updates ≡ []) ⊎ IsMarked r
  run-IsMarked node_err pods_err i r reach =
      once-IsMarked r.stage r (Reach-IsOrdered reach (run-IsOrdered node_err pods_err i))
