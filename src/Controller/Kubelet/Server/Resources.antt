-- ===== src/Controller/Kubelet/Server/Resources.antt =====
-- KubeletServer.Run: what it releases, and when it is ready.
use supernetes.Prelude.{ℕ, String, List, [], ◌∷◌, Bool, true, false, ◌≡◌, refl, Option, none, some}
use supernetes.Controller.Kubelet.Server.{
  Listening, listening, failed, Serving, server_closed, broken, Calls, Effect, opened, closed,
  started_manager, stopped_manager, called_auth, marked_ready, served, serve, authenticate,
  certificate_wait, with_manager, run_server,
}

-- the resources held after some effects, if each is taken and released in turn
pub data Held : Type 0 where
  nothing : Held
  listener : Held
  manager : Held
  confused : Held

unfoldable hold : Effect → Held → Held
hold opened nothing = listener
hold opened listener = confused
hold opened manager = confused
hold opened confused = confused
hold started_manager listener = manager
hold started_manager nothing = confused
hold started_manager manager = confused
hold started_manager confused = confused
hold stopped_manager manager = listener
hold stopped_manager nothing = confused
hold stopped_manager listener = confused
hold stopped_manager confused = confused
hold closed listener = nothing
hold closed nothing = confused
hold closed manager = confused
hold closed confused = confused
hold called_auth h = h
hold (marked_ready port) manager = manager
hold (marked_ready port) nothing = confused
hold (marked_ready port) listener = confused
hold (marked_ready port) confused = confused
hold served manager = manager
hold served nothing = confused
hold served listener = confused
hold served confused = confused

unfoldable pub held : List Effect → Held → Held
unfolding hold
held [] h = h
held (e ∷ es) h = held es (hold e h)

-- the ports with which the server was marked as ready
unfoldable pub ready_ports : List Effect → List ℕ
ready_ports [] = []
ready_ports (opened ∷ es) = ready_ports es
ready_ports (closed ∷ es) = ready_ports es
ready_ports (started_manager ∷ es) = ready_ports es
ready_ports (stopped_manager ∷ es) = ready_ports es
ready_ports (called_auth ∷ es) = ready_ports es
ready_ports (marked_ready port ∷ es) = port ∷ ready_ports es
ready_ports (served ∷ es) = ready_ports es

-- the ports with which it should be
unfoldable pub intended_ports :
    Bool → Listening → Option String → Option String → Option String → List ℕ
intended_ports disable_auth (failed err) m c a = []
intended_ports disable_auth (listening port) (some err) c a = []
intended_ports disable_auth (listening port) none (some err) a = []
intended_ports true (listening port) none none a = port ∷ []
intended_ports false (listening port) none none (some err) = []
intended_ports false (listening port) none none none = port ∷ []

by_cases :
    (disable_auth : Bool) (l : Listening) (m c a : Option String) (s : Serving)
    → let calls : Calls = record {
      listen = l;
      new_manager = m;
      certificate = c;
      vk_auth = a;
      serve_tls = s;
    } in
      (held (run_server disable_auth calls).1 nothing ≡ nothing)
      × (ready_ports (run_server disable_auth calls).1 ≡ intended_ports disable_auth l m c a)
unfolding held hold run_server ready_ports intended_ports with_manager certificate_wait authenticate
    serve
by_cases disable_auth (failed err) m c a s = (refl, refl)
by_cases disable_auth (listening port) (some err) c a s = (refl, refl)
by_cases disable_auth (listening port) none (some err) a s = (refl, refl)
by_cases true (listening port) none none a server_closed = (refl, refl)
by_cases true (listening port) none none a (broken err) = (refl, refl)
by_cases false (listening port) none none (some err) s = (refl, refl)
by_cases false (listening port) none none none server_closed = (refl, refl)
by_cases false (listening port) none none none (broken err) = (refl, refl)

-- However its calls end, Run leaves neither the listener nor the certificate manager behind, and
-- takes and releases them in order; it is marked as ready and serves only while it has both. It is
-- marked as ready once, with the port of the listener, exactly if the listener, the manager and
-- the certificate were obtained, and the authentication too, unless it is disabled.
pub run_server-held :
    (disable_auth : Bool) (calls : Calls)
    → (held (run_server disable_auth calls).1 nothing ≡ nothing)
      × (ready_ports (run_server disable_auth calls).1
          ≡ intended_ports disable_auth calls.listen calls.new_manager calls.certificate
              calls.vk_auth)
run_server-held disable_auth calls =
    by_cases disable_auth calls.listen calls.new_manager calls.certificate calls.vk_auth
      calls.serve_tls
