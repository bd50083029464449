-- ===== src/Controller/Kubelet/Server.antt =====
-- controller/pkg/vk/server.go: the HTTP server of an instance, from its listener to its end.
pub mod Resources
use supernetes.Prelude.Texts
use supernetes.Prelude.{
  ℕ, String, List, [], ◌∷◌, ◌++◌, Bool, true, false, Option, none, some, if◌then◌else◌,
}

-- what the calls of Run return: the port of the listener, errors, and how ServeTLS ends
pub data Listening : Type 0 where
  listening : ℕ → Listening
  failed : String → Listening

pub data Serving : Type 0 where
  server_closed : Serving
  broken : String → Serving

pub record Calls : Type 0 where
  pub listen : Listening
  pub new_manager : Option String
  pub certificate : Option String
  pub vk_auth : Option String
  pub serve_tls : Serving

-- what Run does, in order
pub data Effect : Type 0 where
  opened : Effect
  closed : Effect
  started_manager : Effect
  stopped_manager : Effect
  called_auth : Effect
  marked_ready : ℕ → Effect
  served : Effect

-- the error, and the effects before it
abbrev pub Outcome : Type 0
Outcome = Option String × List Effect

-- `ServeTLS` is expected to end with http.ErrServerClosed.
unfoldable pub serve : ℕ → Serving → Outcome
serve port server_closed = (none, marked_ready port ∷ served ∷ [])
serve port (broken err) = (some err, marked_ready port ∷ served ∷ [])

-- the authentication, unless it is disabled
unfoldable pub authenticate : Bool → ℕ → Calls → Outcome
unfolding serve
authenticate disable_auth port calls =
    if disable_auth then serve port calls.serve_tls else elim calls.vk_auth [
      | some err ↦ (some err, called_auth ∷ [])
      | none ↦ ((serve port calls.serve_tls).0, called_auth ∷ (serve port calls.serve_tls).1)
    ]

-- `errors.New` of fmt.Errorf with the wrapped error
unfoldable pub certificate_wait : Bool → ℕ → Calls → Outcome
unfolding authenticate
certificate_wait disable_auth port calls = elim calls.certificate [
  | some err ↦ (some (Texts.◌++◌ "failed to retrieve Kubelet serving certificate: " err), [])
  | none ↦ authenticate disable_auth port calls
]

-- the manager is stopped by a deferred call
unfoldable pub with_manager : Bool → ℕ → Calls → Outcome
unfolding certificate_wait
with_manager disable_auth port calls = elim calls.new_manager [
  | some err ↦ (some err, [])
  | none ↦ (
    (certificate_wait disable_auth port calls).0,
    started_manager ∷ (certificate_wait disable_auth port calls).1 ++ stopped_manager ∷ [],
  )
]

-- `Run`; the listener is closed by a deferred call.
unfoldable pub run_server : Bool → Calls → Outcome
unfolding with_manager
run_server disable_auth calls = elim calls.listen [
  | failed err ↦ (some err, [])
  | listening port ↦ (
    (with_manager disable_auth port calls).0,
    opened ∷ (with_manager disable_auth port calls).1 ++ closed ∷ [],
  )
]
