-- ===== src/Provider/Handler.antt =====
-- GetContainerLogs of controller/pkg/provider/handler.go: the request for the logs of a container.
use supernetes.Prelude.{ℕ, ◌%◌, String, Bool, Option, none, some, ltb, if◌then◌else◌}
use supernetes.Prelude.Streams.{Stream}
use supernetes.Api.{WorkloadLogRequest}
use supernetes.Kube.{Pod}
use supernetes.Provider.{Provider, get_pod}
use supernetes.Provider
use supernetes.Provider.Key.{PodKey}
use supernetes.Provider.Conversion.{workload_meta}
use supernetes.Provider.Logs.{Chunk, Options, LogReader, start_reader}

-- what GetContainerLogs returns; the last case is that of a nil function, which GetPod never calls.
pub data Logs : Type 0 where
  reading : LogReader → Logs
  not_found : PodKey → Logs
  refused : String → Logs
  nil_call : Logs

-- the conversion to int32, with 0 for what is not positive
unfoldable pub to_int32 : ℕ → ℕ
to_int32 tail = let word = tail % 4294967296 in if ltb word 2147483648 then word else 0

unfoldable pub log_request : Pod → String → Bool → Options → WorkloadLogRequest
unfolding workload_meta to_int32
log_request pod container_name follow opts = record {
  meta = workload_meta pod;
  container = container_name;
  follow = follow;
  tail = to_int32 opts.tail;
}

-- `opened` is the error of Logs of the agent's client, `send` that of Send, and `answer` the stream
-- that the agent sends back for a request; `follow` is `opts.Follow`.
module _ (opened : Option String) (send : WorkloadLogRequest → Option String)
    (answer : WorkloadLogRequest → Stream Chunk) where
  unfoldable pub send_request : WorkloadLogRequest → Options → Option String → Logs
  unfolding start_reader
  send_request request opts none = reading (start_reader (answer request) opts)
  send_request request opts (some err) = refused err

  unfoldable pub open_stream : WorkloadLogRequest → Options → Option String → Logs
  unfolding send_request
  open_stream request opts none = send_request request opts (send request)
  open_stream request opts (some err) = refused err

  unfoldable pub get_container_logs : String → String → String → Bool → Options → Provider → Logs
  unfolding open_stream log_request get_pod
  get_container_logs namespace name container_name follow opts p = elim (get_pod namespace name p) [
    | Provider.ok pod ↦ open_stream (log_request pod container_name follow opts) opts opened
    | Provider.missing key ↦ not_found key
    | Provider.nil_call ↦ Logs.nil_call
  ]
