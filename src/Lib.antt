-- ===== src/Lib.antt =====
-- Supernetes bridges Kubernetes and Slurm. An agent on the login node of a cluster (agent/) reports
-- Slurm nodes and jobs and submits batch jobs; a controller in Kubernetes (controller/) shows each
-- node as a Virtual Kubelet node and each job as pods, and submits pods that users create as jobs.
-- This library models the parts of both that decide something, and proves what they promise.
--
-- The parts and their files. Paths are from the root of the repository.
--   Provider (src/controller/pkg/provider): the pods of one virtual node. provider.go is Provider,
--     key.go Provider/Key, phase.go Provider/Phase, conversion.go Provider/Conversion, and the
--     log reader of handler.go Provider/Logs,
--     with GetContainerLogs in Provider/Handler. CreatePod is `create_pod`, made of `load_pending`,
--     `schedule` and `finish_create` in the order of the source; UpdateStatus is `update_status`.
--   Tracker (src/controller/pkg/tracker): which provider follows which workload.
--   Controller/Nodes (src/controller/pkg/node): one instance for each node; Reconcile is
--     `reconcile`, which calls `untrack_all`, `receive`, `settle_all` and `keep_tracked`.
--   Controller/Names and Controller/Workloads (src/controller/pkg/workload): the names and pods of
--     a workload, and in Controller/Workloads/Reconciler the reconciliation that applies them.
--   Controller/Inventory (src/controller/pkg/inventory): what was applied, for the collection of
--     stale pods. Controller/Kinds is AddGVK of src/common/pkg/util.
--   Controller/Loop (src/controller/pkg/reconciler, src/controller/pkg/endpoint): starting and
--     stopping the control loops when agents connect and disconnect. Controller/Loop/Ticks is the
--     same reconciler with its goroutines one statement at a time.
--   Controller/Metrics (metrics.go of src/controller/pkg/provider): the metrics of a node.
--   Controller/Client (src/controller/pkg/client, proxy.go of src/controller/pkg/vk, loadCreds of
--     src/controller/pkg/endpoint) and Controller/Setup (both NewReconciler, and auth.go of
--     src/controller/pkg/vk/auth): what the controller sets up at its start.
--   Controller/Environment (src/controller/pkg/environment) and Controller/Certificates
--     (src/controller/pkg/certificates): what the controller reads from its environment, the
--     approver of its signing requests (approver.go), and in Controller/Certificates/Template the
--     requests for the certificates of the Kubelets (certificates.go).
--   Controller/Kubelet (src/controller/pkg/vk): the Virtual Kubelet instance of a node. NewInstance
--     and setReady are `new_instance` and `set_ready`; Controller/Kubelet/Starting is Run of
--     instance.go, whose select statements are `wait_pods`, `wait_server` and `wait_node`, and
--     Controller/Kubelet/Server is Run of server.go.
--   Agent (src/agent/pkg): Filters, Jobs, Nodes, Scripts (sbatch), Dispatch, with the merging
--     of the output of containers in Dispatch/Output, LogFiles (tailing of log files), Scontrol (the
--     output of scontrol, and the commands of job, node and scancel), Server (the workload server),
--     Server/Streaming (the goroutines of a log stream), Server/Answer (the same from the request to
--     the chunks) and Startup (the checks and credentials of agent.go).
--   Config (src/config/pkg, src/common/pkg/util/sni.go): the configurations of both sides. MTls is
--     mtls.go and encode.go of src/config/pkg/generate, Generate is src/config/pkg/run/generate.go.
--   Logging (src/common/pkg/log/vk.go): the logger that is given to Virtual Kubelet.
--   System: theorems across the provider, the agent, the conversions and the tracker, and across
--     the dispatch command, the log files that it writes and their way to the reader of the logs.
--   Labels and Api are the label keys and the messages that both sides use, Kube the parts of the
--     Kubernetes objects that the controller reads and writes. Prelude holds shared helpers.
--   Examples evaluates the theorems on concrete inputs.
--
-- How state is modelled. An operation takes the state and returns the new one. A mutex makes an
-- operation one step. What goes out, calls of the notifier and requests to the agent, is a list in
-- the state; answers and errors of other programs are arguments. A gRPC stream is its messages,
-- followed by EOF or an error. A Go map is an association list, and a theorem for every list holds
-- for every order of iteration. Times are numbers, 0 the zero time. All recursion of the code is
-- structural. Only a caller that reads a log to its end counts its reads, as fuel, and the theorem
-- about it says how many are enough.
--
-- Goroutines that talk to each other are a step relation: Run of an instance takes one branch of a
-- select statement at a time, and the log stream one statement of one goroutine at a time, in any
-- order; so are the loops of the reconcilers and the goroutines of dispatch. The parts that Run
-- starts are seen through their channels only.
--
-- What is a parameter: the regular expressions of filters, time.Parse, strconv.Quote, the scheme of
-- Kubernetes, server-side apply, the API server, the object package of cli-utils, path.Join,
-- url.Parse, netip.ParseAddr, ParseIPSloppy, the sorts of Go, cryptography, PEM and YAML, floating
-- point numbers with the laws of NaN, JSON, the file system, and the programs sbatch, scontrol,
-- scancel and the container runtime. Prelude/Scanner is bufio.Scanner, with its limit of 64 KiB.
--
-- What is not modelled: the controllers of Virtual Kubelet themselves, the gRPC tunnels, the fields
-- of the output of scontrol that nothing reads, the setup of the loggers, and command lines.
pub mod Prelude
pub mod Labels
pub mod Api
pub mod Kube
pub mod Tracker
pub mod Provider
pub mod Controller
pub mod Agent
pub mod Config
pub mod Logging
pub mod System
pub mod Examples
