-- ===== src/Lib.antt =====
-- A model of agentland, a service that gives agents sandboxes on a Kubernetes cluster, and what
-- holds of it. The program has four parts. The controllers (internal/controller) turn session
-- objects into claims, claims into sandboxes and sandboxes into pods, and keep pools of warm
-- pods. The session service (pkg/agentcore) makes and collects session objects. The gateway
-- (pkg/gateway) passes requests to sandboxes. The daemon korokd (pkg/korokd) runs code and
-- serves files inside a sandbox.
--
-- Base holds what the other modules share: tests on numbers, lists, the conditional. Text
-- models Go's strings as bytes, with what the program uses of the packages strings and strconv.
-- FilePath models path/filepath on Unix.
--
-- Cluster has the objects of api/v1alpha1 and of the cluster that the controllers use.
-- Cluster.Calls has the calls to the API server and the actions that make them: an action takes
-- the log of the calls before it and gives a result and its own calls. The server is an
-- argument, Api, whose answers may depend on the log in any way, so that other clients,
-- conflicts and failures are covered. A log has all calls of one reconcile in their order,
-- whether it succeeds or stops at an error.
--
-- Controller has what the controllers share: the labels and intervals of
-- pkg/common/utils/sandbox.go, the selectors of hash_selector.go, the pod of a sandbox.
-- SHA-256, SetControllerReference, SetStatusCondition and the clock are fields of Env.
-- Controller.Pool is sandboxpool_controller.go (reconcile, list_pool_pods for listPoolPods,
-- create_pool_pod for createPoolPod, update_status for updatePoolStatus), Controller.Claim is
-- sandboxclaim_controller.go (select_warm_pod, adopt_warm_pod, touch_sandbox_pool),
-- Controller.Sandbox is sandbox_controller.go (reconcile_pod, sandbox_status_from_pod).
-- Controller.Session has the steps that codeinterpreter_controller.go and
-- agentsession_controller.go share (reconcile_direct, reconcile_via_claim, update_session),
-- Controller.Reconcile the entry points of both and agentruntime_controller.go. The controllers
-- meet in labels, names and owner references: Controller.Claim.Adoption and
-- Controller.Sandbox.Handoff follow a pod from its pool to a sandbox.
--
-- Agentcore.Collection is pkg/agentcore/gc.go: gc_once for gcOnce, collect for its loop,
-- delete_session_cr for deleteSessionCR. Redis and the cluster are an argument, Backend, and so
-- is the order in which Go visits the candidates. Agentcore.Store is
-- pkg/agentcore/pkgs/db/redis.go, with the gateway's pkg/gateway/pkgs/db/redis.go:
-- create_session, delete_session, get_session and the two listings, and update_latest_activity.
-- Redis and JSON are interfaces; what is asked of them is Agentcore.Store.Views.IsRedis and
-- IsJson, which Agentcore.Store.Concrete fills with a log of pipelines. Agentcore.Service is
-- pkg/agentcore/agentcore.go: create_code_interpreter, create_agent_session, get_agent_session,
-- delete_agent_session and wait_session_ready. The cluster's answers are arguments; the events
-- of both watches are one list, in the order in which they come, and its end is the end of the
-- time that is waited, so that the wait is recursion on the list.
--
-- Gateway is pkg/gateway/handlers: Gateway itself common.go (director for the Director of
-- Forward, modify_response, resolve_sandbox_target; forwarded is the request that leaves the
-- gateway, after httputil.ReverseProxy has removed the hop-by-hop headers from what the
-- Director leaves, and with the headers that ReverseProxy adds). Gateway.Http is what is used
-- of net/http and httputil. Gateway.Interpreter is codeinterpreter.go with its table of routes
-- (handle), Gateway.Agents agentsession.go. A handler takes the services, Services, and their
-- state, and gives what it does to the response, in order. Gateway.Wiring fills the services
-- with Agentcore.Store and Token, and Gateway.Delivery follows a request from there to
-- Korokd.Auth. Gateway.Keys is pkg/gateway/pkgs/sandboxjwt/keystore.go
-- (ensure_gateway_signing_key); secrets, files and cryptography are an argument, Env. Its two
-- functions that start again do so on fuel; two rounds are enough as long as secrets are only
-- added.
--
-- Token is pkg/common/utils/token.go: sign for Sign, verify for Verify, validate_claims,
-- parse_token, parse_bearer_token. Cryptography, base64 and JSON are fields of Crypto; what is
-- asked of them is Token.RoundTrip.IsSound, which asks of JSON only what it does on UTF-8 and
-- numbers of an int64, and which Token.Tests fills with plain functions. Times of claims are
-- compared as Go's time does, whose count of seconds wraps. Korokd.Auth is
-- pkg/korokd/middleware/auth.go, which lets a request into the daemon.
--
-- Korokd.ExitCode is pkg/korokd/pkgs/utils/bash_exitcode.go, the filter that takes the marker
-- of an exit code out of a stream. An int32 is its bit pattern, below 2 ^ 32. The drain loop
-- runs on fuel one above the length of the buffer; each round drops at least the marker, so
-- that this is enough. Korokd.Workspace has the path checks of pkg/korokd/handlers/fs.go and
-- context_manager.go. Korokd.Files has the other handlers of fs.go, which read, write, upload
-- and send files, and Korokd.Tree the one that lists a directory (get_fs_tree, visit for the
-- function given to WalkDir). The calls of package os are an argument, Os, with a state of its
-- own; the walk, base64 (Text.Base64) and the check of UTF-8 (Text.Utf8) are written out. The
-- walk is recursion on the tree that is found. Korokd.Contexts has the state machine of
-- contextManager, with the map of contexts and the flags of all context objects: create,
-- begin_execute for the start of executeWithHooks, end_execute and release for its end,
-- remove_context for removeContext, stale_ids for the scan of runGC. begin_execute takes the
-- manager at the time of get and the one at the time of CompareAndSwap, remove_context the one
-- whose flag it reads and the one from which it deletes, since other steps can come between. An
-- interleaving is a sequence of steps (Korokd.Contexts.Limit.Steps). Korokd.Kernels is
-- searchKernel with pickKernelBySpecLanguage; Go's order of the map is the order of a list.
-- Korokd.Shell is the text that a bash kernel is given, withBashInit with shellQuote.
--
-- Numbers are natural numbers: replica counts stay below 2 ^ 31, and the CRD keeps them from
-- being negative. Spans, logs and metrics are left out, as are SetupWithManager, generated
-- code, the start of the programs, the HTTP and WebSocket clients, and deployment files. Not
-- modelled are also the rest of an execution in the daemon, with its messages from Jupyter and
-- the text for a Python kernel, and the daemon's proxy and server.
pub mod Base
pub mod Text
pub mod FilePath
pub mod Cluster
pub mod Controller
pub mod Token
pub mod Agentcore
pub mod Gateway
pub mod Korokd
