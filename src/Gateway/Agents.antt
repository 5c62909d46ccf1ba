-- ===== src/Gateway/Agents.antt =====
-- The handlers of agent sessions (pkg/gateway/handlers/agentsession.go).
use agentland.Base.{Option, none, some, List, [], ◌∷◌, ◌++◌, if◌then◌else◌}
use agentland.Text.{Bytes, bytes, trim_space}
use agentland.Token.{is_empty}
use agentland.Agentcore.Store.{SandboxInfo}
use agentland.Gateway.{
  session_header, Request, Effect, error_response, json_error, Lookup, found, missing, broken,
  Services, Call, get, server_error, form_error, tokened,
}
use agentland.Gateway.Interpreter.{signed_after, answered}

abbrev pub or_else : Bytes → Bytes → Bytes
or_else s default = if is_empty s then default else s

-- The header, then the query, then the default.
unfoldable pub resolve_runtime_ref : Request → Bytes → Bytes → Bytes × Bytes
unfolding trim_space
resolve_runtime_ref r default_name default_ns = (
  or_else
      (or_else (trim_space (get (bytes "x-agentland-runtime") r.headers))
        (trim_space (r.query (bytes "runtime"))))
      default_name,
  or_else
      (or_else (trim_space (get (bytes "x-agentland-runtime-namespace") r.headers))
        (trim_space (r.query (bytes "runtime_namespace"))))
      default_ns,
)

abbrev pub or_root : Bytes → Bytes
or_root path = or_else path (bytes "/")

module _ (sv : Services) (default_name default_ns : Bytes) where
  open sv use {State, get_session, create_agent_session}

  abbrev pub created : Option (Bytes × Bytes) × State → Option (SandboxInfo × Bytes) × State
  created (none, st) = (none, st)
  created (some (id, endpoint), st) = (
    some (
      record { sandbox_id = id; grpc_endpoint = endpoint; created_at = none; expires_at = none },
      id,
    ),
    st,
  )

  abbrev pub create_for : Bytes × Bytes → State → Option (SandboxInfo × Bytes) × State
  create_for (name, ns) st =
      let rest = created (create_agent_session name ns st) in
      if is_empty (trim_space name) then (none, st) else rest

  abbrev pub create_session : Request → State → Option (SandboxInfo × Bytes) × State
  create_session r st = create_for (resolve_runtime_ref r default_name default_ns) st

  abbrev pub existing : Request → Bytes → Lookup × State → Option (SandboxInfo × Bytes) × State
  existing r session_id (found info, st) = (some (info, session_id), st)
  existing r session_id (broken, st) = (none, st)
  existing r session_id (missing, st) = create_session r st

  unfoldable pub resolve_or_create_session : Request → State → Option (SandboxInfo × Bytes) × State
  resolve_or_create_session r st =
      let session_id = get session_header r.headers in
      let rest = existing r session_id (get_session session_id st) in
      if is_empty session_id then create_session r st else rest

  unfoldable pub forward_request :
      Request → Bytes → SandboxInfo → Bytes → Option Bytes → State → List Effect × State
  forward_request r session_id info path body st =
      let c : Call = record {
        method = r.method;
        path = path;
        body = body;
        session_id = session_id;
      } in
      answered sv r session_id (tokened sv c r info (signed_after sv session_id st))

  abbrev pub invoked : Request → Bytes → Option (SandboxInfo × Bytes) × State → List Effect × State
  invoked r body (none, st) = (error_response server_error ∷ [], st)
  invoked r body (some (info, session_id), st) =
      forward_request r session_id info (or_root (r.param (bytes "path"))) (some body) st

  abbrev pub invoke_read : Request → Option Bytes → State → List Effect × State
  invoke_read r none st = (error_response form_error ∷ [], st)
  invoke_read r (some body) st = invoked r body (resolve_or_create_session r st)

  unfoldable pub invoke : Request → State → List Effect × State
  invoke r st = invoke_read r r.body st

  abbrev pub port_found : Request → Bytes → Bytes → Bytes → Lookup × State → List Effect × State
  port_found r port session_id body (missing, st) =
      (json_error 404 (bytes "session not found") ∷ [], st)
  port_found r port session_id body (broken, st) = (error_response server_error ∷ [], st)
  port_found r port session_id body (found info, st) =
      forward_request r session_id info
        (bytes "/api/proxy/by-port/" ++ (port ++ r.param (bytes "path"))) (some body) st

  abbrev pub port_read : Request → Bytes → Bytes → Option Bytes → State → List Effect × State
  port_read r port session_id none st = (error_response form_error ∷ [], st)
  port_read r port session_id (some body) st =
      port_found r port session_id body (get_session session_id st)

  unfoldable pub proxy_by_port : Request → State → List Effect × State
  unfolding trim_space
  proxy_by_port r st =
      let port = trim_space (r.param (bytes "port")) in
      let session_id = trim_space (r.param (bytes "sessionId")) in
      if is_empty port
      then (json_error 400 (bytes "port and sessionId are required") ∷ [], st)
      else if is_empty session_id
      then (json_error 400 (bytes "port and sessionId are required") ∷ [], st)
      else port_read r port session_id r.body st
