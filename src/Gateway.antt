-- ===== src/Gateway.antt =====
-- What the handlers of the gateway share (pkg/gateway/handlers/common.go, with pkgs/response). A
-- handler reads a request, calls the services and yields what it does to the response, in order. The
-- services have a state of their own, which every call may change. Logs, spans and flushing are left out.
pub mod Http
pub mod Proxied
pub mod Interpreter
pub mod Agents
pub mod Streaming
pub mod Grants
pub mod Keys
pub mod Wiring
pub mod Routes
pub mod Invocations
pub mod Delivery
mod Tests
use agentland.Base.{
  Bool, true, false, not, ◌||◌, ℕ, Option, none, some, List, [], ◌∷◌, ◌++◌, if◌then◌else◌,
}
use agentland.Text.{Bytes, bytes, bytes_eq, trim_space, to_lower, has_prefix, ℤ, pos}
use agentland.Token.{is_empty}
pub use agentland.Gateway.Http.{Headers, first_of, get, put, set, del}
use agentland.Gateway.Http.{proxied}
use agentland.Agentcore.Store.{SandboxInfo}

abbrev pub session_header : Bytes
session_header = bytes "x-agentland-session"

abbrev pub request_id_header : Bytes
request_id_header = bytes "x-agentland-request-id"

-- A header is set only to a value that is not empty.
abbrev pub set_some : Bytes → Bytes → Bytes → Headers → Headers
set_some name prefix v h = if is_empty v then h else set name (prefix ++ v) h

abbrev pub is_supported_code_language : Bytes → Bool
is_supported_code_language language =
    let lower = to_lower (trim_space language) in
    bytes_eq lower (bytes "python") || bytes_eq lower (bytes "bash")

-- `client` is the address that the request comes from, empty where it has no port. `body` is `none` where it cannot be read. `param` are the parts of the path that the route names.
pub record Request : Type 0 where
  pub method : Bytes
  pub raw_query : Bytes
  pub query : Bytes → Bytes
  pub param : Bytes → Bytes
  pub headers : Headers
  pub body : Option Bytes
  pub request_id : Bytes
  pub client : Bytes

pub record Url : Type 0 where
  pub scheme : Bytes
  pub host : Bytes
  pub path : Bytes

pub record ProxyConfig : Type 0 where
  pub target : Url
  pub method : Bytes
  pub internal_path : Bytes
  pub body : Option Bytes
  pub session_id : Bytes
  pub sandbox_token : Bytes
  pub request_id : Bytes

-- A request to a sandbox.
pub record Outgoing : Type 0 where
  pub scheme : Bytes
  pub host : Bytes
  pub method : Bytes
  pub path : Bytes
  pub raw_query : Bytes
  pub headers : Headers
  pub body : Option Bytes

pub data ErrorCode : Type 0 where
  server_error form_error : ErrorCode

abbrev pub http_code : ErrorCode → ℕ
http_code form_error = 400
http_code server_error = 500

-- What a handler does to the response.
pub data Effect : Type 0 where
  set_header : Bytes → Bytes → Effect
  error_response : ErrorCode → Effect
  json_error : ℕ → Bytes → Effect
  success_response : Bytes → Effect
  status : ℕ → Effect
  -- An event of type `error`, with its context and its text.
  error_event : Bytes → Bytes → Effect
  forward : ProxyConfig → Outgoing → Effect

pub data Lookup : Type 0 where
  found : SandboxInfo → Lookup
  missing broken : Lookup

pub record CreateContextReq : Type 0 where
  pub language : Bytes
  pub cwd : Bytes

pub record ExecuteContextReq : Type 0 where
  pub code : Bytes
  pub timeout_ms : ℤ

pub record WriteFsFileReq : Type 0 where
  pub path : Bytes
  pub content : Bytes
  pub encoding : Bytes

-- The session store, the signer of tokens and the session service; and JSON, url.Parse and the
-- propagation of traces into headers.
pub record Services : Type 1 where
  pub State : Type 0
  pub get_session : Bytes → State → Lookup × State
  pub update_latest_activity : Bytes → State → Bool × State
  pub sign : Bytes → Bytes → ℤ → State → Option Bytes × State
  pub create_code_interpreter : State → Option Bytes × State
  pub create_agent_session : Bytes → Bytes → State → Option (Bytes × Bytes) × State
  pub unmarshal_create : Bytes → Option CreateContextReq
  pub unmarshal_execute : Bytes → Option ExecuteContextReq
  pub unmarshal_write : Bytes → Option WriteFsFileReq
  pub parse_url : Bytes → Option Url
  pub inject : Headers → Headers

abbrev pub with_body : Option Bytes → Headers → Headers
with_body none h = h
with_body (some b) h = set (bytes "Content-Type") (bytes "application/json") h

abbrev pub body_or : Option Bytes → Option Bytes → Option Bytes
body_or none original = original
body_or (some b) original = some b

-- The headers of a response that comes back.
unfoldable pub modify_response : ProxyConfig → Headers → Headers
unfolding trim_space to_lower has_prefix
modify_response cfg h =
    let named = set_some session_header [] cfg.session_id h in
    if has_prefix (to_lower (trim_space (get (bytes "Content-Type") named)))
      (bytes "text/event-stream")
    then set (bytes "X-Accel-Buffering") (bytes "no")
        (set (bytes "Cache-Control") (bytes "no-cache") named)
    else named

-- What is asked for: the method and path inside the sandbox, a body in place of the request's own,
-- and the session.
pub record Call : Type 0 where
  pub method : Bytes
  pub path : Bytes
  pub body : Option Bytes
  pub session_id : Bytes

abbrev pub config : Call → Request → Bytes → Url → ProxyConfig
config c r token target = record {
  target = target;
  method = c.method;
  internal_path = c.path;
  body = c.body;
  session_id = c.session_id;
  sandbox_token = token;
  request_id = r.request_id;
}

-- The headers set on the response before anything else.
abbrev pub begun : Request → Bytes → List Effect → List Effect
begun r session_id rest =
    set_header request_id_header r.request_id ∷ set_header session_header session_id ∷ rest

module _ (sv : Services) where
  open sv use {State, sign, parse_url, inject}

  unfoldable pub director : Request → ProxyConfig → Outgoing
  director r cfg =
      let cleared =
        del (bytes "X-Agentland-Session")
          (del session_header (del (bytes "Authorization") r.headers)) in
      let signed = set_some (bytes "Authorization") (bytes "Bearer ") cfg.sandbox_token cleared in
      let named = set_some session_header [] cfg.session_id signed in
      let traced = inject (set_some request_id_header [] cfg.request_id named) in
      record {
        scheme = cfg.target.scheme;
        host = cfg.target.host;
        method = cfg.method;
        path = cfg.internal_path;
        raw_query = r.raw_query;
        headers = with_body cfg.body traced;
        body = body_or cfg.body r.body;
      }

  -- `Forward`: what the Director makes of the request goes through the reverse proxy.
  abbrev pub forwarded : Request → ProxyConfig → Effect
  forwarded r cfg =
      let o = director r cfg in
      forward cfg (record o { headers = proxied r.client r.headers o.headers })

  unfoldable pub resolve_sandbox_target : Bytes → Option Url
  unfolding trim_space has_prefix
  resolve_sandbox_target endpoint =
      let trimmed = trim_space endpoint in
      if is_empty trimmed
      then none
      else parse_url
          (if has_prefix trimmed (bytes "http") then trimmed else bytes "http://" ++ trimmed)

  abbrev pub targeted : Call → Request → Bytes → Option Url → List Effect
  targeted c r token none = error_response server_error ∷ []
  targeted c r token (some target) = forwarded r (config c r token target) ∷ []

  -- The end of every call: the token is there or not, then the target.
  abbrev pub tokened : Call → Request → SandboxInfo → Option Bytes × State → List Effect × State
  tokened c r info (none, st) = (error_response server_error ∷ [], st)
  tokened c r info (some token, st) =
      (targeted c r token (resolve_sandbox_target info.grpc_endpoint), st)
