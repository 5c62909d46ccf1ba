-- ===== src/Gateway/Interpreter.antt =====
-- The handlers of code interpreters (pkg/gateway/handlers/codeinterpreter.go) and their routes.
use agentland.Base.{
  Bool, false, not, ◌||◌, Option, none, some, List, [], ◌∷◌, ◌++◌, ltb, ◌==◌, if◌then◌else◌,
}
use agentland.Text.{Bytes, bytes, trim_space, to_lower, has_prefix, ℤ, pos, negsuc}
use agentland.Token.{is_empty}
use agentland.Agentcore.Store.{SandboxInfo}
use agentland.Gateway.{
  session_header, request_id_header, Request, Url, Effect, set_header, error_response, json_error,
  success_response, status, error_event, Lookup, found, missing, broken, CreateContextReq,
  ExecuteContextReq, WriteFsFileReq, Services, Call, get, set, is_supported_code_language,
  server_error, form_error, config, begun, forwarded, resolve_sandbox_target, tokened,
}

-- The headers and the status of a stream of events, then what follows.
abbrev pub setup_sse_response : List Effect → List Effect
setup_sse_response rest =
    set_header (bytes "Content-Type") (bytes "text/event-stream")
    ∷ set_header (bytes "Cache-Control") (bytes "no-cache")
    ∷ set_header (bytes "Connection") (bytes "keep-alive")
    ∷ set_header (bytes "X-Accel-Buffering") (bytes "no")
    ∷ status 200
    ∷ rest

abbrev pub write_sse_error : Bytes → Bytes → List Effect
write_sse_error context_id message = setup_sse_response (error_event context_id message ∷ [])

abbrev pub is_blank : Bytes → Bool
is_blank s = is_empty (trim_space s)

-- No time-out, or one of 100 to 300000 milliseconds.
abbrev pub timeout_ok : ℤ → Bool
timeout_ok (pos n) = n == 0 || not (ltb n 100 || ltb 300000 n)
timeout_ok (negsuc n) = false

module _ (sv : Services) where
  open sv use {State, get_session, update_latest_activity, sign}

  -- The session's activity is noted, then a token is asked for.
  abbrev pub signed_after : Bytes → State → Option Bytes × State
  signed_after session_id st = sign session_id [] (pos 0) (update_latest_activity session_id st).1

  abbrev pub looked_up : Call → Request → Lookup × State → List Effect × State
  looked_up c r (missing, st) = (json_error 404 (bytes "session not found") ∷ [], st)
  looked_up c r (broken, st) = (error_response server_error ∷ [], st)
  looked_up c r (found info, st) = tokened sv c r info (signed_after c.session_id st)

  abbrev pub session_call : Bytes → Bytes → Option Bytes → Request → Call
  session_call method path body r = record {
    method = method;
    path = path;
    body = body;
    session_id = trim_space (get session_header r.headers);
  }

  abbrev pub answered : Request → Bytes → List Effect × State → List Effect × State
  answered r session_id (effects, st) = (begun r session_id effects, st)

  unfoldable pub forward_to_sandbox :
      Request → Bytes → Bytes → Option Bytes → State → List Effect × State
  forward_to_sandbox r method path body st =
      let c = session_call method path body r in
      let rest = answered r c.session_id (looked_up c r (get_session c.session_id st)) in
      if is_empty c.session_id then (error_response form_error ∷ [], st) else rest

  abbrev pub targeted_sse : Bytes → Call → Request → Bytes → Option Url → List Effect
  targeted_sse context_id c r token none =
      write_sse_error context_id (bytes "parse sandbox url failed")
  targeted_sse context_id c r token (some target) = forwarded sv r (config c r token target) ∷ []

  abbrev pub tokened_sse :
      Bytes → Call → Request → SandboxInfo → Option Bytes × State → List Effect × State
  tokened_sse context_id c r info (none, st) =
      (write_sse_error context_id (bytes "issue sandbox token failed"), st)
  tokened_sse context_id c r info (some token, st) =
      (targeted_sse context_id c r token (resolve_sandbox_target sv info.grpc_endpoint), st)

  abbrev pub looked_up_sse : Bytes → Call → Request → Lookup × State → List Effect × State
  looked_up_sse context_id c r (missing, st) =
      (write_sse_error context_id (bytes "session not found"), st)
  looked_up_sse context_id c r (broken, st) =
      (write_sse_error context_id (bytes "get session info failed"), st)
  looked_up_sse context_id c r (found info, st) =
      tokened_sse context_id c r info (signed_after c.session_id st)

  unfoldable pub forward_to_sandbox_sse :
      Bytes → Request → Bytes → Bytes → Option Bytes → State → List Effect × State
  forward_to_sandbox_sse context_id r method path body st =
      let c = session_call method path body r in
      let rest =
        answered r c.session_id (looked_up_sse context_id c r (get_session c.session_id st)) in
      if is_empty c.session_id
      then (write_sse_error context_id (bytes "x-agentland-session is required"), st)
      else rest

  abbrev pub sandbox_created : Option Bytes × State → List Effect × State
  sandbox_created (none, st) = (error_response server_error ∷ [], st)
  sandbox_created (some id, st) = (success_response id ∷ [], (update_latest_activity id st).1)

  abbrev pub noted : Request → List Effect × State → List Effect × State
  noted r (effects, st) = (set_header request_id_header r.request_id ∷ effects, st)

  unfoldable pub create_sandbox : Request → State → List Effect × State
  create_sandbox r st = noted r (sandbox_created (sv.create_code_interpreter st))

  -- What bindJSONWithBody has answered where it fails; the handler then answers once more.
  abbrev pub not_bound : List Effect
  not_bound = error_response form_error ∷ error_response form_error ∷ []

  abbrev pub context_bound : Request → Bytes → Option CreateContextReq → State → List Effect × State
  context_bound r body none st = (not_bound, st)
  context_bound r body (some req) st =
      let rest = forward_to_sandbox r (bytes "POST") (bytes "/api/contexts") (some body) st in
      if is_supported_code_language req.language then rest else (error_response form_error ∷ [], st)

  abbrev pub context_read : Request → Option Bytes → State → List Effect × State
  context_read r none st = (not_bound, st)
  context_read r (some body) st = context_bound r body (sv.unmarshal_create body) st

  unfoldable pub create_context : Request → State → List Effect × State
  create_context r st = context_read r r.body st

  abbrev pub execute_path : Bytes → Bytes
  execute_path context_id = bytes "/api/contexts/" ++ (context_id ++ bytes "/execute")

  abbrev pub streaming : Request → Request
  streaming r = record r { headers = set (bytes "Accept") (bytes "text/event-stream") r.headers }

  abbrev pub execute_bound :
      Bytes → Request → Bytes → Option ExecuteContextReq → State → List Effect × State
  execute_bound context_id r body none st =
      (write_sse_error context_id (bytes "invalid request body"), st)
  execute_bound context_id r body (some req) st =
      let rest =
        forward_to_sandbox_sse context_id (streaming r) (bytes "POST") (execute_path context_id)
          (some body) st in
      if is_blank req.code
      then (write_sse_error context_id (bytes "code is required"), st)
      else if not (timeout_ok req.timeout_ms)
      then (write_sse_error context_id (bytes "timeout_ms must be between 100 and 300000"), st)
      else rest

  abbrev pub execute_read : Bytes → Request → Option Bytes → State → List Effect × State
  execute_read context_id r none st =
      (write_sse_error context_id (bytes "read request body failed"), st)
  execute_read context_id r (some body) st =
      execute_bound context_id r body (sv.unmarshal_execute body) st

  unfoldable pub execute_in_context : Request → State → List Effect × State
  unfolding trim_space
  execute_in_context r st =
      let context_id = trim_space (r.param (bytes "contextId")) in
      if is_empty context_id
      then (write_sse_error context_id (bytes "context_id is required"), st)
      else execute_read context_id r r.body st

  unfoldable pub delete_context : Request → State → List Effect × State
  unfolding trim_space forward_to_sandbox
  delete_context r st =
      let context_id = trim_space (r.param (bytes "contextId")) in
      if is_empty context_id
      then (error_response form_error ∷ [], st)
      else forward_to_sandbox r (bytes "DELETE") (bytes "/api/contexts/" ++ context_id) none st

  unfoldable pub get_fs_tree : Request → State → List Effect × State
  unfolding forward_to_sandbox
  get_fs_tree r st = forward_to_sandbox r r.method (bytes "/api/fs/tree") none st

  unfoldable pub get_fs_file : Request → State → List Effect × State
  unfolding forward_to_sandbox
  get_fs_file r st = forward_to_sandbox r r.method (bytes "/api/fs/file") none st

  abbrev pub write_bound : Request → Bytes → Option WriteFsFileReq → State → List Effect × State
  write_bound r body none st = (not_bound, st)
  write_bound r body (some req) st =
      if is_blank req.path
      then (error_response form_error ∷ [], st)
      else forward_to_sandbox r (bytes "POST") (bytes "/api/fs/file") (some body) st

  abbrev pub write_read : Request → Option Bytes → State → List Effect × State
  write_read r none st = (not_bound, st)
  write_read r (some body) st = write_bound r body (sv.unmarshal_write body) st

  unfoldable pub write_fs_file : Request → State → List Effect × State
  write_fs_file r st = write_read r r.body st

  unfoldable pub upload_fs_file : Request → State → List Effect × State
  unfolding trim_space to_lower has_prefix forward_to_sandbox
  upload_fs_file r st =
      if not (
        has_prefix (to_lower (trim_space (get (bytes "Content-Type") r.headers)))
          (bytes "multipart/form-data"))
      then (error_response form_error ∷ [], st)
      else forward_to_sandbox r (bytes "POST") (bytes "/api/fs/upload") none st

  unfoldable pub download_fs_file : Request → State → List Effect × State
  unfolding forward_to_sandbox
  download_fs_file r st =
      if is_blank (r.query (bytes "path"))
      then (error_response form_error ∷ [], st)
      else forward_to_sandbox r (bytes "GET") (bytes "/api/fs/download") none st

pub data Route : Type 0 where
  sandboxes contexts execute context tree read write upload download : Route

unfoldable pub handle : (sv : Services) → Route → Request → sv.State → List Effect × sv.State
unfolding create_sandbox create_context execute_in_context delete_context get_fs_tree get_fs_file
    write_fs_file upload_fs_file download_fs_file
handle sv sandboxes = create_sandbox sv
handle sv contexts = create_context sv
handle sv execute = execute_in_context sv
handle sv context = delete_context sv
handle sv tree = get_fs_tree sv
handle sv read = get_fs_file sv
handle sv write = write_fs_file sv
handle sv upload = upload_fs_file sv
handle sv download = download_fs_file sv
