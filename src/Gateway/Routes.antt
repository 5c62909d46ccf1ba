-- ===== src/Gateway/Routes.antt =====
-- What the routes of the gateway forward, and for whom.
use agentland.Base.{
  Bool, true, false, not, Option, none, some, List, [], ◌∷◌, ◌≡◌, refl, if◌then◌else◌,
}
use agentland.Text.{Bytes, bytes, to_lower, trim_space, has_prefix}
use agentland.Token.{is_empty}
use agentland.Agentcore.Store.{SandboxInfo}
use agentland.Gateway.{
  session_header, get, error_response, form_error, Request, Outgoing, ProxyConfig, Effect, Lookup,
  found, missing, broken, CreateContextReq, ExecuteContextReq, WriteFsFileReq, Services,
  is_supported_code_language,
}
use agentland.Gateway.Interpreter.{
  Route, sandboxes, contexts, execute, context, tree, read, write, upload, download, looked_up,
  looked_up_sse, session_call, forward_to_sandbox, forward_to_sandbox_sse, handle, streaming,
  is_blank, timeout_ok, sandbox_created, context_bound, context_read, execute_bound, execute_read,
  write_bound, write_read, create_sandbox, create_context, execute_in_context, delete_context,
  get_fs_tree, get_fs_file, write_fs_file, upload_fs_file, download_fs_file, execute_path, noted,
}
use agentland.Gateway.Grants.{
  connection_key, KeepsHeaders, IsGranted, Forwards, tokened-Forwards, tokened_sse-Forwards,
  answered-Forwards,
}

-- The session that the request's header names.
abbrev pub session_of : Request → Bytes
session_of r = trim_space (get session_header r.headers)

-- A session is in the store, and the request is granted to it.
pub record IsSessionCall (sv : Services) (connection : List Bytes) (session_id : Bytes)
    (st : sv.State) (cfg : ProxyConfig) (o : Outgoing) : Type 0 where
  pub info : SandboxInfo
  pub after : sv.State
  pub looked : sv.get_session session_id st ≡ (found info, after)
  pub named : is_empty session_id ≡ false
  pub granted : IsGranted sv connection session_id info after cfg o

-- Either branch forwards only what `P` allows.
pub if-Forwards :
    {S : Type 0} (P : ProxyConfig → Outgoing → Type 0) (b : Bool) (x y : List Effect × S)
    → Forwards P x.0
    → (b ≡ false → Forwards P y.0)
    → Forwards P (if b then x else y).0
if-Forwards P true x y hx hy = hx
if-Forwards P false x y hx hy = hy refl

pub if_not-Forwards :
    {S : Type 0} (P : ProxyConfig → Outgoing → Type 0) (b : Bool) (x y : List Effect × S)
    → Forwards P x.0
    → Forwards P y.0
    → Forwards P (if b then x else y).0
if_not-Forwards P true x y hx hy = hx
if_not-Forwards P false x y hx hy = hy

module _ (sv : Services) (keeps : KeepsHeaders sv) where
  looked_up-at :
      (r : Request) (method path : Bytes) (body : Option Bytes) (st : sv.State)
      (looked : Lookup × sv.State)
      → is_empty (session_of r) ≡ false
      → sv.get_session (session_of r) st ≡ looked
      → Forwards
          (IsSessionCall sv (r.headers connection_key) (session_of r) st)
          (looked_up sv (session_call sv method path body r) r looked).0
  looked_up-at r method path body st (missing, s) n e = (tt, tt)
  looked_up-at r method path body st (broken, s) n e = (tt, tt)
  looked_up-at r method path body st (found info, s) n e =
      tokened-Forwards sv keeps r (IsSessionCall sv (r.headers connection_key) (session_of r) st)
        (session_call sv method path body r) info s
        (λ cfg o g. record { info = info; after = s; looked = e; named = n; granted = g })

  looked_up_sse-at :
      (context_id : Bytes) (r : Request) (method path : Bytes) (body : Option Bytes) (st : sv.State)
      (looked : Lookup × sv.State)
      → is_empty (session_of r) ≡ false
      → sv.get_session (session_of r) st ≡ looked
      → Forwards
          (IsSessionCall sv (r.headers connection_key) (session_of r) st)
          (looked_up_sse sv context_id (session_call sv method path body r) r looked).0
  looked_up_sse-at context_id r method path body st (missing, s) n e =
      (tt, (tt, (tt, (tt, (tt, (tt, tt))))))
  looked_up_sse-at context_id r method path body st (broken, s) n e =
      (tt, (tt, (tt, (tt, (tt, (tt, tt))))))
  looked_up_sse-at context_id r method path body st (found info, s) n e =
      tokened_sse-Forwards sv keeps r
        (IsSessionCall sv (r.headers connection_key) (session_of r) st)
        (session_call sv method path body r) info s
        (λ cfg o g. record { info = info; after = s; looked = e; named = n; granted = g })
        context_id _ refl

  forward_to_sandbox-Forwards :
      (r : Request) (method path : Bytes) (body : Option Bytes) (st : sv.State)
      → Forwards
          (IsSessionCall sv (r.headers connection_key) (session_of r) st)
          (forward_to_sandbox sv r method path body st).0
  unfolding forward_to_sandbox
  forward_to_sandbox-Forwards r method path body st =
      if-Forwards (IsSessionCall sv (r.headers connection_key) (session_of r) st)
        (is_empty (session_of r)) _ _ (tt, tt)
        (λ n.
          answered-Forwards sv keeps r
            (IsSessionCall sv (r.headers connection_key) (session_of r) st) (session_of r)
            (looked_up sv (session_call sv method path body r) r (sv.get_session (session_of r) st))
            (looked_up-at r method path body st _ n refl))

  forward_to_sandbox_sse-Forwards :
      (context_id : Bytes) (r : Request) (method path : Bytes) (body : Option Bytes) (st : sv.State)
      → Forwards
          (IsSessionCall sv (r.headers connection_key) (session_of r) st)
          (forward_to_sandbox_sse sv context_id r method path body st).0
  unfolding forward_to_sandbox_sse
  forward_to_sandbox_sse-Forwards context_id r method path body st =
      if-Forwards (IsSessionCall sv (r.headers connection_key) (session_of r) st)
        (is_empty (session_of r)) _ _ (tt, (tt, (tt, (tt, (tt, (tt, tt))))))
        (λ n.
          answered-Forwards sv keeps r
            (IsSessionCall sv (r.headers connection_key) (session_of r) st) (session_of r)
            (looked_up_sse sv context_id (session_call sv method path body r) r
              (sv.get_session (session_of r) st))
            (looked_up_sse-at context_id r method path body st _ n refl))

  module _ (r : Request) (st : sv.State) where
    abbrev Allowed : List Effect × sv.State → Type 0
    Allowed x = Forwards (IsSessionCall sv (r.headers connection_key) (session_of r) st) x.0

    plainly :
        (method path : Bytes) (body : Option Bytes)
        → Allowed (forward_to_sandbox sv r method path body st)
    plainly method path body = forward_to_sandbox-Forwards r method path body st

    create_sandbox-at : (x : Option Bytes × sv.State) → Allowed (noted sv r (sandbox_created sv x))
    create_sandbox-at (none, s) = (tt, (tt, tt))
    create_sandbox-at (some id, s) = (tt, (tt, tt))

    context_bound-Allowed :
        (body : Bytes) (q : Option CreateContextReq) → Allowed (context_bound sv r body q st)
    context_bound-Allowed body none = (tt, (tt, tt))
    context_bound-Allowed body (some q) =
        if_not-Forwards (IsSessionCall sv (r.headers connection_key) (session_of r) st)
          (is_supported_code_language q.language) _ _ (plainly _ _ _) (tt, tt)

    context_read-Allowed : (body : Option Bytes) → Allowed (context_read sv r body st)
    context_read-Allowed none = (tt, (tt, tt))
    context_read-Allowed (some b) = context_bound-Allowed b (sv.unmarshal_create b)

    execute_bound-Allowed :
        (context_id body : Bytes) (q : Option ExecuteContextReq)
        → Allowed (execute_bound sv context_id r body q st)
    unfolding to_lower
    execute_bound-Allowed context_id body none = (tt, (tt, (tt, (tt, (tt, (tt, tt))))))
    execute_bound-Allowed context_id body (some q) =
        if_not-Forwards (IsSessionCall sv (r.headers connection_key) (session_of r) st)
          (is_blank q.code) _ _ (tt, (tt, (tt, (tt, (tt, (tt, tt))))))
          (if_not-Forwards (IsSessionCall sv (r.headers connection_key) (session_of r) st)
            (not (timeout_ok q.timeout_ms)) _ _ (tt, (tt, (tt, (tt, (tt, (tt, tt))))))
            (forward_to_sandbox_sse-Forwards context_id (streaming sv r) (bytes "POST")
              (execute_path sv context_id) (some body) st))

    execute_read-Allowed :
        (context_id : Bytes) (body : Option Bytes) → Allowed (execute_read sv context_id r body st)
    execute_read-Allowed context_id none = (tt, (tt, (tt, (tt, (tt, (tt, tt))))))
    execute_read-Allowed context_id (some b) =
        execute_bound-Allowed context_id b (sv.unmarshal_execute b)

    write_bound-Allowed :
        (body : Bytes) (q : Option WriteFsFileReq) → Allowed (write_bound sv r body q st)
    write_bound-Allowed body none = (tt, (tt, tt))
    write_bound-Allowed body (some q) =
        if_not-Forwards (IsSessionCall sv (r.headers connection_key) (session_of r) st)
          (is_blank q.path) _ _ (tt, tt) (plainly _ _ _)

    write_read-Allowed : (body : Option Bytes) → Allowed (write_read sv r body st)
    write_read-Allowed none = (tt, (tt, tt))
    write_read-Allowed (some b) = write_bound-Allowed b (sv.unmarshal_write b)

    -- A route of code interpreters forwards a request only for the session that its header names,
    -- which is in the store; to the target of the session's record; with a token signed for it as
    -- the only authorization, and the session as the only one named, except that the reverse proxy
    -- removes either where the request's own Connection header names it.
    pub handle-Forwards :
        (route : Route)
        → Forwards
            (IsSessionCall sv (r.headers connection_key) (session_of r) st)
            (handle sv route r st).0
    unfolding handle create_sandbox create_context execute_in_context delete_context get_fs_tree
        get_fs_file write_fs_file upload_fs_file download_fs_file
    handle-Forwards sandboxes = create_sandbox-at (sv.create_code_interpreter st)
    handle-Forwards contexts = context_read-Allowed r.body
    handle-Forwards execute =
        if_not-Forwards (IsSessionCall sv (r.headers connection_key) (session_of r) st)
          (is_empty (trim_space (r.param (bytes "contextId")))) _ _
          (tt, (tt, (tt, (tt, (tt, (tt, tt)))))) (execute_read-Allowed _ r.body)
    handle-Forwards context =
        if_not-Forwards (IsSessionCall sv (r.headers connection_key) (session_of r) st)
          (is_empty (trim_space (r.param (bytes "contextId")))) _ _ (tt, tt) (plainly _ _ _)
    handle-Forwards tree = plainly _ _ _
    handle-Forwards read = plainly _ _ _
    handle-Forwards write = write_read-Allowed r.body
    handle-Forwards upload =
        if_not-Forwards (IsSessionCall sv (r.headers connection_key) (session_of r) st)
          (not (
            has_prefix (to_lower (trim_space (get (bytes "Content-Type") r.headers)))
              (bytes "multipart/form-data")))
          (error_response form_error ∷ [], st) _ (tt, tt)
          (plainly (bytes "POST") (bytes "/api/fs/upload") none)
    handle-Forwards download =
        if_not-Forwards (IsSessionCall sv (r.headers connection_key) (session_of r) st)
          (is_blank (r.query (bytes "path"))) (error_response form_error ∷ [], st) _ (tt, tt)
          (plainly (bytes "GET") (bytes "/api/fs/download") none)
