-- ===== src/Gateway/Invocations.antt =====
-- What the routes of agent sessions forward, and for whom.
use agentland.Base.{
  Bool, true, false, Option, none, some, List, [], ◌∷◌, ◌≡◌, refl, ◌⊎◌, inl, inr, if◌then◌else◌,
}
use agentland.Text.{Bytes, bytes, trim_space}
use agentland.Token.{is_empty}
use agentland.Agentcore.Store.{SandboxInfo}
use agentland.Gateway.{
  session_header, get, json_error, Request, Outgoing, ProxyConfig, Effect, Lookup, found, missing,
  broken, Services, Call, tokened,
}
use agentland.Gateway.Interpreter.{signed_after}
use agentland.Gateway.Agents.{
  resolve_runtime_ref, created, create_session, existing, resolve_or_create_session,
  forward_request, invoked, invoke_read, invoke, port_found, port_read, proxy_by_port,
}
use agentland.Gateway.Grants.{
  connection_key, KeepsHeaders, IsGranted, Forwards, tokened-Forwards, answered-Forwards,
}
use agentland.Gateway.Routes.{IsSessionCall, if-Forwards, if_not-Forwards}

-- The session that the request's header names.
abbrev pub header_session : Request → Bytes
header_session r = get session_header r.headers

-- Where an invocation's session comes from, and the state in which it is known: it is the header's
-- and in the store; or the header names none, or one that the store does not have, and it is created
-- for the runtime of the request.
pub data Origin (sv : Services) (default_name default_ns : Bytes) (r : Request) (st : sv.State)
    : Bytes → SandboxInfo → sv.State → Type 0 where
  known :
      (info : SandboxInfo) (after : sv.State)
      → is_empty (header_session r) ≡ false
      → sv.get_session (header_session r) st ≡ (found info, after)
      → Origin sv default_name default_ns r st (header_session r) info after
  fresh :
      (id endpoint : Bytes) (before after : sv.State)
      → ((is_empty (header_session r) ≡ true) × (before ≡ st))
        ⊎ (sv.get_session (header_session r) st ≡ (missing, before))
      → is_empty (trim_space (resolve_runtime_ref r default_name default_ns).0) ≡ false
      → sv.create_agent_session
          (resolve_runtime_ref r default_name default_ns).0
          (resolve_runtime_ref r default_name default_ns).1
          before
        ≡ (some (id, endpoint), after)
      → Origin sv default_name default_ns r st id
          (record {
            sandbox_id = id;
            grpc_endpoint = endpoint;
            created_at = none;
            expires_at = none;
          })
          after

-- A request forwarded for a session of such an origin.
pub record IsInvocation (sv : Services) (default_name default_ns : Bytes) (r : Request)
    (st : sv.State) (cfg : ProxyConfig) (o : Outgoing) : Type 0 where
  pub session_id : Bytes
  pub info : SandboxInfo
  pub after : sv.State
  pub origin : Origin sv default_name default_ns r st session_id info after
  pub granted : IsGranted sv (r.headers connection_key) session_id info after cfg o

module _ (sv : Services) (default_name default_ns : Bytes) (keeps : KeepsHeaders sv)
    (r : Request) where
  forward_request-Forwards :
      (P : ProxyConfig → Outgoing → Type 0) (session_id : Bytes) (info : SandboxInfo) (path : Bytes)
      (body : Option Bytes) (st : sv.State)
      → ((cfg : ProxyConfig) (o : Outgoing)
          → IsGranted sv (r.headers connection_key) session_id info st cfg o
          → P cfg o)
      → Forwards P (forward_request sv default_name default_ns r session_id info path body st).0
  unfolding forward_request
  forward_request-Forwards P session_id info path body st granted =
      let c : Call = record {
        method = r.method;
        path = path;
        body = body;
        session_id = session_id;
      } in
      answered-Forwards sv keeps r P session_id
        (tokened sv c r info (signed_after sv session_id st))
        (tokened-Forwards sv keeps r P c info st granted)

  module _ (st : sv.State) where
    abbrev From : Bytes → SandboxInfo → sv.State → Type 0
    From = Origin sv default_name default_ns r st

    abbrev Resolved : Option (SandboxInfo × Bytes) × sv.State → Type 0
    Resolved (none, s) = Unit {0}
    Resolved (some (info, id), s) = From id info s

    abbrev IsAbsent : sv.State → Type 0
    IsAbsent before =
        ((is_empty (header_session r) ≡ true) × (before ≡ st))
        ⊎ (sv.get_session (header_session r) st ≡ (missing, before))

    created-Resolved :
        (before : sv.State) (answer : Option (Bytes × Bytes) × sv.State)
        → IsAbsent before
        → is_empty (trim_space (resolve_runtime_ref r default_name default_ns).0) ≡ false
        → sv.create_agent_session
            (resolve_runtime_ref r default_name default_ns).0
            (resolve_runtime_ref r default_name default_ns).1
            before
          ≡ answer
        → Resolved (created sv default_name default_ns answer)
    created-Resolved before (none, s) absent filled e = tt
    created-Resolved before (some (id, endpoint), s) absent filled e =
        fresh id endpoint before s absent filled e

    if-Resolved :
        (b : Bool) (x y : Option (SandboxInfo × Bytes) × sv.State)
        → (b ≡ true → Resolved x)
        → (b ≡ false → Resolved y)
        → Resolved (if b then x else y)
    if-Resolved true x y hx hy = hx refl
    if-Resolved false x y hx hy = hy refl

    create_session-Resolved :
        (before : sv.State)
        → IsAbsent before
        → Resolved (create_session sv default_name default_ns r before)
    create_session-Resolved before absent =
        if-Resolved (is_empty (trim_space (resolve_runtime_ref r default_name default_ns).0))
          (none, before) _ (λ e. tt)
          (λ e.
            created-Resolved before
              (sv.create_agent_session (resolve_runtime_ref r default_name default_ns).0
                (resolve_runtime_ref r default_name default_ns).1 before)
              absent e refl)

    existing-Resolved :
        (looked : Lookup × sv.State)
        → is_empty (header_session r) ≡ false
        → sv.get_session (header_session r) st ≡ looked
        → Resolved (existing sv default_name default_ns r (header_session r) looked)
    existing-Resolved (found info, s) filled e = known info s filled e
    existing-Resolved (broken, s) filled e = tt
    existing-Resolved (missing, s) filled e = create_session-Resolved s (inr e)

    resolve_or_create_session-Resolved :
        Resolved (resolve_or_create_session sv default_name default_ns r st)
    unfolding resolve_or_create_session
    resolve_or_create_session-Resolved =
        if-Resolved (is_empty (header_session r)) _ _
          (λ e. create_session-Resolved st (inl (e, refl)))
          (λ e. existing-Resolved (sv.get_session (header_session r) st) e refl)

    abbrev Invoked : List Effect × sv.State → Type 0
    Invoked x = Forwards (IsInvocation sv default_name default_ns r st) x.0

    invoked-Forwards :
        (body : Bytes) (x : Option (SandboxInfo × Bytes) × sv.State)
        → Resolved x
        → Invoked (invoked sv default_name default_ns r body x)
    invoked-Forwards body (none, s) h = (tt, tt)
    invoked-Forwards body (some (info, id), s) h =
        forward_request-Forwards (IsInvocation sv default_name default_ns r st) id info _
          (some body) s
          (λ cfg o g. record { session_id = id; info = info; after = s; origin = h; granted = g })

    invoke_read-Forwards :
        (body : Option Bytes) → Invoked (invoke_read sv default_name default_ns r body st)
    invoke_read-Forwards none = (tt, tt)
    invoke_read-Forwards (some body) = invoked-Forwards body _ resolve_or_create_session-Resolved

    -- An invocation is forwarded only for the session that its header names, if the store has it, and
    -- else for one that is created for the request's runtime, if the header names none or the store
    -- does not have it; never where the store fails. It goes to that session's sandbox, with a token
    -- signed for the session as the only authorization and the session as the only one named, except
    -- that the reverse proxy removes either where the request's own Connection header names it.
    pub invoke-Forwards :
        Forwards
          (IsInvocation sv default_name default_ns r st)
          (invoke sv default_name default_ns r st).0
    unfolding invoke
    invoke-Forwards = invoke_read-Forwards r.body

    abbrev path_session : Bytes
    path_session = trim_space (r.param (bytes "sessionId"))

    port_found-Forwards :
        (port body : Bytes) (looked : Lookup × sv.State)
        → is_empty path_session ≡ false
        → sv.get_session path_session st ≡ looked
        → Forwards
            (IsSessionCall sv (r.headers connection_key) path_session st)
            (port_found sv default_name default_ns r port path_session body looked).0
    port_found-Forwards port body (missing, s) n e = (tt, tt)
    port_found-Forwards port body (broken, s) n e = (tt, tt)
    port_found-Forwards port body (found info, s) n e =
        forward_request-Forwards (IsSessionCall sv (r.headers connection_key) path_session st)
          path_session info _ (some body) s
          (λ cfg o g. record { info = info; after = s; looked = e; named = n; granted = g })

    port_read-Forwards :
        (port : Bytes) (body : Option Bytes)
        → is_empty path_session ≡ false
        → Forwards
            (IsSessionCall sv (r.headers connection_key) path_session st)
            (port_read sv default_name default_ns r port path_session body st).0
    port_read-Forwards port none n = (tt, tt)
    port_read-Forwards port (some body) n = port_found-Forwards port body _ n refl

    -- A request for a port is forwarded only for the session that its path names, which is in the
    -- store, under the same conditions.
    pub proxy_by_port-Forwards :
        Forwards
          (IsSessionCall sv
            (r.headers connection_key)
            (trim_space (r.param (bytes "sessionId")))
            st)
          (proxy_by_port sv default_name default_ns r st).0
    unfolding proxy_by_port
    proxy_by_port-Forwards =
        if_not-Forwards (IsSessionCall sv (r.headers connection_key) path_session st)
          (is_empty (trim_space (r.param (bytes "port")))) _ _ (tt, tt)
          (if-Forwards (IsSessionCall sv (r.headers connection_key) path_session st)
            (is_empty path_session)
            (json_error 400 (bytes "port and sessionId are required") ∷ [], st) _ (tt, tt)
            (λ n. port_read-Forwards (trim_space (r.param (bytes "port"))) r.body n))
