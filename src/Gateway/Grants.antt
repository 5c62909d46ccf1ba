-- ===== src/Gateway/Grants.antt =====
-- For which session, with which token and to which sandbox the gateway forwards a request.
use mathlib.Core.Path.{ap₂}
use agentland.Gateway.Http.{mentions, proxied}
use agentland.Gateway.Proxied.{unless_named, IsEndToEnd, proxied-unless_named}
use agentland.Base.{
  true, false, Option, none, some, List, [], ◌∷◌, ◌++◌, ◌≡◌, refl, ◌∙◌, All, if◌then◌else◌,
}
use agentland.Text.{Bytes, bytes, bytes_eq, to_lower}
use agentland.Token.{is_empty}
use agentland.Agentcore.Store.{SandboxInfo}
use agentland.Gateway.{
  session_header, request_id_header, Headers, set_some, with_body, Request, Url, Outgoing,
  ProxyConfig, Effect, set_header, error_response, json_error, success_response, status,
  error_event, forward, Services, Call, config, targeted, tokened, resolve_sandbox_target, director,
}
use agentland.Gateway.Interpreter.{targeted_sse, tokened_sse, signed_after, answered}

abbrev pub authorization_key : Bytes
authorization_key = bytes "authorization"

abbrev pub connection_key : Bytes
connection_key = bytes "connection"

-- Propagation of traces leaves the headers alone that name the session and the token, and Connection.
pub record KeepsHeaders (sv : Services) : Type 0 where
  pub authorization : (h : Headers) → sv.inject h authorization_key ≡ h authorization_key
  pub session : (h : Headers) → sv.inject h session_header ≡ h session_header
  pub connection : (h : Headers) → sv.inject h connection_key ≡ h connection_key

-- One value, or none where it is empty.
abbrev pub at_most_one : Bytes → Bytes → List Bytes
at_most_one prefix v = if is_empty v then [] else (prefix ++ v) ∷ []

-- A token for the session goes with the request, to the sandbox of the session's record, as its only
-- authorization and with the session as the only one named, unless the client's own Connection header,
-- whose values are `connection`, makes the reverse proxy remove either. `st` is the state in which the session
-- became known.
pub record IsGranted (sv : Services) (connection : List Bytes) (session_id : Bytes)
    (info : SandboxInfo) (st : sv.State) (cfg : ProxyConfig) (o : Outgoing) : Type 0 where
  pub signed : (signed_after sv session_id st).0 ≡ some cfg.sandbox_token
  pub target : resolve_sandbox_target sv info.grpc_endpoint ≡ some cfg.target
  pub host : o.host ≡ cfg.target.host
  pub authorization :
      o.headers authorization_key
      ≡ unless_named authorization_key connection (at_most_one (bytes "Bearer ") cfg.sandbox_token)
  pub session :
      o.headers session_header ≡ unless_named session_header connection (at_most_one [] session_id)

-- What holds of every request that is forwarded.
abbrev pub Sent : (ProxyConfig → Outgoing → Type 0) → Effect → Type 0
Sent P (forward cfg o) = P cfg o
Sent P (set_header k v) = Unit {0}
Sent P (error_response e) = Unit {0}
Sent P (json_error n s) = Unit {0}
Sent P (success_response s) = Unit {0}
Sent P (status n) = Unit {0}
Sent P (error_event c s) = Unit {0}

abbrev pub Forwards : (ProxyConfig → Outgoing → Type 0) → List Effect → Type 0
Forwards P effects = All (Sent P) effects

set_some-other :
    (name prefix v k : Bytes) (h : Headers)
    → bytes_eq (to_lower name) k ≡ false
    → set_some name prefix v h k ≡ h k
set_some-other name prefix [] k h e = refl
set_some-other name prefix (b ∷ v) k h e = rw e refl

set_some-same :
    (name prefix v k : Bytes) (h : Headers)
    → bytes_eq (to_lower name) k ≡ true
    → h k ≡ []
    → set_some name prefix v h k ≡ at_most_one prefix v
set_some-same name prefix [] k h e empty = empty
set_some-same name prefix (b ∷ v) k h e empty = rw e refl

with_body-other :
    (body : Option Bytes) (k : Bytes) (h : Headers)
    → bytes_eq (bytes "content-type") k ≡ false
    → with_body body h k ≡ h k
unfolding to_lower
with_body-other none k h e = refl
with_body-other (some b) k h e = rw e refl

IsEndToEnd-authorization : IsEndToEnd authorization_key
unfolding mentions
IsEndToEnd-authorization = record {
  agent = refl;
  client = refl;
  upgrade = refl;
  connection = refl;
  te = refl;
  hop = refl;
}

IsEndToEnd-session : IsEndToEnd session_header
unfolding mentions
IsEndToEnd-session = record {
  agent = refl;
  client = refl;
  upgrade = refl;
  connection = refl;
  te = refl;
  hop = refl;
}

module _ (sv : Services) (keeps : KeepsHeaders sv) (r : Request) where
  director-authorization :
      (cfg : ProxyConfig)
      → (director sv r cfg).headers authorization_key
        ≡ at_most_one (bytes "Bearer ") cfg.sandbox_token
  unfolding director to_lower
  director-authorization cfg =
      with_body-other cfg.body authorization_key _ refl
      ∙ keeps.authorization _
      ∙ set_some-other request_id_header [] cfg.request_id authorization_key _ refl
      ∙ set_some-other session_header [] cfg.session_id authorization_key _ refl
      ∙ set_some-same (bytes "Authorization") (bytes "Bearer ") cfg.sandbox_token authorization_key
          _ refl refl

  director-session :
      (cfg : ProxyConfig)
      → (director sv r cfg).headers session_header ≡ at_most_one [] cfg.session_id
  unfolding director to_lower
  director-session cfg =
      with_body-other cfg.body session_header _ refl
      ∙ keeps.session _
      ∙ set_some-other request_id_header [] cfg.request_id session_header _ refl
      ∙ set_some-same session_header [] cfg.session_id session_header _ refl (
          set_some-other (bytes "Authorization") (bytes "Bearer ") cfg.sandbox_token session_header
            _ refl)

  director-connection :
      (cfg : ProxyConfig) → (director sv r cfg).headers connection_key ≡ r.headers connection_key
  unfolding director to_lower
  director-connection cfg =
      with_body-other cfg.body connection_key _ refl
      ∙ keeps.connection _
      ∙ set_some-other request_id_header [] cfg.request_id connection_key _ refl
      ∙ set_some-other session_header [] cfg.session_id connection_key _ refl
      ∙ set_some-other (bytes "Authorization") (bytes "Bearer ") cfg.sandbox_token connection_key _
          refl

  -- What goes out for a configuration.
  abbrev pub sent_on : ProxyConfig → Outgoing
  sent_on cfg = record (director sv r cfg) {
    headers = proxied r.client r.headers (director sv r cfg).headers;
  }

  sent_on-unless_named :
      (k : Bytes) (e : IsEndToEnd k) (vs : List Bytes) (cfg : ProxyConfig)
      → (director sv r cfg).headers k ≡ vs
      → (sent_on cfg).headers k ≡ unless_named k (r.headers connection_key) vs
  sent_on-unless_named k e vs cfg h =
      proxied-unless_named k e r.client r.headers (director sv r cfg).headers
      ∙ ap₂ (unless_named k) (director-connection cfg) h

  module _ (P : ProxyConfig → Outgoing → Type 0) (c : Call) (info : SandboxInfo) (st : sv.State)
      (granted : (cfg : ProxyConfig) (o : Outgoing)
        → IsGranted sv (r.headers connection_key) c.session_id info st cfg o
        → P cfg o) where
    granted_at :
        (token : Bytes) (u : Url)
        → (signed_after sv c.session_id st).0 ≡ some token
        → resolve_sandbox_target sv info.grpc_endpoint ≡ some u
        → P (config c r token u) (sent_on (config c r token u))
    unfolding director
    granted_at token u e t = granted _ _ (record {
      signed = e;
      target = t;
      host = refl;
      authorization =
          sent_on-unless_named authorization_key IsEndToEnd-authorization _ (config c r token u)
            (director-authorization (config c r token u));
      session =
          sent_on-unless_named session_header IsEndToEnd-session _ (config c r token u)
            (director-session (config c r token u));
    })

    targeted-Forwards :
        (token : Bytes) (target : Option Url)
        → (signed_after sv c.session_id st).0 ≡ some token
        → resolve_sandbox_target sv info.grpc_endpoint ≡ target
        → Forwards P (targeted sv c r token target)
    targeted-Forwards token none e t = (tt, tt)
    targeted-Forwards token (some u) e t = (granted_at token u e t, tt)

    tokened-at :
        (signed : Option Bytes × sv.State)
        → (signed_after sv c.session_id st).0 ≡ signed.0
        → Forwards P (tokened sv c r info signed).0
    tokened-at (none, s) e = (tt, tt)
    tokened-at (some token, s) e = targeted-Forwards token _ e refl

    pub tokened-Forwards : Forwards P (tokened sv c r info (signed_after sv c.session_id st)).0
    tokened-Forwards = tokened-at (signed_after sv c.session_id st) refl

    targeted_sse-Forwards :
        (context_id token : Bytes) (target : Option Url)
        → (signed_after sv c.session_id st).0 ≡ some token
        → resolve_sandbox_target sv info.grpc_endpoint ≡ target
        → Forwards P (targeted_sse sv context_id c r token target)
    targeted_sse-Forwards context_id token none e t = (tt, (tt, (tt, (tt, (tt, (tt, tt))))))
    targeted_sse-Forwards context_id token (some u) e t = (granted_at token u e t, tt)

    pub tokened_sse-Forwards :
        (context_id : Bytes) (signed : Option Bytes × sv.State)
        → (signed_after sv c.session_id st).0 ≡ signed.0
        → Forwards P (tokened_sse sv context_id c r info signed).0
    tokened_sse-Forwards context_id (none, s) e = (tt, (tt, (tt, (tt, (tt, (tt, tt))))))
    tokened_sse-Forwards context_id (some token, s) e =
        targeted_sse-Forwards context_id token _ e refl

  pub answered-Forwards :
      (P : ProxyConfig → Outgoing → Type 0) (id : Bytes) (x : List Effect × sv.State)
      → Forwards P x.0
      → Forwards P (answered sv r id x).0
  answered-Forwards P id (effects, s) h = (tt, (tt, h))
