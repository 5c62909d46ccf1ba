-- ===== src/Gateway/Streaming.antt =====
-- What a handler forwards, and the two ways in which a handler of code interpreters reports that it
-- cannot.
use agentland.Base.{
  Bool, true, false, Option, none, some, List, [], ◌∷◌, ◌++◌, ◌≡◌, refl, ap, if◌then◌else◌,
}
use agentland.Text.{Bytes, bytes}
use agentland.Token.{is_empty}
use agentland.Agentcore.Store.{SandboxInfo}
use agentland.Gateway.{
  Request, Url, Outgoing, ProxyConfig, Effect, error_response, json_error, forward, Lookup, found,
  missing, broken, Services, Call, server_error, form_error, targeted, tokened, begun,
}
use agentland.Gateway.Interpreter.{
  write_sse_error, targeted_sse, tokened_sse, looked_up, looked_up_sse, session_call, signed_after,
  answered, forward_to_sandbox, forward_to_sandbox_sse,
}

-- How each failure is reported.
pub data Failure : Type 0 where
  no_session not_found no_info no_token no_target : Failure

abbrev pub plain : Failure → List Effect
plain no_session = error_response form_error ∷ []
plain not_found = json_error 404 (bytes "session not found") ∷ []
plain no_info = error_response server_error ∷ []
plain no_token = error_response server_error ∷ []
plain no_target = error_response server_error ∷ []

abbrev pub event_text : Failure → Bytes
event_text no_session = bytes "x-agentland-session is required"
event_text not_found = bytes "session not found"
event_text no_info = bytes "get session info failed"
event_text no_token = bytes "issue sandbox token failed"
event_text no_target = bytes "parse sandbox url failed"

abbrev pub event : Bytes → Failure → List Effect
event context_id f = write_sse_error context_id (event_text f)

-- What both handlers come to: the headers set first, then a failure or what is forwarded.
pub data Ending : Type 0 where
  fails : Failure → Ending
  forwards : ProxyConfig → Outgoing → Ending

abbrev pub told : (Failure → List Effect) → Ending → List Effect
told report (fails f) = report f
told report (forwards cfg o) = forward cfg o ∷ []

-- The two handlers end alike from the same state and leave the same one; only the report differs.
pub record SameEnding (sv : Services) (context_id : Bytes) (a b : List Effect × sv.State)
    : Type 0 where
  pub first : List Effect
  pub ending : Ending
  pub plainly : a.0 ≡ first ++ told plain ending
  pub as_event : b.0 ≡ first ++ told (event context_id) ending
  pub same_state : a.1 ≡ b.1

module _ (sv : Services) (context_id : Bytes) (r : Request) where
  abbrev Ends : List Effect × sv.State → List Effect × sv.State → Type 0
  Ends = SameEnding sv context_id

  same_end : (e : Ending) (st : sv.State) → Ends (told plain e, st) (told (event context_id) e, st)
  same_end e st = record {
    first = [];
    ending = e;
    plainly = refl;
    as_event = refl;
    same_state = refl;
  }

  targeted-Ends :
      (c : Call) (token : Bytes) (target : Option Url) (st : sv.State)
      → Ends (targeted sv c r token target, st) (targeted_sse sv context_id c r token target, st)
  targeted-Ends c token none st = same_end (fails no_target) st
  targeted-Ends c token (some u) st = same_end (forwards _ _) st

  tokened-Ends :
      (c : Call) (info : SandboxInfo) (signed : Option Bytes × sv.State)
      → Ends (tokened sv c r info signed) (tokened_sse sv context_id c r info signed)
  tokened-Ends c info (none, st) = same_end (fails no_token) st
  tokened-Ends c info (some token, st) = targeted-Ends c token _ st

  looked_up-Ends :
      (c : Call) (looked : Lookup × sv.State)
      → Ends (looked_up sv c r looked) (looked_up_sse sv context_id c r looked)
  looked_up-Ends c (missing, st) = same_end (fails not_found) st
  looked_up-Ends c (broken, st) = same_end (fails no_info) st
  looked_up-Ends c (found info, st) = tokened-Ends c info (signed_after sv c.session_id st)

  answered-Ends :
      (id : Bytes) (a b : List Effect × sv.State)
      → Ends a b
      → Ends (answered sv r id a) (answered sv r id b)
  answered-Ends id (x, s) (y, t) e = record {
    first = begun r id e.first;
    ending = e.ending;
    plainly = ap (begun r id) e.plainly;
    as_event = ap (begun r id) e.as_event;
    same_state = e.same_state;
  }

  unless :
      (b : Bool) (st : sv.State) (x y : List Effect × sv.State)
      → Ends x y
      → Ends
          (if b then (plain no_session, st) else x)
          (if b then (event context_id no_session, st) else y)
  unless true st x y e = same_end (fails no_session) st
  unless false st x y e = e

  -- Forwarding a request with errors as JSON and forwarding it with errors as events of a stream
  -- leave the same state and forward the same request or fail for the same reason; before that,
  -- they set the same headers.
  pub forward_to_sandbox-SameEnding :
      (method path : Bytes) (body : Option Bytes) (st : sv.State)
      → SameEnding sv context_id
          (forward_to_sandbox sv r method path body st)
          (forward_to_sandbox_sse sv context_id r method path body st)
  unfolding forward_to_sandbox forward_to_sandbox_sse
  forward_to_sandbox-SameEnding method path body st =
      let c = session_call sv method path body r in
      unless (is_empty c.session_id) st _ _
        (answered-Ends c.session_id _ _ (looked_up-Ends c (sv.get_session c.session_id st)))
