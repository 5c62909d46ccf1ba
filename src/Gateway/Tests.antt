-- ===== src/Gateway/Tests.antt =====
-- The theorems on the gateway at concrete inputs, on the log of pipelines of
-- Agentcore.Store.Concrete. The base64 of the tests writes a byte in unary, its signature is the sum of
-- the bytes.
use mathlib.Core.Path.{ap₂}
use agentland.Base.{
  ℕ, zero, suc, ◌+◌, ◌*◌, ◌≤◌, ◌<◌, ◌≢◌, true, false, none, some, ◌==◌, List, [], ◌∷◌, ◌≡◌, refl,
  ap, sym, ◌∙◌, arith, subst, All,
}
use agentland.Text.Utf8.{valid}
use agentland.Gateway.Http.{mentions, connection_names, listed_names}
use agentland.Text.{Bytes, bytes, bytes_eq, pos, trim_space, to_lower, has_prefix}
use agentland.Text.Search.{bytes_eq_refl}
use agentland.Token.{
  Crypto, Signer, Verifier, second, sign, sign_token, signed_header, signed_claims,
}
use agentland.Token
use agentland.Agentcore.Store.{create_session, get_session, update_latest_activity}
use agentland.Agentcore.Store.Concrete.{logged, prefixed, Pipelines}
use agentland.Gateway.{
  session_header, set, Headers, Request, Effect, set_header, error_response, json_error,
  success_response, status, error_event, forward, http_code, Services, director,
  resolve_sandbox_target,
}
use agentland.Gateway.Interpreter.{
  contexts, execute, write, handle, forward_to_sandbox, forward_to_sandbox_sse,
}
use agentland.Gateway.Agents.{invoke}
use agentland.Gateway.Grants.{authorization_key, KeepsHeaders, Forwards}
use agentland.Gateway.Routes.{session_of, IsSessionCall, handle-Forwards}
use agentland.Gateway.Invocations.{IsInvocation, invoke-Forwards}
use agentland.Gateway.Streaming.{SameEnding, forward_to_sandbox-SameEnding}
use agentland.Gateway.Delivery.{IsLetIn, handle-IsLetIn}
use agentland.Gateway.Wiring.{Outside, wired}
use agentland.Token.RoundTrip.{IsHeaderText, IsClaimsText, IsSound}
use agentland.Agentcore.Store.Views.{run, live}
use agentland.Text.Prefixed.{put_text}
use agentland.Token.Bearer.{EncodesPlain}
use agentland.Token.Concrete.{
  put_int, write_header, read_header, read_header-write_header, write_claims, read_claims,
  read_claims-write_claims,
}

unary : ℕ → Bytes → Bytes
unary zero s = b'0' ∷ s
unary (suc n) s = b'1' ∷ unary n s

encode : Bytes → Bytes
unfolding unary
encode [] = []
encode (b ∷ s) = unary b (encode s)

decode_from : ℕ → Bytes → Bytes
decode_from n [] = []
decode_from n (c ∷ s) = elim (c == b'0') [
  | true ↦ n ∷ decode_from 0 s
  | false ↦ decode_from (suc n) s
]

decode_from-unary : (n m : ℕ) (s : Bytes) → decode_from n (unary m s) ≡ (n + m) ∷ decode_from 0 s
unfolding unary decode_from
decode_from-unary n zero s = ap (λ (k : ℕ). k ∷ decode_from 0 s) (omega arith)
decode_from-unary n (suc m) s =
    decode_from-unary (suc n) m s ∙ ap (λ (k : ℕ). k ∷ decode_from 0 s) (omega arith)

decode_from-encode : (s : Bytes) → decode_from 0 (encode s) ≡ s
unfolding encode decode_from
decode_from-encode [] = refl
decode_from-encode (b ∷ s) =
    decode_from-unary 0 b (encode s)
    ∙ ap₂ (λ (k : ℕ) (t : Bytes). k ∷ t) (omega arith) (decode_from-encode s)

All-unary : (P : ℕ → Type 0) (n : ℕ) (s : Bytes) → P b'0' → P b'1' → All P s → All P (unary n s)
unfolding unary
All-unary P zero s z o h = (z, h)
All-unary P (suc n) s z o h = (o, All-unary P n s z o h)

All-encode : (P : ℕ → Type 0) (s : Bytes) → P b'0' → P b'1' → All P (encode s)
unfolding encode
All-encode P [] z o = tt
All-encode P (b ∷ s) z o = All-unary P b (encode s) z o (All-encode P s z o)

sum : Bytes → ℕ
sum [] = 0
sum (b ∷ s) = b + sum s

abbrev crypto : Crypto
crypto = record {
  PrivateKey = Unit {0};
  PublicKey = Unit {0};
  load_private_key = λ _. some tt;
  load_public_key = λ _. some tt;
  sign = λ _ input. some (sum input ∷ []);
  verify = λ _ input signature. bytes_eq (sum input ∷ []) signature;
  encode = encode;
  decode = λ s. some (decode_from 0 s);
  marshal_header = λ h. some (write_header h);
  unmarshal_header = λ s. some (read_header s);
  marshal_claims = λ c. some (write_claims c);
  unmarshal_claims = λ s. some (read_claims s);
}

crypto-IsSound : IsSound crypto tt tt
crypto-IsSound = record {
  decode-encode = λ s. ap some (decode_from-encode s);
  encode-NoDot = λ s.
      All-encode (λ b. b ≢ Token.dot) s (λ h. absurd (ground (arith, h)))
        (λ h. absurd (ground (arith, h)));
  verify-sign = λ input signature e.
      subst (λ t. bytes_eq (sum input ∷ []) t ≡ true) {x = sum input ∷ []} (ground (arith, e))
        (bytes_eq_refl (sum input ∷ []));
  unmarshal_header =
      λ h s _ e. ap some (ap read_header (sym (ground (arith, e))) ∙ read_header-write_header h);
  unmarshal_claims =
      λ c s _ e. ap some (ap read_claims (sym (ground (arith, e))) ∙ read_claims-write_claims c);
}

crypto-EncodesPlain : EncodesPlain crypto
crypto-EncodesPlain s =
    All-encode (λ b. (33 ≤ b) × (b < 128)) s (omega arith, omega arith) (omega arith, omega arith)

abbrev signer : Signer crypto
signer = record {
  private_key = tt;
  issuer = bytes "gw";
  audience = bytes "sb";
  kid = bytes "k";
  ttl = 60 * second;
}

abbrev verifier : Verifier crypto
verifier = record { public_key = tt; issuer = bytes "gw"; audience = bytes "sb"; clock_skew = 0 }

abbrev outside : Outside Pipelines
outside = record {
  clock = λ n. 100 * second + n;
  ids = λ n. [];
  create_code_interpreter = λ st. (some (bytes "s2"), st);
  create_agent_session = λ name ns st. (some (bytes "s3", bytes "10.0.0.3:1883"), st);
  unmarshal_create = λ b. some (record { language = b; cwd = [] });
  unmarshal_execute = λ b. some (record { code = b; timeout_ms = pos 100 });
  unmarshal_write = λ b. none;
  parse_url = λ b. some (record { scheme = bytes "http"; host = b; path = [] });
  inject = λ h. h;
}

abbrev gateway : Services
gateway = wired crypto signer logged prefixed outside

keeps : KeepsHeaders gateway
keeps = record { authorization = λ h. refl; session = λ h. refl; connection = λ h. refl }

abbrev stored : Pipelines
stored =
    (create_session logged prefixed (99 * second) (99 * second)
      (record {
        sandbox_id = bytes "s1";
        grpc_endpoint = bytes "10.0.0.1:1883";
        created_at = none;
        expires_at = none;
      })
      []).1

abbrev request : Bytes → Bytes → Request
request session_id body = record {
  method = bytes "POST";
  raw_query = [];
  query = λ k. [];
  param = λ k. bytes "x";
  headers = set session_header session_id (set (bytes "Authorization") (bytes "Basic x") (λ k. []));
  body = some body;
  request_id = bytes "r";
  client = [];
}

-- What becomes of a request: a number for an answer, the host and the session's header for what is
-- forwarded.
summary : List Effect → List (ℕ × Bytes × List Bytes)
summary [] = []
summary (set_header k v ∷ es) = summary es
summary (error_response e ∷ es) = (http_code e, [], []) ∷ summary es
summary (json_error n s ∷ es) = (n, s, []) ∷ summary es
summary (success_response s ∷ es) = (200, s, []) ∷ summary es
summary (status n ∷ es) = summary es
summary (error_event c s ∷ es) = (200, s, []) ∷ summary es
summary (forward cfg o ∷ es) = (0, o.host, o.headers session_header) ∷ summary es

test_python :
    summary (handle gateway contexts (request (bytes " s1") (bytes "python")) (stored, 0)).0
    ≡ (0, bytes "http://10.0.0.1:1883", bytes "s1" ∷ []) ∷ []
unfolding mentions listed_names summary handle forward_to_sandbox trim_space to_lower has_prefix
    get_session create_session run live agentland.Agentcore.Store.Concrete.read_info
    agentland.Agentcore.Store.Concrete.write_info agentland.Agentcore.Store.Concrete.get_time
    agentland.Agentcore.Store.Concrete.put_time agentland.Agentcore.Store.Concrete.info
    agentland.Text.Prefixed.get_text sign sign_token encode unary write_header write_claims put_text
    put_int sum director resolve_sandbox_target update_latest_activity
test_python = refl

test_unknown_session :
    summary (handle gateway execute (request (bytes "s4") (bytes "print(1)")) (stored, 0)).0
    ≡ (200, bytes "session not found", []) ∷ []
unfolding mentions listed_names summary handle forward_to_sandbox_sse trim_space to_lower has_prefix
    get_session create_session run live
test_unknown_session = refl

-- A body that is no JSON is answered twice.
test_not_bound :
    summary (handle gateway write (request (bytes "s1") []) (stored, 0)).0
    ≡ (400, [], []) ∷ (400, [], []) ∷ []
unfolding mentions listed_names summary handle
test_not_bound = refl

test_invoke :
    summary (invoke gateway (bytes "rt") (bytes "ns") (request [] []) (stored, 0)).0
    ≡ (0, bytes "http://10.0.0.3:1883", bytes "s3" ∷ []) ∷ []
unfolding mentions listed_names summary invoke agentland.Gateway.Agents.resolve_or_create_session
    agentland.Gateway.Agents.resolve_runtime_ref agentland.Gateway.Agents.forward_request trim_space
    to_lower has_prefix sign sign_token encode unary write_header write_claims put_text put_int sum
    director resolve_sandbox_target update_latest_activity
test_invoke = refl

handle-Forwards_example :
    Forwards
      (IsSessionCall gateway [] (bytes "s1") (stored, 0))
      (handle gateway contexts (request (bytes " s1") (bytes "python")) (stored, 0)).0
unfolding trim_space to_lower
handle-Forwards_example =
    handle-Forwards gateway keeps (request (bytes " s1") (bytes "python")) (stored, 0) contexts

header_text : IsHeaderText (signed_header crypto signer)
unfolding valid
header_text = (refl, refl, refl)

claims_text : IsClaimsText (
    signed_claims crypto signer
      (outside.clock 2)
      (outside.ids 2)
      (session_of (request (bytes " s1") (bytes "python")))
      []
      (pos 0))
unfolding valid trim_space to_lower
claims_text = record {
  issuer = refl;
  audience = refl;
  session_id = refl;
  subject = refl;
  jwt_id = refl;
  version = omega arith;
  issued_at = omega arith;
  not_before = omega arith;
  expires_at = omega arith;
}

kept_authorization :
    mentions authorization_key (connection_names (request (bytes " s1") (bytes "python")).headers)
    ≡ false
unfolding mentions listed_names to_lower
kept_authorization = refl

kept_session :
    mentions session_header (connection_names (request (bytes " s1") (bytes "python")).headers)
    ≡ false
unfolding mentions listed_names to_lower
kept_session = refl

handle-IsLetIn_example :
    Forwards
      (IsLetIn crypto signer verifier crypto-IsSound crypto-EncodesPlain logged prefixed outside
        keeps
        (request (bytes " s1") (bytes "python"))
        stored
        0
        refl
        refl
        (omega arith)
        (omega arith)
        header_text
        claims_text
        kept_authorization
        kept_session)
      (handle gateway contexts (request (bytes " s1") (bytes "python")) (stored, 0)).0
handle-IsLetIn_example =
    handle-IsLetIn crypto signer verifier crypto-IsSound crypto-EncodesPlain logged prefixed outside
      keeps (request (bytes " s1") (bytes "python")) stored 0 refl refl (omega arith) (omega arith)
      header_text claims_text kept_authorization kept_session contexts

invoke-Forwards_example :
    Forwards
      (IsInvocation gateway (bytes "rt") (bytes "ns") (request [] []) (stored, 0))
      (invoke gateway (bytes "rt") (bytes "ns") (request [] []) (stored, 0)).0
invoke-Forwards_example =
    invoke-Forwards gateway (bytes "rt") (bytes "ns") keeps (request [] []) (stored, 0)

forward_to_sandbox-SameEnding_example :
    SameEnding gateway
      (bytes "x")
      (forward_to_sandbox gateway
        (request (bytes "s4") [])
        (bytes "POST")
        (bytes "/p")
        none
        (stored, 0))
      (forward_to_sandbox_sse gateway
        (bytes "x")
        (request (bytes "s4") [])
        (bytes "POST")
        (bytes "/p")
        none
        (stored, 0))
forward_to_sandbox-SameEnding_example =
    forward_to_sandbox-SameEnding gateway (bytes "x") (request (bytes "s4") []) (bytes "POST")
      (bytes "/p") none (stored, 0)
