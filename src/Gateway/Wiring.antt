-- ===== src/Gateway/Wiring.antt =====
-- The services that the gateway runs with: the session store on Redis and the signer of tokens
-- (InitCodeInterpreterApi and InitAgentSessionApi). Every call reads the clock once; the readings and
-- the random ids of tokens are sequences.
use agentland.Base.{ℕ, suc, Bool, true, false, Option, none, some}
use agentland.Text.{Bytes}
use agentland.Token.{Crypto, Signer, Checked, ok, refused}
use agentland.Token
use agentland.Agentcore.Store.{
  SandboxInfo, Redis, Json, Failure, session_not_found, invalid_expiry, not_json, redis_failed,
  Result, err,
}
use agentland.Agentcore.Store
use agentland.Gateway.{
  Lookup, found, missing, broken, CreateContextReq, ExecuteContextReq, WriteFsFileReq, Url, Headers,
  Services,
}

abbrev pub lookup_of : Result SandboxInfo → Lookup
lookup_of (Store.ok info) = found info
lookup_of (err session_not_found) = missing
lookup_of (err invalid_expiry) = broken
lookup_of (err not_json) = broken
lookup_of (err redis_failed) = broken

abbrev pub is_done : Result (Unit {0}) → Bool
is_done (Store.ok _) = true
is_done (err _) = false

abbrev pub token_of : Checked Bytes → Option Bytes
token_of (ok token) = some token
token_of (refused _) = none

-- What is not the repository's: the clock, random ids, the client of the session service and
-- decoders.
pub record Outside (State : Type 0) : Type 0 where
  pub clock : ℕ → ℕ
  pub ids : ℕ → Bytes
  pub create_code_interpreter : State → Option Bytes × State
  pub create_agent_session : Bytes → Bytes → State → Option (Bytes × Bytes) × State
  pub unmarshal_create : Bytes → Option CreateContextReq
  pub unmarshal_execute : Bytes → Option ExecuteContextReq
  pub unmarshal_write : Bytes → Option WriteFsFileReq
  pub parse_url : Bytes → Option Url
  pub inject : Headers → Headers

module _ (c : Crypto) (signer : Signer c) (redis : Redis) (json : Json)
    (out : Outside redis.State) where
  abbrev pub counted : {A : Type 0} → ℕ → A × redis.State → A × (redis.State × ℕ)
  counted n (a, s) = (a, (s, suc n))

  -- The state of Redis and the number of calls so far.
  abbrev pub wired : Services
  wired = record {
    State = redis.State × ℕ;
    get_session = λ id st.
        (lookup_of (Store.get_session redis json (out.clock st.1) id st.0), (st.0, suc st.1));
    update_latest_activity = λ id st.
        let done = Store.update_latest_activity redis json (out.clock st.1) id st.0 in
        (is_done done.0, (done.1, suc st.1));
    sign = λ session_id subject version st. (
      token_of (Token.sign c signer (out.clock st.1) (out.ids st.1) session_id subject version),
      (st.0, suc st.1),
    );
    create_code_interpreter = λ st. counted st.1 (out.create_code_interpreter st.0);
    create_agent_session = λ name ns st. counted st.1 (out.create_agent_session name ns st.0);
    unmarshal_create = out.unmarshal_create;
    unmarshal_execute = out.unmarshal_execute;
    unmarshal_write = out.unmarshal_write;
    parse_url = out.parse_url;
    inject = out.inject;
  }
