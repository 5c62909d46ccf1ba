-- ===== src/Gateway/Delivery.antt =====
-- From the gateway to the daemon: what is forwarded is let in.
use mathlib.Core.Path.{ap₂}
use agentland.Base.{
  ◌^◌, ℕ, suc, ◌+◌, ◌*◌, ◌/◌, ◌≤◌, ◌<◌, true, false, some, List, [], ◌∷◌, ◌++◌, ◌≡◌, refl, sym, ap,
  ◌∙◌, arith, subst,
}
use agentland.Text.{Bytes, bytes, bytes_eq, to_lower, trim_space, pos}
use agentland.Text.Search.{bytes_eq_refl}
use agentland.Text.Trim.{trim_space_idem}
use agentland.Gateway.Http.{mentions, connection_names}
use agentland.Token.{
  signed_header, unix_to_internal, second, Crypto, Signer, Verifier, Checked, ok, refused, is_empty,
  sign, verify, signed_claims, parse_bearer_token,
}
use agentland.Token.RoundTrip.{IsHeaderText, IsClaimsText, IsSound, sign-verify}
use agentland.Token.Bearer.{EncodesPlain, IsBearer, sign-IsBearer, parse_bearer_token-IsBearer}
use agentland.Korokd.Auth.{passed, sandbox_auth, with_token}
use agentland.Agentcore.Store.{Redis, Json}
use agentland.Gateway.{
  set_header, error_response, json_error, success_response, status, error_event, forward, Lookup,
  session_header, get, first_of, Request, Outgoing, ProxyConfig, Effect,
}
use agentland.Gateway.Interpreter.{Route, handle}
use agentland.Gateway.Grants.{
  connection_key, authorization_key, KeepsHeaders, Forwards, Sent, at_most_one,
}
use agentland.Gateway.Routes.{session_of, IsSessionCall, handle-Forwards}
use agentland.Gateway.Wiring.{Outside, wired, token_of}

at_most_one_filled : (p v : Bytes) → is_empty v ≡ false → first_of (at_most_one p v) ≡ p ++ v
at_most_one_filled p [] h = absurd (ground (arith, h))
at_most_one_filled p (b ∷ v) h = refl

Sent-weaken :
    (P Q : ProxyConfig → Outgoing → Type 0)
    → ((cfg : ProxyConfig) (o : Outgoing) → P cfg o → Q cfg o)
    → (e : Effect) → Sent P e
    → Sent Q e
Sent-weaken P Q f (forward cfg o) h = f cfg o h
Sent-weaken P Q f (set_header k x) h = tt
Sent-weaken P Q f (error_response e) h = tt
Sent-weaken P Q f (json_error i x) h = tt
Sent-weaken P Q f (success_response x) h = tt
Sent-weaken P Q f (status i) h = tt
Sent-weaken P Q f (error_event i x) h = tt

Forwards-weaken :
    (P Q : ProxyConfig → Outgoing → Type 0)
    → ((cfg : ProxyConfig) (o : Outgoing) → P cfg o → Q cfg o)
    → (effects : List Effect) → Forwards P effects
    → Forwards Q effects
Forwards-weaken P Q f [] h = tt
Forwards-weaken P Q f (e ∷ effects) (h, k) =
    (Sent-weaken P Q f e h, Forwards-weaken P Q f effects k)

module _ (c : Crypto) (s : Signer c) (v : Verifier c) (sound : IsSound c s.private_key v.public_key)
    (plain : EncodesPlain c) where
  -- A signed token in the daemon, under the session's name.
  admitted :
      (now later : ℕ) (id session_id token : Bytes)
      → s.issuer ≡ v.issuer
      → s.audience ≡ v.audience
      → second ≤ now
      → now ≤ later
      → later < (now + s.ttl) / second * second + v.clock_skew
      → (now + s.ttl) / second + unix_to_internal < 2 ^ 63
      → IsHeaderText (signed_header c s)
      → IsClaimsText (signed_claims c s now id session_id [] (pos 0))
      → sign c s now id session_id [] (pos 0) ≡ ok token
      → trim_space session_id ≡ session_id
      → is_empty session_id ≡ false
      → sandbox_auth c (some v) later (first_of (at_most_one (bytes "Bearer ") token)) session_id
        ≡ passed (signed_claims c s now id session_id [] (pos 0))
  unfolding sandbox_auth with_token
  admitted now later id session_id token iss aud epoch order alive room th tc e trimmed named =
      let bearer : IsBearer token = sign-IsBearer c plain s now id session_id [] token (pos 0) e in
      let read : parse_bearer_token (first_of (at_most_one (bytes "Bearer ") token)) ≡ some token =
        ap parse_bearer_token (at_most_one_filled (bytes "Bearer ") token bearer.1)
        ∙ parse_bearer_token-IsBearer token bearer in
      let checked : verify c v later token ≡ ok (signed_claims c s now id session_id [] (pos 0)) =
        sign-verify c s v sound now later id session_id [] token (pos 0) iss aud epoch order alive
          room th tc e in
      let same : bytes_eq session_id session_id ≡ true = bytes_eq_refl session_id in
      rw (read, trimmed, checked, named, same) refl

  token_of-ok : (r : Checked Bytes) (token : Bytes) → token_of r ≡ some token → r ≡ ok token
  token_of-ok (ok t) token e = ground (arith, e)
  token_of-ok (refused x) token e = absurd (ground (arith, e))

  module _ (redis : Redis) (json : Json) (out : Outside redis.State)
      (keeps : KeepsHeaders (wired c s redis json out)) (r : Request) (state : redis.State) (n : ℕ)
      (iss : s.issuer ≡ v.issuer) (aud : s.audience ≡ v.audience)
      (epoch : second ≤ out.clock (suc (suc n)))
      (room : (out.clock (suc (suc n)) + s.ttl) / second + unix_to_internal < 2 ^ 63)
      (th : IsHeaderText (signed_header c s))
      (tc : IsClaimsText (
        signed_claims c s
          (out.clock (suc (suc n)))
          (out.ids (suc (suc n)))
          (session_of r)
          []
          (pos 0)))
      (not_authorization : mentions authorization_key (connection_names r.headers) ≡ false)
      (not_session : mentions session_header (connection_names r.headers) ≡ false) where
    -- The daemon lets a request in while the token lasts that was signed for it at the third reading
    -- of the clock, and knows its session.
    abbrev pub IsLetIn : ProxyConfig → Outgoing → Type 0
    IsLetIn cfg o =
        (later : ℕ)
        → out.clock (suc (suc n)) ≤ later
        → later < (out.clock (suc (suc n)) + s.ttl) / second * second + v.clock_skew
        → sandbox_auth c (some v) later (get (bytes "Authorization") o.headers)
            (get session_header o.headers)
          ≡ passed (
              signed_claims c s (out.clock (suc (suc n))) (out.ids (suc (suc n))) (session_of r) []
                (pos 0))

    session_call-IsLetIn :
        (cfg : ProxyConfig) (o : Outgoing)
        → IsSessionCall
            (wired c s redis json out)
            (r.headers connection_key)
            (session_of r)
            (state, n)
            cfg
            o
        → IsLetIn cfg o
    unfolding to_lower
    session_call-IsLetIn cfg o call later order alive =
        let counted : call.after.1 ≡ suc n =
          sym (ap (λ (x : Lookup × (redis.State × ℕ)). x.1.1) call.looked) in
        let signed : sign c s (out.clock (suc (suc n))) (out.ids (suc (suc n))) (session_of r) []
              (pos 0)
            ≡ ok cfg.sandbox_token =
          token_of-ok _ cfg.sandbox_token (
            subst
              (λ (i : ℕ).
                token_of (sign c s (out.clock (suc i)) (out.ids (suc i)) (session_of r) [] (pos 0))
                ≡ some cfg.sandbox_token)
              counted call.granted.signed) in
        let carried : get (bytes "Authorization") o.headers
            ≡ first_of (at_most_one (bytes "Bearer ") cfg.sandbox_token) =
          ap first_of {y = at_most_one (bytes "Bearer ") cfg.sandbox_token}
            (call.granted.authorization ∙ rw not_authorization refl) in
        let session : get session_header o.headers ≡ session_of r =
          ap first_of {y = at_most_one [] (session_of r)}
            (call.granted.session ∙ rw not_session refl)
          ∙ at_most_one_filled [] (session_of r) call.named in
        ap₂ (sandbox_auth c (some v) later) carried session
        ∙ admitted (out.clock (suc (suc n))) later (out.ids (suc (suc n))) (session_of r)
            cfg.sandbox_token iss aud epoch order alive room th tc signed
            (trim_space_idem (get session_header r.headers)) call.named

    -- A request that a route of code interpreters forwards passes the daemon's check, where the
    -- gateway's key, issuer and audience are the daemon's, from the time at which its token is signed
    -- until the token's last second is over, up to the skew; where the request's Connection header
    -- names neither the authorization nor the session, the texts of the token are UTF-8, and its end
    -- is a time of Go. It passes with the claims that the gateway signed, for the session that the
    -- request named.
    pub handle-IsLetIn :
        (route : Route) → Forwards IsLetIn (handle (wired c s redis json out) route r (state, n)).0
    handle-IsLetIn route =
        Forwards-weaken _ IsLetIn session_call-IsLetIn _
          (handle-Forwards (wired c s redis json out) keeps r (state, n) route)
