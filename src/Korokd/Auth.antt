-- ===== src/Korokd/Auth.antt =====
-- The check that stands before the daemon's handlers (pkg/korokd/middleware/auth.go).
use agentland.Base.{
  ℕ, Bool, true, false, not, Option, none, some, ◌≡◌, refl, arith, ap, sym, ◌∙◌, if◌then◌else◌,
}
use agentland.Text.{Bytes, bytes_eq, trim_space}
use agentland.Text.Search.{bytes_eq→≡}
use agentland.Token.{
  Claims, Crypto, Verifier, Checked, ok, refused, is_empty, parse_bearer_token, verify,
}
use agentland.Token.Validity.{not-false}
use agentland.Token.Accepted.{IsAccepted, verify-IsAccepted}

-- The handler behind runs with the claims, or the request ends with a status.
pub data Outcome : Type 0 where
  passed : Claims → Outcome
  unauthorized forbidden : Outcome

abbrev pub with_claims : Bytes → Checked Claims → Outcome
with_claims session_id (refused r) = unauthorized
with_claims session_id (ok claims) =
    if is_empty session_id
    then forbidden
    else if not (bytes_eq claims.session_id session_id)
    then forbidden
    else passed claims

unfoldable pub with_token : (c : Crypto) → Verifier c → ℕ → Bytes → Option Bytes → Outcome
unfolding verify
with_token c v now session_id none = unauthorized
with_token c v now session_id (some token) = with_claims session_id (verify c v now token)

-- The headers are `Authorization` and `x-agentland-session`.
unfoldable pub sandbox_auth : (c : Crypto) → Option (Verifier c) → ℕ → Bytes → Bytes → Outcome
unfolding parse_bearer_token trim_space with_token
sandbox_auth c none now authorization session = unauthorized
sandbox_auth c (some v) now authorization session =
    with_token c v now (trim_space session) (parse_bearer_token authorization)

-- The request carries a token that is accepted, for the session that its header names.
pub record IsAuthorized (c : Crypto) (verifier : Option (Verifier c)) (now : ℕ)
    (authorization session : Bytes) (claims : Claims) : Type 0 where
  pub v : Verifier c
  pub configured : verifier ≡ some v
  pub token : Bytes
  pub bearer : parse_bearer_token authorization ≡ some token
  pub accepted : IsAccepted c v now token claims
  pub same_session : claims.session_id ≡ trim_space session

past_test :
    (b : Bool) (rest : Outcome) (claims : Claims)
    → (if b then forbidden else rest) ≡ passed claims
    → (b ≡ false) × (rest ≡ passed claims)
past_test true rest claims e = absurd (ground (arith, e))
past_test false rest claims e = (refl, e)

module _ (c : Crypto) (v : Verifier c) (now : ℕ) (authorization session : Bytes)
    (claims : Claims) where
  past_claims :
      (checked : Checked Claims) (session_id : Bytes)
      → with_claims session_id checked ≡ passed claims
      → (checked ≡ ok claims) × (claims.session_id ≡ session_id)
  past_claims (refused r) session_id e = absurd (ground (arith, e))
  past_claims (ok cl) session_id e =
      let (named, e1) = past_test (is_empty session_id) _ claims e in
      let (same, e2) = past_test (not (bytes_eq cl.session_id session_id)) _ claims e1 in
      let claimed : cl ≡ claims = ground (arith, e2) in
      (
        ap ok claimed,
        sym (ap (λ (x : Claims). x.session_id) claimed)
            ∙ bytes_eq→≡ cl.session_id session_id (not-false _ same),
      )

  past_token :
      (t : Option Bytes)
      → parse_bearer_token authorization ≡ t
      → with_token c v now (trim_space session) t ≡ passed claims
      → IsAuthorized c (some v) now authorization session claims
  unfolding with_token
  past_token none b e = absurd (ground (arith, e))
  past_token (some token) b e =
      let (checked, same) = past_claims (verify c v now token) (trim_space session) e in
      record {
        v = v;
        configured = refl;
        token = token;
        bearer = b;
        accepted = verify-IsAccepted c v now token claims checked;
        same_session = same;
      }

-- A request passes only if it carries a bearer token that the verifier accepts now, whose session is
-- the one that the request's header names.
pub sandbox_auth-IsAuthorized :
    (c : Crypto) (verifier : Option (Verifier c)) (now : ℕ) (authorization session : Bytes)
    (claims : Claims)
    → sandbox_auth c verifier now authorization session ≡ passed claims
    → IsAuthorized c verifier now authorization session claims
unfolding sandbox_auth
sandbox_auth-IsAuthorized c none now authorization session claims e = absurd (ground (arith, e))
sandbox_auth-IsAuthorized c (some v) now authorization session claims e =
    past_token c v now authorization session claims (parse_bearer_token authorization) refl e
