-- ===== src/Token/Accepted.antt =====
-- What a verifier has checked of a token that it accepts.
use agentland.Base.{
  ℕ, Bool, true, false, not, Option, none, some, ◌≡◌, refl, arith, sym, subst, if◌then◌else◌,
}
use agentland.Text.{Bytes, bytes, bytes_eq}
use agentland.Text.Search.{bytes_eq→≡}
use agentland.Token.{
  Claims, Crypto, Verifier, Refusal, bad_alg, bad_signature, Checked, ok, refused, Parsed,
  parse_token, verify_parsed, unless_refused, verify, validate_claims,
}
use agentland.Token.Validity.{IsValid, validate_claims-IsValid, not-false}

-- The token parses, its signature by RS256 fits, and the claims are its own and valid.
pub record IsAccepted (c : Crypto) (v : Verifier c) (now : ℕ) (token : Bytes) (claims : Claims)
    : Type 0 where
  pub parsed : Parsed c
  pub parse : parse_token c token ≡ ok parsed
  pub alg : parsed.header.alg ≡ bytes "RS256"
  pub signature : c.verify v.public_key parsed.signing_input parsed.signature ≡ true
  pub claimed : claims ≡ parsed.claims
  pub valid : IsValid c v now claims

past_test :
    {A : Type 0} (b : Bool) (r : Refusal) (rest : Checked A) (a : A)
    → (if b then refused r else rest) ≡ ok a
    → (b ≡ false) × (rest ≡ ok a)
past_test true r rest a e = absurd (ground (arith, e))
past_test false r rest a e = (refl, e)

unless_refused-ok :
    (c : Crypto) (claims cl : Claims) (o : Option Refusal)
    → unless_refused c claims o ≡ ok cl
    → (o ≡ none) × (cl ≡ claims)
unless_refused-ok c claims cl none e = (refl, ground (arith, e))
unless_refused-ok c claims cl (some r) e = absurd (ground (arith, e))

module _ (c : Crypto) (v : Verifier c) (now : ℕ) (token : Bytes) (claims : Claims) where
  parsed-IsAccepted :
      (p : Checked (Parsed c))
      → parse_token c token ≡ p
      → verify_parsed c v now p ≡ ok claims
      → IsAccepted c v now token claims
  unfolding verify_parsed
  parsed-IsAccepted (refused r) parse e = absurd (ground (arith, e))
  parsed-IsAccepted (ok p) parse e =
      let (alg, e1) = past_test (not (bytes_eq p.header.alg (bytes "RS256"))) bad_alg _ claims e in
      let (fit, e2) =
        past_test (not (c.verify v.public_key p.signing_input p.signature)) bad_signature _ claims
          e1 in
      let (valid, same) =
        unless_refused-ok c p.claims claims (validate_claims c v now p.claims) e2 in
      record {
        parsed = p;
        parse = parse;
        alg = bytes_eq→≡ p.header.alg (bytes "RS256") (not-false _ alg);
        signature = not-false _ fit;
        claimed = same;
        valid =
            subst (IsValid c v now) (sym same) ((validate_claims-IsValid c v now p.claims).0 valid);
      }

  -- A token is accepted only if its RS256 signature fits its own text under the verifier's key, and
  -- the claims that are given back are those of the token and valid now.
  pub verify-IsAccepted : verify c v now token ≡ ok claims → IsAccepted c v now token claims
  unfolding verify
  verify-IsAccepted e = parsed-IsAccepted (parse_token c token) refl e
