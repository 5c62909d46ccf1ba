-- ===== src/Token/Tests.antt =====
-- The theorems on tokens at concrete inputs: packages of Go that satisfy what is asked of them are
-- built from a signature that repeats its input, an encoding that shifts every byte, and a
-- length-prefixed encoding of headers and claims.
use mathlib.Core.Path.{ap₂}
use agentland.Text.Search.{bytes_eq_refl}
use agentland.Base.{
  ◌-◌, ap, sym, subst, ◌∙◌, arith, ◌+◌, ◌*◌, true, none, some, [], ◌∷◌, ◌++◌, ◌≡◌, ◌↔◌, refl,
}
use agentland.Text.{trim_space, Bytes, bytes, bytes_eq, pos}
use agentland.Text.Prefixed.{put_text, get_text}
use agentland.Token.{
  parse_bearer_token, Claims, Crypto, Signer, Verifier, ok, second, sign, verify, validate_claims,
  dot, signed_claims, signed_header,
}
use agentland.Korokd.Auth.{
  sandbox_auth, with_token, with_claims, IsAuthorized, sandbox_auth-IsAuthorized,
}
use agentland.Token.Validity.{IsValid, validate_claims-IsValid}
use agentland.Token.Accepted.{IsAccepted, verify-IsAccepted}
use agentland.Token.RoundTrip.{IsSound, NoDot, IsHeaderText, IsClaimsText, sign-verify}
use agentland.Text.Utf8.{valid}
use agentland.Token.Concrete.{
  put_int, get_int, write_header, read_header, read_header-write_header, write_claims, read_claims,
  read_claims-write_claims,
}

shift : Bytes → Bytes
shift [] = []
shift (b ∷ s) = (b + 47) ∷ shift s

unshift : Bytes → Bytes
unshift [] = []
unshift (b ∷ s) = (b - 47) ∷ unshift s

unshift-shift : (s : Bytes) → unshift (shift s) ≡ s
unfolding shift unshift
unshift-shift [] = refl
unshift-shift (b ∷ s) = ap₂ (λ x t. x ∷ t) (ground arith) (unshift-shift s)

shift-NoDot : (s : Bytes) → NoDot (shift s)
unfolding shift
shift-NoDot [] = tt
shift-NoDot (b ∷ s) = ((λ h. absurd (ground (arith, h))), shift-NoDot s)

abbrev crypto : Crypto
crypto = record {
  PrivateKey = Unit {0};
  PublicKey = Unit {0};
  load_private_key = λ _. some tt;
  load_public_key = λ _. some tt;
  sign = λ _ input. some input;
  verify = λ _ input signature. bytes_eq input signature;
  encode = shift;
  decode = λ s. some (unshift s);
  marshal_header = λ h. some (write_header h);
  unmarshal_header = λ s. some (read_header s);
  marshal_claims = λ c. some (write_claims c);
  unmarshal_claims = λ s. some (read_claims s);
}

crypto-IsSound : IsSound crypto tt tt
crypto-IsSound = record {
  decode-encode = λ s. ap some (unshift-shift s);
  encode-NoDot = shift-NoDot;
  verify-sign = λ input signature e.
      subst (λ t. bytes_eq input t ≡ true) (ground (arith, e)) (bytes_eq_refl input);
  unmarshal_header =
      λ h s _ e. ap some (ap read_header (sym (ground (arith, e))) ∙ read_header-write_header h);
  unmarshal_claims =
      λ c s _ e. ap some (ap read_claims (sym (ground (arith, e))) ∙ read_claims-write_claims c);
}

abbrev signer : Signer crypto
signer = record {
  private_key = tt;
  issuer = bytes "gw";
  audience = bytes "sb";
  kid = bytes "k1";
  ttl = 60 * second;
}

abbrev verifier : Verifier crypto
verifier = record {
  public_key = tt;
  issuer = bytes "gw";
  audience = bytes "sb";
  clock_skew = 5 * second;
}

-- The token of a session, as made 100 seconds after the epoch.
abbrev claims : Claims
claims = signed_claims crypto signer (100 * second) (bytes "id") (bytes "s1") [] (pos 1)

abbrev input : Bytes
input = shift (write_header (signed_header crypto signer)) ++ (dot ∷ shift (write_claims claims))

abbrev token : Bytes
token = input ++ (dot ∷ shift input)

signs : sign crypto signer (100 * second) (bytes "id") (bytes "s1") [] (pos 1) ≡ ok token
unfolding sign
signs = refl

accepted : verify crypto verifier (164 * second) token ≡ ok claims
unfolding verify shift write_header put_text write_claims put_int read_header get_text unshift
    read_claims get_int
accepted = refl

bearer : parse_bearer_token (bytes " bearer " ++ token) ≡ some token
unfolding parse_bearer_token shift write_header put_text write_claims put_int
bearer = refl

header_text : IsHeaderText (signed_header crypto signer)
unfolding valid
header_text = (refl, refl, refl)

claims_text : IsClaimsText claims
unfolding valid
claims_text = record {
  issuer = refl;
  audience = refl;
  session_id = refl;
  subject = refl;
  jwt_id = refl;
  version = omega arith;
  issued_at = omega arith;
  not_before = omega arith;
  expires_at = omega arith;
}

sign-verify_example : verify crypto verifier (164 * second) token ≡ ok claims
sign-verify_example =
    sign-verify crypto signer verifier crypto-IsSound (100 * second) (164 * second) (bytes "id")
      (bytes "s1") [] token (pos 1) refl refl (ground arith) (ground arith) (ground arith)
      (omega arith) header_text claims_text signs

verify-IsAccepted_example : IsAccepted crypto verifier (164 * second) token claims
verify-IsAccepted_example = verify-IsAccepted crypto verifier (164 * second) token claims accepted

validate_claims-IsValid_example :
    (validate_claims crypto verifier (164 * second) claims ≡ none)
    ↔ IsValid crypto verifier (164 * second) claims
validate_claims-IsValid_example = validate_claims-IsValid crypto verifier (164 * second) claims

sandbox_auth-IsAuthorized_example :
    IsAuthorized crypto
      (some verifier)
      (164 * second)
      (bytes " bearer " ++ token)
      (bytes "s1 ")
      claims
unfolding sandbox_auth with_token trim_space
sandbox_auth-IsAuthorized_example =
    sandbox_auth-IsAuthorized crypto (some verifier) (164 * second) (bytes " bearer " ++ token)
      (bytes "s1 ") claims
      (ap (with_token crypto verifier (164 * second) (bytes "s1")) bearer
        ∙ ap (with_claims (bytes "s1")) accepted)
