-- ===== src/Token.antt =====
-- The tokens that let a request into a sandbox (pkg/common/utils/token.go). RSA, SHA-256, base64,
-- JSON and key files are fields of `Crypto`. A time is a number of nanoseconds since 1970, a claim's
-- time one of seconds, as a Go int64. A string is its bytes.
pub mod Accepted
pub mod Validity
pub mod RoundTrip
pub mod Bearer
pub mod Concrete
mod Tests
use agentland.Base.{
  ℕ, zero, suc, ◌+◌, ◌*◌, ◌/◌, ◌%◌, ◌^◌, Bool, true, false, not, ◌&&◌, ◌||◌, Option, none, some,
  List, [], ◌∷◌, ◌++◌, ◌≡◌, refl, ltb, leb, if◌then◌else◌,
}
use agentland.Text.{Bytes, bytes, bytes_eq, space_width, trim_space, to_lower, ℤ, pos, negsuc}
use agentland.FilePath.{split}

abbrev pub dot : ℕ
dot = b'.'

-- Nanoseconds in a second.
abbrev pub second : ℕ
second = 10 ^ 9

pub record Claims : Type 0 where
  pub issuer : Bytes
  pub audience : Bytes
  pub session_id : Bytes
  pub subject : Bytes
  pub version : ℤ
  pub issued_at : ℤ
  pub not_before : ℤ
  pub expires_at : ℤ
  pub jwt_id : Bytes

pub record Header : Type 0 where
  pub alg : Bytes
  pub typ : Bytes
  pub kid : Bytes

pub record Crypto : Type 1 where
  pub PrivateKey : Type 0
  pub PublicKey : Type 0
  pub load_private_key : Bytes → Option PrivateKey
  pub load_public_key : Bytes → Option PublicKey
  pub sign : PrivateKey → Bytes → Option Bytes
  pub verify : PublicKey → Bytes → Bytes → Bool
  pub encode : Bytes → Bytes
  pub decode : Bytes → Option Bytes
  pub marshal_header : Header → Option Bytes
  pub unmarshal_header : Bytes → Option Header
  pub marshal_claims : Claims → Option Bytes
  pub unmarshal_claims : Bytes → Option Claims

-- Why a token or a configuration is refused.
pub data Refusal : Type 0 where
  key_path_required issuer_required audience_required ttl_not_positive negative_skew
        key_not_loaded :
      Refusal
  session_required not_signed bad_format bad_alg bad_signature : Refusal
  issuer_mismatch audience_mismatch not_valid_yet issued_in_future exp_required expired : Refusal

pub data Checked {ℓ} (A : Type ℓ) : Type ℓ where
  ok : A → Checked A
  refused : Refusal → Checked A

pub record SignerConfig : Type 0 where
  pub private_key_path : Bytes
  pub issuer : Bytes
  pub audience : Bytes
  pub kid : Bytes
  pub ttl : ℤ

pub record VerifierConfig : Type 0 where
  pub public_key_path : Bytes
  pub issuer : Bytes
  pub audience : Bytes
  pub clock_skew : ℤ

abbrev pub is_empty : Bytes → Bool
is_empty [] = true
is_empty (c ∷ s) = false

-- What a positive number is; none for 0 and below.
abbrev pub positive : ℤ → Option ℕ
positive (pos zero) = none
positive (pos (suc n)) = some (suc n)
positive (negsuc n) = none

abbrev pub non_negative : ℤ → Option ℕ
non_negative (pos n) = some n
non_negative (negsuc n) = none

-- `strings.Fields`: what stands between runs of white space. `k` bytes of white space are still to go.
abbrev pub push_field : Bytes → List Bytes → List Bytes
push_field [] fields = fields
push_field (c ∷ s) fields = (c ∷ s) ∷ fields

unfoldable pub fields_from : Bytes → ℕ → Bytes → List Bytes
unfolding space_width
fields_from field k [] = push_field field []
fields_from field (suc k) (c ∷ s) = fields_from field k s
fields_from field zero (c ∷ s) = elim (space_width (c ∷ s)) [
  | zero ↦ fields_from (field ++ c ∷ []) zero s
  | suc k ↦ push_field field (fields_from [] k s)
]

-- `EqualFold` with the word: no other character folds to one of its letters.
abbrev pub bearer_of : List Bytes → Option Bytes
unfolding to_lower
bearer_of (scheme ∷ token ∷ []) =
    if bytes_eq (to_lower scheme) (bytes "bearer") && not (is_empty token) then some token else none
bearer_of _ = none

unfoldable pub parse_bearer_token : Bytes → Option Bytes
unfolding fields_from trim_space bearer_of
parse_bearer_token value = bearer_of (fields_from [] 0 (trim_space value))

abbrev pub and_then {ℓ} : {A B : Type ℓ} → Option A → (A → Option B) → Option B
and_then none f = none
and_then (some a) f = f a

-- From the year 1, where Go's times begin, to 1970, in seconds.
abbrev pub unix_to_internal : ℕ
unix_to_internal = 62135596800

-- time.Unix: the seconds since the year 1, as the bits of an int64. From 2 ^ 63 on it is negative, and
-- so before every reading of the clock.
abbrev pub internal : ℕ → ℕ
internal t = (t + unix_to_internal) % 2 ^ 64

-- `now` is before a claim's time by more than the skew; a time that is not positive is not looked at.
abbrev pub too_early : ℕ → ℕ → Option ℕ → Bool
too_early now skew none = false
too_early now skew (some t) =
    ltb (internal t) (2 ^ 63) && ltb (now + skew + unix_to_internal * second) (internal t * second)

abbrev pub over : ℕ → ℕ → Option ℕ → Option Refusal
over now skew none = some exp_required
over now skew (some t) =
    if ltb (internal t) (2 ^ 63)
      && ltb (now + unix_to_internal * second) (internal t * second + skew)
    then none
    else some expired

module _ (c : Crypto) where
  pub record Signer : Type 0 where
    pub private_key : c.PrivateKey
    pub issuer : Bytes
    pub audience : Bytes
    pub kid : Bytes
    pub ttl : ℕ

  pub record Verifier : Type 0 where
    pub public_key : c.PublicKey
    pub issuer : Bytes
    pub audience : Bytes
    pub clock_skew : ℕ

  abbrev signer_with : SignerConfig → Option ℕ → Option c.PrivateKey → Checked Signer
  signer_with cfg none key = refused ttl_not_positive
  signer_with cfg (some ttl) none = refused key_not_loaded
  signer_with cfg (some ttl) (some key) = ok (record {
    private_key = key;
    issuer = cfg.issuer;
    audience = cfg.audience;
    kid = cfg.kid;
    ttl = ttl;
  })

  unfoldable pub new_signer : SignerConfig → Checked Signer
  new_signer cfg =
      if is_empty cfg.private_key_path
      then refused key_path_required
      else if is_empty cfg.issuer
      then refused issuer_required
      else if is_empty cfg.audience
      then refused audience_required
      else signer_with cfg (positive cfg.ttl) (c.load_private_key cfg.private_key_path)

  abbrev verifier_with : VerifierConfig → Option ℕ → Option c.PublicKey → Checked Verifier
  verifier_with cfg none key = refused negative_skew
  verifier_with cfg (some skew) none = refused key_not_loaded
  verifier_with cfg (some skew) (some key) =
      ok (record {
        public_key = key;
        issuer = cfg.issuer;
        audience = cfg.audience;
        clock_skew = skew;
      })

  unfoldable pub new_verifier : VerifierConfig → Checked Verifier
  new_verifier cfg =
      if is_empty cfg.public_key_path
      then refused key_path_required
      else if is_empty cfg.issuer
      then refused issuer_required
      else if is_empty cfg.audience
      then refused audience_required
      else verifier_with cfg (non_negative cfg.clock_skew) (c.load_public_key cfg.public_key_path)

  abbrev pub signed : Bytes → Option Bytes → Checked Bytes
  signed input none = refused not_signed
  signed input (some signature) = ok (input ++ (dot ∷ c.encode signature))

  abbrev pub sign_parts : c.PrivateKey → Option Bytes → Option Bytes → Checked Bytes
  sign_parts key (some header) (some claims) =
      let input = c.encode header ++ (dot ∷ c.encode claims) in signed input (c.sign key input)
  sign_parts key _ _ = refused not_signed

  unfoldable pub sign_token : c.PrivateKey → Header → Claims → Checked Bytes
  sign_token key header claims = sign_parts key (c.marshal_header header) (c.marshal_claims claims)

  abbrev pub signed_claims : Signer → ℕ → Bytes → Bytes → Bytes → ℤ → Claims
  signed_claims s now id session_id subject version = record {
    issuer = s.issuer;
    audience = s.audience;
    session_id = session_id;
    subject = subject;
    version = version;
    issued_at = pos (now / second);
    not_before = pos (now / second);
    expires_at = pos ((now + s.ttl) / second);
    jwt_id = id;
  }

  abbrev pub signed_header : Signer → Header
  signed_header s = record { alg = bytes "RS256"; typ = bytes "JWT"; kid = s.kid }

  -- `Sign` at a time, with the random id of the token.
  unfoldable pub sign : Signer → ℕ → Bytes → Bytes → Bytes → ℤ → Checked Bytes
  unfolding trim_space sign_token
  sign s now id session_id subject version =
      if is_empty (trim_space session_id)
      then refused session_required
      else sign_token s.private_key (signed_header s)
          (signed_claims s now id session_id subject version)

  unfoldable pub validate_claims : Verifier → ℕ → Claims → Option Refusal
  unfolding trim_space
  validate_claims v now claims =
      if not (bytes_eq claims.issuer v.issuer)
      then some issuer_mismatch
      else if not (bytes_eq claims.audience v.audience)
      then some audience_mismatch
      else if is_empty (trim_space claims.session_id)
      then some session_required
      else if too_early now v.clock_skew (positive claims.not_before)
      then some not_valid_yet
      else if too_early now v.clock_skew (positive claims.issued_at)
      then some issued_in_future
      else over now v.clock_skew (positive claims.expires_at)

  pub record Parsed : Type 0 where
    pub header : Header
    pub claims : Claims
    pub signature : Bytes
    pub signing_input : Bytes

  abbrev pub parsed : Bytes → Option Header → Option Claims → Option Bytes → Checked Parsed
  parsed input (some h) (some cl) (some s) =
      ok (record { header = h; claims = cl; signature = s; signing_input = input })
  parsed input _ _ _ = refused bad_format

  abbrev pub parse_parts : List Bytes → Checked Parsed
  parse_parts (h ∷ cl ∷ s ∷ []) =
      parsed (h ++ (dot ∷ cl)) (and_then (c.decode h) c.unmarshal_header)
        (and_then (c.decode cl) c.unmarshal_claims) (c.decode s)
  parse_parts _ = refused bad_format

  unfoldable pub parse_token : Bytes → Checked Parsed
  unfolding split
  parse_token token = parse_parts (split dot token)

  abbrev pub unless_refused : Claims → Option Refusal → Checked Claims
  unless_refused claims none = ok claims
  unless_refused claims (some r) = refused r

  abbrev pub verify_parsed : Verifier → ℕ → Checked Parsed → Checked Claims
  unfolding validate_claims
  verify_parsed v now (refused r) = refused r
  verify_parsed v now (ok p) =
      if not (bytes_eq p.header.alg (bytes "RS256"))
      then refused bad_alg
      else if not (c.verify v.public_key p.signing_input p.signature)
      then refused bad_signature
      else unless_refused p.claims (validate_claims v now p.claims)

  unfoldable pub verify : Verifier → ℕ → Bytes → Checked Claims
  unfolding parse_token verify_parsed
  verify v now token = verify_parsed v now (parse_token token)
