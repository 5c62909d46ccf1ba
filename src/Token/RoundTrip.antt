-- ===== src/Token/RoundTrip.antt =====
-- A token that the signer made, at the verifier.
use mathlib.Core.List.{append_assoc}
use native.Mathlib.Nat.{mod-eq_of_lt}
use agentland.Text.Utf8.{valid}
use agentland.Base.{
  ◌^◌, ℕ, zero, suc, ◌+◌, ◌*◌, ◌/◌, ◌≤◌, ◌<◌, Bool, true, false, Option, none, some, [], ◌∷◌, ◌++◌,
  ◌≡◌, ◌≢◌, refl, arith, ap, sym, ◌∙◌, All, Bool-cases, if◌then◌else◌, inl, inr, ◌==◌, ==_iff,
}
use agentland.Text.{Bytes, trim_space, ℤ, pos, negsuc}
use agentland.FilePath.{split}
use agentland.Token.{
  dot, second, internal, unix_to_internal, Claims, Header, Crypto, Signer, Verifier, Refusal,
  session_required, is_empty, positive, Checked, ok, refused, signed_claims, signed_header, signed,
  sign_parts, sign_token, sign, validate_claims, verify, verify_parsed, Parsed, parse_parts,
  parse_token,
}
use agentland.Token.Validity.{validate_claims-IsValid}

abbrev pub NoDot : Bytes → Type 0
NoDot = All (λ b. b ≢ dot)

split-NoDot : (s r : Bytes) → NoDot s → split dot (s ++ dot ∷ r) ≡ s ∷ split dot r
unfolding split
split-NoDot [] r h = refl
split-NoDot (b ∷ s) r h = elim (Bool-cases (b == dot)) [
  | inl e ↦ absurd (h.0 ((==_iff b dot).0 e))
  | inr e ↦ rw (e, split-NoDot s r h.1) refl
]

split-NoDot_last : (s : Bytes) → NoDot s → split dot s ≡ s ∷ []
unfolding split
split-NoDot_last [] h = refl
split-NoDot_last (b ∷ s) h = elim (Bool-cases (b == dot)) [
  | inl e ↦ absurd (h.0 ((==_iff b dot).0 e))
  | inr e ↦ rw (e, split-NoDot_last s h.1) refl
]

-- A Go int64.
abbrev pub FitsInt64 : ℤ → Type 0
FitsInt64 (pos n) = n < 2 ^ 63
FitsInt64 (negsuc n) = n < 2 ^ 63

-- JSON keeps texts that are UTF-8, and replaces bytes that are not.
abbrev pub IsHeaderText : Header → Type 0
IsHeaderText h = (valid h.alg ≡ true) × (valid h.typ ≡ true) × (valid h.kid ≡ true)

pub record IsClaimsText (cl : Claims) : Type 0 where
  pub issuer : valid cl.issuer ≡ true
  pub audience : valid cl.audience ≡ true
  pub session_id : valid cl.session_id ≡ true
  pub subject : valid cl.subject ≡ true
  pub jwt_id : valid cl.jwt_id ≡ true
  pub version : FitsInt64 cl.version
  pub issued_at : FitsInt64 cl.issued_at
  pub not_before : FitsInt64 cl.not_before
  pub expires_at : FitsInt64 cl.expires_at

-- What the packages of Go promise, for a signer's and a verifier's key.
pub record IsSound (c : Crypto) (private : c.PrivateKey) (public : c.PublicKey) : Type 0 where
  pub decode-encode : (s : Bytes) → c.decode (c.encode s) ≡ some s
  pub encode-NoDot : (s : Bytes) → NoDot (c.encode s)
  pub verify-sign :
      (input signature : Bytes)
      → c.sign private input ≡ some signature
      → c.verify public input signature ≡ true
  pub unmarshal_header :
      (h : Header) (s : Bytes)
      → IsHeaderText h
      → c.marshal_header h ≡ some s
      → c.unmarshal_header s ≡ some h
  pub unmarshal_claims :
      (cl : Claims) (s : Bytes)
      → IsClaimsText cl
      → c.marshal_claims cl ≡ some s
      → c.unmarshal_claims s ≡ some cl

split_three :
    (h cl s : Bytes)
    → NoDot h
    → NoDot cl
    → NoDot s
    → split dot ((h ++ (dot ∷ cl)) ++ (dot ∷ s)) ≡ h ∷ cl ∷ s ∷ []
split_three h cl s nh nc ns =
    ap (split dot) (append_assoc h (dot ∷ cl) (dot ∷ s))
    ∙ split-NoDot h (cl ++ (dot ∷ s)) nh
    ∙ ap (λ r. h ∷ r) (split-NoDot cl s nc)
    ∙ ap (λ r. h ∷ cl ∷ r) (split-NoDot_last s ns)

module _ (c : Crypto) (private : c.PrivateKey) (public : c.PublicKey)
    (sound : IsSound c private public) (h : Header) (cl : Claims) (th : IsHeaderText h)
    (tc : IsClaimsText cl) where
  -- Parsing a token of its three parts.
  parse_three :
      (hs cs signature : Bytes)
      → c.marshal_header h ≡ some hs
      → c.marshal_claims cl ≡ some cs
      → parse_token c ((c.encode hs ++ (dot ∷ c.encode cs)) ++ (dot ∷ c.encode signature))
        ≡ ok (record {
          header = h;
          claims = cl;
          signature = signature;
          signing_input = c.encode hs ++ (dot ∷ c.encode cs);
        })
  unfolding parse_token
  parse_three hs cs signature eh ec =
      ap (parse_parts c) (
        split_three (c.encode hs) (c.encode cs) (c.encode signature) (sound.encode-NoDot hs)
          (sound.encode-NoDot cs) (sound.encode-NoDot signature))
      ∙ rw
          (
            sound.decode-encode hs,
            sound.decode-encode cs,
            sound.decode-encode signature,
            sound.unmarshal_header h hs th eh,
            sound.unmarshal_claims cl cs tc ec,
          )
          refl

  -- A token that parses to what was signed, with a signature that fits.
  Fits : Bytes → Type 0
  Fits token =
      (p : Parsed c) × (parse_token c token ≡ ok p)
      × (p.header ≡ h)
      × (p.claims ≡ cl)
      × (c.verify public p.signing_input p.signature ≡ true)

  signed-Fits :
      (hs cs token : Bytes) (o : Option Bytes)
      → c.marshal_header h ≡ some hs
      → c.marshal_claims cl ≡ some cs
      → c.sign private (c.encode hs ++ (dot ∷ c.encode cs)) ≡ o
      → signed c (c.encode hs ++ (dot ∷ c.encode cs)) o ≡ ok token
      → Fits token
  unfolding Fits
  signed-Fits hs cs token none eh ec es e = absurd (ground (arith, e))
  signed-Fits hs cs token (some signature) eh ec es e =
      let same : (c.encode hs ++ (dot ∷ c.encode cs)) ++ (dot ∷ c.encode signature) ≡ token =
        ground (arith, e) in
      (
        record {
          header = h;
          claims = cl;
          signature = signature;
          signing_input = c.encode hs ++ (dot ∷ c.encode cs);
        },
        ap (parse_token c) (sym same) ∙ parse_three hs cs signature eh ec,
        refl,
        refl,
        sound.verify-sign (c.encode hs ++ (dot ∷ c.encode cs)) signature es,
      )

  parts-Fits :
      (token : Bytes) (oh oc : Option Bytes)
      → c.marshal_header h ≡ oh
      → c.marshal_claims cl ≡ oc
      → sign_parts c private oh oc ≡ ok token
      → Fits token
  parts-Fits token none none eh ec e = absurd (ground (arith, e))
  parts-Fits token none (some cs) eh ec e = absurd (ground (arith, e))
  parts-Fits token (some hs) none eh ec e = absurd (ground (arith, e))
  parts-Fits token (some hs) (some cs) eh ec e =
      signed-Fits hs cs token (c.sign private (c.encode hs ++ (dot ∷ c.encode cs))) eh ec refl e

  sign_token-Fits : (token : Bytes) → sign_token c private h cl ≡ ok token → Fits token
  unfolding sign_token
  sign_token-Fits token e = parts-Fits token (c.marshal_header h) (c.marshal_claims cl) refl refl e

unless_ok :
    (b : Bool) (r : Refusal) (rest : Checked Bytes) (token : Bytes)
    → (if b then refused r else rest) ≡ ok token
    → (b ≡ false) × (rest ≡ ok token)
unless_ok true r rest token e = absurd (ground (arith, e))
unless_ok false r rest token e = (refl, e)

internal_small : (t : ℕ) → t + unix_to_internal < 2 ^ 63 → internal t ≡ t + unix_to_internal
internal_small t h = mod-eq_of_lt (omega (arith, h))

positive-some : (n : ℕ) → 0 < n → positive (pos n) ≡ some n
positive-some zero h = elim h [ ]
positive-some (suc n) h = refl

module _ (c : Crypto) (s : Signer c) (v : Verifier c)
    (sound : IsSound c s.private_key v.public_key) where
  Fits-accepted :
      (later : ℕ) (token : Bytes) (cl : Claims) (th : IsHeaderText (signed_header c s))
      (tc : IsClaimsText cl)
      → Fits c s.private_key v.public_key sound (signed_header c s) cl th tc token
      → validate_claims c v later cl ≡ none
      → verify c v later token ≡ ok cl
  unfolding Fits verify verify_parsed
  Fits-accepted later token cl th tc (p, parse, eh, ecl, fit) valid =
      rw (parse, eh, fit, ecl, valid) refl

  -- What the signer signs for a session, the verifier of its public key, issuer and audience accepts
  -- from then until the token's last second is over, up to the skew, and gives the same claims back,
  -- where the texts of the token are UTF-8 and its end is a time of Go.
  pub sign-verify :
      (now later : ℕ) (id session_id subject token : Bytes) (version : ℤ)
      → s.issuer ≡ v.issuer
      → s.audience ≡ v.audience
      → second ≤ now
      → now ≤ later
      → later < (now + s.ttl) / second * second + v.clock_skew
      → (now + s.ttl) / second + unix_to_internal < 2 ^ 63
      → IsHeaderText (signed_header c s)
      → IsClaimsText (signed_claims c s now id session_id subject version)
      → sign c s now id session_id subject version ≡ ok token
      → verify c v later token ≡ ok (signed_claims c s now id session_id subject version)
  unfolding sign
  sign-verify now later id session_id subject token version iss aud epoch order alive room th tc e =
      let (named, made) = unless_ok (is_empty (trim_space session_id)) session_required _ token e in
      let now_set : positive (pos (now / second)) ≡ some (now / second) =
        positive-some (now / second) (ground (arith, epoch)) in
      let end_set : positive (pos ((now + s.ttl) / second)) ≡ some ((now + s.ttl) / second) =
        positive-some ((now + s.ttl) / second) (ground (arith, epoch)) in
      let now_at : internal (now / second) ≡ now / second + unix_to_internal =
        internal_small (now / second) (omega (arith, room)) in
      let end_at : internal ((now + s.ttl) / second) ≡ (now + s.ttl) / second + unix_to_internal =
        internal_small ((now + s.ttl) / second) room in
      Fits-accepted later token (signed_claims c s now id session_id subject version) th tc
        (sign_token-Fits c s.private_key v.public_key sound (signed_header c s)
          (signed_claims c s now id session_id subject version) th tc token made)
        ((validate_claims-IsValid c v later (signed_claims c s now id session_id subject version)).1
          (record {
            issuer = iss;
            audience = aud;
            session = named;
            begun = rw (now_set, now_at) (inr (omega (arith, order)));
            issued = rw (now_set, now_at) (inr (omega (arith, order)));
            lasting = rw (end_set, end_at) (room, omega (arith, alive));
          }))
