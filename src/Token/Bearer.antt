-- ===== src/Token/Bearer.antt =====
-- A signer's token in a header, as the receiver reads it.
use mathlib.Core.List.{reverse, reverse-append, reverse-cons, append_assoc, append-nil}
use agentland.Base.{
  subst, List, ℕ, ◌<◌, ◌≤◌, Bool, true, false, Option, none, some, ◌≡◌, refl, sym, ap, ◌∙◌, [], ◌∷◌,
  ◌++◌, arith, All-append, if◌then◌else◌,
}
use agentland.Text.{Bytes, bytes, space_width, space_width_end, trim_space, to_lower, ℤ}
use agentland.Text.Trim.{IsPlain, space_width-plain, space_width_end-plain, trim_space_none}
use agentland.FilePath.Segments.{All-reverse}
use agentland.Token.{
  dot, Crypto, Signer, Refusal, session_required, is_empty, fields_from, parse_bearer_token,
  bearer_of, push_field, Checked, ok, refused, signed, sign_parts, sign_token, sign,
}

-- base64 yields letters, digits, dashes and underscores.
abbrev pub EncodesPlain : Crypto → Type 0
EncodesPlain c = (s : Bytes) → IsPlain (c.encode s)

-- What a header carries as a token.
abbrev pub IsBearer : Bytes → Type 0
IsBearer t = IsPlain t × (is_empty t ≡ false)

fields_from-plain :
    (field s : Bytes) → IsPlain s → fields_from field 0 s ≡ push_field (field ++ s) []
unfolding fields_from
fields_from-plain field [] h = ap (λ (x : Bytes). push_field x []) (sym (append-nil field))
fields_from-plain field (b ∷ s) h =
    rw (space_width-plain b s h.0, fields_from)
      (fields_from-plain (field ++ b ∷ []) s h.1
        ∙ ap (λ (x : Bytes). push_field x []) (append_assoc field (b ∷ []) s))

space_width-space : (s : Bytes) → space_width (b' ' ∷ s) ≡ 1
unfolding space_width
space_width-space [] = refl
space_width-space (a ∷ []) = refl
space_width-space (a ∷ b ∷ s) = refl

plain_last : (r prefix : Bytes) → IsPlain r → is_empty r ≡ false → space_width_end (r ++ prefix) ≡ 0
plain_last [] prefix h e = absurd (ground (arith, e))
plain_last (b ∷ r) prefix h e = space_width_end-plain b (r ++ prefix) h.0

append-nonempty : (l : Bytes) (b : ℕ) (r : Bytes) → is_empty (l ++ b ∷ r) ≡ false
append-nonempty [] b r = refl
append-nonempty (a ∷ l) b r = refl

fields_from-bearer :
    (b : ℕ) (s : Bytes)
    → IsPlain (b ∷ s)
    → fields_from [] 0 (bytes "Bearer " ++ b ∷ s) ≡ bytes "Bearer" ∷ (b ∷ s) ∷ []
unfolding fields_from space_width
fields_from-bearer b s h =
    let blank : space_width (b' ' ∷ b ∷ s) ≡ 1 = space_width-space (b ∷ s) in
    let rest : fields_from [] 0 (b ∷ s) ≡ push_field ([] ++ b ∷ s) [] =
      fields_from-plain [] (b ∷ s) h in
    rw (blank, fields_from) (ap (λ (x : List Bytes). bytes "Bearer" ∷ x) rest)

-- A token of printed characters is read back from the header that is made of it.
pub parse_bearer_token-IsBearer :
    (token : Bytes) → IsBearer token → parse_bearer_token (bytes "Bearer " ++ token) ≡ some token
unfolding parse_bearer_token space_width to_lower
parse_bearer_token-IsBearer [] h = absurd (ground (arith, h.1))
parse_bearer_token-IsBearer (b ∷ s) (h, filled) =
    let value : Bytes = bytes "Bearer " ++ b ∷ s in
    let ended : space_width_end (reverse value) ≡ 0 =
      ap space_width_end (reverse-append (bytes "Bearer ") (b ∷ s))
      ∙ plain_last (reverse (b ∷ s)) (reverse (bytes "Bearer ")) (All-reverse _ (b ∷ s) h)
          (ap is_empty (reverse-cons b s) ∙ append-nonempty (reverse s) b []) in
    ap (λ (x : Bytes). bearer_of (fields_from [] 0 x)) (trim_space_none value refl ended)
    ∙ ap bearer_of (fields_from-bearer b s h)

module _ (c : Crypto) (plain : EncodesPlain c) where
  joined-IsPlain : (a b : Bytes) → IsPlain a → IsPlain b → IsPlain (a ++ dot ∷ b)
  joined-IsPlain a b h k =
      All-append (λ x. (33 ≤ x) × (x < 128)) a (dot ∷ b) h ((omega arith, omega arith), k)

  signed-IsBearer :
      (input token : Bytes) (signature : Option Bytes)
      → IsPlain input
      → signed c input signature ≡ ok token
      → IsBearer token
  signed-IsBearer input token none h e = absurd (ground (arith, e))
  signed-IsBearer input token (some s) h e =
      let same : input ++ dot ∷ c.encode s ≡ token = ground (arith, e) in
      subst IsBearer same
        (joined-IsPlain input (c.encode s) h (plain s), append-nonempty input dot (c.encode s))

  parts-IsBearer :
      (key : c.PrivateKey) (header claims : Option Bytes) (token : Bytes)
      → sign_parts c key header claims ≡ ok token
      → IsBearer token
  parts-IsBearer key none none token e = absurd (ground (arith, e))
  parts-IsBearer key none (some cs) token e = absurd (ground (arith, e))
  parts-IsBearer key (some hs) none token e = absurd (ground (arith, e))
  parts-IsBearer key (some hs) (some cs) token e =
      signed-IsBearer (c.encode hs ++ dot ∷ c.encode cs) token
        (c.sign key (c.encode hs ++ dot ∷ c.encode cs)) (joined-IsPlain _ _ (plain hs) (plain cs)) e

  unless-IsBearer :
      (b : Bool) (r : Refusal) (x : Checked Bytes) (token : Bytes)
      → ((t : Bytes) → x ≡ ok t → IsBearer t)
      → (if b then refused r else x) ≡ ok token
      → IsBearer token
  unless-IsBearer true r x token h e = absurd (ground (arith, e))
  unless-IsBearer false r x token h e = h token e

  -- A signed token is printed characters, and some.
  pub sign-IsBearer :
      (s : Signer c) (now : ℕ) (id session_id subject token : Bytes) (version : ℤ)
      → sign c s now id session_id subject version ≡ ok token
      → IsBearer token
  unfolding sign sign_token
  sign-IsBearer s now id session_id subject token version e =
      unless-IsBearer (is_empty (trim_space session_id)) session_required _ token
        (λ t q. parts-IsBearer s.private_key _ _ t q) e
