-- ===== src/Token/Concrete.antt =====
-- Headers and claims of tokens as bytes, each text with its length before it: what the tests use in
-- place of JSON.
use agentland.Base.{zero, suc, [], ◌∷◌, ◌≡◌, refl, ◌∙◌}
use agentland.Text.{Bytes, ℤ, pos, negsuc}
use agentland.Text.Prefixed.{put_text, get_text, get_text-put_text}
use agentland.Token.{Claims, Header}

unfoldable pub put_int : ℤ → Bytes → Bytes
put_int (pos n) r = 0 ∷ n ∷ r
put_int (negsuc n) r = 1 ∷ n ∷ r

unfoldable pub get_int {ℓ} : {B : Type ℓ} → Bytes → (ℤ → Bytes → B) → B
get_int (zero ∷ n ∷ r) k = k (pos n) r
get_int (suc _ ∷ n ∷ r) k = k (negsuc n) r
get_int _ k = k (pos 0) []

get_int-put_int {ℓ} :
    {B : Type ℓ} (z : ℤ) (r : Bytes) (k : ℤ → Bytes → B) → get_int (put_int z r) k ≡ k z r
unfolding get_int put_int
get_int-put_int (pos n) r k = refl
get_int-put_int (negsuc n) r k = refl

unfoldable pub write_header : Header → Bytes
write_header h = put_text h.alg (put_text h.typ (put_text h.kid []))

unfoldable pub read_header : Bytes → Header
read_header s = get_text s (λ alg r.
    get_text r (λ typ q. get_text q (λ kid _. record { alg = alg; typ = typ; kid = kid })))

pub read_header-write_header : (h : Header) → read_header (write_header h) ≡ h
unfolding read_header write_header
read_header-write_header h =
    get_text-put_text h.alg _ _ ∙ get_text-put_text h.typ _ _ ∙ get_text-put_text h.kid _ _

unfoldable pub write_claims : Claims → Bytes
write_claims c = put_text c.issuer (
    put_text c.audience (
      put_text c.session_id (
        put_text c.subject (
          put_int c.version (
            put_int c.issued_at
              (put_int c.not_before (put_int c.expires_at (put_text c.jwt_id []))))))))

unfoldable pub read_claims : Bytes → Claims
read_claims s = get_text s (λ a r1. get_text r1 (λ b r2. get_text r2 (λ d r3. get_text r3 (λ e r4.
    get_int r4 (λ f r5. get_int r5 (λ g r6. get_int r6 (λ h r7. get_int r7 (λ i r8.
      get_text r8 (λ j _. record {
        issuer = a;
        audience = b;
        session_id = d;
        subject = e;
        version = f;
        issued_at = g;
        not_before = h;
        expires_at = i;
        jwt_id = j;
      })))))))))

pub read_claims-write_claims : (c : Claims) → read_claims (write_claims c) ≡ c
unfolding read_claims write_claims
read_claims-write_claims c =
    get_text-put_text c.issuer _ _
    ∙ get_text-put_text c.audience _ _
    ∙ get_text-put_text c.session_id _ _
    ∙ get_text-put_text c.subject _ _
    ∙ get_int-put_int c.version _ _
    ∙ get_int-put_int c.issued_at _ _
    ∙ get_int-put_int c.not_before _ _
    ∙ get_int-put_int c.expires_at _ _
    ∙ get_text-put_text c.jwt_id _ _
