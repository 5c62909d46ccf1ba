-- ===== src/Token/Validity.antt =====
-- Which claims a verifier accepts.
use agentland.Base.{
  ℕ, ◌+◌, ◌*◌, ◌≤◌, ◌<◌, ◌^◌, ◌⊎◌, inl, inr, ltb, ◌&&◌, Bool-cases, Bool, true, false, not, Option,
  none, some, ◌≡◌, ◌↔◌, refl, arith, if◌then◌else◌,
}
use agentland.Text.{bytes_eq, trim_space}
use agentland.Text.Search.{bytes_eq→≡, bytes_eq_refl}
use agentland.Token.{
  second, Claims, Crypto, Verifier, Refusal, issuer_mismatch, audience_mismatch, session_required,
  not_valid_yet, issued_in_future, is_empty, positive, too_early, over, internal, unix_to_internal,
  expired, validate_claims,
}

-- A time that is set has come, up to the skew, or is past the end of Go's times and wraps around to one
-- before all others.
abbrev pub HasCome : ℕ → ℕ → Option ℕ → Type 0
HasCome now skew none = Unit {0}
HasCome now skew (some t) =
    (2 ^ 63 ≤ internal t) ⊎ (internal t * second ≤ now + skew + unix_to_internal * second)

-- A time is set, does not wrap around, and has not passed by more than the skew.
abbrev pub IsAhead : ℕ → ℕ → Option ℕ → Type 0
IsAhead now skew none = ⊥
IsAhead now skew (some t) =
    (internal t < 2 ^ 63) × (now + unix_to_internal * second < internal t * second + skew)

pub record IsValid (c : Crypto) (v : Verifier c) (now : ℕ) (claims : Claims) : Type 0 where
  pub issuer : claims.issuer ≡ v.issuer
  pub audience : claims.audience ≡ v.audience
  pub session : is_empty (trim_space claims.session_id) ≡ false
  pub begun : HasCome now v.clock_skew (positive claims.not_before)
  pub issued : HasCome now v.clock_skew (positive claims.issued_at)
  pub lasting : IsAhead now v.clock_skew (positive claims.expires_at)

HasCome-of : (now skew : ℕ) (t : Option ℕ) → too_early now skew t ≡ false → HasCome now skew t
HasCome-of now skew none h = tt
HasCome-of now skew (some t) h = elim (Bool-cases (ltb (internal t) (2 ^ 63))) [
  | inl e ↦ inr (not_early (internal t) (rw e at h))
  | inr e ↦ inl (ground (arith, e))
]
  where
    not_early :
        (i : ℕ)
        → ltb (now + skew + unix_to_internal * second) (i * second) ≡ false
        → i * second ≤ now + skew + unix_to_internal * second
    not_early i k = ground (arith, k)

too_early_of : (now skew : ℕ) (t : Option ℕ) → HasCome now skew t → too_early now skew t ≡ false
too_early_of now skew none h = refl
too_early_of now skew (some t) (inl h) =
    let e : ltb (internal t) (2 ^ 63) ≡ false = ground (arith, h) in rw e refl
too_early_of now skew (some t) (inr h) =
    let e : ltb (now + skew + unix_to_internal * second) (internal t * second) ≡ false =
      ground (arith, h) in
    elim (Bool-cases (ltb (internal t) (2 ^ 63))) [ inl f ↦ rw (f, e) refl | inr f ↦ rw f refl ]

ahead_both : (a b : Bool) → (if a && b then none else some expired) ≡ none → (a ≡ true) × (b ≡ true)
ahead_both true true h = (refl, refl)
ahead_both true false h = absurd (ground (arith, h))
ahead_both false b h = absurd (ground (arith, h))

IsAhead-of : (now skew : ℕ) (t : Option ℕ) → over now skew t ≡ none → IsAhead now skew t
IsAhead-of now skew none h = absurd (ground (arith, h))
IsAhead-of now skew (some t) h =
    let (a, b) =
      ahead_both (ltb (internal t) (2 ^ 63))
        (ltb (now + unix_to_internal * second) (internal t * second + skew)) h in
    (ground (arith, a), ground (arith, b))

over_of : (now skew : ℕ) (t : Option ℕ) → IsAhead now skew t → over now skew t ≡ none
over_of now skew none h = absurd h
over_of now skew (some t) (a, b) =
    let e : ltb (internal t) (2 ^ 63) ≡ true = ground (arith, a) in
    let f : ltb (now + unix_to_internal * second) (internal t * second + skew) ≡ true =
      ground (arith, b) in
    rw (e, f) refl

-- A test that refuses, and the rest of the tests.
tests_both :
    (b : Bool) (r : Refusal) (rest : Option Refusal)
    → (if b then some r else rest) ≡ none
    → (b ≡ false) × (rest ≡ none)
tests_both true r rest h = absurd (ground (arith, h))
tests_both false r rest h = (refl, h)

pub not-false : (b : Bool) → not b ≡ false → b ≡ true
not-false true h = refl
not-false false h = absurd (ground (arith, h))

module _ (c : Crypto) (v : Verifier c) (now : ℕ) (claims : Claims) where
  IsValid-of : validate_claims c v now claims ≡ none → IsValid c v now claims
  unfolding validate_claims
  IsValid-of h =
      let (a, h1) = tests_both (not (bytes_eq claims.issuer v.issuer)) issuer_mismatch _ h in
      let (b, h2) = tests_both (not (bytes_eq claims.audience v.audience)) audience_mismatch _ h1 in
      let (s, h3) = tests_both (is_empty (trim_space claims.session_id)) session_required _ h2 in
      let (n, h4) =
        tests_both (too_early now v.clock_skew (positive claims.not_before)) not_valid_yet _ h3 in
      let (i, h5) =
        tests_both (too_early now v.clock_skew (positive claims.issued_at)) issued_in_future _ h4 in
      record {
        issuer = bytes_eq→≡ claims.issuer v.issuer (not-false _ a);
        audience = bytes_eq→≡ claims.audience v.audience (not-false _ b);
        session = s;
        begun = HasCome-of now v.clock_skew (positive claims.not_before) n;
        issued = HasCome-of now v.clock_skew (positive claims.issued_at) i;
        lasting = IsAhead-of now v.clock_skew (positive claims.expires_at) h5;
      }

  -- Claims are accepted exactly if they are for this issuer and audience, name a session, have begun
  -- and been issued, and have an end that is ahead, each up to the skew.
  pub validate_claims-IsValid : (validate_claims c v now claims ≡ none) ↔ IsValid c v now claims
  unfolding validate_claims
  validate_claims-IsValid = (
    IsValid-of,
    λ h.
        rw
          (
            h.issuer,
            h.audience,
            bytes_eq_refl v.issuer,
            bytes_eq_refl v.audience,
            h.session,
            too_early_of now v.clock_skew (positive claims.not_before) h.begun,
            too_early_of now v.clock_skew (positive claims.issued_at) h.issued,
          )
          (over_of now v.clock_skew (positive claims.expires_at) h.lasting),
  )
