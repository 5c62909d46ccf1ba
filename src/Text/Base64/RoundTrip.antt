-- ===== src/Text/Base64/RoundTrip.antt =====
-- Decoding what was encoded.
use agentland.Base.{
  ℕ, ◌+◌, ◌*◌, ◌/◌, ◌%◌, ◌<◌, false, ◌&&◌, ◌||◌, Option, none, some, [], ◌∷◌, ◌==◌, ◌≡◌, refl, All,
  arith, Bool-cases, Option-cases, inl, inr, subst,
}
use agentland.Text.{Bytes}
use mathlib.Core.Option
use agentland.Text.Base64.{
  byte₁, byte₂, byte₃, last_group, group, is_nil, letter, sextet, padding, encode, decode,
  decode_groups, without_line_ends,
}

sextet-letter : (n : ℕ) → n < 64 → sextet (letter n) ≡ some n
unfolding sextet letter
sextet-letter n h = ground arith

letter_plain : (n : ℕ) → (letter n == 10 || letter n == 13) ≡ false
unfolding letter
letter_plain n = ground arith

letter-ne-padding : (n : ℕ) → n < 64 → (letter n == padding) ≡ false
unfolding letter
letter-ne-padding n h = ground arith

abbrev pub AreBytes : Bytes → Type 0
AreBytes = All (λ c. c < 256)

encode_plain : (s : Bytes) → without_line_ends (encode s) ≡ encode s
unfolding encode without_line_ends
encode_plain [] = refl
encode_plain (a ∷ []) = rw (letter_plain (a / 4), letter_plain (a % 4 * 16)) refl
encode_plain (a ∷ b ∷ []) =
    rw (letter_plain (a / 4), letter_plain (a % 4 * 16 + b / 16), letter_plain (b % 16 * 4)) refl
encode_plain (a ∷ b ∷ c ∷ s) =
    rw
      (
        letter_plain (a / 4),
        letter_plain (a % 4 * 16 + b / 16),
        letter_plain (b % 16 * 4 + c / 64),
        letter_plain (c % 64),
        encode_plain s,
      )
      refl

decode_groups-encode : (s : Bytes) → AreBytes s → decode_groups (encode s) ≡ some s
unfolding encode decode_groups
decode_groups-encode [] h = refl
decode_groups-encode (a ∷ []) h =
    rw (sextet-letter (a / 4) (omega arith), sextet-letter (a % 4 * 16) (omega arith))
      (ground arith)
decode_groups-encode (a ∷ b ∷ []) h =
    rw
      (
        sextet-letter (a / 4) (omega arith),
        sextet-letter (a % 4 * 16 + b / 16) (omega arith),
        letter-ne-padding (b % 16 * 4) (omega arith),
        sextet-letter (b % 16 * 4) (omega arith),
      )
      (ground arith)
decode_groups-encode (a ∷ b ∷ c ∷ s) h =
    rw
      (
        sextet-letter (a / 4) (omega arith),
        sextet-letter (a % 4 * 16 + b / 16) (omega arith),
        sextet-letter (b % 16 * 4 + c / 64) (omega arith),
        sextet-letter (c % 64) (omega arith),
        letter-ne-padding (c % 64) (omega arith),
        decode_groups-encode s h.1.1.1,
      )
      (ground arith)

-- Decoding what was encoded gives the bytes back.
pub decode-encode : (s : Bytes) → AreBytes s → decode (encode s) ≡ some s
unfolding decode
decode-encode s h = rw (encode_plain s) (decode_groups-encode s h)

sextet-lt : (c n : ℕ) → sextet c ≡ some n → n < 64
unfolding sextet
sextet-lt c n h = ground arith

abbrev Small : Option ℕ → Type 0
Small none = Unit {0}
Small (some n) = n < 64

sextet-Small : (c : ℕ) → Small (sextet c)
sextet-Small c = elim (Option-cases (sextet c)) [
  | inl e ↦ rw e tt
  | inr (n, e) ↦ rw e (sextet-lt c n e)
]

byte₁-lt : (x y : ℕ) → x < 64 → y < 64 → byte₁ x y < 256
byte₁-lt x y hx hy = omega arith

byte₂-lt : (y z : ℕ) → z < 64 → byte₂ y z < 256
byte₂-lt y z h = omega arith

byte₃-lt : (z w : ℕ) → w < 64 → byte₃ z w < 256
byte₃-lt z w h = omega arith

some_eq : {A : Type 0} (a b : A) → Option.some a ≡ some b → a ≡ b
some_eq a b h = ground (arith, h)

one_byte :
    (x y : ℕ) (s : Bytes) → x < 64 → y < 64 → Option.some (byte₁ x y ∷ []) ≡ some s → AreBytes s
one_byte x y s hx hy e = subst AreBytes (some_eq (byte₁ x y ∷ []) s e) (byte₁-lt x y hx hy, tt)

two_bytes :
    (x y : ℕ) (z : Option ℕ) (s : Bytes)
    → x < 64
    → y < 64
    → Small z
    → Option.map (λ z'. byte₁ x y ∷ byte₂ y z' ∷ []) z ≡ some s
    → AreBytes s
two_bytes x y none s hx hy hz e = absurd (ground (arith, e))
two_bytes x y (some z) s hx hy hz e =
    subst AreBytes (some_eq (byte₁ x y ∷ byte₂ y z ∷ []) s e)
      (byte₁-lt x y hx hy, (byte₂-lt y z hz, tt))

last_group-AreBytes :
    (a b : Option ℕ) (p q : ℕ) (s : Bytes)
    → Small a
    → Small b
    → last_group a b p q ≡ some s
    → AreBytes s
last_group-AreBytes none b p q s ha hb h = absurd (ground (arith, h))
last_group-AreBytes (some x) none p q s ha hb h = absurd (ground (arith, h))
last_group-AreBytes (some x) (some y) p q s ha hb h =
    elim (Bool-cases (p == padding && q == padding)) [
      | inl e ↦ one_byte x y s ha hb (rw e at h)
      | inr e ↦ elim (Bool-cases (q == padding)) [
        | inl f ↦ two_bytes x y (sextet p) s ha hb (sextet-Small p) (rw (e, f) at h)
        | inr f ↦ let no : Option.none ≡ some s = rw (e, f) at h in absurd (ground (arith, no))
      ]
    ]

group-AreBytes :
    (a b c d : Option ℕ) (r : Option Bytes) (s : Bytes)
    → Small a
    → Small b
    → Small c
    → Small d
    → ((t : Bytes) → r ≡ some t → AreBytes t)
    → group a b c d r ≡ some s
    → AreBytes s
group-AreBytes none b c d r s ha hb hc hd ih h = absurd (ground (arith, h))
group-AreBytes (some x) none c d r s ha hb hc hd ih h = absurd (ground (arith, h))
group-AreBytes (some x) (some y) none d r s ha hb hc hd ih h = absurd (ground (arith, h))
group-AreBytes (some x) (some y) (some z) none r s ha hb hc hd ih h = absurd (ground (arith, h))
group-AreBytes (some x) (some y) (some z) (some w) none s ha hb hc hd ih h =
    absurd (ground (arith, h))
group-AreBytes (some x) (some y) (some z) (some w) (some t) s ha hb hc hd ih h =
    subst AreBytes (some_eq (byte₁ x y ∷ byte₂ y z ∷ byte₃ z w ∷ t) s h)
      (byte₁-lt x y ha hb, (byte₂-lt y z hc, (byte₃-lt z w hd, ih t refl)))

decode_groups-AreBytes : (s t : Bytes) → decode_groups s ≡ some t → AreBytes t
unfolding decode_groups
decode_groups-AreBytes [] t h = subst AreBytes (some_eq [] t h) tt
decode_groups-AreBytes (a ∷ []) t h = absurd (ground (arith, h))
decode_groups-AreBytes (a ∷ b ∷ []) t h = absurd (ground (arith, h))
decode_groups-AreBytes (a ∷ b ∷ c ∷ []) t h = absurd (ground (arith, h))
decode_groups-AreBytes (a ∷ b ∷ c ∷ d ∷ s) t h = elim (Bool-cases (is_nil s && d == padding)) [
  | inl e ↦
      last_group-AreBytes (sextet a) (sextet b) c d t (sextet-Small a) (sextet-Small b) (rw e at h)
  | inr e ↦
      group-AreBytes (sextet a) (sextet b) (sextet c) (sextet d) (decode_groups s) t
        (sextet-Small a) (sextet-Small b) (sextet-Small c) (sextet-Small d)
        (decode_groups-AreBytes s) (rw e at h)
]

-- What a text decodes to consists of bytes.
pub decode-AreBytes : (s t : Bytes) → decode s ≡ some t → AreBytes t
unfolding decode
decode-AreBytes s t h = decode_groups-AreBytes (without_line_ends s) t h
