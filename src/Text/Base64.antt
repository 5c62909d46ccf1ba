-- ===== src/Text/Base64.antt =====
-- base64.StdEncoding of Go's `encoding/base64`: six bits to a letter, with padding.
pub mod RoundTrip
use mathlib.Core.Option
use agentland.Base.{
  ℕ, ◌+◌, ◌-◌, ◌*◌, ◌/◌, ◌%◌, Bool, true, false, ◌&&◌, ◌||◌, not, Option, none, some, List, [], ◌∷◌,
  leb, ltb, ◌==◌, if◌then◌else◌, ◌≡◌, refl,
}
use agentland.Text.{Bytes, bytes}

-- The letter of six bits.
unfoldable pub letter : ℕ → ℕ
letter n =
    if ltb n 26
    then n + b'A'
    else if ltb n 52
    then n - 26 + b'a'
    else if ltb n 62
    then n - 52 + b'0'
    else if n == 62
    then b'+'
    else b'/'

unfoldable pub sextet : ℕ → Option ℕ
sextet c =
    if leb b'A' c && leb c b'Z'
    then some (c - b'A')
    else if leb b'a' c && leb c b'z'
    then some (c - b'a' + 26)
    else if leb b'0' c && leb c b'9'
    then some (c - b'0' + 52)
    else if c == b'+'
    then some 62
    else if c == b'/'
    then some 63
    else none

abbrev pub padding : ℕ
padding = b'='

-- EncodeToString
unfoldable pub encode : Bytes → Bytes
unfolding letter
encode [] = []
encode (a ∷ []) = letter (a / 4) ∷ letter (a % 4 * 16) ∷ padding ∷ padding ∷ []
encode (a ∷ b ∷ []) =
    letter (a / 4) ∷ letter (a % 4 * 16 + b / 16) ∷ letter (b % 16 * 4) ∷ padding ∷ []
encode (a ∷ b ∷ c ∷ s) =
    letter (a / 4)
    ∷ letter (a % 4 * 16 + b / 16)
    ∷ letter (b % 16 * 4 + c / 64)
    ∷ letter (c % 64)
    ∷ encode s

-- The bytes of two, three and four groups of six bits; what does not fill a byte is dropped.
abbrev pub byte₁ : ℕ → ℕ → ℕ
byte₁ x y = x * 4 + y / 16

abbrev pub byte₂ : ℕ → ℕ → ℕ
byte₂ y z = y % 16 * 16 + z / 4

abbrev pub byte₃ : ℕ → ℕ → ℕ
byte₃ z w = z % 4 * 64 + w

-- The last group, whose third and fourth letters may be padding.
abbrev pub last_group : Option ℕ → Option ℕ → ℕ → ℕ → Option Bytes
last_group (some x) (some y) p q =
    if p == padding && q == padding
    then some (byte₁ x y ∷ [])
    else if q == padding
    then Option.map (λ z. byte₁ x y ∷ byte₂ y z ∷ []) (sextet p)
    else none
last_group _ _ p q = none

abbrev pub group : Option ℕ → Option ℕ → Option ℕ → Option ℕ → Option Bytes → Option Bytes
group (some x) (some y) (some z) (some w) (some s) = some (byte₁ x y ∷ byte₂ y z ∷ byte₃ z w ∷ s)
group _ _ _ _ _ = none

abbrev pub is_nil : Bytes → Bool
is_nil [] = true
is_nil (c ∷ s) = false

-- The groups of four letters.
unfoldable pub decode_groups : Bytes → Option Bytes
unfolding sextet
decode_groups [] = some []
decode_groups (a ∷ b ∷ c ∷ d ∷ s) =
    let rest = group (sextet a) (sextet b) (sextet c) (sextet d) (decode_groups s) in
    if is_nil s && d == padding then last_group (sextet a) (sextet b) c d else rest
decode_groups _ = none

-- Line ends are passed over.
unfoldable pub without_line_ends : Bytes → Bytes
without_line_ends [] = []
without_line_ends (c ∷ s) =
    let rest = without_line_ends s in if c == 10 || c == 13 then rest else c ∷ rest

-- DecodeString
unfoldable pub decode : Bytes → Option Bytes
unfolding decode_groups without_line_ends
decode s = decode_groups (without_line_ends s)

test_encode : encode (bytes "hello") ≡ bytes "aGVsbG8="
unfolding encode
test_encode = refl

test_decode : decode (bytes "aGVs\nbG8=") ≡ some (bytes "hello")
unfolding decode
test_decode = refl
