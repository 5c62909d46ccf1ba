-- ===== src/Text.antt =====
-- Go's strings as bytes, and what the program uses of the packages `strings` and `strconv`.
pub mod Search
pub mod Trim
pub mod Base64
pub mod Utf8
pub mod Prefixed
use Prim.Native.Char.{code}
use mathlib.Core.List.{reverse}
use mathlib.Core.Option
use agentland.Base.{
  ℕ, zero, suc, ◌+◌, ◌-◌, ◌*◌, ◌^◌, String, Bool, true, false, ◌&&◌, ◌||◌, Option, none, some, List,
  [], ◌∷◌, leb, ltb, ◌==◌, if◌then◌else◌,
}

abbrev pub Bytes : Type 0
Bytes = List ℕ

-- The bytes of an ASCII literal.
abbrev pub bytes : String → Bytes
bytes String.[] = []
bytes (String.◌∷◌ c s) = code c ∷ bytes s

abbrev pub bytes_eq : Bytes → Bytes → Bool
bytes_eq [] [] = true
bytes_eq [] (_ ∷ _) = false
bytes_eq (_ ∷ _) [] = false
bytes_eq (a ∷ s) (b ∷ t) = a == b && bytes_eq s t

-- strings.HasPrefix
unfoldable pub has_prefix : Bytes → Bytes → Bool
has_prefix s [] = true
has_prefix [] (_ ∷ _) = false
has_prefix (a ∷ s) (b ∷ p) = a == b && has_prefix s p

-- strings.Index
unfoldable pub index : Bytes → Bytes → Option ℕ
unfolding has_prefix
index [] p = if has_prefix [] p then some 0 else none
index (c ∷ s) p = if has_prefix (c ∷ s) p then some 0 else Option.map suc (index s p)

abbrev pub later : Option ℕ → Option ℕ → Option ℕ
later (some i) _ = some i
later none o = o

-- strings.LastIndex
unfoldable pub last_index : Bytes → Bytes → Option ℕ
unfolding has_prefix
last_index [] p = if has_prefix [] p then some 0 else none
last_index (c ∷ s) p =
    later (Option.map suc (last_index s p)) (if has_prefix (c ∷ s) p then some 0 else none)

-- The white space that takes one, two and three bytes in UTF-8.
abbrev pub is_space : ℕ → Bool
is_space c = c == 32 || (leb 9 c && leb c 13)

abbrev is_space₂ : ℕ → ℕ → Bool
is_space₂ a b = a == 0xC2 && (b == 0x85 || b == 0xA0)

abbrev is_space₃ : ℕ → ℕ → ℕ → Bool
is_space₃ a b c =
    (a == 0xE1 && b == 0x9A && c == 0x80)
    || (a == 0xE2
        && b == 0x80
        && ((leb 0x80 c && leb c 0x8A) || c == 0xA8 || c == 0xA9 || c == 0xAF))
    || (a == 0xE2 && b == 0x81 && c == 0x9F)
    || (a == 0xE3 && b == 0x80 && c == 0x80)

-- How many bytes the white space at the start takes; 0 if there is none.
unfoldable pub space_width : Bytes → ℕ
space_width [] = 0
space_width (a ∷ []) = if is_space a then 1 else 0
space_width (a ∷ b ∷ []) = if is_space a then 1 else if is_space₂ a b then 2 else 0
space_width (a ∷ b ∷ c ∷ _) =
    if is_space a then 1 else if is_space₂ a b then 2 else if is_space₃ a b c then 3 else 0

-- The same at the end, for the reversed bytes.
unfoldable pub space_width_end : Bytes → ℕ
space_width_end [] = 0
space_width_end (a ∷ []) = if is_space a then 1 else 0
space_width_end (a ∷ b ∷ []) = if is_space a then 1 else if is_space₂ b a then 2 else 0
space_width_end (a ∷ b ∷ c ∷ _) =
    if is_space a then 1 else if is_space₂ b a then 2 else if is_space₃ c b a then 3 else 0

-- Drops white space; `k` bytes of a character are still to go.
unfoldable pub strip : (Bytes → ℕ) → ℕ → Bytes → Bytes
strip width k [] = []
strip width zero (a ∷ s) = elim (width (a ∷ s)) [ zero ↦ a ∷ s | suc k ↦ strip width k s ]
strip width (suc k) (a ∷ s) = strip width k s

-- strings.TrimSpace
unfoldable pub trim_space : Bytes → Bytes
unfolding strip space_width space_width_end
trim_space s = reverse (strip space_width_end 0 (reverse (strip space_width 0 s)))

-- strings.ToLower on ASCII letters. The program compares the result with constants in whose
-- letters no other character is lowered.
unfoldable pub to_lower : Bytes → Bytes
to_lower [] = []
to_lower (c ∷ s) = (if leb b'A' c && leb c b'Z' then c + 32 else c) ∷ to_lower s

-- Go's int and int64.
pub data ℤ : Type 0 where
  pos : ℕ → ℤ
  negsuc : ℕ → ℤ

abbrev pub negate : ℕ → ℤ
negate zero = pos 0
negate (suc n) = negsuc n

unfoldable pub digits_value : ℕ → Bytes → Option ℕ
digits_value n [] = some n
digits_value n (c ∷ s) =
    let rest = digits_value (n * 10 + (c - b'0')) s in
    if leb b'0' c && leb c b'9' then rest else none

abbrev unsigned : Bytes → Option ℕ
unsigned [] = none
unsigned (c ∷ s) = digits_value 0 (c ∷ s)

abbrev within : ℕ → (ℕ → ℤ) → Option ℕ → Option ℤ
within limit sign none = none
within limit sign (some n) = if leb n limit then some (sign n) else none

-- strconv.Atoi: a sign, then digits, in the range of int64.
unfoldable pub atoi : Bytes → Option ℤ
unfolding digits_value
atoi [] = none
atoi (c ∷ s) =
    if c == b'-'
    then within (2 ^ 63) negate (unsigned s)
    else if c == b'+'
    then within (2 ^ 63 - 1) pos (unsigned s)
    else within (2 ^ 63 - 1) pos (unsigned (c ∷ s))
