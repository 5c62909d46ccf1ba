-- ===== src/Text/Utf8.antt =====
-- utf8.Valid of Go's `unicode/utf8`.
use agentland.Base.{
  ℕ, zero, suc, Bool, true, false, ◌&&◌, [], ◌∷◌, leb, ltb, ◌==◌, if◌then◌else◌, ◌≡◌, refl,
}
use agentland.Text.{Bytes}

-- Bytes that are still to come in a character, and the bounds of the next of them.
pub record Awaited : Type 0 where
  pub count : ℕ
  pub low : ℕ
  pub high : ℕ

abbrev awaited : ℕ → ℕ → ℕ → Awaited
awaited n lo hi = record { count = n; low = lo; high = hi }

-- What a byte that starts a character of several bytes asks for; nothing else starts one, which
-- `high` below `low` says.
abbrev pub starts : ℕ → Awaited
starts c =
    if leb 0xC2 c && leb c 0xDF
    then awaited 1 0x80 0xBF
    else if c == 0xE0
    then awaited 2 0xA0 0xBF
    else if c == 0xED
    then awaited 2 0x80 0x9F
    else if leb 0xE1 c && leb c 0xEF
    then awaited 2 0x80 0xBF
    else if c == 0xF0
    then awaited 3 0x90 0xBF
    else if leb 0xF1 c && leb c 0xF3
    then awaited 3 0x80 0xBF
    else if c == 0xF4
    then awaited 3 0x80 0x8F
    else awaited 1 1 0

unfoldable pub valid_from : ℕ → ℕ → ℕ → Bytes → Bool
valid_from zero lo hi [] = true
valid_from (suc n) lo hi [] = false
valid_from zero lo hi (c ∷ s) =
    let ascii = valid_from 0 0 0 s in
    let long = valid_from (starts c).count (starts c).low (starts c).high s in
    if ltb c 0x80 then ascii else long
valid_from (suc n) lo hi (c ∷ s) =
    let rest = valid_from n 0x80 0xBF s in leb lo c && leb c hi && rest

unfoldable pub valid : Bytes → Bool
unfolding valid_from
valid s = valid_from 0 0 0 s

test_valid : valid (0x68 ∷ 0xC3 ∷ 0xA9 ∷ 0xE2 ∷ 0x82 ∷ 0xAC ∷ 0xF0 ∷ 0x9F ∷ 0x98 ∷ 0x80 ∷ []) ≡ true
unfolding valid
test_valid = refl

test_invalid : valid (0x68 ∷ 0xED ∷ 0xA0 ∷ 0x80 ∷ []) ≡ false
unfolding valid
test_invalid = refl

test_cut : valid (0xE2 ∷ 0x82 ∷ []) ≡ false
unfolding valid
test_cut = refl
