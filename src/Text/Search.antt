-- ===== src/Text/Search.antt =====
-- Laws of `has_prefix` and `index`.
use agentland.Base.{
  ℕ, zero, suc, ◌<◌, ◌+◌, ◌≤◌, ◌≡◌, refl, true, none, some, [], ◌∷◌, ◌++◌, arith, length, drop,
  Option-cases, inl, inr,
}
use agentland.Text.{Bytes, bytes_eq, has_prefix, index, last_index}

pub has_prefix-le : (s p : Bytes) → has_prefix s p ≡ true → length p ≤ length s
unfolding has_prefix
has_prefix-le s [] h = omega arith
has_prefix-le [] (_ ∷ _) h = absurd (ground arith)
has_prefix-le (a ∷ s) (b ∷ p) h = ground (arith, has_prefix-le s p)

-- A prefix that fits is decided by what it fits in.
pub has_prefix-append :
    (s r p : Bytes) → length p ≤ length s → has_prefix (s ++ r) p ≡ has_prefix s p
unfolding has_prefix
has_prefix-append [] r [] h = ground arith
has_prefix-append (a ∷ s) r [] h = refl
has_prefix-append [] r (_ ∷ _) h = absurd (omega arith)
has_prefix-append (a ∷ s) r (b ∷ p) h = rw (has_prefix-append s r p (omega arith))

pub has_prefix-append_self : (p r : Bytes) → has_prefix (p ++ r) p ≡ true
unfolding has_prefix
has_prefix-append_self [] r = ground arith
has_prefix-append_self (b ∷ p) r = ground (arith, has_prefix-append_self p r)

pub has_prefix-split : (s p : Bytes) → has_prefix s p ≡ true → s ≡ p ++ drop (length p) s
unfolding has_prefix
has_prefix-split s [] h = refl
has_prefix-split [] (_ ∷ _) h = ground arith
has_prefix-split (a ∷ s) (b ∷ p) h = ground (arith, has_prefix-split s p)

pub index-le : (s p : Bytes) (i : ℕ) → index s p ≡ some i → i + length p ≤ length s
unfolding index
index-le [] p i h = ground (arith, has_prefix-le [] p)
index-le (c ∷ s) p i h = elim (Option-cases (index s p)) [
  | inl e ↦ ground (arith, has_prefix-le (c ∷ s) p)
  | inr (j, e) ↦ ground (arith, has_prefix-le (c ∷ s) p, index-le s p j e)
]

-- The first occurrence stays the first when more text follows.
pub index-append : (s r p : Bytes) (i : ℕ) → index s p ≡ some i → index (s ++ r) p ≡ some i
unfolding index has_prefix
index-append [] [] [] i h = h
index-append [] (_ ∷ _) [] i h = ground (arith, h)
index-append [] r (_ ∷ _) i h = ground arith
index-append (c ∷ s) r p i h = elim (Option-cases (index s p)) [
  | inl e ↦ ground (arith, has_prefix-le (c ∷ s) p, has_prefix-append (c ∷ s) r p)
  | inr (j, e) ↦
      ground (arith, has_prefix-append (c ∷ s) r p, index-le s p j e, index-append s r p j e)
]

last_index-none : (s p : Bytes) → last_index s p ≡ none → index s p ≡ none
unfolding last_index index
last_index-none [] p h = h
last_index-none (c ∷ s) p h = elim (Option-cases (last_index s p)) [
  | inl e ↦ ground (arith, last_index-none s p e)
  | inr (j, e) ↦ ground (arith, e)
]

pub index-none-drop : (n : ℕ) (s p : Bytes) → index s p ≡ none → index (drop n s) p ≡ none
unfolding index
index-none-drop zero s p h = h
index-none-drop (suc n) [] p h = h
index-none-drop (suc n) (c ∷ s) p h = index-none-drop n s p (ground arith)

-- Behind the place where a text occurs last it does not occur.
pub index-drop_last :
    (s p : Bytes) (i n : ℕ)
    → 0 < length p
    → last_index s p ≡ some i
    → i < n
    → index (drop n s) p ≡ none
unfolding last_index has_prefix
index-drop_last s p i zero pos e h = elim h [ ]
index-drop_last [] [] i (suc n) pos e h = elim pos [ ]
index-drop_last [] (_ ∷ _) i (suc n) pos e h = ground arith
index-drop_last (c ∷ s) p i (suc n) pos e h = elim (Option-cases (last_index s p)) [
  | inl x ↦ index-none-drop n s p (last_index-none s p x)
  | inr (j, x) ↦ index-drop_last s p j n pos x (ground arith)
]

-- A text does not occur in a part of one in which it does not occur.
pub index-none-append_left : (s r p : Bytes) → index (s ++ r) p ≡ none → index s p ≡ none
index-none-append_left s r p h = elim (Option-cases (index s p)) [
  | inl e ↦ e
  | inr (i, e) ↦ cc (index-append s r p i e)
]

pub index_of_has_prefix : (s p : Bytes) → has_prefix s p ≡ true → index s p ≡ some 0
unfolding index
index_of_has_prefix [] p h = ground (arith, h)
index_of_has_prefix (c ∷ s) p h = ground (arith, h)

pub index-none_of_short : (s p : Bytes) → length s < length p → index s p ≡ none
index-none_of_short s p h = elim (Option-cases (index s p)) [
  | inl e ↦ e
  | inr (i, e) ↦ absurd (omega (arith, index-le s p i e))
]

pub bytes_eq→≡ : (s t : Bytes) → bytes_eq s t ≡ true → s ≡ t
bytes_eq→≡ [] [] h = refl
bytes_eq→≡ [] (_ ∷ _) h = ground (arith, h)
bytes_eq→≡ (_ ∷ _) [] h = ground (arith, h)
bytes_eq→≡ (a ∷ s) (b ∷ t) h = ground (arith, bytes_eq→≡ s t)

pub bytes_eq_refl : (s : Bytes) → bytes_eq s s ≡ true
bytes_eq_refl [] = refl
bytes_eq_refl (a ∷ s) = ground (arith, bytes_eq_refl s)
