-- ===== src/FilePath/Segments.antt =====
-- The segments that a cleaned absolute path consists of.
use mathlib.Core.List.{reverse, reverse-cons, append_assoc, append-nil}
use agentland.Base.{
  ℕ, true, false, ◌||◌, List, [], ◌∷◌, ◌++◌, ◌==◌, if◌then◌else◌, ◌≡◌, ap, sym, ◌∙◌, ◌≢◌, All,
  All-append, arith, Bool-cases, inl, inr,
}
use agentland.Text.{Bytes, bytes, bytes_eq, has_prefix}
use agentland.FilePath.{
  slash, split, add_first, push_segment, parent, resolve, is_dot_dot, segments,
}

abbrev pub NoSlash : Bytes → Type 0
NoSlash = All (λ c. c ≢ slash)

-- A segment that stays: not empty, not `.`, not `..`, and with no slash in it.
pub record IsNormal (s : Bytes) : Type 0 where
  pub not_empty : bytes_eq s [] ≡ false
  pub not_dot : bytes_eq s (bytes ".") ≡ false
  pub not_dot_dot : is_dot_dot s ≡ false
  pub no_slash : NoSlash s

add_first-NoSlash :
    (c : ℕ) (ss : List Bytes) → c ≢ slash → All NoSlash ss → All NoSlash (add_first c ss)
add_first-NoSlash c [] h k = ((h, tt), tt)
add_first-NoSlash c (s ∷ ss) h k = ((h, k.0), k.1)

pub split-NoSlash : (s : Bytes) → All NoSlash (split slash s)
unfolding split
split-NoSlash [] = (tt, tt)
split-NoSlash (c ∷ s) = elim (Bool-cases (c == slash)) [
  | inl e ↦ rw e (tt, split-NoSlash s)
  | inr e ↦ rw e (add_first-NoSlash c (split slash s) (ground arith) (split-NoSlash s))
]

parent-IsNormal : (kept : List Bytes) → All IsNormal kept → All IsNormal (parent true kept)
parent-IsNormal [] k = tt
parent-IsNormal (t ∷ ts) k = rw (k.0.not_dot_dot) (k.1)

push_up :
    (s : Bytes) (kept : List Bytes)
    → NoSlash s
    → All IsNormal kept
    → bytes_eq s [] ≡ false
    → bytes_eq s (bytes ".") ≡ false
    → All IsNormal (if is_dot_dot s then parent true kept else s ∷ kept)
push_up s kept h k not_empty not_dot = elim (Bool-cases (is_dot_dot s)) [
  | inl e ↦ rw e (parent-IsNormal kept k)
  | inr e ↦
      rw e (record { not_empty = not_empty; not_dot = not_dot; not_dot_dot = e; no_slash = h }, k)
]

push-IsNormal :
    (s : Bytes) (kept : List Bytes)
    → NoSlash s
    → All IsNormal kept
    → All IsNormal (push_segment true s kept)
push-IsNormal s kept h k = elim (Bool-cases (bytes_eq s [] || bytes_eq s (bytes "."))) [
  | inl e ↦ rw e k
  | inr e ↦ rw e (push_up s kept h k (ground arith) (ground arith))
]

pub All-reverse {ℓ κ} : {A : Type ℓ} (P : A → Type κ) (xs : List A) → All P xs → All P (reverse xs)
All-reverse P [] h = h
All-reverse P (x ∷ xs) h =
    rw reverse-cons (All-append P (reverse xs) (x ∷ []) (All-reverse P xs h.1) (h.0, tt))

resolve-IsNormal :
    (ss kept : List Bytes)
    → All NoSlash ss
    → All IsNormal kept
    → All IsNormal (resolve true kept ss)
unfolding resolve
resolve-IsNormal [] kept h k = All-reverse IsNormal kept k
resolve-IsNormal (s ∷ ss) kept h k =
    resolve-IsNormal ss (push_segment true s kept) h.1 (push-IsNormal s kept h.0 k)

-- The segments of a cleaned absolute path are normal: nothing leads up.
pub segments-IsNormal : (s : Bytes) → has_prefix s (bytes "/") ≡ true → All IsNormal (segments s)
segments-IsNormal s h = rw h (resolve-IsNormal (split slash s) [] (split-NoSlash s) tt)

push_normal : (s : Bytes) (kept : List Bytes) → IsNormal s → push_segment true s kept ≡ s ∷ kept
push_normal s kept n = ground arith

-- Normal segments are all kept.
pub resolve_normal :
    (ss kept : List Bytes) → All IsNormal ss → resolve true kept ss ≡ reverse kept ++ ss
unfolding resolve
resolve_normal [] kept h = sym (append-nil (reverse kept))
resolve_normal (s ∷ ss) kept h = rw (push_normal s kept h.0) (
    resolve_normal ss (s ∷ kept) h.1
    ∙ ap (λ t. t ++ ss) (reverse-cons s kept)
    ∙ append_assoc (reverse kept) (s ∷ []) ss)
