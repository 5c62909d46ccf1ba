-- ===== src/Controller/Sorting.antt =====
-- Laws of `sort`.
use mathlib.Core.List.Perm
use mathlib.Core.List.{Perm}
use agentland.Base.{
  ℕ, zero, suc, Bool, true, false, List, [], ◌∷◌, ◌≡◌, All, subst, Bool-cases, inl, inr,
  if◌then◌else◌, take, drop, All-drop,
}
use agentland.Controller.{insert_sorted, sort}

module _ {ℓ} {A : Type ℓ} (before : A → A → Bool) where
  insert_sorted-perm : (x : A) (ys : List A) → Perm (insert_sorted before x ys) (x ∷ ys)
  unfolding insert_sorted
  insert_sorted-perm x [] = Perm.refl (x ∷ [])
  insert_sorted-perm x (y ∷ ys) = elim (Bool-cases (before y x)) [
    | inl e ↦ rw e (Perm.trans (Perm.cons y (insert_sorted-perm x ys)) (Perm.swap x y ys))
    | inr e ↦ rw e (Perm.refl (x ∷ y ∷ ys))
  ]

  pub sort-perm : (xs : List A) → Perm (sort before xs) xs
  unfolding sort
  sort-perm [] = Perm.refl []
  sort-perm (x ∷ xs) =
      Perm.trans (insert_sorted-perm x (sort before xs)) (Perm.cons x (sort-perm xs))

insert_sorted-holds {ℓ κ} :
    {A : Type ℓ} (before : A → A → Bool) (P : A → Type κ) (x : A) (ys : List A)
    → P x
    → All P ys
    → All P (insert_sorted before x ys)
unfolding insert_sorted
insert_sorted-holds before P x [] h k = (h, tt)
insert_sorted-holds before P x (y ∷ ys) h k = elim (Bool-cases (before y x)) [
  | inl e ↦ rw e (k.0, insert_sorted-holds before P x ys h k.1)
  | inr e ↦ rw e (h, k)
]

pub sort-All {ℓ κ} :
    {A : Type ℓ} (before : A → A → Bool) (P : A → Type κ) (xs : List A)
    → All P xs
    → All P (sort before xs)
unfolding sort
sort-All before P [] h = tt
sort-All before P (x ∷ xs) h =
    insert_sorted-holds before P x (sort before xs) h.0 (sort-All before P xs h.1)

insert_sorted-held {ℓ κ} :
    {A : Type ℓ} (before : A → A → Bool) (P : A → Type κ) (x : A) (ys : List A)
    → All P (insert_sorted before x ys)
    → P x × All P ys
unfolding insert_sorted
insert_sorted-held before P x [] h = h
insert_sorted-held before P x (y ∷ ys) h = elim (Bool-cases (before y x)) [
  | inl e ↦
      let k = subst (λ b. All P (if b then y ∷ insert_sorted before x ys else x ∷ y ∷ ys)) e h in
      let r = insert_sorted-held before P x ys k.1 in (r.0, (k.0, r.1))
  | inr e ↦ subst (λ b. All P (if b then y ∷ insert_sorted before x ys else x ∷ y ∷ ys)) e h
]

pub All-sort {ℓ κ} :
    {A : Type ℓ} (before : A → A → Bool) (P : A → Type κ) (xs : List A)
    → All P (sort before xs)
    → All P xs
unfolding sort
All-sort before P [] h = tt
All-sort before P (x ∷ xs) h =
    let r = insert_sorted-held before P x (sort before xs) h in (r.0, All-sort before P xs r.1)

-- Every element is in relation to all behind it.
abbrev pub Ordered {ℓ κ} : {A : Type ℓ} → (A → A → Type κ) → List A → Type κ
Ordered R [] = Unit
Ordered R (x ∷ xs) = All (R x) xs × Ordered R xs

module _ {ℓ κ} {A : Type ℓ} (before : A → A → Bool) (R : A → A → Type κ)
    (left : (x y : A) → before y x ≡ true → R y x) (right : (x y : A) → before y x ≡ false → R x y)
    (trans : (x y z : A) → R x y → R y z → R x z) where
  All-trans : (x y : A) (ys : List A) → R x y → All (R y) ys → All (R x) ys
  All-trans x y [] h k = tt
  All-trans x y (z ∷ zs) h k = (trans x y z h k.0, All-trans x y zs h k.1)

  insert_sorted-All :
      (w x : A) (ys : List A) → R w x → All (R w) ys → All (R w) (insert_sorted before x ys)
  unfolding insert_sorted
  insert_sorted-All w x [] h k = (h, tt)
  insert_sorted-All w x (y ∷ ys) h k = elim (Bool-cases (before y x)) [
    | inl e ↦ rw e (k.0, insert_sorted-All w x ys h k.1)
    | inr e ↦ rw e (h, k)
  ]

  insert_sorted-Ordered :
      (x : A) (ys : List A) → Ordered R ys → Ordered R (insert_sorted before x ys)
  unfolding insert_sorted
  insert_sorted-Ordered x [] h = (tt, tt)
  insert_sorted-Ordered x (y ∷ ys) h = elim (Bool-cases (before y x)) [
    | inl e ↦ rw e (insert_sorted-All y x ys (left x y e) h.0, insert_sorted-Ordered x ys h.1)
    | inr e ↦ rw e ((right x y e, All-trans x y ys (right x y e) h.0), h)
  ]

  pub sort-Ordered : (xs : List A) → Ordered R (sort before xs)
  unfolding sort
  sort-Ordered [] = tt
  sort-Ordered (x ∷ xs) = insert_sorted-Ordered x (sort before xs) (sort-Ordered xs)

-- What stands in front of a cut is in relation to all behind it.
pub Ordered-cut {ℓ κ} :
    {A : Type ℓ} (R : A → A → Type κ) (n : ℕ) (xs : List A)
    → Ordered R xs
    → All (λ x. All (R x) (drop n xs)) (take n xs)
Ordered-cut R zero xs h = tt
Ordered-cut R (suc n) [] h = tt
Ordered-cut R (suc n) (x ∷ xs) h = (All-drop (R x) n xs h.0, Ordered-cut R n xs h.1)
