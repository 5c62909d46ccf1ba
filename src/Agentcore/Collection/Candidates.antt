-- ===== src/Agentcore/Collection/Candidates.antt =====
-- Which sessions are collected.
use agentland.Base.{
  ℕ, Bool, true, false, ◌||◌, List, [], ◌∷◌, ◌++◌, ◌≡◌, ◌≢◌, refl, arith, ap, sym, subst, ◌∙◌,
  Bool-cases, if-cases, inl, inr,
}
use agentland.Text.{Bytes, bytes_eq}
use agentland.Text.Search.{bytes_eq→≡, bytes_eq_refl}
use agentland.Agentcore.Collection.{contains, add_id, add_ids, candidates, Backend}

contains-append :
    (id : Bytes) (xs ys : List Bytes) → contains id (xs ++ ys) ≡ (contains id xs || contains id ys)
unfolding contains
contains-append id [] ys = refl
contains-append id (x ∷ xs) ys = ground (arith, contains-append id xs ys)

contains-last :
    (id j : Bytes) (xs : List Bytes)
    → contains id (xs ++ j ∷ []) ≡ (contains id xs || bytes_eq id j)
unfolding contains
contains-last id j xs = contains-append id xs (j ∷ []) ∙ ground arith

or_known : (a b : Bool) → (b ≡ true → a ≡ true) → a ≡ (a || b)
or_known true b h = refl
or_known false true h = h refl
or_known false false h = refl

add_id-contains :
    (c : ℕ) (s id : Bytes) (set : List Bytes)
    → contains (c ∷ s) (add_id id set) ≡ (contains (c ∷ s) set || bytes_eq (c ∷ s) id)
unfolding add_id
add_id-contains c s [] set = or_known (contains (c ∷ s) set) false (λ h. absurd (ground (arith, h)))
add_id-contains c s (d ∷ t) set =
    if-cases (λ xs. contains (c ∷ s) xs ≡ (contains (c ∷ s) set || bytes_eq (c ∷ s) (d ∷ t)))
      (contains (d ∷ t) set) set (set ++ (d ∷ t) ∷ [])
      (λ known.
        or_known (contains (c ∷ s) set) (bytes_eq (c ∷ s) (d ∷ t)) (λ same.
          subst (λ x. contains x set ≡ true) (sym (bytes_eq→≡ (c ∷ s) (d ∷ t) same)) known))
      (λ new. contains-last (c ∷ s) (d ∷ t) set)

add_ids-contains :
    (c : ℕ) (s : Bytes) (ids set : List Bytes)
    → contains (c ∷ s) (add_ids ids set) ≡ (contains (c ∷ s) set || contains (c ∷ s) ids)
unfolding add_ids contains add_id
add_ids-contains c s [] set =
    or_known (contains (c ∷ s) set) false (λ h. absurd (ground (arith, h)))
add_ids-contains c s (id ∷ ids) set =
    ground (arith, add_ids-contains c s ids (add_id id set), add_id-contains c s id set)

-- No id occurs twice, and none is empty.
abbrev pub IsDistinct : List Bytes → Type 0
IsDistinct [] = Unit
IsDistinct (x ∷ xs) = (contains x xs ≡ false) × (x ≢ []) × IsDistinct xs

other_way : (x y : Bytes) → bytes_eq x y ≡ false → bytes_eq y x ≡ false
other_way x y h = elim (Bool-cases (bytes_eq y x)) [
  | inl same ↦ absurd (
      ground (arith, h, bytes_eq_refl x, subst (λ z. bytes_eq x z ≡ false) (bytes_eq→≡ y x same) h))
  | inr e ↦ e
]

IsDistinct-last :
    (x : Bytes) (xs : List Bytes)
    → IsDistinct xs
    → contains x xs ≡ false
    → x ≢ []
    → IsDistinct (xs ++ x ∷ [])
unfolding contains
IsDistinct-last x [] d new n = (refl, n, tt)
IsDistinct-last x (y ∷ ys) (fresh, m, d) new n = (
  contains-last y x ys ∙ ground (arith, fresh, other_way x y (ground (arith, new))),
  m,
  IsDistinct-last x ys d (ground (arith, new)) n,
)

add_id-IsDistinct : (id : Bytes) (set : List Bytes) → IsDistinct set → IsDistinct (add_id id set)
unfolding add_id
add_id-IsDistinct [] set d = d
add_id-IsDistinct (c ∷ id) set d =
    if-cases IsDistinct (contains (c ∷ id) set) set (set ++ (c ∷ id) ∷ []) (λ _. d)
      (λ new. IsDistinct-last (c ∷ id) set d new (λ h. absurd (ground (arith, h))))

add_ids-IsDistinct : (ids set : List Bytes) → IsDistinct set → IsDistinct (add_ids ids set)
unfolding add_ids add_id
add_ids-IsDistinct [] set d = d
add_ids-IsDistinct (id ∷ ids) set d =
    add_ids-IsDistinct ids (add_id id set) (add_id-IsDistinct id set d)

-- The candidates of a collection are the ids of both listings but the empty one, each once.
pub candidates-IsDistinct :
    (b : Backend) (inactive expired : List Bytes)
    → IsDistinct (candidates b inactive expired)
      × ((c : ℕ) (s : Bytes)
          → contains (c ∷ s) (candidates b inactive expired)
            ≡ (contains (c ∷ s) inactive || contains (c ∷ s) expired))
unfolding candidates
candidates-IsDistinct b inactive expired = (
  add_ids-IsDistinct expired (add_ids inactive []) (add_ids-IsDistinct inactive [] tt),
  λ c s.
      add_ids-contains c s expired (add_ids inactive [])
      ∙ ap (λ x. x || contains (c ∷ s) expired) (add_ids-contains c s inactive [] ∙ refl),
)
