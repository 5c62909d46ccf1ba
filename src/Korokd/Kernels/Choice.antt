-- ===== src/Korokd/Kernels/Choice.antt =====
-- Which kernel is chosen, and when there is none.
use mathlib.Core.List.{Mem, mem-cons_self, mem-cons_of_mem}
use agentland.Text.Search.{bytes_eq→≡, bytes_eq_refl}
use agentland.Base.{
  All, Bool, true, false, not, ◌&&◌, ◌||◌, Option, none, some, List, [], ◌∷◌, ◌≡◌, arith, sym,
  subst, ◌∙◌, Bool-cases, Option-cases, inl, inr,
}
use agentland.Text.{Bytes, bytes, bytes_eq}
use agentland.Korokd.Kernels.{
  Specs, kernelspec, is_for, avoided, is_empty, preferred, scan, pick_kernel, python, bash, python3,
  search_kernel,
}

-- A kernel of this name is among the specs and is for the language.
pub IsOffered : Bytes → Specs → Bytes → Type 0
IsOffered language specs n =
    (info : Option Bytes) × Mem (n, info) specs × (is_for language info ≡ true)

IsOffered-cons :
    (language : Bytes) (s : Bytes × Option Bytes) (specs : Specs) (n : Bytes)
    → IsOffered language specs n
    → IsOffered language (s ∷ specs) n
unfolding IsOffered
IsOffered-cons language s specs n (info, m, e) = (info, mem-cons_of_mem s m, e)

IsOffered-head :
    (language n : Bytes) (info : Option Bytes) (specs : Specs)
    → is_for language info ≡ true
    → IsOffered language ((n, info) ∷ specs) n
unfolding IsOffered
IsOffered-head language n info specs e = (info, mem-cons_self, e)

kernelspec-IsOffered :
    (language name : Bytes) (specs : Specs)
    → is_for language (kernelspec name specs) ≡ true
    → IsOffered language specs name
unfolding IsOffered kernelspec is_for
kernelspec-IsOffered language name [] h = absurd (ground (arith, h))
kernelspec-IsOffered language name ((n, info) ∷ specs) h = elim (Bool-cases (bytes_eq n name)) [
  | inl e ↦
      subst (λ (x : Bytes). IsOffered language ((n, info) ∷ specs) x) (bytes_eq→≡ n name e)
        (info, mem-cons_self, rw e at h)
  | inr e ↦
      IsOffered-cons language (n, info) specs name
        (kernelspec-IsOffered language name specs (rw e at h))
]

preferred-IsOffered :
    (language : Bytes) (ns : List Bytes) (specs : Specs) (n : Bytes)
    → preferred language ns specs ≡ some n
    → IsOffered language specs n
unfolding preferred
preferred-IsOffered language [] specs n h = absurd (ground (arith, h))
preferred-IsOffered language (p ∷ ns) specs n h =
    elim (Bool-cases (is_for language (kernelspec p specs))) [
      | inl e ↦
          let same : Option.some p ≡ some n = rw e at h in
          subst (λ (x : Bytes). IsOffered language specs x) (ground (arith, same))
            (kernelspec-IsOffered language p specs e)
      | inr e ↦ preferred-IsOffered language ns specs n (rw e at h)
    ]

scan-IsOffered :
    (language : Bytes) (avoid : List Bytes) (fallback : Bytes) (has : Bool) (P : Bytes → Type 0)
    → (has ≡ true → P fallback)
    → (specs : Specs) → ((n : Bytes) → IsOffered language specs n → P n)
    → (n : Bytes) → scan language avoid fallback has specs ≡ some n
    → P n
unfolding scan
scan-IsOffered language avoid fallback has P f [] g n h =
    elim (Bool-cases (not (is_empty fallback) && has)) [
      | inl e ↦
          let same : Option.some fallback ≡ some n = rw e at h in
          subst P (ground (arith, same)) (f (ground (arith, e)))
      | inr e ↦ absurd (ground (arith, e, h))
    ]
scan-IsOffered language avoid fallback has P f ((m, info) ∷ specs) g n h =
    let rest : (x : Bytes) → IsOffered language specs x → P x =
      (λ x o. g x (IsOffered-cons language (m, info) specs x o)) in
    elim (Bool-cases (is_for language info)) [
      | inr e ↦ scan-IsOffered language avoid fallback has P f specs rest n (rw e at h)
      | inl e ↦
          let here : P m = g m (IsOffered-head language m info specs e) in
          elim (Bool-cases (not (is_empty fallback) && bytes_eq m fallback)) [
            | inl s ↦
                scan-IsOffered language avoid fallback true P
                  (λ _. subst P (bytes_eq→≡ m fallback (ground (arith, s))) here) specs rest n
                  (rw (e, s) at h)
            | inr s ↦ elim (Bool-cases (avoided m avoid)) [
              | inl a ↦
                  scan-IsOffered language avoid fallback has P f specs rest n (rw (e, s, a) at h)
              | inr a ↦
                  let same : Option.some m ≡ some n = rw (e, s, a) at h in
                  subst P (ground (arith, same)) here
            ]
          ]
    ]

pick_kernel-IsOffered :
    (language : Bytes) (prefer avoid : List Bytes) (fallback : Bytes) (specs : Specs) (n : Bytes)
    → pick_kernel language prefer avoid fallback specs ≡ some n
    → IsOffered language specs n
unfolding pick_kernel
pick_kernel-IsOffered language prefer avoid fallback specs n h =
    elim (Option-cases (preferred language prefer specs)) [
      | inl e ↦
          scan-IsOffered language avoid fallback false (IsOffered language specs)
            (λ x. absurd (ground (arith, x))) specs (λ x o. o) n (rw e at h)
      | inr (m, e) ↦
          let same : Option.some m ≡ some n = rw e at h in
          preferred-IsOffered language prefer specs n (e ∙ same)
    ]

-- Of the map nothing is for the language, and no fallback was seen before.
scan-none :
    (language : Bytes) (avoid : List Bytes) (fallback : Bytes) (has : Bool)
    → ((n : Bytes)
        → avoided n avoid ≡ true
        → (not (is_empty fallback) && bytes_eq n fallback) ≡ true)
    → (specs : Specs) → scan language avoid fallback has specs ≡ none
    → All (λ s. is_for language s.1 ≡ false) specs × ((not (is_empty fallback) && has) ≡ false)
unfolding scan
scan-none language avoid fallback has f [] h = (tt, ground (arith, h))
scan-none language avoid fallback has f ((m, info) ∷ specs) h =
    elim (Bool-cases (is_for language info)) [
      | inr e ↦
          let (a, b) = scan-none language avoid fallback has f specs (rw e at h) in ((e, a), b)
      | inl e ↦ elim (Bool-cases (not (is_empty fallback) && bytes_eq m fallback)) [
        | inl s ↦
            let (a, b) = scan-none language avoid fallback true f specs (rw (e, s) at h) in
            absurd (ground (arith, s, b))
        | inr s ↦ elim (Bool-cases (avoided m avoid)) [
          | inl a ↦ absurd (ground (arith, s, f m a))
          | inr a ↦ let no : Option.some m ≡ none = rw (e, s, a) at h in absurd (ground (arith, no))
        ]
      ]
    ]

pick_kernel-none :
    (language : Bytes) (prefer avoid : List Bytes) (fallback : Bytes)
    → ((n : Bytes)
        → avoided n avoid ≡ true
        → (not (is_empty fallback) && bytes_eq n fallback) ≡ true)
    → (specs : Specs) → pick_kernel language prefer avoid fallback specs ≡ none
    → All (λ s. is_for language s.1 ≡ false) specs
unfolding pick_kernel
pick_kernel-none language prefer avoid fallback f specs h =
    elim (Option-cases (preferred language prefer specs)) [
      | inl e ↦ (scan-none language avoid fallback false f specs (rw e at h)).0
      | inr (m, e) ↦ let no : Option.some m ≡ none = rw e at h in absurd (ground (arith, no))
    ]

-- The kernel that is found is registered for the language, in whatever order the map is visited.
pub search_kernel-IsOffered :
    (language : Bytes) (specs : Specs) (n : Bytes)
    → search_kernel language (some specs) ≡ some n
    → IsOffered language specs n
unfolding search_kernel
search_kernel-IsOffered language [] n h = absurd (ground (arith, h))
search_kernel-IsOffered language (s ∷ specs) n h = elim (Bool-cases (bytes_eq language python)) [
  | inl e ↦
      subst (λ (x : Bytes). IsOffered x (s ∷ specs) n) (sym (bytes_eq→≡ language python e))
        (pick_kernel-IsOffered python (python ∷ []) (python3 ∷ []) python3 (s ∷ specs) n
          (rw e at h))
  | inr e ↦ elim (Bool-cases (bytes_eq language bash)) [
    | inl b ↦
        subst (λ (x : Bytes). IsOffered x (s ∷ specs) n) (sym (bytes_eq→≡ language bash b))
          (pick_kernel-IsOffered bash (bash ∷ bytes "bash_kernel" ∷ []) [] [] (s ∷ specs) n
            (rw (e, b) at h))
    | inr b ↦ let no : Option.none ≡ some n = rw (e, b) at h in absurd (ground (arith, no))
  ]
]

-- Python3, which is passed over in the scan, is also what the scan falls back to.
python3-fallback :
    (n : Bytes)
    → avoided n (python3 ∷ []) ≡ true
    → (not (is_empty python3) && bytes_eq n python3) ≡ true
unfolding avoided
python3-fallback n h =
    subst (λ (x : Bytes). bytes_eq x python3 ≡ true) (bytes_eq→≡ python3 n (ground (arith, h)))
      (bytes_eq_refl python3)

-- For the two languages that are supported, the search fails only if no kernel is for the language.
pub search_kernel-none :
    (language : Bytes) (specs : Specs)
    → (bytes_eq language python || bytes_eq language bash) ≡ true
    → search_kernel language (some specs) ≡ none
    → All (λ s. is_for language s.1 ≡ false) specs
unfolding search_kernel avoided
search_kernel-none language [] l h = tt
search_kernel-none language (s ∷ specs) l h = elim (Bool-cases (bytes_eq language python)) [
  | inl e ↦
      subst (λ (x : Bytes). All (λ s. is_for x s.1 ≡ false) (s ∷ specs))
        (sym (bytes_eq→≡ language python e))
        (pick_kernel-none python (python ∷ []) (python3 ∷ []) python3 python3-fallback (s ∷ specs)
          (rw e at h))
  | inr e ↦
      let b : bytes_eq language bash ≡ true = ground (arith, e, l) in
      subst (λ (x : Bytes). All (λ s. is_for x s.1 ≡ false) (s ∷ specs))
        (sym (bytes_eq→≡ language bash b))
        (pick_kernel-none bash (bash ∷ bytes "bash_kernel" ∷ []) [] []
          (λ n x. absurd (ground (arith, x))) (s ∷ specs) (rw (e, b) at h))
]
