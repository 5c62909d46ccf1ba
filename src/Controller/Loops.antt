-- ===== src/Controller/Loops.antt =====
-- The calls that a loop of a controller makes, whether it ends or stops at an error.
use mathlib.Core.Path.{ap₂}
use agentland.Base.{
  Option-cases, ℕ, zero, suc, Bool, true, false, List, [], ◌∷◌, ◌++◌, ◌≡◌, refl, subst, ◌∙◌, arith,
  replicate, map, All, All-append, inl, inr, if◌then◌else◌,
}
use agentland.Cluster.Calls.{
  Call, Log, conflict, already_exists, Requeue, Result, ok, err, Action, continue, Api, call, ask,
  try, return, ◌>>◌,
}
use agentland.Controller.{for_each, repeat, unless_conflict, unless_exists}

-- A statement about the value of an action that succeeds.
abbrev pub OnOk {ℓ κ} : {A : Type ℓ} → (A → Type κ) → Result A → Type κ
OnOk P (ok a) = P a
OnOk P (err e) = Unit

pub OnOk-any {ℓ} : {A : Type ℓ} (r : Result A) → OnOk (λ (a : A). Unit {0}) r
OnOk-any (ok a) = tt
OnOk-any (err e) = tt

pub OnOk-elim {ℓ κ} :
    {A : Type ℓ} (P : A → Type κ) (r : Result A) (a : A) → OnOk P r → r ≡ ok a → P a
OnOk-elim P (ok b) a h e = subst P (ground (arith, e)) h
OnOk-elim P (err x) a h e = absurd (ground (arith, e))

pub continue-OnOk {ℓ κ ι} :
    {A B : Type ℓ} (Q : A → Type κ) (P : B → Type ι) (log : Log) (p : Result A × Log)
    (f : A → Action B)
    → OnOk Q p.0
    → ((a : A) → Q a → OnOk P (f a (log ++ p.1)).0)
    → OnOk P (continue log p f).0
continue-OnOk Q P log (ok a, made) f h k = k a h
continue-OnOk Q P log (err e, made) f h k = tt

-- One call, and what follows it.
pub call-OnOk {κ} :
    {B : Type 0} (P : B → Type κ) (api : Api) (log : Log) (c : Call) (m : Action B)
    → ((log' : Log) → OnOk P (m log').0)
    → OnOk P ((call api c >> m) log).0
call-OnOk P api log c m h = elim (Option-cases (api.answer log c)) [
  | inl e ↦ rw e (h (log ++ c ∷ []))
  | inr (x, e) ↦ rw e tt
]

pub call-All {κ} :
    {B : Type 0} (P : Call → Type κ) (api : Api) (log : Log) (c : Call) (m : Action B)
    → P c
    → ((log' : Log) → All P (m log').1)
    → All P ((call api c >> m) log).1
call-All P api log c m h k = elim (Option-cases (api.answer log c)) [
  | inl e ↦ rw e (h, k (log ++ c ∷ []))
  | inr (x, e) ↦ rw e (h, tt)
]

-- A sequence that succeeds: both parts did, and the calls follow one another.
pub record Both {ℓ} {A B : Type ℓ} (p : Result A × Log) (f : A → Action B) (log : Log) (b : B)
    : Type ℓ where
  pub first : A
  pub first_ok : p.0 ≡ ok first
  pub second_ok : (f first (log ++ p.1)).0 ≡ ok b
  pub calls : (continue log p f).1 ≡ p.1 ++ (f first (log ++ p.1)).1

module _ {ℓ} {A B : Type ℓ} where
  pub continue-ok :
      (log : Log) (p : Result A × Log) (f : A → Action B) (b : B)
      → (continue log p f).0 ≡ ok b
      → Both p f log b
  continue-ok log (ok a, made) f b h = record {
    first = a;
    first_ok = refl;
    second_ok = h;
    calls = refl;
  }
  continue-ok log (err e, made) f b h = absurd (ground (arith, h))

  -- What holds of the calls of both parts holds of those of the sequence, however it ends.
  pub continue-All {κ} :
      (P : Call → Type κ) (log : Log) (p : Result A × Log) (f : A → Action B)
      → All P p.1
      → ((a : A) → p.0 ≡ ok a → All P (f a (log ++ p.1)).1)
      → All P (continue log p f).1
  continue-All P log (ok a, made) f h k = All-append P made (f a (log ++ made)).1 h (k a refl)
  continue-All P log (err e, made) f h k = h

module _ (m : Action (Unit {0})) (c : Call)
    (once : (log : Log) (u : Unit {0}) → (m log).0 ≡ ok u → (m log).1 ≡ c ∷ []) where
  -- A loop that ends has made its call once in every round.
  pub calls-repeat :
      (n : ℕ) (log : Log) (u : Unit {0})
      → (repeat n m log).0 ≡ ok u
      → (repeat n m log).1 ≡ replicate n c
  unfolding repeat
  calls-repeat zero log u h = refl
  calls-repeat (suc n) log u h =
      let b = continue-ok log (m log) (λ _. repeat n m) u h in
      b.calls
      ∙ ap₂ (λ s t. s ++ t) (once log b.first b.first_ok)
          (calls-repeat n (log ++ (m log).1) u b.second_ok)

module _ {ℓ} {A : Type ℓ} (f : A → Action (Unit {0})) (c : A → Call)
    (once : (x : A) (log : Log) (u : Unit {0}) → (f x log).0 ≡ ok u → (f x log).1 ≡ c x ∷ []) where
  pub calls-for_each :
      (xs : List A) (log : Log) (u : Unit {0})
      → (for_each f xs log).0 ≡ ok u
      → (for_each f xs log).1 ≡ map c xs
  unfolding for_each
  calls-for_each [] log u h = refl
  calls-for_each (x ∷ xs) log u h =
      let b = continue-ok log (f x log) (λ _. for_each f xs) u h in
      b.calls
      ∙ ap₂ (λ s t. s ++ t) (once x log b.first b.first_ok)
          (calls-for_each xs (log ++ (f x log).1) u b.second_ok)

-- An action that never fails.
abbrev pub Succeeds {ℓ} : {A : Type ℓ} → Action A → Type ℓ
Succeeds m = (log : Log) → (a : _) × ((m log).0 ≡ ok a)

pub continue-Succeeds {ℓ} :
    {A B : Type ℓ} (log : Log) (p : Result A × Log) (f : A → Action B)
    → ((a : A) × (p.0 ≡ ok a))
    → ((a : A) → Succeeds (f a))
    → (b : B) × ((continue log p f).0 ≡ ok b)
continue-Succeeds log (ok a, made) f h k = k a (log ++ made)
continue-Succeeds log (err e, made) f (a, h) k = absurd (ground (arith, h))

pub repeat-Succeeds : (n : ℕ) (m : Action (Unit {0})) → Succeeds m → Succeeds (repeat n m)
unfolding repeat
repeat-Succeeds zero m h log = (tt, refl)
repeat-Succeeds (suc n) m h log =
    continue-Succeeds log (m log) (λ _. repeat n m) (h log) (λ _. repeat-Succeeds n m h)

pub for_each-Succeeds {ℓ} :
    {A : Type ℓ} (f : A → Action (Unit {0})) (xs : List A)
    → ((x : A) → Succeeds (f x))
    → Succeeds (for_each f xs)
unfolding for_each
for_each-Succeeds f [] h log = (tt, refl)
for_each-Succeeds f (x ∷ xs) h log =
    continue-Succeeds log (f x log) (λ _. for_each f xs) (h x log) (λ _. for_each-Succeeds f xs h)

pub repeat-All {κ} :
    (P : Call → Type κ) (n : ℕ) (m : Action (Unit {0})) (log : Log)
    → ((log' : Log) → All P (m log').1)
    → All P (repeat n m log).1
unfolding repeat
repeat-All P zero m log h = tt
repeat-All P (suc n) m log h =
    continue-All P log (m log) (λ _. repeat n m) (h log)
      (λ _ _. repeat-All P n m (log ++ (m log).1) h)

pub for_each-All {ℓ κ ι} :
    {A : Type ℓ} (Q : A → Type ι) (P : Call → Type κ) (f : A → Action (Unit {0})) (xs : List A)
    (log : Log)
    → ((x : A) (log' : Log) → Q x → All P (f x log').1)
    → All Q xs
    → All P (for_each f xs log).1
unfolding for_each
for_each-All Q P f [] log h k = tt
for_each-All Q P f (x ∷ xs) log h k =
    continue-All P log (f x log) (λ _. for_each f xs) (h x log k.0)
      (λ _ _. for_each-All Q P f xs (log ++ (f x log).1) h k.1)

-- What only looks at a result makes no call.
pub unless_conflict-All {κ} :
    (P : Call → Type κ) (next : Requeue) (r : Result (Unit {0})) (log : Log)
    → All P (unless_conflict next r log).1
unless_conflict-All P next (ok u) log = tt
unless_conflict-All P next (err conflict) log = tt
unless_conflict-All P next (err e) log = tt

pub unless_exists-All {κ} :
    (P : Call → Type κ) (r : Result (Unit {0})) (log : Log) → All P (unless_exists r log).1
unless_exists-All P (ok u) log = tt
unless_exists-All P (err already_exists) log = tt
unless_exists-All P (err e) log = tt

-- A single call, caught or not.
pub asked-All {κ} :
    {A : Type 0} (P : Call → Type κ) (api : Api) (c : Call) (read : Log → A) (log : Log)
    → P c
    → All P (ask api c read log).1
asked-All P api c read log h = (h, tt)

pub update-All {κ} :
    (P : Call → Type κ) (api : Api) (same : Bool) (c : Call) (log : Log)
    → P c
    → All P (try (if same then return tt else call api c) log).1
update-All P api true c log h = tt
update-All P api false c log h = (h, tt)

-- The first call is this one, and every further call is of this sort.
abbrev pub ThenOnly : Call → (Call → Type 0) → Log → Type 0
ThenOnly c P [] = ⊥
ThenOnly c P (d ∷ rest) = (d ≡ c) × All P rest
