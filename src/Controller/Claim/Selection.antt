-- ===== src/Controller/Claim/Selection.antt =====
-- Which warm pod a claim takes.
use mathlib.Core.List.{Mem}
use agentland.Base.{
  ℕ, Bool, true, false, Option, none, some, List, [], ◌∷◌, ◌≡◌, refl, arith, All, All-weaken,
  if-cases, ◌≤◌, Bool-cases, inl, inr, eq_iff, subst, if◌then◌else◌,
}
use agentland.Cluster.{Pod, OwnerReference}
use agentland.Controller.{sort, is_pod_ready}
use agentland.Controller.Listing.{members}
use agentland.Controller.Sorting.{sort-All, sort-Ordered, Ordered, All-sort}
use agentland.Controller.Claim.{goes_first, warmer, candidates, is_candidate, from_pool, first}

-- A pod that a claim may take: it is not being deleted, and without a controller or in a pool.
abbrev pub FromPool : Option OwnerReference → Type 0
FromPool none = Unit
FromPool (some owner) = owner.kind ≡ "SandboxPool"

abbrev pub MayBeTaken : Pod → Type 0
MayBeTaken pod = (pod.meta.deleting ≡ false) × FromPool pod.meta.controller

-- The first pod is as warm as the second: ready if that is, and no younger if both are ready or both
-- are not.
abbrev pub AsWarm : Pod → Pod → Type 0
AsWarm best p =
    (is_pod_ready p ≡ true → is_pod_ready best ≡ true)
    × (is_pod_ready p ≡ is_pod_ready best → best.meta.created_at ≤ p.meta.created_at)

-- The pod is one of the pods, may be taken, and is as warm as every pod that may be taken.
pub record IsWarmest (pods : List Pod) (best : Pod) : Type 0 where
  pub member : Mem best pods
  pub may_be_taken : MayBeTaken best
  pub warmest : All (λ p. MayBeTaken p → AsWarm best p) pods

abbrev pub Chosen : List Pod → Option Pod → Type 0
Chosen pods none = All (λ p. ¬ MayBeTaken p) pods
Chosen pods (some best) = IsWarmest pods best

from_pool-FromPool : (c : Option OwnerReference) → from_pool c ≡ true → FromPool c
from_pool-FromPool none h = tt
from_pool-FromPool (some owner) h = (eq_iff owner.kind "SandboxPool").0 h

FromPool-from_pool : (c : Option OwnerReference) → FromPool c → from_pool c ≡ true
FromPool-from_pool none h = refl
FromPool-from_pool (some owner) h = (eq_iff owner.kind "SandboxPool").1 h

pub is_candidate-MayBeTaken : (pod : Pod) → is_candidate pod ≡ true → MayBeTaken pod
is_candidate-MayBeTaken pod h = elim (Bool-cases pod.meta.deleting) [
  | inl e ↦ let no : false ≡ true = rw e at h in absurd (ground (arith, no))
  | inr e ↦
      let h' : from_pool pod.meta.controller ≡ true = rw e at h in
      (e, from_pool-FromPool pod.meta.controller h')
]

MayBeTaken-is_candidate : (pod : Pod) → MayBeTaken pod → is_candidate pod ≡ true
MayBeTaken-is_candidate pod (alive, free) =
    let free' : from_pool pod.meta.controller ≡ true =
      FromPool-from_pool pod.meta.controller free in
    rw (alive, free') refl

goes_first-AsWarm :
    (r s : Bool) (a b : ℕ) → goes_first r a s b ≡ false → (r ≡ true → s ≡ true) × (r ≡ s → b ≤ a)
goes_first-AsWarm true true a b h = (λ _. refl, λ _. ground (arith, h))
goes_first-AsWarm true false a b h = absurd (ground (arith, h))
goes_first-AsWarm false true a b h = (λ _. refl, λ e. absurd (ground (arith, e)))
goes_first-AsWarm false false a b h = (λ e. e, λ _. ground (arith, h))

-- What holds of the candidates holds of every pod that may be taken.
All-candidates :
    (P : Pod → Type 0) (pods : List Pod)
    → All P (candidates pods)
    → All (λ p. MayBeTaken p → P p) pods
unfolding candidates
All-candidates P [] h = tt
All-candidates P (pod ∷ pods) h = elim (Bool-cases (is_candidate pod)) [
  | inl e ↦
      let h' : All P (pod ∷ candidates pods) =
        subst (λ b. All P (if b then pod ∷ candidates pods else candidates pods)) e h in
      (λ _. h'.0, All-candidates P pods h'.1)
  | inr e ↦
      let h' : All P (candidates pods) =
        subst (λ b. All P (if b then pod ∷ candidates pods else candidates pods)) e h in
      (λ may. absurd (ground (arith, e, MayBeTaken-is_candidate pod may)), All-candidates P pods h')
]

goes_first-asym : (r s : Bool) (a b : ℕ) → goes_first s b r a ≡ true → goes_first r a s b ≡ false
goes_first-asym true true a b h = ground (arith, h)
goes_first-asym true false a b h = ground (arith, h)
goes_first-asym false true a b h = ground (arith, h)
goes_first-asym false false a b h = ground (arith, h)

goes_first_trans :
    (r s t : Bool) (a b c : ℕ)
    → goes_first s b r a ≡ false
    → goes_first t c s b ≡ false
    → goes_first t c r a ≡ false
goes_first_trans true true true a b c h k = ground (arith, h, k)
goes_first_trans true true false a b c h k = ground (arith, h, k)
goes_first_trans true false true a b c h k = ground (arith, h, k)
goes_first_trans true false false a b c h k = ground (arith, h, k)
goes_first_trans false true true a b c h k = ground (arith, h, k)
goes_first_trans false true false a b c h k = ground (arith, h, k)
goes_first_trans false false true a b c h k = ground (arith, h, k)
goes_first_trans false false false a b c h k = ground (arith, h, k)

goes_first_irrefl : (r : Bool) (a : ℕ) → goes_first r a r a ≡ false
goes_first_irrefl true a = ground arith
goes_first_irrefl false a = ground arith

candidates-All :
    (P : Pod → Type 0) (pods : List Pod)
    → All P pods
    → All (λ p. P p × (is_candidate p ≡ true)) (candidates pods)
unfolding candidates
candidates-All P [] h = tt
candidates-All P (pod ∷ pods) h =
    if-cases (All (λ p. P p × (is_candidate p ≡ true))) (is_candidate pod) (pod ∷ candidates pods)
      (candidates pods) (λ e. ((h.0, e), candidates-All P pods h.1))
      (λ _. candidates-All P pods h.1)

abbrev NoWarmer : Pod → Pod → Type 0
NoWarmer p q = warmer q p ≡ false

first-Chosen :
    (pods ps : List Pod)
    → ((P : Pod → Type 0) → All P ps → All P (candidates pods))
    → All (λ p. Mem p pods × (is_candidate p ≡ true)) ps
    → Ordered NoWarmer ps
    → Chosen pods (first ps)
unfolding first
first-Chosen pods [] back h o = All-candidates (λ p. ⊥) pods (back (λ p. ⊥) tt)
first-Chosen pods (best ∷ rest) back h o = record {
  member = h.0.0;
  may_be_taken = is_candidate-MayBeTaken best h.0.1;
  warmest = All-candidates (AsWarm best) pods (
      All-weaken (NoWarmer best) (AsWarm best)
        (λ p.
          goes_first-AsWarm (is_pod_ready p) (is_pod_ready best) p.meta.created_at
            best.meta.created_at)
        (candidates pods)
        (back (NoWarmer best) (goes_first_irrefl (is_pod_ready best) best.meta.created_at, o.0)));
}

-- The pod that a claim takes from a list of pods is one of them that may be taken: it is not being
-- deleted and has no controller but a pool. No such pod is ready while it is not, and none that is ready
-- exactly if it is, is older. It takes no pod only if none may be taken.
pub select-Chosen : (pods : List Pod) → Chosen pods (first (sort warmer (candidates pods)))
select-Chosen pods =
    first-Chosen pods (sort warmer (candidates pods)) (λ P. All-sort warmer P (candidates pods))
      (sort-All warmer (λ p. Mem p pods × (is_candidate p ≡ true)) (candidates pods)
        (candidates-All (λ p. Mem p pods) pods (members pods)))
      (sort-Ordered warmer NoWarmer
        (λ p q h.
          goes_first-asym (is_pod_ready p) (is_pod_ready q) p.meta.created_at q.meta.created_at h)
        (λ p q h. h)
        (λ p q r h k.
          goes_first_trans (is_pod_ready p) (is_pod_ready q) (is_pod_ready r) p.meta.created_at
            q.meta.created_at r.meta.created_at h k)
        (candidates pods))
