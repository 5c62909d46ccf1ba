-- ===== src/Controller/Pool/Active.antt =====
-- Which pods a pool counts as its own.
use agentland.Base.{
  false, Option, none, some, List, [], ◌∷◌, ◌++◌, ◌≡◌, refl, All, All-append, subst, sym,
  Bool-cases, if-cases, inl, inr, str_eq, eq_iff, String,
}
use agentland.Cluster.{Pod, SandboxPool, OwnerReference, StringMap}
use agentland.Cluster.Calls.{Call, update_pod, Log, Action, continue, return}
use agentland.Controller.{Env, owned, pool_label}
use agentland.Controller.Loops.{continue-All, OnOk, continue-OnOk, call-OnOk, call-All}
use agentland.Controller.Listing.{IsListed}
use agentland.Controller.Pool.{claim_by, active_pods, pool_owner}

-- The pod's controller is the pool, or it has none and the pool cannot be set as one.
abbrev pub OwnedBy : Env → SandboxPool → Pod → Option OwnerReference → Type 0
OwnedBy env pool pod none = env.accepts_owner (pool_owner pool) pod.meta ≡ false
OwnedBy env pool pod (some owner) = owner.uid ≡ pool.meta.uid

pub record IsActive (env : Env) (pool : SandboxPool) (pod : Pod) : Type 0 where
  pub alive : pod.meta.deleting ≡ false
  pub mine : OwnedBy env pool pod pod.meta.controller

abbrev pub own_labels : Env → SandboxPool → StringMap
own_labels env pool = (pool_label, env.name_hash pool.meta.name) ∷ []

abbrev pub IsOfPool : Env → SandboxPool → Pod → Type 0
IsOfPool env pool = IsListed env.api pool.meta.namespace (own_labels env pool)

-- An update that takes over a pod that the server has listed for the pool: the pod had no controller and
-- was not being deleted, and nothing of it changes but its controller, which is the pool.
pub record IsTakeOver (env : Env) (pool : SandboxPool) (pod : Pod) : Type 0 where
  pub original : Pod
  pub listed : IsOfPool env pool original
  pub free : original.meta.controller ≡ none
  pub alive : original.meta.deleting ≡ false
  pub only :
      pod ≡ record original { meta = record original.meta { controller = some (pool_owner pool) } }

-- A call that takes over a pod; nothing else is called.
abbrev pub TakesOver : Env → SandboxPool → Call → Type 0
TakesOver env pool c = (pod : Pod) × (c ≡ update_pod pod) × IsTakeOver env pool pod

abbrev taken_over : SandboxPool → Pod → Pod
taken_over pool pod = record pod { meta = owned (pool_owner pool) pod.meta }

module _ (env : Env) (pull_policy : String) (pool : SandboxPool) where
  claim_by-IsActive :
      (pod : Pod) (c : Option OwnerReference) (log : Log)
      → pod.meta.controller ≡ c
      → pod.meta.deleting ≡ false
      → OnOk (All (IsActive env pool)) (claim_by env pull_policy pool pod c log).0
  unfolding claim_by
  claim_by-IsActive pod none log e alive =
      elim (Bool-cases (env.accepts_owner (pool_owner pool) pod.meta)) [
        | inl taken ↦ rw taken (
            call-OnOk (All (IsActive env pool)) env.api log (update_pod (taken_over pool pod))
              (return (taken_over pool pod ∷ []))
              (λ _. (record { alive = alive; mine = refl }, tt)))
        | inr refused ↦
            rw refused
              (record { alive = alive; mine = subst (OwnedBy env pool pod) (sym e) refused }, tt)
      ]
  claim_by-IsActive pod (some owner) log e alive =
      elim (Bool-cases (str_eq owner.uid pool.meta.uid)) [
        | inl same ↦
            rw same
              (record { alive = alive; mine = rw e ((eq_iff owner.uid pool.meta.uid).0 same) }, tt)
        | inr different ↦ rw different tt
      ]

  claim_by-TakesOver :
      (pod : Pod) (c : Option OwnerReference) (log : Log)
      → IsOfPool env pool pod
      → pod.meta.controller ≡ c
      → pod.meta.deleting ≡ false
      → All (TakesOver env pool) (claim_by env pull_policy pool pod c log).1
  unfolding claim_by
  claim_by-TakesOver pod none log l e alive =
      elim (Bool-cases (env.accepts_owner (pool_owner pool) pod.meta)) [
        | inl taken ↦ rw taken (
            call-All (TakesOver env pool) env.api log (update_pod (taken_over pool pod))
              (return (taken_over pool pod ∷ []))
              (
                taken_over pool pod,
                refl,
                record { original = pod; listed = l; free = e; alive = alive; only = refl },
              )
              (λ _. tt))
        | inr refused ↦ rw refused tt
      ]
  claim_by-TakesOver pod (some owner) log l e alive =
      elim (Bool-cases (str_eq owner.uid pool.meta.uid)) [
        | inl same ↦ rw same tt
        | inr different ↦ rw different tt
      ]

  -- A round of the loop for a pod that is not being deleted, and what follows it.
  abbrev claimed : Pod → Action (List Pod)
  claimed pod = claim_by env pull_policy pool pod pod.meta.controller

  abbrev rest_of : List Pod → List Pod → Action (List Pod)
  rest_of pods mine log =
      continue log (active_pods env pull_policy pool pods log) (λ more. return (mine ++ more))

  pub active_pods-IsActive :
      (pods : List Pod) (log : Log)
      → OnOk (All (IsActive env pool)) (active_pods env pull_policy pool pods log).0
  unfolding active_pods
  active_pods-IsActive [] log = tt
  active_pods-IsActive (pod ∷ pods) log =
      if-cases (λ r. OnOk (All (IsActive env pool)) r.0) pod.meta.deleting
        (active_pods env pull_policy pool pods log) (continue log (claimed pod log) (rest_of pods))
        (λ gone. active_pods-IsActive pods log)
        (λ alive.
          continue-OnOk (All (IsActive env pool)) (All (IsActive env pool)) log (claimed pod log)
            (rest_of pods) (claim_by-IsActive pod pod.meta.controller log refl alive)
            (λ mine hm.
              continue-OnOk (All (IsActive env pool)) (All (IsActive env pool))
                (log ++ (claimed pod log).1)
                (active_pods env pull_policy pool pods (log ++ (claimed pod log).1))
                (λ more. return (mine ++ more))
                (active_pods-IsActive pods (log ++ (claimed pod log).1))
                (λ more hr. All-append (IsActive env pool) mine more hm hr)))

  pub active_pods-TakesOver :
      (pods : List Pod) (log : Log)
      → All (IsOfPool env pool) pods
      → All (TakesOver env pool) (active_pods env pull_policy pool pods log).1
  unfolding active_pods
  active_pods-TakesOver [] log l = tt
  active_pods-TakesOver (pod ∷ pods) log l =
      if-cases (λ r. All (TakesOver env pool) r.1) pod.meta.deleting
        (active_pods env pull_policy pool pods log) (continue log (claimed pod log) (rest_of pods))
        (λ gone. active_pods-TakesOver pods log l.1)
        (λ alive.
          continue-All (TakesOver env pool) log (claimed pod log) (rest_of pods)
            (claim_by-TakesOver pod pod.meta.controller log l.0 refl alive)
            (λ mine _.
              continue-All (TakesOver env pool) (log ++ (claimed pod log).1)
                (active_pods env pull_policy pool pods (log ++ (claimed pod log).1))
                (λ more. return (mine ++ more))
                (active_pods-TakesOver pods (log ++ (claimed pod log).1) l.1) (λ more _. tt)))
