-- ===== src/Controller/Pool/Safety.antt =====
-- Which calls a pool's reconcile can make, whatever the server answers.
use agentland.Base.{
  Option, none, some, List, [], ◌∷◌, ◌++◌, ◌≡◌, refl, sym, subst, All, All-take, All-weaken,
  Bool-cases, Option-cases, if-cases, inl, inr, ltb, ◌-◌, String, if◌then◌else◌, length,
}
use agentland.Cluster.{Pod, SandboxPool, SandboxTemplate, ObjectKey, lookup}
use agentland.Cluster.Calls.{
  Call, create_pod, update_pod, delete_pod, update_pool_status, get_pool, list_pods, Log, Action,
  Result, return, not_found, Requeue, no_requeue, after_ms, ◌>>◌, list,
}
use agentland.Controller.{Env, repeat, for_each, sort, default_requeue_ms, pool_label}
use agentland.Controller.Loops.{
  ThenOnly, OnOk, continue-OnOk, OnOk-elim, OnOk-any, continue-All, repeat-All, for_each-All,
}
use agentland.Controller.Listing.{list-IsListed}
use agentland.Controller.Sorting.{sort-All}
use agentland.Controller.Pool.{
  create_pool_pod, delete_pool_pod, update_status, scale, newer, counted, same_status, pool_owner,
  pool_pod, list_pool_pods, active_pods, reconcile, templated,
}
use agentland.Controller.Pool.Active.{
  IsActive, IsTakeOver, TakesOver, IsOfPool, own_labels, active_pods-IsActive,
  active_pods-TakesOver,
}
use agentland.Controller.Pool.Scaling.{surplus}

-- A pod may be made for the pool, in its namespace, with its label and owned by it.
pub record IsPoolPod (env : Env) (pool : SandboxPool) (pod : Pod) : Type 0 where
  pub owner : pod.meta.controller ≡ some (pool_owner pool)
  pub namespace : pod.meta.namespace ≡ pool.meta.namespace
  pub labelled : lookup pool_label pod.meta.labels ≡ some (env.name_hash pool.meta.name)

-- What a reconcile may ask of the server for a pool that it has read: to list its pods, to take over a
-- pod without a controller, to make a pod that the pool owns, to delete a pod that is the pool's and not
-- being deleted already, and to write the pool's status.
abbrev pub IsPermitted : Env → String → SandboxPool → Call → Type 0
IsPermitted env pull_policy pool (list_pods namespace labels) =
    (namespace ≡ pool.meta.namespace) × (labels ≡ (pool_label, env.name_hash pool.meta.name) ∷ [])
IsPermitted env pull_policy pool (update_pod pod) = IsTakeOver env pool pod
IsPermitted env pull_policy pool (create_pod pod) = IsPoolPod env pool pod
IsPermitted env pull_policy pool (delete_pod pod) = IsActive env pool pod
IsPermitted env pull_policy pool (update_pool_status pool') =
    (pool'.spec ≡ pool.spec) × (pool'.meta ≡ pool.meta)
IsPermitted env pull_policy pool _ = ⊥

module _ (env : Env) (pull_policy : String) (pool : SandboxPool) where
  abbrev Permitted : Log → Type 0
  Permitted = All (IsPermitted env pull_policy pool)

  create_pool_pod-Permitted :
      (t : SandboxTemplate) (log : Log) → Permitted (create_pool_pod env pull_policy pool t log).1
  unfolding create_pool_pod lookup
  create_pool_pod-Permitted t log =
      elim (Bool-cases
        (env.accepts_owner (pool_owner pool) (pool_pod env pull_policy pool t).meta)) [
          | inl e ↦ rw e (record { owner = refl; namespace = refl; labelled = refl }, tt)
          | inr e ↦ rw e tt
        ]

  delete_pool_pod-Permitted :
      (pod : Pod) (log : Log)
      → IsActive env pool pod
      → Permitted (delete_pool_pod env pull_policy pod log).1
  unfolding delete_pool_pod
  delete_pool_pod-Permitted pod log h = elim (Option-cases (env.api.answer log (delete_pod pod))) [
    | inl e ↦ rw e (h, tt)
    | inr (not_found, e) ↦ rw e (h, tt)
    | inr (x, e) ↦ rw e (h, tt)
  ]

  update_status-Permitted :
      (active : List Pod) (log : Log)
      → Permitted (update_status env pull_policy pool.status (counted pool active) log).1
  unfolding update_status
  update_status-Permitted active log =
      elim (Bool-cases (same_status pool.status (counted pool active).status)) [
        | inl e ↦ rw e tt
        | inr e ↦ rw e ((refl, refl), tt)
      ]

  abbrev finish : List Pod → Requeue → Action Requeue
  finish active next = do
    update_status env pull_policy pool.status (counted pool active)
    return next

  finish-Permitted :
      (active : List Pod) (next : Requeue) (log : Log) → Permitted (finish active next log).1
  finish-Permitted active next log =
      continue-All (IsPermitted env pull_policy pool) log
        (update_status env pull_policy pool.status (counted pool active) log) (λ _. return next)
        (update_status-Permitted active log) (λ _ _. tt)

  scale-Permitted :
      (t : SandboxTemplate) (active : List Pod) (log : Log)
      → All (IsActive env pool) active
      → Permitted (scale env pull_policy pool t active log).1
  unfolding scale
  scale-Permitted t active log mine =
      if-cases (λ (m : Action Requeue). Permitted (m log).1)
        (ltb (length active) pool.spec.replicas) _ _
        (λ _.
          continue-All (IsPermitted env pull_policy pool) log
            (repeat (pool.spec.replicas - length active) (create_pool_pod env pull_policy pool t)
              log)
            (λ _. finish active (after_ms default_requeue_ms))
            (repeat-All (IsPermitted env pull_policy pool) (pool.spec.replicas - length active)
              (create_pool_pod env pull_policy pool t) log (create_pool_pod-Permitted t))
            (λ _ _. finish-Permitted active (after_ms default_requeue_ms) _))
        (λ _.
          if-cases (λ (m : Action Requeue). Permitted (m log).1)
            (ltb pool.spec.replicas (length active)) _ _
            (λ _.
              continue-All (IsPermitted env pull_policy pool) log
                (for_each (delete_pool_pod env pull_policy) (surplus pool active) log)
                (λ _. finish active (after_ms default_requeue_ms))
                (for_each-All (IsActive env pool) (IsPermitted env pull_policy pool)
                  (delete_pool_pod env pull_policy) (surplus pool active) log
                  delete_pool_pod-Permitted
                  (All-take (IsActive env pool) (length active - pool.spec.replicas)
                    (sort newer active) (sort-All newer (IsActive env pool) active mine)))
                (λ _ _. finish-Permitted active (after_ms default_requeue_ms) _))
            (λ _. finish-Permitted active _ log))

  take_over-Permitted : (c : Call) → TakesOver env pool c → IsPermitted env pull_policy pool c
  take_over-Permitted c (pod, e, h) = subst (IsPermitted env pull_policy pool) (sym e) h

  abbrev asked : Log → Result (List Pod) × Log
  asked log = list env.api pool.meta.namespace (own_labels env pool) log

  listed-Permitted : (log : Log) → Permitted (list_pool_pods env pull_policy pool log).1
  unfolding list_pool_pods
  listed-Permitted log =
      continue-All (IsPermitted env pull_policy pool) log (asked log)
        (active_pods env pull_policy pool) ((refl, refl), tt)
        (λ pods e.
          All-weaken (TakesOver env pool) (IsPermitted env pull_policy pool) take_over-Permitted
            (active_pods env pull_policy pool pods (log ++ (asked log).1)).1
            (active_pods-TakesOver env pull_policy pool pods (log ++ (asked log).1) (
              OnOk-elim (All (IsOfPool env pool)) (asked log).0 pods
                (list-IsListed env.api pool.meta.namespace (own_labels env pool) log) e)))

  listed-IsActive :
      (log : Log) → OnOk (All (IsActive env pool)) (list_pool_pods env pull_policy pool log).0
  unfolding list_pool_pods
  listed-IsActive log =
      continue-OnOk (λ _. Unit {0}) (All (IsActive env pool)) log (asked log)
        (active_pods env pull_policy pool) (OnOk-any (asked log).0)
        (λ pods _. active_pods-IsActive env pull_policy pool pods (log ++ (asked log).1))

  templated-Permitted :
      (t : Option SandboxTemplate) (log : Log) → Permitted (templated env pull_policy pool t log).1
  unfolding list_pool_pods
  templated-Permitted none log = tt
  templated-Permitted (some t) log =
      continue-All (IsPermitted env pull_policy pool) log (list_pool_pods env pull_policy pool log)
        (scale env pull_policy pool t) (listed-Permitted log)
        (λ active e. scale-Permitted t active (log ++ (list_pool_pods env pull_policy pool log).1) (
          OnOk-elim (All (IsActive env pool)) (list_pool_pods env pull_policy pool log).0 active
            (listed-IsActive log) e))

  found-Permitted :
      (log : Log)
      → Permitted
          ((if pool.meta.deleting
              then return no_requeue
              else templated env pull_policy pool pool.spec.template)
            log).1
  found-Permitted log =
      if-cases (λ (m : Action Requeue). Permitted (m log).1) pool.meta.deleting _ _ (λ _. tt)
        (λ _. templated-Permitted pool.spec.template log)

-- Whatever the server answers, a reconcile asks for the pool and then only for what is permitted
-- for the pool that it read: it lists its own pods; takes over pods so listed that have no controller and are not
-- being deleted, of which it changes nothing else; makes pods in its namespace that have its label and
-- that it owns; deletes pods that are not being deleted already, of which it is the controller, or which
-- have none and of which it cannot be; and updates its own status, keeping spec and metadata.
pub pool_reconcile-Permitted :
    (env : Env) (pull_policy : String) (key : ObjectKey) (log : Log)
    → ThenOnly
        (get_pool key)
        (IsPermitted env pull_policy (env.api.pool_at log key))
        (reconcile env pull_policy key log).1
unfolding reconcile
pool_reconcile-Permitted env pull_policy key log =
    elim (Option-cases (env.api.answer log (get_pool key))) [
      | inl e ↦ rw e (
        refl,
        found-Permitted env pull_policy (env.api.pool_at log key) (log ++ get_pool key ∷ []),
      )
      | inr (not_found, e) ↦ rw e (refl, tt)
      | inr (x, e) ↦ rw e (refl, tt)
    ]
