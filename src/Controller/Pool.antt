-- ===== src/Controller/Pool.antt =====
-- The pool of warm pods (internal/controller/sandboxpool_controller.go). The number of pods is
-- below 2 ^ 31, so that `int32(len(activePods))` is exact; the CRD keeps `replicas` from being
-- negative.
pub mod Active
pub mod Safety
pub mod Scaling
use Prim.Native.String
use agentland.Base.{
  ℕ, suc, ◌+◌, ◌-◌, ltb, Bool, true, false, not, ◌&&◌, Option, none, some, List, [], ◌∷◌, ◌++◌,
  String, str_eq, ◌==◌, if◌then◌else◌, length, take,
}
use agentland.Cluster.{
  ObjectKey, ObjectMeta, OwnerReference, Pod, SandboxPool, SandboxTemplate, SandboxPoolStatus,
  StringMap, new_meta, no_status,
}
use agentland.Cluster.Calls.{
  Call, get_pool, create_pod, update_pod, delete_pod, update_pool_status, not_found,
  template_required, Error, Result, ok, err, Action, Requeue, no_requeue, after_ms, return, fail,
  try, continue, call, ask, list, ◌>>=◌, ◌>>◌,
}
use agentland.Controller.{
  Env, pool_label, profile_hash_label, default_requeue_ms, is_pod_ready, reference, owned,
  set_controller, unless_gone, for_each, repeat, sort, pod_spec,
}

abbrev pub pool_owner : SandboxPool → OwnerReference
pool_owner pool = reference "SandboxPool" pool.meta

abbrev pub newer : Pod → Pod → Bool
newer p q = ltb q.meta.created_at p.meta.created_at

unfoldable pub count_ready : List Pod → ℕ
unfolding is_pod_ready
count_ready [] = 0
count_ready (p ∷ ps) = if is_pod_ready p then suc (count_ready ps) else count_ready ps

abbrev pub same_status : SandboxPoolStatus → SandboxPoolStatus → Bool
same_status a b = a.replicas == b.replicas && a.ready_replicas == b.ready_replicas

-- `r.Delete`, where a pod that is already gone is no error.
abbrev pub settled : Result (Unit {0}) → Action (Unit {0})
settled (ok u) log = (ok u, [])
settled (err not_found) log = (ok tt, [])
settled (err e) log = (err e, [])

-- The pool with its counts, once the active pods are known.
abbrev pub counted : SandboxPool → List Pod → SandboxPool
counted pool active = record pool {
  status = record { replicas = length active; ready_replicas = count_ready active };
}

module _ (env : Env) (pull_policy : String) where
  -- A pod without a controller is taken over, if the reference can be set. One of another
  -- controller is left out.
  claim_by : SandboxPool → Pod → Option OwnerReference → Action (List Pod)
  claim_by pool pod none =
      if env.accepts_owner (pool_owner pool) pod.meta
      then (do
        let mine : Pod = record pod { meta = owned (pool_owner pool) pod.meta }
        call env.api (update_pod mine)
        return (mine ∷ []))
      else return (pod ∷ [])
  claim_by pool pod (some owner) =
      if str_eq owner.uid pool.meta.uid then return (pod ∷ []) else return []

  -- The loop over the pods of the list.
  pub active_pods : SandboxPool → List Pod → Action (List Pod)
  unfolding claim_by
  active_pods pool [] log = (ok [], [])
  active_pods pool (pod ∷ pods) log =
      if pod.meta.deleting
      then active_pods pool pods log
      else continue log (claim_by pool pod pod.meta.controller log)
          (λ mine log'. continue log' (active_pods pool pods log') (λ rest. return (mine ++ rest)))

  unfoldable pub list_pool_pods : SandboxPool → Action (List Pod)
  unfolding active_pods
  list_pool_pods pool = do
    pods ← list env.api pool.meta.namespace ((pool_label, env.name_hash pool.meta.name) ∷ [])
    active_pods pool pods

  abbrev pub pool_pod : SandboxPool → SandboxTemplate → Pod
  pool_pod pool t = record {
    meta = record (new_meta pool.meta.namespace "") {
      generate_name = String.◌++◌ pool.meta.name "-";
      labels =
          (pool_label, env.name_hash pool.meta.name)
          ∷ (profile_hash_label, env.name_hash pool.spec.profile)
          ∷ [];
    };
    spec = pod_spec pull_policy t;
    status = no_status;
  }

  abbrev pub owned_pool_pod : SandboxPool → SandboxTemplate → Pod
  owned_pool_pod pool t = record (pool_pod pool t) {
    meta = owned (pool_owner pool) (pool_pod pool t).meta;
  }

  unfoldable pub create_pool_pod : SandboxPool → SandboxTemplate → Action (Unit {0})
  unfolding pod_spec
  create_pool_pod pool t = do
    let pod = pool_pod pool t
    meta ← set_controller env (pool_owner pool) pod.meta
    call env.api (create_pod (record pod { meta = meta }))

  unfoldable pub update_status : SandboxPoolStatus → SandboxPool → Action (Unit {0})
  update_status old pool =
      if same_status old pool.status then return tt else call env.api (update_pool_status pool)

  unfoldable pub delete_pool_pod : Pod → Action (Unit {0})
  delete_pool_pod pod = do done ← try (call env.api (delete_pod pod)); settled done

  unfoldable pub scale : SandboxPool → SandboxTemplate → List Pod → Action Requeue
  unfolding count_ready for_each repeat sort create_pool_pod delete_pool_pod update_status
  scale pool t active =
      let desired = pool.spec.replicas in
      let current = length active in
      let pool' = counted pool active in
      if ltb current desired
      then (do
        repeat (desired - current) (create_pool_pod pool t)
        update_status pool.status pool'
        return (after_ms default_requeue_ms))
      else if ltb desired current
      then (do
        for_each delete_pool_pod (take (current - desired) (sort newer active))
        update_status pool.status pool'
        return (after_ms default_requeue_ms))
      else do
        update_status pool.status pool'
        return (
            if pool'.status.ready_replicas == desired
            then no_requeue
            else after_ms default_requeue_ms)

  abbrev pub templated : SandboxPool → Option SandboxTemplate → Action Requeue
  templated pool none = fail template_required
  templated pool (some t) = do active ← list_pool_pods pool; scale pool t active

  unfoldable pub reconcile : ObjectKey → Action Requeue
  unfolding list_pool_pods scale
  reconcile key = do
    got ← try (ask env.api (get_pool key) (λ log. env.api.pool_at log key))
    unless_gone got (λ pool.
        if pool.meta.deleting then return no_requeue else templated pool pool.spec.template)
