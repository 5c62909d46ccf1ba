-- ===== src/Controller/Pool/Scaling.antt =====
-- What a pool's scaling does to its pods.
use mathlib.Core.Path.{ap₂}
use mathlib.Core.List.{append-nil}
use agentland.Base.{
  ℕ, ◌-◌, ◌≤◌, true, none, List, [], ◌∷◌, ◌++◌, ◌≡◌, refl, sym, ◌∙◌, arith, ap, All, Bool-cases,
  Option-cases, if-cases, inl, inr, map, ltb, String, if◌then◌else◌, length, take, drop, replicate,
}
use agentland.Cluster.{Pod, SandboxPool, SandboxTemplate, SandboxPoolStatus}
use agentland.Cluster.Calls.{
  Call, create_pod, delete_pod, update_pool_status, Log, Action, Result, ok, return, not_found,
  Requeue, after_ms, ◌>>◌,
}
use agentland.Controller.{Env, repeat, for_each, sort, default_requeue_ms}
use agentland.Controller.Loops.{
  continue-ok, calls-repeat, calls-for_each, Succeeds, continue-Succeeds, repeat-Succeeds,
  for_each-Succeeds,
}
use agentland.Controller.Sorting.{Ordered-cut, sort-Ordered}
use agentland.Controller.Pool.{
  create_pool_pod, delete_pool_pod, update_status, scale, owned_pool_pod, newer, counted,
  same_status, pool_owner, pool_pod,
}

-- The pods beyond the wanted number, those that scaling deletes.
abbrev pub surplus : SandboxPool → List Pod → List Pod
surplus pool active = take (length active - pool.spec.replicas) (sort newer active)

abbrev pub kept : SandboxPool → List Pod → List Pod
kept pool active = drop (length active - pool.spec.replicas) (sort newer active)

abbrev status_calls : SandboxPoolStatus → SandboxPool → Log
status_calls old pool = if same_status old pool.status then [] else update_pool_status pool ∷ []

-- All that scaling is to call, without a branch: subtraction stops at 0.
abbrev pub wanted_calls : Env → String → SandboxPool → SandboxTemplate → List Pod → Log
wanted_calls env pull_policy pool t active =
    replicate (pool.spec.replicas - length active)
      (create_pod (owned_pool_pod env pull_policy pool t))
    ++ map delete_pod (surplus pool active)
    ++ status_calls pool.status (counted pool active)

module _ (env : Env) (pull_policy : String) (pool : SandboxPool) (t : SandboxTemplate)
    (active : List Pod) where
  create_pool_pod-call :
      (log : Log) (u : Unit {0})
      → (create_pool_pod env pull_policy pool t log).0 ≡ ok u
      → (create_pool_pod env pull_policy pool t log).1
        ≡ create_pod (owned_pool_pod env pull_policy pool t) ∷ []
  unfolding create_pool_pod
  create_pool_pod-call log u h =
      elim (Bool-cases
        (env.accepts_owner (pool_owner pool) (pool_pod env pull_policy pool t).meta)) [
          | inl e ↦ rw e refl
          | inr e ↦ absurd (ground (arith, h, e))
        ]

  delete_pool_pod-call :
      (pod : Pod) (log : Log) (u : Unit {0})
      → (delete_pool_pod env pull_policy pod log).0 ≡ ok u
      → (delete_pool_pod env pull_policy pod log).1 ≡ delete_pod pod ∷ []
  unfolding delete_pool_pod
  delete_pool_pod-call pod log u h = elim (Option-cases (env.api.answer log (delete_pod pod))) [
    | inl e ↦ rw e refl
    | inr (not_found, e) ↦ rw e refl
    | inr (x, e) ↦ rw e (ground arith)
  ]

  update_status-calls :
      (old : SandboxPoolStatus) (pool' : SandboxPool) (log : Log)
      → (update_status env pull_policy old pool' log).1 ≡ status_calls old pool'
  unfolding update_status
  update_status-calls old pool' log = elim (Bool-cases (same_status old pool'.status)) [
    | inl e ↦ rw e refl
    | inr e ↦ rw e refl
  ]

  abbrev Planned : Result Requeue × Log → Type 0
  Planned r = (q : Requeue) → r.0 ≡ ok q → r.1 ≡ wanted_calls env pull_policy pool t active

  abbrev finish : Requeue → Action Requeue
  finish next = do update_status env pull_policy pool.status (counted pool active); return next

  finish-calls :
      (next : Requeue) (log : Log) (q : Requeue)
      → (finish next log).0 ≡ ok q
      → (finish next log).1 ≡ status_calls pool.status (counted pool active)
  finish-calls next log q h =
      let b =
        continue-ok log (update_status env pull_policy pool.status (counted pool active) log)
          (λ _. return next) q h in
      b.calls
      ∙ append-nil (update_status env pull_policy pool.status (counted pool active) log).1
      ∙ update_status-calls pool.status (counted pool active) log

  -- What follows a loop over pods, once the calls of the loop are known.
  loop-Planned :
      (loop : Action (Unit {0})) (next : Requeue) (calls : Log) (log : Log)
      → ((u : Unit {0}) → (loop log).0 ≡ ok u → (loop log).1 ≡ calls)
      → calls ++ status_calls pool.status (counted pool active)
        ≡ wanted_calls env pull_policy pool t active
      → Planned ((loop >> finish next) log)
  loop-Planned loop next calls log h e q k =
      let b = continue-ok log (loop log) (λ _. finish next) q k in
      b.calls
      ∙ ap₂ (λ s t. s ++ t) (h b.first b.first_ok)
          (finish-calls next (log ++ (loop log).1) q b.second_ok)
      ∙ e

  abbrev missing : ℕ
  missing = pool.spec.replicas - length active

  abbrev excess : ℕ
  excess = length active - pool.spec.replicas

  abbrev create : Call
  create = create_pod (owned_pool_pod env pull_policy pool t)

  abbrev status : Log
  status = status_calls pool.status (counted pool active)

  up-Planned :
      (log : Log)
      → excess ≡ 0
      → Planned (
          (repeat missing (create_pool_pod env pull_policy pool t)
              >> finish (after_ms default_requeue_ms))
            log)
  up-Planned log none_over =
      loop-Planned (repeat missing (create_pool_pod env pull_policy pool t))
        (after_ms default_requeue_ms) (replicate missing create) log
        (calls-repeat (create_pool_pod env pull_policy pool t) create create_pool_pod-call missing
          log)
        (rw none_over (ap (λ s. s ++ status) (sym (append-nil (replicate missing create)))))

  down-Planned :
      (log : Log)
      → missing ≡ 0
      → Planned (
          (for_each (delete_pool_pod env pull_policy) (surplus pool active)
              >> finish (after_ms default_requeue_ms))
            log)
  down-Planned log none_missing =
      loop-Planned (for_each (delete_pool_pod env pull_policy) (surplus pool active))
        (after_ms default_requeue_ms) (map delete_pod (surplus pool active)) log
        (calls-for_each (delete_pool_pod env pull_policy) delete_pod delete_pool_pod-call
          (surplus pool active) log)
        (rw none_missing refl)

  level-Planned :
      (next : Requeue) (log : Log) → missing ≡ 0 → excess ≡ 0 → Planned (finish next log)
  level-Planned next log none_missing none_over q h =
      finish-calls next log q h ∙ (rw (none_missing, none_over) refl)

  -- If scaling succeeds, it makes exactly the wanted calls, in their order: it creates the pods
  -- that are missing or deletes the surplus, and writes the status only if it changed.
  pub scale-calls :
      (log : Log) (q : Requeue)
      → (scale env pull_policy pool t active log).0 ≡ ok q
      → (scale env pull_policy pool t active log).1 ≡ wanted_calls env pull_policy pool t active
  unfolding scale
  scale-calls log =
      if-cases (λ (m : Action Requeue). Planned (m log)) (ltb (length active) pool.spec.replicas) _
        _ (λ up. up-Planned log (ground (arith, up)))
        (λ not_up.
          if-cases (λ (m : Action Requeue). Planned (m log))
            (ltb pool.spec.replicas (length active)) _ _
            (λ down. down-Planned log (ground (arith, down)))
            (λ level.
              level-Planned _ log (ground (arith, level, not_up)) (ground (arith, level, not_up))))

  delete_pool_pod-Succeeds :
      ((log : Log) (c : Call) → env.api.answer log c ≡ none)
      → (pod : Pod) → Succeeds (delete_pool_pod env pull_policy pod)
  unfolding delete_pool_pod
  delete_pool_pod-Succeeds takes pod log = (tt, rw (takes log (delete_pod pod)) refl)

  create_pool_pod-Succeeds :
      ((log : Log) (c : Call) → env.api.answer log c ≡ none)
      → env.accepts_owner (pool_owner pool) (pool_pod env pull_policy pool t).meta ≡ true
      → Succeeds (create_pool_pod env pull_policy pool t)
  unfolding create_pool_pod
  create_pool_pod-Succeeds takes own log = (tt, rw (own, takes (log ++ []) create) refl)

  finish-Succeeds :
      ((log : Log) (c : Call) → env.api.answer log c ≡ none)
      → (next : Requeue) → Succeeds (finish next)
  unfolding update_status
  finish-Succeeds takes next log =
      elim (Bool-cases (same_status pool.status (counted pool active).status)) [
        | inl e ↦ (next, rw e refl)
        | inr e ↦ (next, rw (e, takes log (update_pool_status (counted pool active))) refl)
      ]

  -- Scaling succeeds where the server takes every call and the pool may own the pods it makes.
  pub scale-Succeeds :
      ((log : Log) (c : Call) → env.api.answer log c ≡ none)
      → env.accepts_owner (pool_owner pool) (pool_pod env pull_policy pool t).meta ≡ true
      → Succeeds (scale env pull_policy pool t active)
  unfolding scale
  scale-Succeeds takes own =
      if-cases Succeeds (ltb (length active) pool.spec.replicas) _ _
        (λ up log.
          continue-Succeeds log (repeat missing (create_pool_pod env pull_policy pool t) log)
            (λ _. finish (after_ms default_requeue_ms))
            (repeat-Succeeds missing (create_pool_pod env pull_policy pool t)
              (create_pool_pod-Succeeds takes own) log)
            (λ _. finish-Succeeds takes (after_ms default_requeue_ms)))
        (λ _.
          if-cases Succeeds (ltb pool.spec.replicas (length active)) _ _
            (λ down log.
              continue-Succeeds log
                (for_each (delete_pool_pod env pull_policy) (surplus pool active) log)
                (λ _. finish (after_ms default_requeue_ms))
                (for_each-Succeeds (delete_pool_pod env pull_policy) (surplus pool active)
                  (delete_pool_pod-Succeeds takes) log)
                (λ _. finish-Succeeds takes (after_ms default_requeue_ms)))
            (λ level. finish-Succeeds takes _))

-- The pods that scaling deletes are at least as new as every pod that it keeps.
pub surplus-newest :
    (pool : SandboxPool) (active : List Pod)
    → All
        (λ d. All (λ k. k.meta.created_at ≤ d.meta.created_at) (kept pool active))
        (surplus pool active)
surplus-newest pool active =
    Ordered-cut (λ d k. k.meta.created_at ≤ d.meta.created_at) (length active - pool.spec.replicas)
      (sort newer active)
      (sort-Ordered newer (λ d k. k.meta.created_at ≤ d.meta.created_at)
        (λ x y h. ground (arith, h)) (λ x y h. ground (arith, h))
        (λ x y z h k. ground (arith, h, k)) active)
