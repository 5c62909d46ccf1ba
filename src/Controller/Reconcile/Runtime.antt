-- ===== src/Controller/Reconcile/Runtime.antt =====
-- A runtime whose condition is set already.
use agentland.Base.{none, List, [], ◌∷◌, ◌≡◌, refl}
use agentland.Cluster.{ObjectKey, AgentRuntime, Condition}
use agentland.Cluster.Calls.{get_runtime, Log, ok, no_requeue}
use agentland.Controller.{Env}
use agentland.Controller.Session.Settled.{same_conditions_refl}
use agentland.Controller.Reconcile.{
  accepted, with_accepted, update_runtime, reconcile_agent_runtime,
}

-- If setting a condition twice is setting it once, a reconcile of a runtime that has its condition
-- only reads it and asks for no further run.
pub runtime_settled :
    (env : Env) (runtime : AgentRuntime) (key : ObjectKey) (log : Log)
    → ((c : Condition) (cs : List Condition)
        → env.set_condition c (env.set_condition c cs) ≡ env.set_condition c cs)
    → env.api.answer log (get_runtime key) ≡ none
    → env.api.runtime_at log key ≡ with_accepted env runtime
    → reconcile_agent_runtime env key log ≡ (ok no_requeue, get_runtime key ∷ [])
unfolding reconcile_agent_runtime update_runtime
runtime_settled env runtime key log once found same =
    rw
      (
        found,
        same,
        once (accepted runtime) runtime.conditions,
        same_conditions_refl (env.set_condition (accepted runtime) runtime.conditions),
      )
      refl
