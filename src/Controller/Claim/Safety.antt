-- ===== src/Controller/Claim/Safety.antt =====
-- Which calls a claim's reconcile can make, whatever the server answers.
use agentland.Base.{Option, none, some, List, refl, All, String}
use agentland.Cluster.{Pod, Sandbox, SandboxClaim, SandboxTemplate, ObjectKey}
use agentland.Cluster.Calls.{
  Call, create_sandbox, Log, Action, Result, ok, Requeue, after_ms, call, try,
}
use agentland.Controller.{Env, fallback_requeue_ms, owned}
use agentland.Controller.Claim.{
  claim_owner, touch_found, write_status, claimed_sandbox, creating_status,
}
use agentland.Controller.Claim.Permitted.{IsWarm, IsPermitted}

-- The pod that was chosen, if one was, may be taken.
abbrev IsFree : Env → SandboxClaim → Option Pod → Type 0
IsFree env claim none = Unit
IsFree env claim (some pod) = IsWarm env claim pod

module _ (env : Env) (claim : SandboxClaim) where
  abbrev Permitted : Log → Type 0
  Permitted = All (IsPermitted env claim)

  abbrev P : Call → Type 0
  P = IsPermitted env claim

  abbrev pool_key : String → ObjectKey
  pool_key name = record { namespace = claim.meta.namespace; name = name }

  touch_found-Permitted :
      (key : ObjectKey) (log log' : Log)
      → Permitted (touch_found env (ok (env.api.pool_at log key)) log').1
  touch_found-Permitted key log log' = ((key, log, refl), tt)

  abbrev owned_sandbox : SandboxTemplate → Option Pod → Sandbox
  owned_sandbox t pod = record (claimed_sandbox env claim t pod) {
    meta = owned (claim_owner claim) (claimed_sandbox env claim t pod).meta;
  }

  abbrev pending_status : Action Requeue
  pending_status = write_status env claim (creating_status claim) (after_ms fallback_requeue_ms)

  abbrev create : SandboxTemplate → Option Pod → Action (Result (Unit {0}))
  create t pod = try (call env.api (create_sandbox (owned_sandbox t pod)))
