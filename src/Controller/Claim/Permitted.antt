-- ===== src/Controller/Claim/Permitted.antt =====
-- Which calls to the server are a claim's business.
use agentland.Base.{none, some, ◌≡◌}
use agentland.Cluster.{Pod, Sandbox, SandboxClaim, ObjectKey, lookup}
use agentland.Cluster.Calls.{
  Call, get_sandbox, get_pool, list_pods, update_pod, patch_pool, create_sandbox,
  update_claim_status, Log,
}
use agentland.Controller.{Env, claim_uid_label, sandbox_label, pod_name_annotation}
use agentland.Controller.Listing.{IsListed}
use agentland.Controller.Claim.Selection.{MayBeTaken}
use agentland.Controller.Claim.{claim_owner, selector}

-- A pod that the claim may take is one that the server has listed for it, and that may be taken.
abbrev pub IsWarm : Env → SandboxClaim → Pod → Type 0
IsWarm env claim pod =
    IsListed env.api claim.meta.namespace (selector env claim) pod × MayBeTaken pod

-- A sandbox may be made for the claim, under its name and owned by it. Where the policy forbids
-- a cold start, the sandbox names a pod that the claim may take.
pub record IsClaimed (env : Env) (claim : SandboxClaim) (sandbox : Sandbox) : Type 0 where
  pub named :
      (sandbox.meta.name ≡ claim.meta.name) × (sandbox.meta.namespace ≡ claim.meta.namespace)
  pub owner : sandbox.meta.controller ≡ some (claim_owner claim)
  pub warm :
      claim.spec.fallback_policy ≡ "ForbidColdStart"
      → (pod : Pod) × IsWarm env claim pod
        × (lookup pod_name_annotation sandbox.meta.annotations ≡ some pod.meta.name)

-- An update that takes a pod for the claim: the pod was one that the claim may take, is in no pool any
-- more, and has the labels of the claim and of its sandbox.
pub record IsTaken (env : Env) (claim : SandboxClaim) (pod : Pod) : Type 0 where
  pub original : Pod
  pub warm : IsWarm env claim original
  pub kept :
      (pod.meta.name ≡ original.meta.name)
      × (pod.meta.namespace ≡ original.meta.namespace)
      × (pod.spec ≡ original.spec)
      × (pod.status ≡ original.status)
  pub released : pod.meta.controller ≡ none
  pub for_sandbox : lookup sandbox_label pod.meta.labels ≡ some (env.name_hash claim.meta.name)
  pub for_claim : lookup claim_uid_label pod.meta.labels ≡ some claim.meta.uid

-- What a reconcile may ask of the server for a claim that it has read.
abbrev pub IsPermitted : Env → SandboxClaim → Call → Type 0
IsPermitted env claim (get_sandbox key) =
    key ≡ record { namespace = claim.meta.namespace; name = claim.meta.name }
IsPermitted env claim (list_pods namespace labels) =
    (namespace ≡ claim.meta.namespace) × (labels ≡ selector env claim)
IsPermitted env claim (update_pod pod) = IsTaken env claim pod
IsPermitted env claim (get_pool key) = key.namespace ≡ claim.meta.namespace
IsPermitted env claim (patch_pool pool) =
    (key : ObjectKey) × (log : Log) × (pool.spec ≡ (env.api.pool_at log key).spec)
IsPermitted env claim (create_sandbox sandbox) = IsClaimed env claim sandbox
IsPermitted env claim (update_claim_status claim') =
    (claim'.spec ≡ claim.spec) × (claim'.meta ≡ claim.meta)
IsPermitted env claim _ = ⊥
