-- ===== src/Controller/Claim.antt =====
-- The claims on sandboxes (internal/controller/sandboxclaim_controller.go): a claim adopts a warm
-- pod of a pool, or lets its sandbox start cold where its policy allows that. A status carries no
-- conditions here, since this controller does not change them.
pub mod Selection
pub mod Adoption
pub mod Permitted
pub mod Safety
use agentland.Base.{
  ℕ, ltb, Bool, true, false, not, ◌&&◌, Option, none, some, List, [], ◌∷◌, String, str_eq,
  if◌then◌else◌,
}
use agentland.Cluster.{
  ObjectKey, ObjectMeta, OwnerReference, Pod, Sandbox, SandboxPool, SandboxClaim,
  SandboxClaimStatus, SandboxTemplate, StringMap, new_meta, put, remove,
}
use agentland.Cluster.Calls.{
  get_claim, get_sandbox, get_pool, update_pod, patch_pool, create_sandbox, update_claim_status,
  not_found, template_required, Result, ok, err, Action, Requeue, no_requeue, after_ms, return,
  fail, try, continue, call, ask, list, ◌>>=◌, ◌>>◌,
}
use agentland.Controller.{
  Env, pool_label, profile_hash_label, sandbox_label, claim_uid_label, pod_name_annotation,
  pool_backfill_touch_annotation, fallback_requeue_ms, is_pod_ready, reference, owned,
  set_controller, unless_gone, unless_conflict, unless_exists, propagate_trace_annotations, sort,
}

abbrev pub claim_owner : SandboxClaim → OwnerReference
claim_owner claim = reference "SandboxClaim" claim.meta

-- A pod without a controller, or one that belongs to a pool.
abbrev pub from_pool : Option OwnerReference → Bool
from_pool none = true
from_pool (some owner) = str_eq owner.kind "SandboxPool"

abbrev pub is_candidate : Pod → Bool
is_candidate pod = not pod.meta.deleting && from_pool pod.meta.controller

unfoldable pub candidates : List Pod → List Pod
candidates [] = []
candidates (pod ∷ pods) =
    let rest = candidates pods in if is_candidate pod then pod ∷ rest else rest

-- Ready pods go first, and among equals the older ones.
abbrev pub goes_first : Bool → ℕ → Bool → ℕ → Bool
goes_first true a true b = ltb a b
goes_first true a false b = true
goes_first false a true b = false
goes_first false a false b = ltb a b

abbrev pub warmer : Pod → Pod → Bool
warmer p q = goes_first (is_pod_ready p) p.meta.created_at (is_pod_ready q) q.meta.created_at

unfoldable pub first : List Pod → Option Pod
first [] = none
first (pod ∷ pods) = some pod

-- The pool to tell of an adoption: the one that had the pod, or else the one that the claim names.
abbrev pub pool_name : String → Option OwnerReference → String
pool_name pool_ref none = pool_ref
pool_name pool_ref (some owner) = if str_eq owner.kind "SandboxPool" then owner.name else pool_ref

abbrev pub same_status : SandboxClaimStatus → SandboxClaimStatus → Bool
same_status a b =
    str_eq a.phase b.phase && str_eq a.sandbox_name b.sandbox_name && str_eq a.reason b.reason

abbrev pub bound : Sandbox → Bool
bound sandbox = str_eq sandbox.status.phase "Running" && not (str_eq sandbox.status.pod_ip "")

-- The status of a claim whose sandbox exists.
abbrev pub observed_status : Sandbox → SandboxClaimStatus
observed_status sandbox =
    if bound sandbox
    then record { phase = "Bound"; sandbox_name = sandbox.meta.name; reason = "Bound" }
    else record { phase = "Pending"; sandbox_name = sandbox.meta.name; reason = "SandboxPending" }

abbrev pub creating_status : SandboxClaim → SandboxClaimStatus
creating_status claim = record {
  phase = "Pending";
  sandbox_name = claim.meta.name;
  reason = "SandboxCreating";
}

abbrev pub no_warm_pod_status : SandboxClaim → SandboxClaimStatus
no_warm_pod_status claim = record {
  phase = "Failed";
  sandbox_name = claim.status.sandbox_name;
  reason = "NoWarmPod";
}

module _ (env : Env) where
  abbrev pub selector : SandboxClaim → StringMap
  selector claim =
      (profile_hash_label, env.name_hash claim.spec.profile)
      ∷ (if str_eq claim.spec.pool_ref ""
          then []
          else (pool_label, env.name_hash claim.spec.pool_ref) ∷ [])

  unfoldable pub select_warm_pod : SandboxClaim → Action (Option Pod)
  unfolding candidates sort first
  select_warm_pod claim = do
    pods ← list env.api claim.meta.namespace (selector claim)
    return (first (sort warmer (candidates pods)))

  abbrev pub touched : SandboxPool → String → SandboxPool
  touched pool time = record pool {
    meta = record pool.meta {
      annotations = put pool_backfill_touch_annotation time pool.meta.annotations;
    };
  }

  abbrev pub touch_found : Result SandboxPool → Action (Unit {0})
  touch_found (ok pool) log = call env.api (patch_pool (touched pool (env.now log))) log
  touch_found (err not_found) log = (ok tt, [])
  touch_found (err e) log = (err e, [])

  unfoldable pub touch_sandbox_pool : String → String → Action (Unit {0})
  touch_sandbox_pool namespace name =
      let key : ObjectKey = record { namespace = namespace; name = name } in
      if str_eq name "" then return tt else do
        got ← try (ask env.api (get_pool key) (λ log. env.api.pool_at log key))
        touch_found got

  abbrev pub adopted : SandboxClaim → Pod → Pod
  adopted claim pod = record pod {
    meta = record pod.meta {
      labels = put claim_uid_label claim.meta.uid (
          put sandbox_label (env.name_hash claim.meta.name)
            (remove profile_hash_label (remove pool_label pod.meta.labels)));
      controller = none;
    };
  }

  unfoldable pub adopt_warm_pod : SandboxClaim → Pod → Action (Unit {0})
  unfolding touch_sandbox_pool
  adopt_warm_pod claim pod = do
    call env.api (update_pod (adopted claim pod))
    touch_sandbox_pool claim.meta.namespace (pool_name claim.spec.pool_ref pod.meta.controller)

  abbrev pub adopt : SandboxClaim → Option Pod → Action (Unit {0})
  unfolding adopt_warm_pod
  adopt claim none = return tt
  adopt claim (some pod) = adopt_warm_pod claim pod

  unfoldable pub update_status : SandboxClaimStatus → SandboxClaim → Action (Unit {0})
  update_status old claim =
      if same_status old claim.status then return tt else call env.api (update_claim_status claim)

  -- `updateClaimStatus` with the treatment of its error that all its callers share.
  unfoldable pub write_status : SandboxClaim → SandboxClaimStatus → Requeue → Action Requeue
  unfolding update_status
  write_status claim status next = do
    done ← try (update_status claim.status (record claim { status = status }))
    unless_conflict next done

  abbrev pub annotated : Option Pod → StringMap → StringMap
  annotated none annotations = annotations
  annotated (some pod) annotations = put pod_name_annotation pod.meta.name annotations

  unfoldable pub claimed_sandbox : SandboxClaim → SandboxTemplate → Option Pod → Sandbox
  unfolding propagate_trace_annotations
  claimed_sandbox claim t pod = record {
    meta = record (new_meta claim.meta.namespace claim.meta.name) {
      annotations = annotated pod (propagate_trace_annotations [] claim.meta.annotations);
    };
    spec = record { profile = claim.spec.profile; claim_ref = claim.meta.name; template = some t };
    status = record { phase = ""; pod_ip = "" };
  }

  -- Whether the claim has to fail for want of a warm pod.
  abbrev pub forbidden : SandboxClaim → Option Pod → Bool
  forbidden claim none = str_eq claim.spec.fallback_policy "ForbidColdStart"
  forbidden claim (some pod) = false

  unfoldable pub provision : SandboxClaim → SandboxTemplate → Option Pod → Action Requeue
  unfolding adopt write_status claimed_sandbox
  provision claim t pod = do
    adopt claim pod
    let sandbox = claimed_sandbox claim t pod
    meta ← set_controller env (claim_owner claim) sandbox.meta
    made ← try (call env.api (create_sandbox (record sandbox { meta = meta })))
    unless_exists made
    write_status claim (creating_status claim) (after_ms fallback_requeue_ms)

  unfoldable pub claim_warm_pod : SandboxClaim → SandboxTemplate → Action Requeue
  unfolding select_warm_pod write_status provision
  claim_warm_pod claim t = do
    pod ← select_warm_pod claim
    (if forbidden claim pod
        then write_status claim (no_warm_pod_status claim) no_requeue
        else provision claim t pod)

  -- What follows the look for the claim's sandbox.
  abbrev pub with_sandbox : SandboxClaim → SandboxTemplate → Result Sandbox → Action Requeue
  unfolding write_status claim_warm_pod
  with_sandbox claim t (ok sandbox) log =
      write_status claim (observed_status sandbox) no_requeue log
  with_sandbox claim t (err not_found) log = claim_warm_pod claim t log
  with_sandbox claim t (err e) log = (err e, [])

  abbrev pub with_template : SandboxClaim → Option SandboxTemplate → Action Requeue
  with_template claim none = fail template_required
  with_template claim (some t) = do
    let key : ObjectKey = record { namespace = claim.meta.namespace; name = claim.meta.name }
    got ← try (ask env.api (get_sandbox key) (λ log. env.api.sandbox_at log key))
    with_sandbox claim t got

  unfoldable pub reconcile : ObjectKey → Action Requeue
  reconcile key = do
    got ← try (ask env.api (get_claim key) (λ log. env.api.claim_at log key))
    unless_gone got (λ claim.
        if claim.meta.deleting then return no_requeue else with_template claim claim.spec.template)
