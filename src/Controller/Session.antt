-- ===== src/Controller/Session.antt =====
-- The sessions (internal/controller/codeinterpreter_controller.go and agentsession_controller.go): a
-- session has a sandbox of its own name, made directly or by a claim. The two controllers share
-- all steps after the configuration is known; the first copies trace annotations to what it makes.
pub mod Safety
pub mod Settled
use agentland.Base.{
  Bool, true, false, not, ◌&&◌, ◌||◌, Option, none, some, List, [], ◌∷◌, ◌==◌, String, str_eq,
  if◌then◌else◌,
}
use agentland.Cluster.{
  ObjectKey, ObjectMeta, OwnerReference, Sandbox, SandboxClaim, Session, SessionStatus,
  SandboxTemplate, ProvisioningSpec, AgentRuntime, Condition, RuntimeReference, StringMap, new_meta,
}
use agentland.Cluster.Calls.{
  get_sandbox, get_claim, get_session, get_runtime, create_sandbox, create_claim,
  update_session_status, update_runtime_status, conflict, not_found, already_exists, Result, ok,
  err, Action, Requeue, no_requeue, at_once, after_ms, return, fail, try, continue, call, ask,
  ◌>>=◌, ◌>>◌,
}
use agentland.Controller.{
  Env, reference, owned, set_controller, unless_gone, unless_conflict, unless_exists,
  propagate_trace_annotations, fallback_requeue_ms,
}

-- The kind of session: its name, and the annotations of what is made for a session.
pub record Kind : Type 0 where
  pub name : String
  pub annotations : ObjectMeta → StringMap

abbrev pub code_interpreter : Kind
unfolding propagate_trace_annotations
code_interpreter = record {
  name = "CodeInterpreter";
  annotations = λ meta. propagate_trace_annotations [] meta.annotations;
}

abbrev pub agent_session : Kind
agent_session = record { name = "AgentSession"; annotations = λ _. [] }

-- `resolvedSessionConfig`, with a template that need not be there.
pub record Config : Type 0 where
  pub template : Option SandboxTemplate
  pub provisioning : Option ProvisioningSpec

abbrev or_default : String → String → String
or_default fallback s = if str_eq s "" then fallback else s

abbrev pub mode_of : Option ProvisioningSpec → String
mode_of none = "Direct"
mode_of (some p) = or_default "Direct" p.mode

abbrev pub profile_of : Option ProvisioningSpec → String
profile_of none = "default"
profile_of (some p) = or_default "default" p.profile

abbrev pub pool_ref_of : Option ProvisioningSpec → String
pool_ref_of none = ""
pool_ref_of (some p) = p.pool_ref

abbrev pub fallback_of : String → String
fallback_of mode = if str_eq mode "PoolRequired" then "ForbidColdStart" else "AllowColdStart"

abbrev pub same_condition : Condition → Condition → Bool
same_condition a b =
    str_eq a.type b.type
    && str_eq a.status b.status
    && str_eq a.reason b.reason
    && str_eq a.message b.message
    && a.observed_generation == b.observed_generation

unfoldable pub same_conditions : List Condition → List Condition → Bool
same_conditions [] [] = true
same_conditions [] (d ∷ ds) = false
same_conditions (c ∷ cs) [] = false
same_conditions (c ∷ cs) (d ∷ ds) = same_condition c d && same_conditions cs ds

unfoldable pub same_status : SessionStatus → SessionStatus → Bool
unfolding same_conditions
same_status a b =
    str_eq a.phase b.phase
    && str_eq a.pod_ip b.pod_ip
    && str_eq a.claim_name b.claim_name
    && str_eq a.sandbox_name b.sandbox_name
    && same_conditions a.conditions b.conditions

abbrev pub own_key : ObjectMeta → ObjectKey
own_key meta = record { namespace = meta.namespace; name = meta.name }

-- The session as it is before its sandbox is seen.
abbrev pub pending : String → String → Session → SessionStatus
pending claim_name sandbox_name session = record session.status {
  phase = "Pending";
  pod_ip = "";
  claim_name = claim_name;
  sandbox_name = sandbox_name;
}

abbrev pub observed : Sandbox → SessionStatus → SessionStatus
observed sandbox status = record status {
  phase = sandbox.status.phase;
  pod_ip = sandbox.status.pod_ip;
  sandbox_name = sandbox.meta.name;
}

abbrev pub claim_failed : Session → SandboxClaim → SessionStatus
claim_failed session claim = record session.status {
  phase = "Failed";
  pod_ip = "";
  claim_name = session.meta.name;
  sandbox_name = claim.status.sandbox_name;
}

abbrev pub running : SessionStatus → Bool
running status = str_eq status.phase "Running" && not (str_eq status.pod_ip "")

module _ (env : Env) where
  unfoldable pub update_status : SessionStatus → Session → Action (Unit {0})
  unfolding same_status
  update_status old session =
      if same_status old session.status
      then return tt
      else call env.api (update_session_status session)

  unfoldable pub write_status : Session → SessionStatus → Requeue → Action Requeue
  unfolding update_status
  write_status session status next = do
    done ← try (update_status session.status (record session { status = status }))
    unless_conflict next done

  -- What follows the look for the sandbox. Only a session without a sandbox is run again by itself.
  abbrev pub with_sandbox : Session → SessionStatus → Result Sandbox → Action Requeue
  unfolding write_status
  with_sandbox session status (ok sandbox) log =
      write_status session (observed sandbox status) no_requeue log
  with_sandbox session status (err not_found) log =
      write_status session status
        (if running status then no_requeue else after_ms fallback_requeue_ms) log
  with_sandbox session status (err e) log = (err e, [])

  unfoldable pub update_session : Session → String → String → Action Requeue
  unfolding with_sandbox
  update_session session claim_name sandbox_name = do
    let key : ObjectKey = record { namespace = session.meta.namespace; name = sandbox_name }
    got ← try (ask env.api (get_sandbox key) (λ log. env.api.sandbox_at log key))
    with_sandbox session (pending claim_name sandbox_name session) got

module _ (env : Env) (kind : Kind) where
  abbrev pub session_owner : Session → OwnerReference
  session_owner session = reference kind.name session.meta

  abbrev pub direct_sandbox : Session → Config → Sandbox
  direct_sandbox session config = record {
    meta = record (new_meta session.meta.namespace session.meta.name) {
      annotations = kind.annotations session.meta;
    };
    spec = record {
      profile = profile_of config.provisioning;
      claim_ref = "";
      template = config.template;
    };
    status = record { phase = ""; pod_ip = "" };
  }

  unfoldable pub make_sandbox : Session → Config → Action (Unit {0})
  make_sandbox session config = do
    let sandbox = direct_sandbox session config
    meta ← set_controller env (session_owner session) sandbox.meta
    made ← try (call env.api (create_sandbox (record sandbox { meta = meta })))
    unless_exists made

  abbrev pub ensure_sandbox : Session → Config → Result Sandbox → Action (Unit {0})
  unfolding make_sandbox
  ensure_sandbox session config (ok sandbox) log = (ok tt, [])
  ensure_sandbox session config (err not_found) log = make_sandbox session config log
  ensure_sandbox session config (err e) log = (err e, [])

  unfoldable pub reconcile_direct : Session → Config → Action Requeue
  unfolding ensure_sandbox update_session
  reconcile_direct session config = do
    let key = own_key session.meta
    got ← try (ask env.api (get_sandbox key) (λ log. env.api.sandbox_at log key))
    ensure_sandbox session config got
    update_session env session "" session.meta.name

  abbrev pub new_claim : Session → Config → String → SandboxClaim
  new_claim session config mode = record {
    meta = record (new_meta session.meta.namespace session.meta.name) {
      annotations = kind.annotations session.meta;
    };
    spec = record {
      profile = profile_of config.provisioning;
      pool_ref = pool_ref_of config.provisioning;
      fallback_policy = fallback_of mode;
      template = config.template;
    };
    status = record { phase = ""; sandbox_name = ""; reason = "" };
  }

  -- A claim that exists after all is read again.
  abbrev pub claim_made : SandboxClaim → Result (Unit {0}) → Action SandboxClaim
  claim_made claim (ok u) log = (ok claim, [])
  claim_made claim (err already_exists) log =
      ask env.api (get_claim (own_key claim.meta))
        (λ log'. env.api.claim_at log' (own_key claim.meta)) log
  claim_made claim (err e) log = (err e, [])

  unfoldable pub make_claim : Session → Config → String → Action SandboxClaim
  make_claim session config mode = do
    meta ← set_controller env (session_owner session) (new_claim session config mode).meta
    let claim : SandboxClaim = record (new_claim session config mode) { meta = meta }
    made ← try (call env.api (create_claim claim))
    claim_made claim made

  abbrev pub ensure_claim : Session → Config → String → Result SandboxClaim → Action SandboxClaim
  unfolding make_claim
  ensure_claim session config mode (ok claim) log = (ok claim, [])
  ensure_claim session config mode (err not_found) log = make_claim session config mode log
  ensure_claim session config mode (err e) log = (err e, [])

  abbrev pub with_claim : Session → SandboxClaim → Action Requeue
  unfolding write_status update_session
  with_claim session claim =
      if str_eq claim.status.phase "Failed"
      then write_status env session (claim_failed session claim) no_requeue
      else update_session env session session.meta.name session.meta.name

  unfoldable pub reconcile_via_claim : Session → Config → String → Action Requeue
  unfolding ensure_claim with_claim
  reconcile_via_claim session config mode = do
    let key = own_key session.meta
    got ← try (ask env.api (get_claim key) (λ log. env.api.claim_at log key))
    claim ← ensure_claim session config mode got
    with_claim session claim

  unfoldable pub provision : Session → Config → Action Requeue
  unfolding reconcile_direct reconcile_via_claim
  provision session config =
      let mode = mode_of config.provisioning in
      if str_eq mode "Direct"
      then reconcile_direct session config
      else reconcile_via_claim session config mode
