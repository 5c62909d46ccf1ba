-- ===== src/Controller/Reconcile.antt =====
-- The entry points of the controllers of sessions and runtimes: CodeInterpreterReconciler.Reconcile,
-- AgentSessionReconciler.Reconcile with the configuration that a session takes from its runtime,
-- and AgentRuntimeReconciler.Reconcile (internal/controller).
pub mod Resolution
pub mod Runtime
use Prim.Native.String
use agentland.Base.{
  Bool, true, false, ◌||◌, Option, none, some, List, [], ◌∷◌, String, str_eq, if◌then◌else◌,
}
use agentland.Cluster.{
  ObjectKey, ObjectMeta, Session, SessionStatus, SandboxTemplate, ProvisioningSpec, AgentRuntime,
  Condition, RuntimeReference,
}
use agentland.Cluster.Calls.{
  get_session, get_runtime, update_runtime_status, conflict, not_found, Result, ok, err, Action,
  Requeue, no_requeue, at_once, after_ms, return, fail, try, continue, call, ask, ◌>>=◌, ◌>>◌,
}
use agentland.Controller.{Env, unless_gone, fallback_requeue_ms}
use agentland.Controller.Session.{
  Kind, code_interpreter, agent_session, Config, provision, update_status, same_conditions,
}

abbrev pub no_image : Option SandboxTemplate → Bool
no_image none = true
no_image (some t) = str_eq t.image ""

abbrev pub or_else {ℓ} : {A : Type ℓ} → Option A → Option A → Option A
or_else (some a) other = some a
or_else none other = other

-- What a session says itself goes before what its runtime says, for the template and the
-- provisioning each as a whole.
abbrev pub override : Session → Config → Config
override session config = record {
  template = or_else session.spec.template config.template;
  provisioning = or_else session.spec.provisioning config.provisioning;
}

abbrev pub runtime_key : Session → RuntimeReference → ObjectKey
runtime_key session ref = record {
  namespace = if str_eq ref.namespace "" then session.meta.namespace else ref.namespace;
  name = ref.name;
}

abbrev pub accepted : AgentRuntime → Condition
accepted runtime =
    if no_image runtime.template
    then record {
      type = "Accepted";
      status = "False";
      reason = "TemplateInvalid";
      message = "sandboxTemplate.image is required";
      observed_generation = runtime.meta.generation;
    }
    else record {
      type = "Accepted";
      status = "True";
      reason = "TemplateValid";
      message = "sandboxTemplate is valid";
      observed_generation = runtime.meta.generation;
    }

-- A configuration, or the result that ends the reconcile.
pub data Resolved : Type 0 where
  resolved : Config → Resolved
  ended : Requeue → Resolved

abbrev pub runtime_missing : ObjectKey → String
runtime_missing key =
    String.◌++◌ "runtimeRef "
      (String.◌++◌ key.namespace (String.◌++◌ "/" (String.◌++◌ key.name " not found")))

module _ (env : Env) where
  abbrev pub reconcile_code_interpreter : ObjectKey → Action Requeue
  unfolding provision
  reconcile_code_interpreter key = do
    got ← try (ask env.api (get_session key) (λ log. env.api.session_at log key))
    unless_gone got (λ session.
        if session.meta.deleting
        then return no_requeue
        else provision env code_interpreter session
            (record { template = session.spec.template; provisioning = session.spec.provisioning }))

  abbrev pub failed : Session → String → String → SessionStatus
  failed session reason message = record {
    phase = "Failed";
    pod_ip = "";
    claim_name = "";
    sandbox_name = "";
    conditions =
        env.set_condition
          (record {
            type = "Accepted";
            status = "False";
            reason = reason;
            message = message;
            observed_generation = session.meta.generation;
          })
          session.status.conditions;
  }

  unfoldable pub mark_failed : Session → String → String → Action (Unit {0})
  unfolding update_status
  mark_failed session reason message =
      update_status env session.status (record session { status = failed session reason message })

  -- The end of `resolveSessionConfig`: a session without an image fails.
  unfoldable pub check_image : Session → Config → Action Resolved
  unfolding mark_failed
  check_image session config =
      if no_image config.template
      then (do
        mark_failed session "TemplateMissing"
            "effective sandboxTemplate is empty; set runtimeRef or sandboxTemplate"
        return (ended no_requeue))
      else return (resolved config)

  abbrev pub with_runtime : Session → ObjectKey → Result AgentRuntime → Action Resolved
  unfolding mark_failed check_image
  with_runtime session key (ok runtime) = check_image session (
      override session
        (record { template = runtime.template; provisioning = runtime.provisioning }))
  with_runtime session key (err not_found) = do
    mark_failed session "RuntimeNotFound" (runtime_missing key)
    return (ended (after_ms fallback_requeue_ms))
  with_runtime session key (err e) = fail e

  abbrev pub resolve_from : Session → Option RuntimeReference → Action Resolved
  unfolding check_image
  resolve_from session none =
      check_image session (override session (record { template = none; provisioning = none }))
  resolve_from session (some ref) = do
    let key = runtime_key session ref
    got ← try (ask env.api (get_runtime key) (λ log. env.api.runtime_at log key))
    with_runtime session key got

  unfoldable pub resolve_session_config : Session → Action Resolved
  resolve_session_config session = resolve_from session session.spec.runtime_ref

  abbrev pub with_config : Session → Resolved → Action Requeue
  unfolding provision
  with_config session (resolved config) = provision env agent_session session config
  with_config session (ended next) = return next

  unfoldable pub reconcile_agent_session : ObjectKey → Action Requeue
  unfolding resolve_session_config
  reconcile_agent_session key = do
    got ← try (ask env.api (get_session key) (λ log. env.api.session_at log key))
    unless_gone got (λ session.
        if session.meta.deleting
        then return no_requeue
        else resolve_session_config session >>= with_config session)

  -- A conflict of a runtime's status is tried again at once.
  abbrev pub runtime_updated : Result (Unit {0}) → Action Requeue
  runtime_updated (ok u) log = (ok no_requeue, [])
  runtime_updated (err conflict) log = (ok at_once, [])
  runtime_updated (err e) log = (err e, [])

  unfoldable pub update_runtime : List Condition → AgentRuntime → Action (Unit {0})
  unfolding same_conditions
  update_runtime old runtime =
      if same_conditions old runtime.conditions
      then return tt
      else call env.api (update_runtime_status runtime)

  abbrev pub with_accepted : AgentRuntime → AgentRuntime
  with_accepted runtime = record runtime {
    conditions = env.set_condition (accepted runtime) runtime.conditions;
  }

  unfoldable pub reconcile_agent_runtime : ObjectKey → Action Requeue
  unfolding update_runtime
  reconcile_agent_runtime key = do
    got ← try (ask env.api (get_runtime key) (λ log. env.api.runtime_at log key))
    unless_gone got (λ runtime. do
      done ← try (update_runtime runtime.conditions (with_accepted runtime))
      runtime_updated done)
