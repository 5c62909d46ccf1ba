-- ===== src/Controller/Reconcile/Resolution.antt =====
-- The configuration that a session is provisioned with.
use agentland.Base.{
  false, Option, none, some, [], ◌∷◌, ◌++◌, ◌≡◌, arith, subst, sym, All, All-weaken, Option-cases,
  if-cases, inl, inr, String, if◌then◌else◌,
}
use agentland.Cluster.{
  ObjectKey, Session, SessionStatus, SandboxTemplate, ProvisioningSpec, AgentRuntime,
  RuntimeReference,
}
use agentland.Cluster.Calls.{
  Call, get_session, get_runtime, create_sandbox, create_claim, not_found, Log, Action, Result, ok,
  err, return, Requeue, no_requeue, after_ms, ask, try, ◌>>=◌,
}
use agentland.Controller.{Env, fallback_requeue_ms}
use agentland.Controller.Loops.{OnOk, OnOk-elim, continue-OnOk, continue-All, OnOk-any}
use agentland.Controller.Session.{Config, agent_session, provision, update_status, same_status}
use agentland.Controller.Session.Safety.{IsPermitted, provision-Permitted}
use agentland.Controller.Reconcile.{
  no_image, or_else, override, runtime_key, runtime_missing, Resolved, resolved, ended, check_image,
  mark_failed, with_runtime, resolve_from, resolve_session_config, failed, with_config,
  reconcile_agent_session,
}

-- A configuration has an image, and what the session says itself has gone before its runtime.
abbrev pub IsComplete : Session → Resolved → Type 0
IsComplete session (resolved config) =
    (no_image config.template ≡ false)
    × ((t : SandboxTemplate) → session.spec.template ≡ some t → config.template ≡ some t)
    × ((p : ProvisioningSpec) → session.spec.provisioning ≡ some p → config.provisioning ≡ some p)
IsComplete session (ended next) = Unit

or_else-some : {A : Type 0} (o p : Option A) (a : A) → o ≡ some a → or_else o p ≡ some a
or_else-some none p a e = absurd (ground (arith, e))
or_else-some (some b) p a e = e

module _ (env : Env) (session : Session) where
  check_image-IsComplete :
      (config : Config) (log : Log)
      → OnOk (IsComplete session) (check_image env session (override session config) log).0
  unfolding check_image
  check_image-IsComplete config log =
      if-cases (λ (m : Action Resolved). OnOk (IsComplete session) (m log).0)
        (no_image (override session config).template) _ _
        (λ _.
          continue-OnOk (λ _. Unit {0}) (IsComplete session) log
            (mark_failed env session "TemplateMissing"
              "effective sandboxTemplate is empty; set runtimeRef or sandboxTemplate" log)
            (λ _. return (ended no_requeue)) (OnOk-any {A = Unit {0}} _) (λ _ _. tt))
        (λ e. (
          e,
          or_else-some session.spec.template config.template,
          or_else-some session.spec.provisioning config.provisioning,
        ))

  with_runtime-IsComplete :
      (key : ObjectKey) (got : Result AgentRuntime) (log : Log)
      → OnOk (IsComplete session) (with_runtime env session key got log).0
  unfolding with_runtime check_image
  with_runtime-IsComplete key (ok runtime) log =
      check_image-IsComplete
        (record { template = runtime.template; provisioning = runtime.provisioning }) log
  with_runtime-IsComplete key (err not_found) log =
      continue-OnOk (λ _. Unit {0}) (IsComplete session) log
        (mark_failed env session "RuntimeNotFound" (runtime_missing key) log)
        (λ _. return (ended (after_ms fallback_requeue_ms))) (OnOk-any {A = Unit {0}} _) (λ _ _. tt)
  with_runtime-IsComplete key (err e) log = tt

  abbrev read : RuntimeReference → Log → Result (Result AgentRuntime) × Log
  read ref = try (
      ask env.api (get_runtime (runtime_key session ref))
        (λ log'. env.api.runtime_at log' (runtime_key session ref)))

  resolve_from-IsComplete :
      (ref : Option RuntimeReference) (log : Log)
      → OnOk (IsComplete session) (resolve_from env session ref log).0
  unfolding resolve_from check_image
  resolve_from-IsComplete none log =
      check_image-IsComplete (record { template = none; provisioning = none }) log
  resolve_from-IsComplete (some ref) log =
      continue-OnOk (λ _. Unit {0}) (IsComplete session) log (read ref log)
        (with_runtime env session (runtime_key session ref)) (OnOk-any (read ref log).0)
        (λ got _. with_runtime-IsComplete (runtime_key session ref) got (log ++ (read ref log).1))

  -- Whatever the server answers, a configuration that a session's resolution ends with has an image,
  -- and its template and provisioning are the session's own where the session has them.
  pub resolve-IsComplete :
      (log : Log) → OnOk (IsComplete session) (resolve_session_config env session log).0
  unfolding resolve_session_config
  resolve-IsComplete log = resolve_from-IsComplete session.spec.runtime_ref log

-- What is made for a session has an image.
abbrev pub HasImage : Call → Type 0
HasImage (create_sandbox sandbox) = no_image sandbox.spec.template ≡ false
HasImage (create_claim claim) = no_image claim.spec.template ≡ false
HasImage _ = Unit

module _ (env : Env) (session : Session) where
  update_status-HasImage :
      (old : SessionStatus) (session' : Session) (log : Log)
      → All HasImage (update_status env old session' log).1
  unfolding update_status
  update_status-HasImage old session' log =
      if-cases (λ (m : Action (Unit {0})). All HasImage (m log).1) (same_status old session'.status)
        _ _ (λ _. tt) (λ _. (tt, tt))

  mark_failed-HasImage :
      (reason message : String) (log : Log)
      → All HasImage (mark_failed env session reason message log).1
  unfolding mark_failed
  mark_failed-HasImage reason message log =
      update_status-HasImage session.status
        (record session { status = failed env session reason message }) log

  check_image-HasImage :
      (config : Config) (log : Log) → All HasImage (check_image env session config log).1
  unfolding check_image
  check_image-HasImage config log =
      if-cases (λ (m : Action Resolved). All HasImage (m log).1) (no_image config.template) _ _
        (λ _.
          continue-All HasImage log
            (mark_failed env session "TemplateMissing"
              "effective sandboxTemplate is empty; set runtimeRef or sandboxTemplate" log)
            (λ _. return (ended no_requeue)) (mark_failed-HasImage "TemplateMissing" _ log)
            (λ _ _. tt))
        (λ e. tt)

  with_runtime-HasImage :
      (key : ObjectKey) (got : Result AgentRuntime) (log : Log)
      → All HasImage (with_runtime env session key got log).1
  unfolding with_runtime check_image
  with_runtime-HasImage key (ok runtime) log =
      check_image-HasImage
        (override session
          (record { template = runtime.template; provisioning = runtime.provisioning }))
        log
  with_runtime-HasImage key (err not_found) log =
      continue-All HasImage log
        (mark_failed env session "RuntimeNotFound" (runtime_missing key) log)
        (λ _. return (ended (after_ms fallback_requeue_ms)))
        (mark_failed-HasImage "RuntimeNotFound" (runtime_missing key) log) (λ _ _. tt)
  with_runtime-HasImage key (err e) log = tt

  resolve_from-HasImage :
      (ref : Option RuntimeReference) (log : Log)
      → All HasImage (resolve_from env session ref log).1
  unfolding resolve_from check_image
  resolve_from-HasImage none log =
      check_image-HasImage (override session (record { template = none; provisioning = none })) log
  resolve_from-HasImage (some ref) log =
      continue-All HasImage log (read env session ref log)
        (with_runtime env session (runtime_key session ref)) (tt, tt)
        (λ got _.
          with_runtime-HasImage (runtime_key session ref) got (log ++ (read env session ref log).1))

  permitted-HasImage :
      (config : Config) (c : Call)
      → no_image config.template ≡ false
      → IsPermitted env agent_session session config c
      → HasImage c
  permitted-HasImage config (create_sandbox sandbox) e (mode, own, same) =
      subst (λ t. no_image t ≡ false) (sym same) e
  permitted-HasImage config (create_claim claim) e (mode, own, same, policy) =
      subst (λ t. no_image t ≡ false) (sym same) e
  permitted-HasImage config c e h = tt

  with_config-HasImage :
      (r : Resolved) (log : Log)
      → IsComplete session r
      → All HasImage (with_config env session r log).1
  unfolding with_config
  with_config-HasImage (resolved config) log h =
      All-weaken (IsPermitted env agent_session session config) HasImage
        (λ c. permitted-HasImage config c h.0) (provision env agent_session session config log).1
        (provision-Permitted env agent_session session config log)
  with_config-HasImage (ended next) log h = tt

  configured-HasImage :
      (log : Log)
      → All HasImage ((resolve_session_config env session >>= with_config env session) log).1
  unfolding resolve_session_config with_config
  configured-HasImage log =
      continue-All HasImage log (resolve_session_config env session log) (with_config env session)
        (resolve_from-HasImage session.spec.runtime_ref log)
        (λ r e. with_config-HasImage r (log ++ (resolve_session_config env session log).1) (
          OnOk-elim (IsComplete session) (resolve_session_config env session log).0 r
            (resolve-IsComplete env session log) e))

  found-HasImage :
      (log : Log)
      → All HasImage
          ((if session.meta.deleting
              then return no_requeue
              else (resolve_session_config env session >>= with_config env session))
            log).1
  unfolding resolve_session_config with_config
  found-HasImage log =
      if-cases (λ (m : Action Requeue). All HasImage (m log).1) session.meta.deleting _ _ (λ _. tt)
        (λ _. configured-HasImage log)

-- Whatever the server answers, a reconcile of an agent session makes a sandbox or a claim only with
-- an image.
pub agent_session-HasImage :
    (env : Env) (key : ObjectKey) (log : Log) → All HasImage (reconcile_agent_session env key log).1
unfolding reconcile_agent_session resolve_session_config with_config
agent_session-HasImage env key log = elim (Option-cases (env.api.answer log (get_session key))) [
  | inl e ↦ rw e (tt, found-HasImage env (env.api.session_at log key) (log ++ get_session key ∷ []))
  | inr (not_found, e) ↦ rw e (tt, tt)
  | inr (x, e) ↦ rw e (tt, tt)
]
