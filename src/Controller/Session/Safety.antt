-- ===== src/Controller/Session/Safety.antt =====
-- Which calls the provisioning of a session can make, whatever the server answers.
use agentland.Base.{
  false, some, [], ◌∷◌, ◌++◌, ◌≡◌, ◌≢◌, ◌↔◌, refl, ap, arith, subst, All, Bool-cases, if-cases, inl,
  inr, String, str_eq, eq_iff, if◌then◌else◌,
}
use agentland.Cluster.{ObjectKey, ObjectMeta, Sandbox, SandboxClaim, Session, SessionStatus}
use agentland.Cluster.Calls.{
  Call, get_sandbox, get_claim, create_sandbox, create_claim, update_session_status, not_found,
  already_exists, Log, Action, Result, ok, err, Requeue, no_requeue, after_ms, call, ask, try,
  ◌>>=◌, ◌>>◌,
}
use agentland.Controller.{Env, owned, unless_conflict, unless_exists, fallback_requeue_ms}
use agentland.Controller.Loops.{continue-All, unless_conflict-All, unless_exists-All, update-All}
use agentland.Controller.Session.{
  Kind, Config, mode_of, fallback_of, same_status, own_key, pending, observed, claim_failed,
  running, update_status, write_status, with_sandbox, update_session, session_owner, direct_sandbox,
  make_sandbox, ensure_sandbox, reconcile_direct, new_claim, claim_made, make_claim, ensure_claim,
  with_claim, reconcile_via_claim, provision,
}

-- What is made for a session has its name and namespace, and the session for its controller.
abbrev pub IsFor : Env → Kind → Session → ObjectMeta → Type 0
IsFor env kind session meta =
    (own_key meta ≡ own_key session.meta)
    × (meta.controller ≡ some (session_owner env kind session))

-- What a session in this mode may ask of the server. A sandbox is made only in the direct mode and
-- a claim only in the others; the claim forbids a cold start exactly if a pool is required. An
-- update of the status keeps the conditions.
abbrev pub IsPermitted : Env → Kind → Session → Config → Call → Type 0
IsPermitted env kind session config (get_sandbox key) = key ≡ own_key session.meta
IsPermitted env kind session config (get_claim key) = key ≡ own_key session.meta
IsPermitted env kind session config (create_sandbox sandbox) =
    (mode_of config.provisioning ≡ "Direct")
    × IsFor env kind session sandbox.meta
    × (sandbox.spec.template ≡ config.template)
IsPermitted env kind session config (create_claim claim) =
    (mode_of config.provisioning ≢ "Direct")
    × IsFor env kind session claim.meta
    × (claim.spec.template ≡ config.template)
    × ((claim.spec.fallback_policy ≡ "ForbidColdStart")
        ↔ (mode_of config.provisioning ≡ "PoolRequired"))
IsPermitted env kind session config (update_session_status session') =
    (session'.spec ≡ session.spec)
    × (session'.meta ≡ session.meta)
    × (session'.status.conditions ≡ session.status.conditions)
IsPermitted env kind session config _ = ⊥

fallback_of-Forbid :
    (mode : String) → (fallback_of mode ≡ "ForbidColdStart") ↔ (mode ≡ "PoolRequired")
fallback_of-Forbid mode = elim (Bool-cases (str_eq mode "PoolRequired")) [
  | inl e ↦ rw e (λ _. (eq_iff mode "PoolRequired").0 e, λ _. refl)
  | inr e ↦ rw e (
    λ h. absurd (ground (arith, ap (λ s. str_eq s "ForbidColdStart") h)),
    λ h. absurd (ground (arith, subst (λ s. str_eq s "PoolRequired" ≡ false) h e)),
  )
]

module _ (env : Env) (kind : Kind) (session : Session) (config : Config) where
  abbrev P : Call → Type 0
  P = IsPermitted env kind session config

  abbrev key : ObjectKey
  key = own_key session.meta

  write_status-Permitted :
      (status : SessionStatus) (next : Requeue) (log : Log)
      → status.conditions ≡ session.status.conditions
      → All P (write_status env session status next log).1
  unfolding write_status update_status
  write_status-Permitted status next log e =
      continue-All P log
        (try (update_status env session.status (record session { status = status })) log)
        (unless_conflict next)
        (update-All P env.api (same_status session.status status)
          (update_session_status (record session { status = status })) log (refl, refl, e))
        (λ done _. unless_conflict-All P next done _)

  with_sandbox-Permitted :
      (status : SessionStatus) (got : Result Sandbox) (log : Log)
      → status.conditions ≡ session.status.conditions
      → All P (with_sandbox env session status got log).1
  unfolding with_sandbox
  with_sandbox-Permitted status (ok sandbox) log e =
      write_status-Permitted (observed sandbox status) no_requeue log e
  with_sandbox-Permitted status (err not_found) log e =
      write_status-Permitted status
        (if running status then no_requeue else after_ms fallback_requeue_ms) log e
  with_sandbox-Permitted status (err x) log e = tt

  update_session-Permitted :
      (claim_name : String) (log : Log)
      → All P (update_session env session claim_name session.meta.name log).1
  unfolding update_session
  update_session-Permitted claim_name log =
      continue-All P log
        (try (ask env.api (get_sandbox key) (λ log'. env.api.sandbox_at log' key)) log)
        (with_sandbox env session (pending claim_name session.meta.name session)) (refl, tt)
        (λ got _. with_sandbox-Permitted (pending claim_name session.meta.name session) got _ refl)

  module _ (direct : mode_of config.provisioning ≡ "Direct") where
    make_sandbox-Permitted : (log : Log) → All P (make_sandbox env kind session config log).1
    unfolding make_sandbox
    make_sandbox-Permitted log =
        elim (Bool-cases (
          env.accepts_owner (session_owner env kind session)
            (direct_sandbox env kind session config).meta)) [
              | inl h ↦ rw h (
                  continue-All P (log ++ [])
                    (try
                      (call env.api (
                        create_sandbox (record (direct_sandbox env kind session config) {
                          meta =
                              owned (session_owner env kind session)
                                (direct_sandbox env kind session config).meta;
                        })))
                      (log ++ []))
                    unless_exists ((direct, (refl, refl), refl), tt)
                    (λ made _. unless_exists-All P made _))
              | inr h ↦ rw h tt
            ]

    ensure_sandbox-Permitted :
        (got : Result Sandbox) (log : Log)
        → All P (ensure_sandbox env kind session config got log).1
    unfolding ensure_sandbox
    ensure_sandbox-Permitted (ok sandbox) log = tt
    ensure_sandbox-Permitted (err not_found) log = make_sandbox-Permitted log
    ensure_sandbox-Permitted (err e) log = tt

    abbrev after_sandbox : Result Sandbox → Action Requeue
    unfolding ensure_sandbox
    after_sandbox got =
        ensure_sandbox env kind session config got
        >> update_session env session "" session.meta.name

    after_sandbox-Permitted : (got : Result Sandbox) (log : Log) → All P (after_sandbox got log).1
    unfolding after_sandbox
    after_sandbox-Permitted got log =
        continue-All P log (ensure_sandbox env kind session config got log)
          (λ _. update_session env session "" session.meta.name) (ensure_sandbox-Permitted got log)
          (λ _ _.
            update_session-Permitted "" (log ++ (ensure_sandbox env kind session config got log).1))

    reconcile_direct-Permitted :
        (log : Log) → All P (reconcile_direct env kind session config log).1
    unfolding reconcile_direct after_sandbox
    reconcile_direct-Permitted log =
        continue-All P log
          (try (ask env.api (get_sandbox key) (λ log'. env.api.sandbox_at log' key)) log)
          after_sandbox (refl, tt)
          (λ got _. after_sandbox-Permitted got (log ++ get_sandbox key ∷ []))

  module _ (indirect : mode_of config.provisioning ≢ "Direct") where
    abbrev mode : String
    mode = mode_of config.provisioning

    claim_made-Permitted :
        (claim : SandboxClaim) (made : Result (Unit {0})) (log : Log)
        → own_key claim.meta ≡ key
        → All P (claim_made env kind claim made log).1
    claim_made-Permitted claim (ok u) log e = tt
    claim_made-Permitted claim (err already_exists) log e = (e, tt)
    claim_made-Permitted claim (err x) log e = tt

    make_claim-Permitted : (log : Log) → All P (make_claim env kind session config mode log).1
    unfolding make_claim
    make_claim-Permitted log =
        elim (Bool-cases (
          env.accepts_owner (session_owner env kind session)
            (new_claim env kind session config mode).meta)) [
              | inl h ↦ rw h (
                  continue-All P (log ++ [])
                    (try
                      (call env.api (
                        create_claim (record (new_claim env kind session config mode) {
                          meta =
                              owned (session_owner env kind session)
                                (new_claim env kind session config mode).meta;
                        })))
                      (log ++ []))
                    (claim_made env kind (record (new_claim env kind session config mode) {
                      meta =
                          owned (session_owner env kind session)
                            (new_claim env kind session config mode).meta;
                    }))
                    ((indirect, (refl, refl), refl, fallback_of-Forbid mode), tt)
                    (λ made _.
                      claim_made-Permitted
                        (record (new_claim env kind session config mode) {
                          meta =
                              owned (session_owner env kind session)
                                (new_claim env kind session config mode).meta;
                        })
                        made _ refl))
              | inr h ↦ rw h tt
            ]

    ensure_claim-Permitted :
        (got : Result SandboxClaim) (log : Log)
        → All P (ensure_claim env kind session config mode got log).1
    unfolding ensure_claim
    ensure_claim-Permitted (ok claim) log = tt
    ensure_claim-Permitted (err not_found) log = make_claim-Permitted log
    ensure_claim-Permitted (err e) log = tt

    with_claim-Permitted :
        (claim : SandboxClaim) (log : Log) → All P (with_claim env kind session claim log).1
    unfolding with_claim
    with_claim-Permitted claim log =
        if-cases (λ (m : Action Requeue). All P (m log).1) (str_eq claim.status.phase "Failed") _ _
          (λ _. write_status-Permitted (claim_failed session claim) no_requeue log refl)
          (λ _. update_session-Permitted session.meta.name log)

    abbrev after_claim : Result SandboxClaim → Action Requeue
    unfolding ensure_claim with_claim
    after_claim got = ensure_claim env kind session config mode got >>= with_claim env kind session

    after_claim-Permitted : (got : Result SandboxClaim) (log : Log) → All P (after_claim got log).1
    unfolding after_claim
    after_claim-Permitted got log =
        continue-All P log (ensure_claim env kind session config mode got log)
          (with_claim env kind session) (ensure_claim-Permitted got log)
          (λ claim _.
            with_claim-Permitted claim
              (log ++ (ensure_claim env kind session config mode got log).1))

    reconcile_via_claim-Permitted :
        (log : Log) → All P (reconcile_via_claim env kind session config mode log).1
    unfolding reconcile_via_claim after_claim
    reconcile_via_claim-Permitted log =
        continue-All P log
          (try (ask env.api (get_claim key) (λ log'. env.api.claim_at log' key)) log) after_claim
          (refl, tt) (λ got _. after_claim-Permitted got (log ++ get_claim key ∷ []))

  -- Whatever the server answers, the provisioning of a session asks only for what is permitted
  -- for its configuration.
  pub provision-Permitted :
      (log : Log)
      → All (IsPermitted env kind session config) (provision env kind session config log).1
  unfolding provision
  provision-Permitted log =
      if-cases (λ (m : Action Requeue). All P (m log).1)
        (str_eq (mode_of config.provisioning) "Direct") _ _
        (λ e. reconcile_direct-Permitted ((eq_iff (mode_of config.provisioning) "Direct").0 e) log)
        (λ e.
          reconcile_via_claim-Permitted
            (λ h. absurd (ground (arith, e, (eq_iff (mode_of config.provisioning) "Direct").1 h)))
            log)
