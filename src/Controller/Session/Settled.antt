-- ===== src/Controller/Session/Settled.antt =====
-- A session that shows its sandbox already.
use text.Mathlib.TextPositions.{eq_refl}
use agentland.Base.{true, none, List, [], ◌∷◌, ◌≡◌, refl, String, ==_iff}
use agentland.Cluster.{Sandbox, Session, SessionStatus, Condition}
use agentland.Cluster.Calls.{get_sandbox, Log, ok, no_requeue}
use agentland.Controller.{Env}
use agentland.Controller.Session.{
  same_conditions, same_status, observed, pending, update_session, update_status, write_status,
  with_sandbox,
}

pub same_conditions_refl : (cs : List Condition) → same_conditions cs cs ≡ true
unfolding same_conditions
same_conditions_refl [] = refl
same_conditions_refl (c ∷ cs) =
    rw
      (
        eq_refl c.type,
        eq_refl c.status,
        eq_refl c.reason,
        eq_refl c.message,
        (==_iff c.observed_generation c.observed_generation).1 refl,
      )
      (same_conditions_refl cs)

same_status_refl : (s : SessionStatus) → same_status s s ≡ true
unfolding same_status
same_status_refl s =
    rw (eq_refl s.phase, eq_refl s.pod_ip, eq_refl s.claim_name, eq_refl s.sandbox_name)
      (same_conditions_refl s.conditions)

-- The session with the status that a look at its sandbox leaves it with.
abbrev pub settled : Session → Sandbox → String → String → Session
settled session sandbox claim_name sandbox_name = record session {
  status = observed sandbox (pending claim_name sandbox_name session);
}

-- A session that shows a sandbox reads it again and changes nothing, as long as the server gives
-- the same sandbox; no further run is asked for.
pub update_session-settled :
    (env : Env) (session : Session) (sandbox : Sandbox) (claim_name sandbox_name : String)
    (log : Log)
    → env.api.answer log
        (get_sandbox (record { namespace = session.meta.namespace; name = sandbox_name }))
      ≡ none
    → env.api.sandbox_at log (record { namespace = session.meta.namespace; name = sandbox_name })
      ≡ sandbox
    → update_session env
        (settled session sandbox claim_name sandbox_name)
        claim_name
        sandbox_name
        log
      ≡ (
        ok no_requeue,
        get_sandbox (record { namespace = session.meta.namespace; name = sandbox_name }) ∷ [],
      )
unfolding update_session with_sandbox write_status update_status
update_session-settled env session sandbox claim_name sandbox_name log found same =
    rw (found, same, same_status_refl (settled session sandbox claim_name sandbox_name).status) refl
