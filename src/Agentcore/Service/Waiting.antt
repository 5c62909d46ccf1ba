-- ===== src/Agentcore/Service/Waiting.antt =====
-- How the wait for a session ends.
use agentland.Base.{ℕ, true, List, [], ◌∷◌, ◌++◌, ◌≡◌, refl, All, ap, sym}
use agentland.Text.{Bytes}
use agentland.Agentcore.Store.{Redis, Json}
use agentland.Agentcore.Service.{
  Server, Event, ready, status, Status, Decision, undecided, runs, fails, decide, decided, Failure,
  timeout, Result, err, wait_events, wait_session_ready, record_session,
}
use agentland.Agentcore.Service.Deciding.{IsRunning, IsUndecided, Fails, Means, decide-Means}

-- The wait is decided by the first event that decides anything: a sandbox that runs is recorded, an
-- error is passed on and nothing is recorded. Where none does, the time runs out.
pub data Waits (A : Type 0) (s : A) (es : List Event) (record_at : Bytes → Result Bytes × A)
    : Result Bytes × A → Type 0 where
  recorded :
      (before after : List Event) (st : Status) (x : Result Bytes × A)
      → es ≡ before ++ ready (status st) ∷ after
      → All IsUndecided before
      → IsRunning st
      → x ≡ record_at st.pod_ip
      → Waits A s es record_at x
  failed :
      (before after : List Event) (f : Failure) (e : Event) (x : Result Bytes × A)
      → es ≡ before ++ e ∷ after
      → All IsUndecided before
      → Fails e f
      → x ≡ (err f, s)
      → Waits A s es record_at x
  timed_out :
      (x : Result Bytes × A) → All IsUndecided es → x ≡ (err timeout, s) → Waits A s es record_at x

Waits-cons :
    (A : Type 0) (s : A) (e : Event) (es : List Event) (record_at : Bytes → Result Bytes × A)
    (x : Result Bytes × A)
    → IsUndecided e
    → Waits A s es record_at x
    → Waits A s (e ∷ es) record_at x
Waits-cons A s e es record_at x u (recorded before after st _ split all run is) =
    recorded (e ∷ before) after st x (ap (λ ds. e ∷ ds) split) (u, all) run is
Waits-cons A s e es record_at x u (failed before after f d _ split all fail is) =
    failed (e ∷ before) after f d x (ap (λ ds. e ∷ ds) split) (u, all) fail is
Waits-cons A s e es record_at x u (timed_out _ all is) = timed_out x (u, all) is

module _ (r : Redis) (json : Json) (srv : Server) (now now' later : ℕ) (id : Bytes) where
  abbrev at_address : r.State → Bytes → Result Bytes × r.State
  at_address s ip = record_session r json srv now now' later id ip s

  decided-Waits :
      (e : Event) (es : List Event) (s : r.State) (d : Decision)
      → Means e d
      → Waits r.State s es (at_address s) (wait_events r json srv now now' later id es s)
      → Waits r.State s
          (e ∷ es)
          (at_address s)
          (decided r json srv d (at_address s) (wait_events r json srv now now' later id es s) s)
  decided-Waits e es s undecided u rest =
      Waits-cons r.State s e es (at_address s) (wait_events r json srv now now' later id es s) u
        rest
  decided-Waits e es s (runs ip) (st, is, run, at) rest =
      recorded [] es st (at_address s ip) (ap (λ d. d ∷ es) is) tt run (ap (at_address s) (sym at))
  decided-Waits e es s (fails f) fail rest = failed [] es f e (err f, s) refl tt fail refl

  pub wait_events-Waits :
      (es : List Event) (s : r.State)
      → Waits r.State s es
          (λ ip. record_session r json srv now now' later id ip s)
          (wait_events r json srv now now' later id es s)
  unfolding wait_events
  wait_events-Waits [] s = timed_out (err timeout, s) tt refl
  wait_events-Waits (e ∷ es) s =
      decided-Waits e es s (decide e) (decide-Means e) (wait_events-Waits es s)

  -- Once both watches are open, the first event that decides anything decides the wait. A sandbox of
  -- phase Running with an address is recorded at it. A channel that is closed, or the phase Failed on
  -- either watch, is the answer, and nothing is recorded; the reason and message of a failure are those
  -- of the first condition, or on the watch for failures of the first named Accepted. Nothing else
  -- decides, and where no event does, the time runs out.
  pub wait_session_ready-Waits :
      (es : List Event) (s : r.State)
      → Waits r.State s es
          (λ ip. record_session r json srv now now' later id ip s)
          (wait_session_ready r json srv true now now' later id es s)
  unfolding wait_session_ready
  wait_session_ready-Waits es s = wait_events-Waits es s
