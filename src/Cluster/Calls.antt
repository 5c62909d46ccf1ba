-- ===== src/Cluster/Calls.antt =====
-- Calls to the API server, its answers, and actions that make them.
use agentland.Base.{ℕ, Option, none, some, List, [], ◌∷◌, ◌++◌, String}
use agentland.Cluster.{
  ObjectKey, Pod, Sandbox, SandboxPool, SandboxClaim, Session, AgentRuntime, StringMap,
}

-- The errors that the controllers tell apart, and those that they make.
pub data Error : Type 0 where
  not_found conflict already_exists other : Error
  template_required owner_refused : Error

pub data Result {ℓ} (A : Type ℓ) : Type ℓ where
  ok : A → Result A
  err : Error → Result A

-- A list of pods is asked for by namespace and by labels that must have these values.
pub data Call : Type 0 where
  get_pool get_claim get_sandbox get_session get_runtime get_pod : ObjectKey → Call
  list_pods : String → StringMap → Call
  create_pod update_pod delete_pod : Pod → Call
  create_sandbox update_sandbox_status : Sandbox → Call
  create_claim update_claim_status : SandboxClaim → Call
  update_pool_status patch_pool : SandboxPool → Call
  update_session_status : Session → Call
  update_runtime_status : AgentRuntime → Call

abbrev pub Log : Type 0
Log = List Call

-- The server: what it answers after the calls of a log.
pub record Api : Type 0 where
  pub answer : Log → Call → Option Error
  pub pool_at : Log → ObjectKey → SandboxPool
  pub claim_at : Log → ObjectKey → SandboxClaim
  pub sandbox_at : Log → ObjectKey → Sandbox
  pub session_at : Log → ObjectKey → Session
  pub runtime_at : Log → ObjectKey → AgentRuntime
  pub pod_at : Log → ObjectKey → Pod
  pub pods_at : Log → String → StringMap → List Pod

-- An action in a log: its result and the calls that it makes.
abbrev pub Action {ℓ} : Type ℓ → Type ℓ
Action A = Log → Result A × Log

infixl 10 ◌>>=◌ ◌>>◌
abbrev pub continue {ℓ} : {A B : Type ℓ} → Log → Result A × Log → (A → Action B) → Result B × Log
continue log (ok a, made) f = let (r, more) = f a (log ++ made) in (r, made ++ more)
continue log (err e, made) f = (err e, made)

abbrev pub ◌>>=◌ {ℓ} : {A B : Type ℓ} → Action A → (A → Action B) → Action B
◌>>=◌ m f log = continue log (m log) f

abbrev pub ◌>>◌ {ℓ} : {A B : Type ℓ} → Action A → Action B → Action B
m >> n = m >>= λ _. n

abbrev pub return {ℓ} : {A : Type ℓ} → A → Action A
return a log = (ok a, [])

abbrev pub fail {ℓ} : {A : Type ℓ} → Error → Action A
fail e log = (err e, [])

-- The result of an action as a value, so that the code can look at its error.
abbrev pub caught : {A : Type 0} → Result A × Log → Result (Result A) × Log
caught (r, made) = (ok r, made)

abbrev pub try : {A : Type 0} → Action A → Action (Result A)
try m log = caught (m log)

abbrev answered : {A : Type 0} → Option Error → A → Result A
answered none a = ok a
answered (some e) a = err e

module _ (api : Api) where
  abbrev pub call : Call → Action (Unit {0})
  call c log = (answered (api.answer log c) tt, c ∷ [])

  abbrev pub ask : {A : Type 0} → Call → (Log → A) → Action A
  ask c read log = (answered (api.answer log c) (read log), c ∷ [])

  abbrev pub list : String → StringMap → Action (List Pod)
  list namespace labels = ask (list_pods namespace labels) (λ log. api.pods_at log namespace labels)

-- How soon a reconcile asks to run again.
pub data Requeue : Type 0 where
  no_requeue at_once : Requeue
  after_ms : ℕ → Requeue
