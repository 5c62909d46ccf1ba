-- ===== src/Controller/Tests.antt =====
-- The theorems on the controllers at concrete inputs: a cluster with one pool, two pods, a claim and
-- a session, whose server takes every call.
use agentland.Base.{true, false, none, some, [], ◌∷◌, ◌≡◌, refl, All, String, ◌≤◌}
use agentland.Cluster.{
  ObjectKey, OwnerReference, Pod, PodStatus, Sandbox, SandboxPool, SandboxClaim, Session,
  AgentRuntime, SandboxTemplate, new_meta, no_status,
}
use agentland.Cluster.Calls.{
  Api, get_pool, get_sandbox, get_runtime, get_pod, update_pod, ok, no_requeue, after_ms,
}
use agentland.Controller.{Env, pod_spec, pool_label, sandbox_label, sort, default_requeue_ms}
use agentland.Controller.Loops.{ThenOnly, OnOk, Succeeds}
use agentland.Controller.Pool
use agentland.Controller.Pool.Safety as PoolSafety
use agentland.Controller.Pool.Safety.{pool_reconcile-Permitted}
use agentland.Controller.Pool.Scaling.{
  wanted_calls, scale-calls, scale-Succeeds, surplus, kept, surplus-newest,
}
use agentland.Controller.Claim
use agentland.Controller.Claim.Permitted as ClaimPermitted
use agentland.Controller.Claim.Adoption.{matches, adopted-matches}
use agentland.Controller.Claim.Selection.{Chosen, select-Chosen}
use agentland.Controller.Sandbox
use agentland.Controller.Sandbox.Safety as SandboxSafety
use agentland.Controller.Sandbox.Safety.{sandbox_reconcile-Permitted}
use agentland.Controller.Sandbox.Status.{Shows, status-Shows}
use agentland.Controller.Sandbox.Handoff.{stored, taken, handoff}
use agentland.Controller.Session
use agentland.Controller.Session.{agent_session, Config, code_interpreter}
use agentland.Controller.Session.Safety as SessionSafety
use agentland.Controller.Session.Safety.{provision-Permitted}
use agentland.Controller.Session.Settled.{settled, update_session-settled}
use agentland.Controller.Reconcile.{
  resolve_session_config, reconcile_agent_session, with_accepted, reconcile_agent_runtime,
}
use agentland.Controller.Reconcile.Resolution.{
  IsComplete, HasImage, resolve-IsComplete, agent_session-HasImage,
}
use agentland.Controller.Reconcile.Runtime.{runtime_settled}

abbrev template : SandboxTemplate
template = record { image = "python:3"; runtime_class_name = ""; command = []; args = [] }

abbrev pool : SandboxPool
pool = record {
  meta = record (new_meta "ns" "pool") { uid = "u1" };
  spec = record { replicas = 1; profile = "default"; template = some template };
  status = record { replicas = 0; ready_replicas = 0 };
}

abbrev ready : PodStatus
ready = record {
  phase = "Running";
  pod_ip = "10.0.0.1";
  conditions = record { type = "Ready"; status = "True" } ∷ [];
}

abbrev pool_reference : OwnerReference
pool_reference = record { kind = "SandboxPool"; name = "pool"; uid = "u1" }

abbrev warm_pod : Pod
warm_pod = record {
  meta = record (new_meta "ns" "pool-a") {
    labels = (pool_label, "h") ∷ [];
    controller = some pool_reference;
    created_at = 5;
  };
  spec = pod_spec "" template;
  status = ready;
}

abbrev starting_pod : Pod
starting_pod = record warm_pod {
  meta = record warm_pod.meta { name = "pool-b"; created_at = 9 };
  status = no_status;
}

abbrev claim : SandboxClaim
claim = record {
  meta = record (new_meta "ns" "s1") { uid = "u2" };
  spec = record {
    profile = "default";
    pool_ref = "pool";
    fallback_policy = "ForbidColdStart";
    template = some template;
  };
  status = record { phase = ""; sandbox_name = ""; reason = "" };
}

abbrev session : Session
session = record {
  meta = record (new_meta "ns" "s1") { uid = "u3" };
  spec = record {
    runtime_ref = some (record { namespace = ""; name = "rt" });
    template = none;
    provisioning = some (record { mode = "PoolRequired"; pool_ref = "pool"; profile = "" });
  };
  status = record { phase = ""; pod_ip = ""; claim_name = ""; sandbox_name = ""; conditions = [] };
}

abbrev runtime : AgentRuntime
runtime = record {
  meta = new_meta "ns" "rt";
  template = some template;
  provisioning = none;
  conditions = [];
}

abbrev sandbox : Sandbox
sandbox = record {
  meta = record (new_meta "ns" "s1") { uid = "u4" };
  spec = record { profile = "default"; claim_ref = "s1"; template = some template };
  status = record { phase = "Running"; pod_ip = "10.0.0.1" };
}

abbrev api : Api
api = record {
  answer = λ _ _. none;
  pool_at = λ _ _. pool;
  claim_at = λ _ _. claim;
  sandbox_at = λ _ _. sandbox;
  session_at = λ _ _. session;
  runtime_at = λ _ _. runtime;
  pod_at = λ _ _. warm_pod;
  pods_at = λ _ _ _. starting_pod ∷ warm_pod ∷ [];
}

abbrev env : Env
env = record {
  api = api;
  name_hash = λ s. s;
  now = λ _. "2026-01-01T00:00:00Z";
  set_condition = λ c _. c ∷ [];
  accepts_owner = λ _ _. true;
}

abbrev key : ObjectKey
key = record { namespace = "ns"; name = "s1" }

pool_reconcile-Permitted_example :
    ThenOnly (get_pool key) (PoolSafety.IsPermitted env "" pool) (Pool.reconcile env "" key []).1
pool_reconcile-Permitted_example = pool_reconcile-Permitted env "" key []

sandbox_reconcile-Permitted_example :
    ThenOnly
      (get_sandbox key)
      (SandboxSafety.IsPermitted env sandbox)
      (Sandbox.reconcile env "" key []).1
sandbox_reconcile-Permitted_example = sandbox_reconcile-Permitted env "" key []

scale-calls_example :
    (Pool.scale env "" pool template (starting_pod ∷ warm_pod ∷ []) []).1
    ≡ wanted_calls env "" pool template (starting_pod ∷ warm_pod ∷ [])
unfolding Pool.scale
scale-calls_example =
    scale-calls env "" pool template (starting_pod ∷ warm_pod ∷ []) [] (after_ms default_requeue_ms)
      refl

test_scale-Succeeds : Succeeds (Pool.scale env "" pool template (starting_pod ∷ warm_pod ∷ []))
test_scale-Succeeds =
    scale-Succeeds env "" pool template (starting_pod ∷ warm_pod ∷ []) (λ _ _. refl) refl

test_surplus :
    All
      (λ d.
        All (λ k. k.meta.created_at ≤ d.meta.created_at) (kept pool (warm_pod ∷ starting_pod ∷ [])))
      (surplus pool (warm_pod ∷ starting_pod ∷ []))
test_surplus = surplus-newest pool (warm_pod ∷ starting_pod ∷ [])

select-Chosen_example :
    Chosen
      (starting_pod ∷ warm_pod ∷ [])
      (Claim.first (sort Claim.warmer (Claim.candidates (starting_pod ∷ warm_pod ∷ []))))
select-Chosen_example = select-Chosen (starting_pod ∷ warm_pod ∷ [])

adopted-matches_example :
    ((other' : SandboxClaim)
      → matches (Claim.selector env other') (Claim.adopted env claim warm_pod).meta.labels ≡ false)
    × ((hash : String)
        → matches ((pool_label, hash) ∷ []) (Claim.adopted env claim warm_pod).meta.labels ≡ false)
    × (matches ((sandbox_label, "s1") ∷ []) (Claim.adopted env claim warm_pod).meta.labels ≡ true)
adopted-matches_example = adopted-matches env claim warm_pod

abbrev env_adopted : Env
env_adopted = record env { api = record api { pod_at = λ _ _. Claim.adopted env claim warm_pod } }

handoff_example :
    Sandbox.reconcile_pod env_adopted "" (stored env_adopted claim template warm_pod "u9") [] ≡ (
      ok (taken env_adopted claim template warm_pod "u9"),
      get_pod (record { namespace = "ns"; name = "pool-a" })
          ∷ update_pod (taken env_adopted claim template warm_pod "u9")
          ∷ [],
    )
handoff_example =
    handoff env_adopted "" claim template warm_pod "u9" [] refl (λ _ _. refl) refl refl

test_status-Shows : Shows (some warm_pod) (Sandbox.sandbox_status_from_pod (some warm_pod))
test_status-Shows = status-Shows (some warm_pod)

abbrev config : Config
config = record { template = some template; provisioning = session.spec.provisioning }

provision-Permitted_example :
    All
      (SessionSafety.IsPermitted env agent_session session config)
      (Session.provision env agent_session session config []).1
provision-Permitted_example = provision-Permitted env agent_session session config []

update_session-settled_example :
    Session.update_session env (settled session sandbox "s1" "s1") "s1" "s1" []
    ≡ (ok no_requeue, get_sandbox key ∷ [])
update_session-settled_example = update_session-settled env session sandbox "s1" "s1" [] refl refl

test_resolve-IsComplete : OnOk (IsComplete session) (resolve_session_config env session []).0
test_resolve-IsComplete = resolve-IsComplete env session []

agent_session-HasImage_example : All HasImage (reconcile_agent_session env key []).1
agent_session-HasImage_example = agent_session-HasImage env key []

abbrev env_accepted : Env
env_accepted = record env { api = record api { runtime_at = λ _ _. with_accepted env runtime } }

test_runtime_settled :
    reconcile_agent_runtime env_accepted key [] ≡ (ok no_requeue, get_runtime key ∷ [])
test_runtime_settled = runtime_settled env_accepted runtime key [] (λ _ _. refl) refl refl
