-- ===== src/Controller/Sandbox/Handoff.antt =====
-- A pod on its way from a pool to a sandbox.
use agentland.Base.{true, false, none, some, [], ◌∷◌, ◌++◌, ◌≡◌, refl, String, str_eq}
use agentland.Cluster.{Pod, Sandbox, SandboxClaim, SandboxTemplate, lookup, put, value}
use agentland.Cluster.Calls.{Call, get_pod, update_pod, Log, ok}
use agentland.Controller.{Env, pod_name_annotation, owned}
use agentland.Controller.Claim.{adopted, claimed_sandbox}
use agentland.Controller.Sandbox.{reconcile_pod, sandbox_owner, adopt, labelled}

-- The sandbox as the server gives it back, with the unique id that it got.
abbrev pub stored : Env → SandboxClaim → SandboxTemplate → Pod → String → Sandbox
stored env claim t pod uid = record (claimed_sandbox env claim t (some pod)) {
  meta = record (claimed_sandbox env claim t (some pod)).meta { uid = uid };
}

abbrev pub taken : Env → SandboxClaim → SandboxTemplate → Pod → String → Pod
taken env claim t pod uid = record (adopted env claim pod) {
  meta =
      owned (sandbox_owner (stored env claim t pod uid))
        (labelled env "" (stored env claim t pod uid) (adopted env claim pod));
}

pod_name :
    (env : Env) (claim : SandboxClaim) (t : SandboxTemplate) (pod : Pod) (uid : String)
    → value pod_name_annotation (stored env claim t pod uid).meta.annotations ≡ pod.meta.name
unfolding value claimed_sandbox put lookup
pod_name env claim t pod uid = refl

-- Where the claim has adopted a pod with a name, and the server gives it back and takes the update,
-- the sandbox that the claim made reads that pod by its name, becomes its controller, and takes no
-- other pod.
pub handoff :
    (env : Env) (pull_policy : String) (claim : SandboxClaim) (t : SandboxTemplate) (pod : Pod)
    (uid : String) (log : Log)
    → str_eq pod.meta.name "" ≡ false
    → ((log' : Log) (c : Call) → env.api.answer log' c ≡ none)
    → env.api.pod_at log (record { namespace = claim.meta.namespace; name = pod.meta.name })
      ≡ adopted env claim pod
    → env.accepts_owner
        (sandbox_owner (stored env claim t pod uid))
        (labelled env pull_policy (stored env claim t pod uid) (adopted env claim pod))
      ≡ true
    → reconcile_pod env pull_policy (stored env claim t pod uid) log ≡ (
      ok (taken env claim t pod uid),
      get_pod (record { namespace = claim.meta.namespace; name = pod.meta.name })
          ∷ update_pod (taken env claim t pod uid)
          ∷ [],
    )
unfolding reconcile_pod adopt claimed_sandbox put
handoff env pull_policy claim t pod uid log named takes found owns =
    rw
      (
        pod_name env claim t pod uid,
        named,
        takes log (get_pod (record { namespace = claim.meta.namespace; name = pod.meta.name })),
        found,
        owns,
      )
      (rw
        (takes
          ((log ++ get_pod (record { namespace = claim.meta.namespace; name = pod.meta.name }) ∷ [])
            ++ [])
          (update_pod (taken env claim t pod uid)))
        refl)
