-- ===== src/Controller/Sandbox.antt =====
-- The sandboxes (internal/controller/sandbox_controller.go): each gets one pod, an adopted one, one
-- that it has already, or a new one, and shows its state.
pub mod Status
pub mod Handoff
pub mod Safety
use agentland.Base.{
  Bool, true, false, not, ◌&&◌, ◌||◌, Option, none, some, List, [], ◌∷◌, String, str_eq,
  if◌then◌else◌,
}
use agentland.Cluster.{
  ObjectKey, ObjectMeta, OwnerReference, Pod, Sandbox, SandboxStatus, SandboxTemplate, no_status,
  new_meta, put, value,
}
use agentland.Cluster.Calls.{
  get_sandbox, get_pod, update_pod, create_pod, update_sandbox_status, already_exists,
  template_required, Result, ok, err, Action, Requeue, no_requeue, return, fail, try, continue,
  call, ask, list, ◌>>=◌, ◌>>◌,
}
use agentland.Controller.{
  Env, sandbox_label, pod_name_annotation, is_pod_ready, reference, owned, set_controller,
  unless_gone, unless_conflict, pod_spec,
}

abbrev pub sandbox_owner : Sandbox → OwnerReference
sandbox_owner sandbox = reference "Sandbox" sandbox.meta

abbrev pub pod_status : Pod → SandboxStatus
unfolding is_pod_ready
pod_status pod =
    if str_eq pod.status.phase "Running" && is_pod_ready pod && not (str_eq pod.status.pod_ip "")
    then record { phase = "Running"; pod_ip = pod.status.pod_ip }
    else if str_eq pod.status.phase "Failed" || str_eq pod.status.phase "Succeeded"
    then record { phase = pod.status.phase; pod_ip = "" }
    else record { phase = "Pending"; pod_ip = "" }

unfoldable pub sandbox_status_from_pod : Option Pod → SandboxStatus
unfolding pod_status
sandbox_status_from_pod none = record { phase = "Pending"; pod_ip = "" }
sandbox_status_from_pod (some pod) = pod_status pod

unfoldable pub first_alive : List Pod → Option Pod
first_alive [] = none
first_alive (pod ∷ pods) = if pod.meta.deleting then first_alive pods else some pod

abbrev pub same_status : SandboxStatus → SandboxStatus → Bool
same_status a b = str_eq a.phase b.phase && str_eq a.pod_ip b.pod_ip

module _ (env : Env) (pull_policy : String) where
  -- The reference is set only where the pod has no controller.
  abbrev pub own_orphan : Sandbox → ObjectMeta → Option OwnerReference → Action ObjectMeta
  own_orphan sandbox meta none = set_controller env (sandbox_owner sandbox) meta
  own_orphan sandbox meta (some owner) = return meta

  abbrev pub labelled : Sandbox → Pod → ObjectMeta
  labelled sandbox pod = record pod.meta {
    labels = put sandbox_label (env.name_hash sandbox.meta.name) pod.meta.labels;
  }

  unfoldable pub adopt : Sandbox → Pod → Action Pod
  adopt sandbox pod = do
    meta ← own_orphan sandbox (labelled sandbox pod) pod.meta.controller
    let mine : Pod = record pod { meta = meta }
    call env.api (update_pod mine)
    return mine

  abbrev pub new_pod : Sandbox → SandboxTemplate → Pod
  unfolding pod_spec
  new_pod sandbox t = record {
    meta = record (new_meta sandbox.meta.namespace sandbox.meta.name) {
      labels = (sandbox_label, env.name_hash sandbox.meta.name) ∷ [];
    };
    spec = pod_spec pull_policy t;
    status = no_status;
  }

  -- A pod that exists already is taken for the one to create.
  abbrev pub created : Pod → Result (Unit {0}) → Action Pod
  created pod (ok u) log = (ok pod, [])
  created pod (err already_exists) log = (ok pod, [])
  created pod (err e) log = (err e, [])

  unfoldable pub create : Sandbox → Option SandboxTemplate → Action Pod
  unfolding new_pod
  create sandbox none = fail template_required
  create sandbox (some t) = do
    meta ← set_controller env (sandbox_owner sandbox) (new_pod sandbox t).meta
    let pod : Pod = record (new_pod sandbox t) { meta = meta }
    done ← try (call env.api (create_pod pod))
    created pod done

  abbrev pub or_create : Sandbox → Option Pod → Action Pod
  unfolding create
  or_create sandbox none = create sandbox sandbox.spec.template
  or_create sandbox (some pod) = return pod

  unfoldable pub find_or_create : Sandbox → Action Pod
  unfolding first_alive or_create
  find_or_create sandbox = do
    pods ←
        list env.api sandbox.meta.namespace ((sandbox_label, env.name_hash sandbox.meta.name) ∷ [])
    or_create sandbox (first_alive pods)

  -- Whatever the error was, a pod that cannot be read is not adopted.
  abbrev pub adopt_found : Sandbox → Result Pod → Action Pod
  unfolding adopt find_or_create
  adopt_found sandbox (ok pod) = adopt sandbox pod
  adopt_found sandbox (err e) = find_or_create sandbox

  unfoldable pub reconcile_pod : Sandbox → Action Pod
  unfolding value find_or_create adopt_found
  reconcile_pod sandbox =
      let name = value pod_name_annotation sandbox.meta.annotations in
      let key : ObjectKey = record { namespace = sandbox.meta.namespace; name = name } in
      if str_eq name "" then find_or_create sandbox else do
        got ← try (ask env.api (get_pod key) (λ log. env.api.pod_at log key))
        adopt_found sandbox got

  unfoldable pub update_status : SandboxStatus → Sandbox → Action (Unit {0})
  update_status old sandbox =
      if same_status old sandbox.status
      then return tt
      else call env.api (update_sandbox_status sandbox)

  -- The sandbox with the status of its pod.
  abbrev pub shown : Sandbox → Pod → Sandbox
  unfolding sandbox_status_from_pod
  shown sandbox pod = record sandbox { status = sandbox_status_from_pod (some pod) }

  abbrev pub with_sandbox : Sandbox → Action Requeue
  unfolding reconcile_pod update_status shown
  with_sandbox sandbox = do
    pod ← reconcile_pod sandbox
    done ← try (update_status sandbox.status (shown sandbox pod))
    unless_conflict no_requeue done

  unfoldable pub reconcile : ObjectKey → Action Requeue
  unfolding with_sandbox
  reconcile key = do
    got ← try (ask env.api (get_sandbox key) (λ log. env.api.sandbox_at log key))
    unless_gone got
        (λ sandbox. if sandbox.meta.deleting then return no_requeue else with_sandbox sandbox)
