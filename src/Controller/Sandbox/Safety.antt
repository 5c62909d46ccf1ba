-- ===== src/Controller/Sandbox/Safety.antt =====
-- Which calls a sandbox's reconcile can make, whatever the server answers.
use agentland.Base.{
  Option, none, some, [], ◌∷◌, ◌++◌, ◌≡◌, ◌≢◌, refl, arith, All, Bool-cases, Option-cases, if-cases,
  inl, inr, String, str_eq, if◌then◌else◌,
}
use agentland.Cluster.{Pod, Sandbox, SandboxTemplate, OwnerReference, ObjectKey, lookup, value}
use agentland.Cluster.Calls.{
  Call, get_sandbox, get_pod, list_pods, update_pod, create_pod, update_sandbox_status, not_found,
  already_exists, Log, Action, Result, ok, err, continue, return, Requeue, no_requeue, call, ask,
  try, list, ◌>>◌,
}
use agentland.Controller.{Env, sandbox_label, pod_name_annotation, owned, unless_conflict}
use agentland.Controller.Loops.{ThenOnly, continue-All, call-All, unless_conflict-All, update-All}
use agentland.Controller.Claim.Adoption.{lookup-put}
use agentland.Controller.Sandbox.{
  sandbox_owner, own_orphan, labelled, adopt, new_pod, created, create, or_create, first_alive,
  find_or_create, adopt_found, reconcile_pod, update_status, same_status, shown, with_sandbox,
  reconcile,
}

-- A pod to create is the sandbox's own: its name, its label and its controller.
pub record IsOwn (env : Env) (sandbox : Sandbox) (pod : Pod) : Type 0 where
  pub named : (pod.meta.name ≡ sandbox.meta.name) × (pod.meta.namespace ≡ sandbox.meta.namespace)
  pub owner : pod.meta.controller ≡ some (sandbox_owner sandbox)
  pub label : lookup sandbox_label pod.meta.labels ≡ some (env.name_hash sandbox.meta.name)

-- What a reconcile may ask of the server for a sandbox that it has read. A pod that it updates has
-- the sandbox's label and a controller.
abbrev pub IsPermitted : Env → Sandbox → Call → Type 0
IsPermitted env sandbox (get_pod key) =
    (key.namespace ≡ sandbox.meta.namespace)
    × (key.name ≡ value pod_name_annotation sandbox.meta.annotations)
IsPermitted env sandbox (list_pods namespace labels) =
    (namespace ≡ sandbox.meta.namespace)
    × (labels ≡ (sandbox_label, env.name_hash sandbox.meta.name) ∷ [])
IsPermitted env sandbox (update_pod pod) =
    (pod.meta.controller ≢ none)
    × (lookup sandbox_label pod.meta.labels ≡ some (env.name_hash sandbox.meta.name))
IsPermitted env sandbox (create_pod pod) = IsOwn env sandbox pod
IsPermitted env sandbox (update_sandbox_status sandbox') =
    (sandbox'.spec ≡ sandbox.spec) × (sandbox'.meta ≡ sandbox.meta)
IsPermitted env sandbox _ = ⊥

module _ (env : Env) (pull_policy : String) (sandbox : Sandbox) where
  abbrev P : Call → Type 0
  P = IsPermitted env sandbox

  adopt-case :
      (pod : Pod) (c : Option OwnerReference) (log : Log)
      → pod.meta.controller ≡ c
      → All P
          (continue log
            (own_orphan env pull_policy sandbox (labelled env pull_policy sandbox pod) c log)
            (λ meta.
              call env.api (update_pod (record pod { meta = meta }))
              >> return (record pod { meta = meta }))).1
  adopt-case pod none log e =
      elim (Bool-cases
        (env.accepts_owner (sandbox_owner sandbox) (labelled env pull_policy sandbox pod))) [
          | inl h ↦ rw h (
              call-All P env.api (log ++ [])
                (update_pod (record pod {
                  meta = owned (sandbox_owner sandbox) (labelled env pull_policy sandbox pod);
                }))
                (return (record pod {
                  meta = owned (sandbox_owner sandbox) (labelled env pull_policy sandbox pod);
                }))
                ((λ f. absurd (ground (arith, f))), lookup-put sandbox_label _ _) (λ _. tt))
          | inr h ↦ rw h tt
        ]
  adopt-case pod (some owner) log e =
      call-All P env.api (log ++ [])
        (update_pod (record pod { meta = labelled env pull_policy sandbox pod }))
        (return (record pod { meta = labelled env pull_policy sandbox pod }))
        ((λ f. absurd (ground (arith, f, e))), lookup-put sandbox_label _ _) (λ _. tt)

  adopt-Permitted : (pod : Pod) (log : Log) → All P (adopt env pull_policy sandbox pod log).1
  unfolding adopt
  adopt-Permitted pod log = adopt-case pod pod.meta.controller log refl

  created-All :
      (pod : Pod) (done : Result (Unit {0})) (log : Log)
      → All P (created env pull_policy pod done log).1
  created-All pod (ok u) log = tt
  created-All pod (err already_exists) log = tt
  created-All pod (err e) log = tt

  new_pod-IsOwn :
      (t : SandboxTemplate)
      → IsOwn env sandbox (record (new_pod env pull_policy sandbox t) {
        meta = owned (sandbox_owner sandbox) (new_pod env pull_policy sandbox t).meta;
      })
  unfolding lookup new_pod
  new_pod-IsOwn t = record { named = (refl, refl); owner = refl; label = refl }

  create-Permitted :
      (t : Option SandboxTemplate) (log : Log) → All P (create env pull_policy sandbox t log).1
  unfolding create
  create-Permitted none log = tt
  create-Permitted (some t) log =
      elim (Bool-cases
        (env.accepts_owner (sandbox_owner sandbox) (new_pod env pull_policy sandbox t).meta)) [
          | inl h ↦ rw h (
              continue-All P (log ++ [])
                (try
                  (call env.api (
                    create_pod (record (new_pod env pull_policy sandbox t) {
                      meta = owned (sandbox_owner sandbox) (new_pod env pull_policy sandbox t).meta;
                    })))
                  (log ++ []))
                (created env pull_policy (record (new_pod env pull_policy sandbox t) {
                  meta = owned (sandbox_owner sandbox) (new_pod env pull_policy sandbox t).meta;
                }))
                (new_pod-IsOwn t, tt) (λ done _. created-All _ done _))
          | inr h ↦ rw h tt
        ]

  or_create-Permitted :
      (pod : Option Pod) (log : Log) → All P (or_create env pull_policy sandbox pod log).1
  unfolding or_create create
  or_create-Permitted none log = create-Permitted sandbox.spec.template log
  or_create-Permitted (some pod) log = tt

  find_or_create-Permitted : (log : Log) → All P (find_or_create env pull_policy sandbox log).1
  unfolding find_or_create
  find_or_create-Permitted log =
      continue-All P log
        (list env.api sandbox.meta.namespace ((sandbox_label, env.name_hash sandbox.meta.name) ∷ [])
          log)
        (λ pods. or_create env pull_policy sandbox (first_alive pods)) ((refl, refl), tt)
        (λ pods _. or_create-Permitted (first_alive pods) _)

  adopt_found-Permitted :
      (got : Result Pod) (log : Log) → All P (adopt_found env pull_policy sandbox got log).1
  unfolding adopt_found
  adopt_found-Permitted (ok pod) log = adopt-Permitted pod log
  adopt_found-Permitted (err e) log = find_or_create-Permitted log

  abbrev named_key : ObjectKey
  named_key = record {
    namespace = sandbox.meta.namespace;
    name = value pod_name_annotation sandbox.meta.annotations;
  }

  reconcile_pod-Permitted : (log : Log) → All P (reconcile_pod env pull_policy sandbox log).1
  unfolding reconcile_pod
  reconcile_pod-Permitted log =
      if-cases (λ (m : Action Pod). All P (m log).1)
        (str_eq (value pod_name_annotation sandbox.meta.annotations) "") _ _
        (λ _. find_or_create-Permitted log)
        (λ _.
          continue-All P log
            (try (ask env.api (get_pod named_key) (λ log'. env.api.pod_at log' named_key)) log)
            (adopt_found env pull_policy sandbox) ((refl, refl), tt)
            (λ got _. adopt_found-Permitted got _))

  with_sandbox-Permitted : (log : Log) → All P (with_sandbox env pull_policy sandbox log).1
  unfolding with_sandbox update_status
  with_sandbox-Permitted log =
      continue-All P log (reconcile_pod env pull_policy sandbox log) _ (reconcile_pod-Permitted log)
        (λ pod _.
          continue-All P (log ++ (reconcile_pod env pull_policy sandbox log).1)
            (try (update_status env pull_policy sandbox.status (shown env pull_policy sandbox pod))
              (log ++ (reconcile_pod env pull_policy sandbox log).1))
            (unless_conflict no_requeue)
            (update-All P env.api
              (same_status sandbox.status (shown env pull_policy sandbox pod).status)
              (update_sandbox_status (shown env pull_policy sandbox pod)) _ (refl, refl))
            (λ done _. unless_conflict-All P no_requeue done _))

  found-Permitted :
      (log : Log)
      → All P
          ((if sandbox.meta.deleting
              then return no_requeue
              else with_sandbox env pull_policy sandbox)
            log).1
  found-Permitted log =
      if-cases (λ (m : Action Requeue). All P (m log).1) sandbox.meta.deleting _ _ (λ _. tt)
        (λ _. with_sandbox-Permitted log)

-- Whatever the server answers, a reconcile asks for the sandbox and then only for what is permitted
-- for the sandbox that it read.
pub sandbox_reconcile-Permitted :
    (env : Env) (pull_policy : String) (key : ObjectKey) (log : Log)
    → ThenOnly
        (get_sandbox key)
        (IsPermitted env (env.api.sandbox_at log key))
        (reconcile env pull_policy key log).1
unfolding reconcile
sandbox_reconcile-Permitted env pull_policy key log =
    elim (Option-cases (env.api.answer log (get_sandbox key))) [
      | inl e ↦ rw e (
        refl,
        found-Permitted env pull_policy (env.api.sandbox_at log key) (log ++ get_sandbox key ∷ []),
      )
      | inr (not_found, e) ↦ rw e (refl, tt)
      | inr (x, e) ↦ rw e (refl, tt)
    ]
