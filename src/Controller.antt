-- ===== src/Controller.antt =====
-- The controllers of internal/controller, and what they share: internal/controller/sandbox_pod_common.go,
-- pkg/common/utils/sandbox.go and the selectors of pkg/common/utils/hash_selector.go.
pub mod Loops
pub mod Listing
pub mod Sorting
pub mod Pool
pub mod Claim
pub mod Sandbox
pub mod Session
pub mod Reconcile
mod Tests
use agentland.Base.{
  ℕ, zero, suc, ltb, Bool, true, false, ◌&&◌, ◌||◌, Option, none, some, List, [], ◌∷◌, String,
  str_eq, if◌then◌else◌,
}
use agentland.Cluster.{
  Condition, put, value, ObjectMeta, OwnerReference, Pod, PodCondition, PodSpec, SandboxTemplate,
  VolumeMount, Volume, secret, empty_dir, no_status, StringMap, new_meta,
}
use agentland.Cluster.Calls.{
  Api, Log, conflict, already_exists, Error, not_found, Result, ok, err, Action, Requeue,
  no_requeue, after_ms, return, fail, continue, ◌>>=◌, ◌>>◌, owner_refused,
}

-- What a controller is given: the server, `utils.NameHash` (a truncated SHA-256),
-- controllerutil.SetControllerReference's verdict on an owner and an object, the time as
-- `touchSandboxPool` writes it, and meta.SetStatusCondition.
pub record Env : Type 0 where
  pub api : Api
  pub name_hash : String → String
  pub now : Log → String
  pub set_condition : Condition → List Condition → List Condition
  pub accepts_owner : OwnerReference → ObjectMeta → Bool

abbrev pub pool_label : String
pool_label = "agentland.fl0rencess720.app/pool"

abbrev pub profile_hash_label : String
profile_hash_label = "agentland.fl0rencess720.app/profile-hash"

abbrev pub sandbox_label : String
sandbox_label = "agentland.fl0rencess720.app/sandbox-name-hash"

abbrev pub claim_uid_label : String
claim_uid_label = "agentland.fl0rencess720.app/claim-uid"

abbrev pub pod_name_annotation : String
pod_name_annotation = "agentland.fl0rencess720.app/pod-name"

abbrev pub pool_backfill_touch_annotation : String
pool_backfill_touch_annotation = "agentland.fl0rencess720.app/pool-backfill-touch-at"

abbrev pub default_requeue_ms : ℕ
default_requeue_ms = 500

abbrev pub conflict_requeue_ms : ℕ
conflict_requeue_ms = 100

abbrev pub fallback_requeue_ms : ℕ
fallback_requeue_ms = 2000

unfoldable pub has_ready : List PodCondition → Bool
has_ready [] = false
has_ready (c ∷ cs) = (str_eq c.type "Ready" && str_eq c.status "True") || has_ready cs

unfoldable pub is_pod_ready : Pod → Bool
unfolding has_ready
is_pod_ready pod = has_ready pod.status.conditions

-- The owner that SetControllerReference writes for an object of this kind.
abbrev pub reference : String → ObjectMeta → OwnerReference
reference kind meta = record { kind = kind; name = meta.name; uid = meta.uid }

abbrev pub owned : OwnerReference → ObjectMeta → ObjectMeta
owned owner meta = record meta { controller = some owner }

-- controllerutil.SetControllerReference, where the caller returns its error.
abbrev pub set_controller : Env → OwnerReference → ObjectMeta → Action ObjectMeta
set_controller env owner meta =
    if env.accepts_owner owner meta then return (owned owner meta) else fail owner_refused

-- client.IgnoreNotFound around what follows a read.
abbrev pub unless_gone {ℓ} : {A : Type ℓ} → Result A → (A → Action Requeue) → Action Requeue
unless_gone (ok a) f log = f a log
unless_gone (err not_found) f log = (ok no_requeue, [])
unless_gone (err e) f log = (err e, [])

-- What follows a status update: a conflict asks for a new run soon, other errors are returned.
abbrev pub unless_conflict : Requeue → Result (Unit {0}) → Action Requeue
unless_conflict next (ok u) log = (ok next, [])
unless_conflict next (err conflict) log = (ok (after_ms conflict_requeue_ms), [])
unless_conflict next (err e) log = (err e, [])

-- A creation that finds the object already there is no error.
abbrev pub unless_exists : Result (Unit {0}) → Action (Unit {0})
unless_exists (ok u) log = (ok tt, [])
unless_exists (err already_exists) log = (ok tt, [])
unless_exists (err e) log = (err e, [])

abbrev pub trace_keys : List String
trace_keys =
    "observability.agentland.io/traceparent" ∷ "observability.agentland.io/tracestate"
    ∷ "observability.agentland.io/request-id" ∷ []

unfoldable pub copy_keys : List String → StringMap → StringMap → StringMap
unfolding put value
copy_keys [] dst src = dst
copy_keys (k ∷ ks) dst src =
    copy_keys ks (if str_eq (value k src) "" then dst else put k (value k src) dst) src

-- observability.PropagateTraceAnnotations
unfoldable pub propagate_trace_annotations : StringMap → StringMap → StringMap
unfolding copy_keys
propagate_trace_annotations dst src = copy_keys trace_keys dst src

-- `for _, x := range xs` with an early return on an error.
unfoldable pub for_each {ℓ} : {A : Type ℓ} → (A → Action (Unit {0})) → List A → Action (Unit {0})
for_each f [] log = (ok tt, [])
for_each f (x ∷ xs) log = continue log (f x log) (λ _. for_each f xs)

unfoldable pub repeat : ℕ → Action (Unit {0}) → Action (Unit {0})
repeat zero m log = (ok tt, [])
repeat (suc n) m log = continue log (m log) (λ _. repeat n m)

-- sort.Slice by a strict order. Go leaves the order of equal elements open; here they keep theirs.
unfoldable pub insert_sorted {ℓ} : {A : Type ℓ} → (A → A → Bool) → A → List A → List A
insert_sorted before x [] = x ∷ []
insert_sorted before x (y ∷ ys) =
    let rest = insert_sorted before x ys in if before y x then y ∷ rest else x ∷ y ∷ ys

unfoldable pub sort {ℓ} : {A : Type ℓ} → (A → A → Bool) → List A → List A
unfolding insert_sorted
sort before [] = []
sort before (x ∷ xs) = insert_sorted before x (sort before xs)

-- The one container of a sandbox pod, with its volumes.
unfoldable pub pod_spec : String → SandboxTemplate → PodSpec
pod_spec pull_policy t = record {
  container = "main";
  image = t.image;
  image_pull_policy = if str_eq pull_policy "" then "Always" else pull_policy;
  command = t.command;
  args = t.args;
  volume_mounts =
      record {
        name = "sandbox-jwt-public-key";
        mount_path = "/var/run/agentland/jwt";
        read_only = true;
      }
      ∷ record { name = "workspace"; mount_path = "/workspace"; read_only = false }
      ∷ [];
  volumes =
      record { name = "sandbox-jwt-public-key"; source = secret "gateway-sandbox-jwt-public-key" }
      ∷ record { name = "workspace"; source = empty_dir }
      ∷ [];
  runtime_class_name = if str_eq t.runtime_class_name "" then none else some t.runtime_class_name;
}
