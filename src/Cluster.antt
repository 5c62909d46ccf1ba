-- ===== src/Cluster.antt =====
-- The objects of the cluster that the controllers read and write (api/v1alpha1, and what they use of
-- pods), and the calls to the cluster's API.
--
-- The API server is not part of the program. It is an argument, `Api`: the answer to a call may
-- depend on all calls before it, in any way. A controller is an action that gives a result and the
-- calls that it made, in order.
pub mod Calls
use agentland.Base.{
  ℕ, Bool, true, false, Option, none, some, List, [], ◌∷◌, String, str_eq, if◌then◌else◌,
}

-- A Go map from strings to strings; nil and empty are not told apart.
abbrev pub StringMap : Type 0
StringMap = List (String × String)

unfoldable pub lookup : String → StringMap → Option String
lookup k [] = none
lookup k ((j, v) ∷ m) = if str_eq j k then some v else lookup k m

-- The value of a missing key is the empty string.
abbrev pub or_empty : Option String → String
or_empty none = ""
or_empty (some v) = v

unfoldable pub value : String → StringMap → String
unfolding lookup
value k m = or_empty (lookup k m)

unfoldable pub remove : String → StringMap → StringMap
remove k [] = []
remove k ((j, v) ∷ m) = let rest = remove k m in if str_eq j k then rest else (j, v) ∷ rest

unfoldable pub put : String → String → StringMap → StringMap
unfolding remove
put k v m = (k, v) ∷ remove k m

pub record ObjectKey : Type 0 where
  pub namespace : String
  pub name : String

pub record OwnerReference : Type 0 where
  pub kind : String
  pub name : String
  pub uid : String

-- What the controllers use of an object's metadata; `controller` is what `GetControllerOf` finds.
pub record ObjectMeta : Type 0 where
  pub name : String
  pub generate_name : String
  pub namespace : String
  pub uid : String
  pub generation : ℕ
  pub labels : StringMap
  pub annotations : StringMap
  pub controller : Option OwnerReference
  pub deleting : Bool
  pub created_at : ℕ

-- Metadata that a controller makes: what it does not set is empty.
abbrev pub new_meta : String → String → ObjectMeta
new_meta namespace name = record {
  name = name;
  generate_name = "";
  namespace = namespace;
  uid = "";
  generation = 0;
  labels = [];
  annotations = [];
  controller = none;
  deleting = false;
  created_at = 0;
}

pub record SandboxTemplate : Type 0 where
  pub image : String
  pub runtime_class_name : String
  pub command : List String
  pub args : List String

pub record VolumeMount : Type 0 where
  pub name : String
  pub mount_path : String
  pub read_only : Bool

pub data VolumeSource : Type 0 where
  secret : String → VolumeSource
  empty_dir : VolumeSource

pub record Volume : Type 0 where
  pub name : String
  pub source : VolumeSource

pub record PodSpec : Type 0 where
  pub container : String
  pub image : String
  pub image_pull_policy : String
  pub command : List String
  pub args : List String
  pub volume_mounts : List VolumeMount
  pub volumes : List Volume
  pub runtime_class_name : Option String

pub record PodCondition : Type 0 where
  pub type : String
  pub status : String

pub record PodStatus : Type 0 where
  pub phase : String
  pub pod_ip : String
  pub conditions : List PodCondition

pub record Pod : Type 0 where
  pub meta : ObjectMeta
  pub spec : PodSpec
  pub status : PodStatus

abbrev pub no_status : PodStatus
no_status = record { phase = ""; pod_ip = ""; conditions = [] }

pub record ProvisioningSpec : Type 0 where
  pub mode : String
  pub pool_ref : String
  pub profile : String

pub record SandboxSpec : Type 0 where
  pub profile : String
  pub claim_ref : String
  pub template : Option SandboxTemplate

pub record SandboxStatus : Type 0 where
  pub phase : String
  pub pod_ip : String

pub record Sandbox : Type 0 where
  pub meta : ObjectMeta
  pub spec : SandboxSpec
  pub status : SandboxStatus

pub record SandboxPoolSpec : Type 0 where
  pub replicas : ℕ
  pub profile : String
  pub template : Option SandboxTemplate

pub record SandboxPoolStatus : Type 0 where
  pub replicas : ℕ
  pub ready_replicas : ℕ

pub record SandboxPool : Type 0 where
  pub meta : ObjectMeta
  pub spec : SandboxPoolSpec
  pub status : SandboxPoolStatus

pub record SandboxClaimSpec : Type 0 where
  pub profile : String
  pub pool_ref : String
  pub fallback_policy : String
  pub template : Option SandboxTemplate

pub record SandboxClaimStatus : Type 0 where
  pub phase : String
  pub sandbox_name : String
  pub reason : String

pub record SandboxClaim : Type 0 where
  pub meta : ObjectMeta
  pub spec : SandboxClaimSpec
  pub status : SandboxClaimStatus

pub record Condition : Type 0 where
  pub type : String
  pub status : String
  pub reason : String
  pub message : String
  pub observed_generation : ℕ

pub record RuntimeReference : Type 0 where
  pub namespace : String
  pub name : String

-- A session object, CodeInterpreter or AgentSession; the first has no runtime reference.
pub record SessionSpec : Type 0 where
  pub runtime_ref : Option RuntimeReference
  pub template : Option SandboxTemplate
  pub provisioning : Option ProvisioningSpec

pub record SessionStatus : Type 0 where
  pub phase : String
  pub pod_ip : String
  pub claim_name : String
  pub sandbox_name : String
  pub conditions : List Condition

pub record Session : Type 0 where
  pub meta : ObjectMeta
  pub spec : SessionSpec
  pub status : SessionStatus

pub record AgentRuntime : Type 0 where
  pub meta : ObjectMeta
  pub template : Option SandboxTemplate
  pub provisioning : Option ProvisioningSpec
  pub conditions : List Condition
