-- ===== src/Agentcore/Service.antt =====
-- The calls of the session service (pkg/agentcore/agentcore.go): a session is created in the cluster,
-- waited for, and recorded; it is read and deleted. The cluster's answers are arguments, and so are
-- the events of the two watches in the order in which the loop takes them, up to the end of its time.
pub mod Deciding
pub mod Waiting
pub mod RoundTrip
mod Tests
use agentland.Base.{
  ℕ, ◌+◌, Bool, true, false, not, ◌&&◌, ◌||◌, Option, none, some, List, [], ◌∷◌, ◌++◌,
  if◌then◌else◌,
}
use agentland.Text.{Bytes, bytes, bytes_eq, trim_space}
use agentland.Agentcore.Collection.{
  Kind, code_interpreter, agent_session, Backend, delete_session_cr,
}
use agentland.Agentcore.Store.{
  Redis, Json, SandboxInfo, max_session_duration, create_session, get_session, delete_session,
  Result as StoreResult,
}
use agentland.Agentcore.Store

abbrev pub korokd_port : Bytes
korokd_port = bytes ":1883"

abbrev pub default_korokd_image : Bytes
default_korokd_image = bytes "korokd:latest"

abbrev pub sandboxes_namespace : Bytes
sandboxes_namespace = bytes "agentland-sandboxes"

pub record Server : Type 0 where
  pub korokd_image : Bytes
  pub korokd_runtime_class_name : Bytes
  pub warm_pool_enabled : Bool
  pub warm_pool_default_mode : Bytes
  pub warm_pool_pool_ref : Bytes
  pub warm_pool_profile : Bytes
  pub has_store : Bool

pub record Provisioning : Type 0 where
  pub mode : Bytes
  pub pool_ref : Bytes
  pub profile : Bytes

pub record Template : Type 0 where
  pub image : Bytes
  pub runtime_class_name : Bytes

pub record RuntimeRef : Type 0 where
  pub name : Bytes
  pub namespace : Bytes

-- The object that is sent to the cluster.
pub record NewSession : Type 0 where
  pub kind : Kind
  pub namespace : Bytes
  pub template : Option Template
  pub runtime_ref : Option RuntimeRef
  pub provisioning : Option Provisioning

abbrev pub or_text : Bytes → Bytes → Bytes
or_text d [] = d
or_text d (c ∷ s) = c ∷ s

abbrev pub default_mode : Bytes → Bytes
default_mode mode =
    if bytes_eq mode (bytes "PoolRequired")
    then bytes "PoolRequired"
    else if bytes_eq mode (bytes "PoolPreferred")
    then bytes "PoolPreferred"
    else if bytes_eq mode (bytes "Direct")
    then bytes "Direct"
    else bytes "PoolPreferred"

abbrev pub provisioning : Server → Option Provisioning
provisioning s =
    if s.warm_pool_enabled
    then some (record {
      mode = default_mode s.warm_pool_default_mode;
      pool_ref = s.warm_pool_pool_ref;
      profile = s.warm_pool_profile;
    })
    else none

unfoldable pub code_interpreter_object : Server → NewSession
unfolding trim_space
code_interpreter_object s = record {
  kind = code_interpreter;
  namespace = sandboxes_namespace;
  template = some (record {
    image = or_text default_korokd_image s.korokd_image;
    runtime_class_name = trim_space s.korokd_runtime_class_name;
  });
  runtime_ref = none;
  provisioning = provisioning s;
}

unfoldable pub agent_session_object : Server → Bytes → Bytes → NewSession
agent_session_object s name namespace = record {
  kind = agent_session;
  namespace = sandboxes_namespace;
  template = none;
  runtime_ref = some (record { name = name; namespace = or_text sandboxes_namespace namespace });
  provisioning = provisioning s;
}

pub record Condition : Type 0 where
  pub type : Bytes
  pub reason : Bytes
  pub message : Bytes

-- A condition is `none` if it is no map; the conditions are `none` if they are no list.
pub record Status : Type 0 where
  pub phase : Bytes
  pub pod_ip : Bytes
  pub conditions : Option (List (Option Condition))

-- What a watch gives: its channel is closed, an object without a status, or a status.
pub data Watched : Type 0 where
  closed no_status : Watched
  status : Status → Watched

pub data Event : Type 0 where
  ready : Watched → Event
  failure : Watched → Event

pub data Failure : Type 0 where
  runtime_name_required session_id_required create_failed empty_name watch_failed : Failure
  channel_closed store_is_nil timeout delete_cr_failed : Failure
  provisioning_failed : Bytes → Bytes → Failure
  store_failed : Store.Failure → Failure

pub data Result {ℓ} (A : Type ℓ) : Type ℓ where
  ok : A → Result A
  err : Failure → Result A

-- The reason and message of the first condition of a type, any where no type is asked for.
unfoldable pub first_condition : Bytes → List (Option Condition) → Bytes × Bytes
first_condition type [] = ([], [])
first_condition type (none ∷ cs) = first_condition type cs
first_condition type (some c ∷ cs) =
    let rest = first_condition type cs in
    if not (bytes_eq type []) && not (bytes_eq c.type type) then rest else (c.reason, c.message)

abbrev pub extract_condition : Option (List (Option Condition)) → Bytes → Bytes × Bytes
extract_condition none type = ([], [])
extract_condition (some cs) type = first_condition type cs

abbrev pub running : Status → Bool
running s = bytes_eq s.phase (bytes "Running") && not (bytes_eq s.pod_ip [])

abbrev pub has_failed : Status → Bool
has_failed s = bytes_eq s.phase (bytes "Failed")

-- Both failures of provisioning, with a reason and message or with neither, are one here: their texts
-- differ.
unfoldable pub provisioning_error : Status → Bytes → Failure
unfolding first_condition
provisioning_error s type =
    let (reason, message) = extract_condition s.conditions type in
    provisioning_failed reason message

-- What one event decides: nothing, that the sandbox runs at an address, or an error.
pub data Decision : Type 0 where
  undecided : Decision
  runs : Bytes → Decision
  fails : Failure → Decision

abbrev pub decide : Event → Decision
decide (ready closed) = fails channel_closed
decide (failure closed) = fails channel_closed
decide (ready no_status) = undecided
decide (failure no_status) = undecided
decide (ready (status s)) =
    if running s
    then runs s.pod_ip
    else if has_failed s
    then fails (provisioning_error s [])
    else undecided
decide (failure (status s)) =
    if has_failed s then fails (provisioning_error s (bytes "Accepted")) else undecided

-- The endpoint, where the record was written.
abbrev pub recorded_at : {S : Type 0} → Bytes → Store.Result (Unit {0}) × S → Result Bytes × S
recorded_at endpoint (Store.ok x, s) = (ok endpoint, s)
recorded_at endpoint (Store.err e, s) = (err (store_failed e), s)

-- What the cluster answers to the creation, the watches on an id, and the clock.
pub record World : Type 0 where
  pub create : NewSession → Option Bytes
  pub watching : Bytes → Bool
  pub events : Bytes → List Event
  pub now : ℕ
  pub now' : ℕ
  pub later : ℕ

module _ (r : Redis) (json : Json) (srv : Server) where
  abbrev pub session_info : ℕ → Bytes → Bytes → SandboxInfo
  session_info now id endpoint = record {
    sandbox_id = id;
    grpc_endpoint = endpoint;
    created_at = some now;
    expires_at = some (now + max_session_duration);
  }

  -- The sandbox runs: its session is recorded. The clock is read for the record and twice in the store.
  unfoldable pub record_session : ℕ → ℕ → ℕ → Bytes → Bytes → r.State → Result Bytes × r.State
  unfolding create_session
  record_session now now' later id pod_ip s =
      let endpoint = pod_ip ++ korokd_port in
      if srv.has_store
      then recorded_at endpoint (create_session r json now' later (session_info now id endpoint) s)
      else (err store_is_nil, s)

  abbrev pub decided :
      Decision
      → (Bytes → Result Bytes × r.State)
      → Result Bytes × r.State
      → r.State
      → Result Bytes × r.State
  decided undecided running rest s = rest
  decided (runs pod_ip) running rest s = running pod_ip
  decided (fails e) running rest s = (err e, s)

  -- The loop over the events, until the time of the wait is over.
  unfoldable pub wait_events : ℕ → ℕ → ℕ → Bytes → List Event → r.State → Result Bytes × r.State
  unfolding record_session provisioning_error
  wait_events now now' later id [] s = (err timeout, s)
  wait_events now now' later id (e ∷ es) s =
      let rest = wait_events now now' later id es s in
      decided (decide e) (λ pod_ip. record_session now now' later id pod_ip s) rest s

  -- Both watches are opened first.
  unfoldable pub wait_session_ready :
      Bool → ℕ → ℕ → ℕ → Bytes → List Event → r.State → Result Bytes × r.State
  unfolding wait_events
  wait_session_ready watching now now' later id es s =
      if watching then wait_events now now' later id es s else (err watch_failed, s)

  abbrev pub with_id : Bytes → Result Bytes × r.State → Result (Bytes × Bytes) × r.State
  with_id id (ok endpoint, s) = (ok (id, endpoint), s)
  with_id id (err e, s) = (err e, s)

  abbrev pub named : World → Bytes → r.State → Result (Bytes × Bytes) × r.State
  named w [] s = (err empty_name, s)
  named w (c ∷ id) s =
      with_id (c ∷ id) (
        wait_session_ready (w.watching (c ∷ id)) w.now w.now' w.later (c ∷ id) (w.events (c ∷ id))
          s)

  abbrev pub created : World → Option Bytes → r.State → Result (Bytes × Bytes) × r.State
  created w none s = (err create_failed, s)
  created w (some name) s = named w (trim_space name) s

  unfoldable pub create_code_interpreter : World → r.State → Result (Bytes × Bytes) × r.State
  unfolding trim_space wait_session_ready code_interpreter_object
  create_code_interpreter w s = created w (w.create (code_interpreter_object srv)) s

  unfoldable pub create_agent_session :
      World → Bytes → Bytes → r.State → Result (Bytes × Bytes) × r.State
  unfolding trim_space wait_session_ready agent_session_object
  create_agent_session w [] namespace s = (err runtime_name_required, s)
  create_agent_session w (c ∷ name) namespace s =
      created w (w.create (agent_session_object srv (c ∷ name) namespace)) s

  abbrev pub answered : Store.Result SandboxInfo → Result (Bytes × Bytes)
  answered (Store.ok i) = ok (i.sandbox_id, i.grpc_endpoint)
  answered (Store.err e) = err (store_failed e)

  unfoldable pub get_agent_session : ℕ → Bytes → r.State → Result (Bytes × Bytes)
  unfolding get_session
  get_agent_session now [] s = err session_id_required
  get_agent_session now (c ∷ id) s =
      if srv.has_store then answered (get_session r json now (c ∷ id) s) else err store_is_nil

  abbrev pub deleted : Store.Result (Unit {0}) × r.State → Result (Unit {0}) × r.State
  deleted (Store.ok x, s) = (ok tt, s)
  deleted (Store.err e, s) = (err (store_failed e), s)

  -- The objects of both kinds go first.
  unfoldable pub delete_agent_session : Backend → ℕ → Bytes → r.State → Result (Unit {0}) × r.State
  unfolding delete_session
  delete_agent_session b now [] s = (err session_id_required, s)
  delete_agent_session b now (c ∷ id) s =
      if not (delete_session_cr b (c ∷ id) []).0
      then (err delete_cr_failed, s)
      else if srv.has_store
      then deleted (delete_session r json now (c ∷ id) s)
      else (ok tt, s)
