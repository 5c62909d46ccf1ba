-- ===== src/Agentcore/Service/Tests.antt =====
-- The theorems on the calls of the service at concrete inputs, on the log of pipelines of
-- Agentcore.Store.Concrete.
use agentland.Base.{◌+◌, ◌*◌, true, none, some, List, [], ◌∷◌, ◌≡◌, refl, arith}
use agentland.Text.{Bytes, bytes}
use agentland.Agentcore.Collection.{Backend}
use agentland.Agentcore.Store.{second, session_not_found}
use agentland.Agentcore.Store.Concrete.{
  logged, logged-IsRedis, prefixed, prefixed-IsJson, content, none_yet, Pipelines,
}
use agentland.Agentcore.Service.{
  Server, World, Event, ready, failure, no_status, status, Status, ok, err, provisioning_failed,
  create_agent_session, delete_agent_session, wait_session_ready, record_session, store_failed,
}
use agentland.Agentcore.Service.Waiting.{Waits, wait_session_ready-Waits}
use agentland.Agentcore.Service.RoundTrip.{DeletesBoth, Reads, create-get, delete-get}

abbrev server : Server
server = record {
  korokd_image = [];
  korokd_runtime_class_name = [];
  warm_pool_enabled = true;
  warm_pool_default_mode = bytes "x";
  warm_pool_pool_ref = bytes "pool";
  warm_pool_profile = [];
  has_store = true;
}

abbrev pending : Status
pending = record { phase = bytes "Pending"; pod_ip = []; conditions = none }

abbrev running_at : Bytes → Status
running_at ip = record { phase = bytes "Running"; pod_ip = ip; conditions = none }

abbrev events : List Event
events =
    failure no_status ∷ ready (status pending) ∷ ready (status (running_at (bytes "10.0.0.1"))) ∷ []

abbrev world : World
world = record {
  create = λ o. some (bytes "session-1");
  watching = λ id. true;
  events = λ id. events;
  now = 5 * second;
  now' = 5 * second;
  later = 5 * second + 1;
}

abbrev after : Pipelines
after = (create_agent_session logged prefixed server world (bytes "runtime") [] []).1

test_create :
    create_agent_session logged prefixed server world (bytes "runtime") [] []
    ≡ (ok (bytes "session-1", bytes "10.0.0.1:1883"), after)
unfolding create_agent_session
test_create = refl

abbrev refused : Status
refused = record {
  phase = bytes "Failed";
  pod_ip = [];
  conditions = some (
      some (record { type = bytes "Ready"; reason = bytes "r"; message = bytes "m" })
      ∷ some (record { type = bytes "Accepted"; reason = bytes "NoPool"; message = bytes "none" })
      ∷ []);
}

test_refused :
    wait_session_ready logged prefixed server true 0 0 0
      (bytes "s")
      (failure (status refused) ∷ events)
      []
    ≡ (err (provisioning_failed (bytes "NoPool") (bytes "none")), [])
unfolding wait_session_ready
test_refused = refl

create-get_example :
    Reads logged prefixed content logged-IsRedis prefixed-IsJson server
      (9 * second)
      (bytes "session-1")
      after
      (ok (bytes "session-1", bytes "10.0.0.1:1883"))
create-get_example =
    create-get logged prefixed content logged-IsRedis prefixed-IsJson server world (bytes "runtime")
      [] (bytes "session-1") (bytes "10.0.0.1:1883") [] after (λ id. none) (9 * second) none_yet
      test_create (omega arith)

wait_session_ready-Waits_example :
    Waits Pipelines [] events
      (λ ip. record_session logged prefixed server 5 5 6 (bytes "s") ip [])
      (wait_session_ready logged prefixed server true 5 5 6 (bytes "s") events [])
wait_session_ready-Waits_example =
    wait_session_ready-Waits logged prefixed server 5 5 6 (bytes "s") events []

abbrev cluster : Backend
cluster = record {
  list_inactive = λ _ _. none;
  list_expired = λ _ _. none;
  answer = λ log step. none;
}

abbrev deleted_at : Pipelines
deleted_at = (delete_agent_session logged prefixed server cluster 7 (bytes "s") []).1

deletes : delete_agent_session logged prefixed server cluster 7 (bytes "s") [] ≡ (ok tt, deleted_at)
unfolding delete_agent_session
deletes = refl

delete-get_example :
    DeletesBoth cluster (bytes "s")
    × Reads logged prefixed content logged-IsRedis prefixed-IsJson server 8
        (bytes "s")
        deleted_at
        (err (store_failed session_not_found))
delete-get_example =
    delete-get logged prefixed content logged-IsRedis prefixed-IsJson server cluster 7 8 (bytes "s")
      [] deleted_at (λ id. none) refl none_yet deletes
