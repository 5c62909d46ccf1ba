-- ===== src/Agentcore/Store/Tests.antt =====
-- The theorems on the store at concrete inputs.
use agentland.Base.{◌+◌, ◌*◌, none, List, [], ◌∷◌, ◌≡◌, refl, arith, All, subst, sym, ◌≢◌}
use agentland.Text.{Bytes, bytes}
use agentland.Text.Prefixed.{put_text, get_text}
use agentland.Agentcore.Store.{
  SandboxInfo, ok, err, second, session_not_found, redis_failed, Result, list_expired_sessions,
  list_inactive_sessions, unix,
}
use agentland.Agentcore.Store.Views.{run, live}
use agentland.Agentcore.Store.Refinement.{
  Op, create, touch, get, Answer, done, got, Sessions, Represents, Answered, run_store, run_map,
  run_store-refines, entry,
}
use agentland.Agentcore.Store.Lists.{Lists, expiry, list_sessions-Lists}
use agentland.Agentcore.Store.Concrete.{
  Pipelines, content, logged, logged-IsRedis, prefixed, prefixed-IsJson, none_yet, read_info,
  write_info, get_time, put_time, info,
}

abbrev session : SandboxInfo
session = record {
  sandbox_id = bytes "s1";
  grpc_endpoint = bytes "10.0.0.1:1883";
  created_at = none;
  expires_at = none;
}

-- A session is created, noted as active, read, and read again when it is over.
abbrev ops : List Op
ops =
    create (5 * second) (5 * second + 3) session
    ∷ touch (8 * second) (bytes "s1")
    ∷ get (9 * second) (bytes "s1")
    ∷ get (4000 * second) (bytes "s1")
    ∷ []

abbrev answers : List Answer
answers =
    done (ok tt)
    ∷ done (ok tt)
    ∷ got (ok (entry (5 * second) session).info)
    ∷ got (err session_not_found)
    ∷ []

test_answers : (run_store logged prefixed ops []).0 ≡ answers
unfolding run_store live read_info write_info get_text put_text get_time put_time info run
test_answers = refl

ok-ne : {A : Type 0} (a : A) → Result.ok a ≢ err redis_failed
ok-ne a h = ground (arith, h)

answers-Answered : All Answered (run_store logged prefixed ops []).0
answers-Answered = subst (All Answered) (sym test_answers) (
  ok-ne tt,
  (ok-ne tt, (ok-ne (entry (5 * second) session).info, ((λ h. ground (arith, h)), tt))),
)

abbrev after : Pipelines
after = (run_store logged prefixed ops []).1

abbrev sessions : Sessions
sessions = (run_map prefixed ops (λ id. none)).1

agrees : Represents prefixed (content after) sessions
agrees =
    (run_store-refines logged prefixed content logged-IsRedis prefixed-IsJson ops [] (λ id. none)
      none_yet answers-Answered).1

run_store-refines_example :
    ((run_store logged prefixed ops []).0 ≡ (run_map prefixed ops (λ id. none)).0)
    × Represents prefixed
        (content (run_store logged prefixed ops []).1)
        (run_map prefixed ops (λ id. none)).1
run_store-refines_example =
    run_store-refines logged prefixed content logged-IsRedis prefixed-IsJson ops [] (λ id. none)
      none_yet answers-Answered

abbrev ids : List Bytes
ids = bytes "s1" ∷ bytes "s1" ∷ bytes "s1" ∷ []

expired_listed : list_expired_sessions logged prefixed (4000 * second) 100 after ≡ ok ids
unfolding list_expired_sessions run_store run live
expired_listed = refl

inactive_listed : list_inactive_sessions logged prefixed (4000 * second) 100 after ≡ ok ids
unfolding list_inactive_sessions run_store run live
inactive_listed = refl

list_sessions-Lists_example :
    Lists expiry (unix (4000 * second)) 100 sessions ids
    × Lists (λ e. e.active) (unix (4000 * second)) 100 sessions ids
list_sessions-Lists_example =
    list_sessions-Lists logged prefixed content logged-IsRedis after sessions (4000 * second) 100
      ids ids agrees expired_listed inactive_listed
