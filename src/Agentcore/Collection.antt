-- ===== src/Agentcore/Collection.antt =====
-- The collection of sessions that are idle or expired (pkg/agentcore/gc.go, with the listing of
-- pkg/agentcore/pkgs/db/redis.go). Redis and the cluster are an argument, `Backend`, whose answers may
-- depend on the calls before. Times are seconds since 1970. Go visits the candidates, which are the
-- keys of a map, in any order: the order is an argument too.
pub mod Candidates
pub mod Rounds
use agentland.Base.{
  ℕ, ◌-◌, ◌*◌, Bool, true, false, not, ◌&&◌, ◌||◌, Option, none, some, List, [], ◌∷◌, ◌++◌,
  if◌then◌else◌,
}
use agentland.Text.{Bytes, bytes_eq}

-- The two kinds of session objects, codeInterpreterGVR and agentSessionGVR.
pub data Kind : Type 0 where
  code_interpreter agent_session : Kind

pub data Step : Type 0 where
  delete_cr : Kind → Bytes → Step
  delete_session : Bytes → Step

pub data Failure : Type 0 where
  not_found failed : Failure

abbrev pub Log : Type 0
Log = List Step

-- The two listings take a time and a limit; `none` is an error.
pub record Backend : Type 0 where
  pub list_inactive : ℕ → ℕ → Option (List Bytes)
  pub list_expired : ℕ → ℕ → Option (List Bytes)
  pub answer : Log → Step → Option Failure

abbrev pub max_idle_duration : ℕ
max_idle_duration = 15 * 60

abbrev pub session_gc_batch_limit : ℕ
session_gc_batch_limit = 100

unfoldable pub contains : Bytes → List Bytes → Bool
contains id [] = false
contains id (j ∷ js) = bytes_eq id j || contains id js

-- `candidates[id] = struct{}{}`, where the id is not empty.
abbrev pub add_id : Bytes → List Bytes → List Bytes
unfolding contains
add_id [] candidates = candidates
add_id (c ∷ id) candidates =
    if contains (c ∷ id) candidates then candidates else candidates ++ (c ∷ id) ∷ []

unfoldable pub add_ids : List Bytes → List Bytes → List Bytes
unfolding add_id
add_ids [] candidates = candidates
add_ids (id ∷ ids) candidates = add_ids ids (add_id id candidates)

-- A deletion that finds nothing is no error.
abbrev pub gone : Option Failure → Bool
gone none = true
gone (some not_found) = true
gone (some failed) = false

-- redis.Pipeline's Exec: any failure is one.
abbrev pub done : Option Failure → Bool
done none = true
done (some f) = false

-- The result of a round, whether it succeeded, with its calls.
abbrev pub and_then : Log → Bool × Log → (Log → Bool × Log) → Bool × Log
and_then log (true, made) next = let (r, more) = next (log ++ made) in (r, made ++ more)
and_then log (false, made) next = (false, made)

module _ (b : Backend) where
  abbrev pub delete_cr_by_kind : Kind → Bytes → Log → Bool × Log
  delete_cr_by_kind kind id log = (gone (b.answer log (delete_cr kind id)), delete_cr kind id ∷ [])

  abbrev pub delete_session_cr : Bytes → Log → Bool × Log
  delete_session_cr id log =
      and_then log (delete_cr_by_kind code_interpreter id log) (delete_cr_by_kind agent_session id)

  abbrev pub delete_stored : Bytes → Log → Bool × Log
  delete_stored id log = (done (b.answer log (delete_session id)), delete_session id ∷ [])

  -- One candidate.
  unfoldable pub collect_one : Bytes → Log → Bool × Log
  collect_one id log = and_then log (delete_session_cr id log) (delete_stored id)

  -- All candidates: the ids that failed, and the calls.
  unfoldable pub collect : List Bytes → Log → List Bytes × Log
  unfolding collect_one
  collect [] log = ([], [])
  collect (id ∷ ids) log =
      let (ok, made) = collect_one id log in
      let (errs, more) = collect ids (log ++ made) in
      ((if ok then errs else id ∷ errs), made ++ more)

  unfoldable pub candidates : List Bytes → List Bytes → List Bytes
  unfolding add_ids
  candidates inactive expired = add_ids expired (add_ids inactive [])

  -- The outcome of a cycle: the ids that failed, or `none` where a listing failed.
  abbrev pub collected :
      (List Bytes → List Bytes)
      → Option (List Bytes)
      → Option (List Bytes)
      → Option (List Bytes) × Log
  unfolding collect candidates
  collected order (some inactive) (some expired) =
      let (errs, made) = collect (order (candidates inactive expired)) [] in (some errs, made)
  collected order _ _ = (none, [])

  unfoldable pub gc_once : (List Bytes → List Bytes) → ℕ → Option (List Bytes) × Log
  unfolding collected
  gc_once order now =
      collected order (b.list_inactive (now - max_idle_duration) session_gc_batch_limit)
        (b.list_expired now session_gc_batch_limit)
