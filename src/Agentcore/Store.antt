-- ===== src/Agentcore/Store.antt =====
-- The store of sessions, as the session service writes and reads it (pkg/agentcore/pkgs/db/redis.go)
-- and as the gateway reads it and notes activity (pkg/gateway/pkgs/db/redis.go). Redis is an argument,
-- with a state of its own, and so is JSON. Times are nanoseconds since 1970; an index is scored by
-- seconds. `none` is Go's zero time.
pub mod Views
pub mod Refinement
pub mod Lists
pub mod Concrete
mod Tests
use agentland.Base.{
  ℕ, ◌+◌, ◌-◌, ◌*◌, ◌/◌, ◌^◌, Bool, true, false, Option, none, some, List, [], ◌∷◌, ◌++◌, leb, ltb,
  if◌then◌else◌,
}
use agentland.Text.{Bytes, bytes}

abbrev pub key_prefix_session : Bytes
key_prefix_session = bytes "agentland:session:"

abbrev pub key_last_activity_index : Bytes
key_last_activity_index = bytes "agentland:last-activity"

abbrev pub key_expires_at_index : Bytes
key_expires_at_index = bytes "agentland:expires-at"

abbrev pub second : ℕ
second = 10 ^ 9

-- time.Time's Unix
abbrev pub unix : ℕ → ℕ
unix t = t / second

-- One hour.
abbrev pub max_session_duration : ℕ
max_session_duration = 3600 * second

pub record SandboxInfo : Type 0 where
  pub sandbox_id : Bytes
  pub grpc_endpoint : Bytes
  pub created_at : Option ℕ
  pub expires_at : Option ℕ

-- The commands of a pipeline: a value with the time that it lives, a member of a sorted set with its
-- score, and the removal of either.
pub data Command : Type 0 where
  set : Bytes → Bytes → ℕ → Command
  z_add : Bytes → Bytes → ℕ → Command
  del : Bytes → Command
  z_rem : Bytes → Bytes → Command

pub data Reply : Type 0 where
  value : Bytes → Reply
  nil failed : Reply

-- Redis. Every call but the last says when it is made; `none` is an error.
pub record Redis : Type 1 where
  pub State : Type 0
  pub exec : ℕ → List Command → State → Bool × State
  pub get : ℕ → Bytes → State → Reply
  pub exists : ℕ → Bytes → State → Option Bool
  pub z_range_by_score : Bytes → ℕ → ℕ → State → Option (List Bytes)

pub record Json : Type 0 where
  pub marshal : SandboxInfo → Option Bytes
  pub unmarshal : Bytes → Option SandboxInfo

pub data Failure : Type 0 where
  session_not_found invalid_expiry not_json redis_failed : Failure

pub data Result {ℓ} (A : Type ℓ) : Type ℓ where
  ok : A → Result A
  err : Failure → Result A

abbrev pub session_key : Bytes → Bytes
session_key id = key_prefix_session ++ id

abbrev pub or_time : ℕ → Option ℕ → ℕ
or_time t none = t
or_time t (some u) = u

-- The record with its times filled in.
abbrev pub stamped : ℕ → SandboxInfo → SandboxInfo
stamped now info = record info {
  created_at = some (or_time now info.created_at);
  expires_at = some (or_time (now + max_session_duration) info.expires_at);
}

abbrev pub create_commands : ℕ → Bytes → Bytes → ℕ → ℕ → List Command
create_commands now id content expires ttl =
    set (session_key id) content ttl
    ∷ z_add key_last_activity_index id (unix now)
    ∷ z_add key_expires_at_index id (unix expires)
    ∷ []

abbrev pub delete_commands : Bytes → List Command
delete_commands id =
    del (session_key id) ∷ z_rem key_last_activity_index id ∷ z_rem key_expires_at_index id ∷ []

abbrev pub executed : {S : Type 0} → Bool × S → Result (Unit {0}) × S
executed (true, s) = (ok tt, s)
executed (false, s) = (err redis_failed, s)

abbrev pub listed : Option (List Bytes) → Result (List Bytes)
listed none = err redis_failed
listed (some ids) = ok ids

module _ (r : Redis) (json : Json) where
  open r use {State, exec, get, exists, z_range_by_score}

  abbrev pub write_session : ℕ → ℕ → Bytes → ℕ → Option Bytes → State → Result (Unit {0}) × State
  write_session now later id expires none s = (err not_json, s)
  write_session now later id expires (some content) s =
      executed (exec later (create_commands now id content expires (expires - later)) s)

  -- The clock is read twice: for the times of the record, and for what is left of its life.
  unfoldable pub create_session : ℕ → ℕ → SandboxInfo → State → Result (Unit {0}) × State
  create_session now later info s =
      let info' = stamped now info in
      let expires = or_time 0 info'.expires_at in
      if leb expires later
      then (err invalid_expiry, s)
      else write_session now later info.sandbox_id expires (json.marshal info') s

  unfoldable pub delete_session : ℕ → Bytes → State → Result (Unit {0}) × State
  delete_session now id s = executed (exec now (delete_commands id) s)

  abbrev pub decoded : Option SandboxInfo → Result SandboxInfo
  decoded none = err not_json
  decoded (some info) = ok info

  abbrev pub reply_decoded : Reply → Result SandboxInfo
  reply_decoded nil = err session_not_found
  reply_decoded failed = err redis_failed
  reply_decoded (value content) = decoded (json.unmarshal content)

  unfoldable pub get_session : ℕ → Bytes → State → Result SandboxInfo
  get_session now id s = reply_decoded (get now (session_key id) s)

  unfoldable pub list_inactive_sessions : ℕ → ℕ → State → Result (List Bytes)
  list_inactive_sessions before limit s =
      listed (z_range_by_score key_last_activity_index (unix before) limit s)

  unfoldable pub list_expired_sessions : ℕ → ℕ → State → Result (List Bytes)
  list_expired_sessions now limit s =
      listed (z_range_by_score key_expires_at_index (unix now) limit s)

  abbrev pub touched : ℕ → Bytes → Option Bool → State → Result (Unit {0}) × State
  touched now id none s = (err redis_failed, s)
  touched now id (some false) s = (err session_not_found, s)
  touched now id (some true) s =
      executed (exec now (z_add key_last_activity_index id (unix now) ∷ []) s)

  -- The gateway's UpdateLatestActivity.
  unfoldable pub update_latest_activity : ℕ → Bytes → State → Result (Unit {0}) × State
  update_latest_activity now id s = touched now id (exists now (session_key id) s) s
