-- ===== src/Agentcore/Store/Lists.antt =====
-- Which sessions the listings of the store give.
use mathlib.Core.List.{Mem}
use agentland.Base.{
  ℕ, ◌<◌, ◌≤◌, Option, none, some, List, length, ◌≡◌, All, All-weaken, arith, refl, subst, sym, ◌∙◌,
}
use agentland.Text.{Bytes}
use agentland.Agentcore.Store.{
  Redis, Json, ok, key_last_activity_index, key_expires_at_index, unix, or_time, listed,
  list_inactive_sessions, list_expired_sessions,
}
use agentland.Agentcore.Store.Views.{Content, IsRedis}
use agentland.Agentcore.Store.Refinement.{Entry, Sessions, Stored, Represents}

-- The second at which a session expires, and that of its last activity.
abbrev pub expiry : Entry → ℕ
expiry e = unix (or_time 0 e.info.expires_at)

-- The ids are of sessions that the map has and whose number is not above the limit; where fewer ids
-- are given than were asked for, they are all of them.
pub record Lists (number : Entry → ℕ) (limit count : ℕ) (m : Sessions) (ids : List Bytes)
    : Type 0 where
  pub each : All (λ id. (e : Entry) × (m id ≡ some e) × (number e ≤ limit)) ids
  pub all :
      length ids < count → (id : Bytes) (e : Entry) → m id ≡ some e → number e ≤ limit → Mem id ids

listed-ok : (o : Option (List Bytes)) (ids : List Bytes) → listed o ≡ ok ids → o ≡ some ids
listed-ok none ids h = absurd (ground (arith, h))
listed-ok (some js) ids h = ground (arith, h)

-- A member with a score is a session, with its number.
activity_of :
    (json : Json) (c : Content) (id : Bytes) (o : Option Entry) (n : ℕ)
    → Stored json c id o
    → c.scores key_last_activity_index id ≡ some n
    → (e : Entry) × (o ≡ some e) × (e.active ≡ n)
activity_of json c id none n (v, a, x) h = absurd (ground (arith, a, h))
activity_of json c id (some e) n (v, at, d, a, x) h = (e, refl, ground (arith, a, h))

expiry_of :
    (json : Json) (c : Content) (id : Bytes) (o : Option Entry) (n : ℕ)
    → Stored json c id o
    → c.scores key_expires_at_index id ≡ some n
    → (e : Entry) × (o ≡ some e) × (expiry e ≡ n)
expiry_of json c id none n (v, a, x) h = absurd (ground (arith, x, h))
expiry_of json c id (some e) n (v, at, d, a, x) h = (e, refl, some_eq (expiry e) n (sym x ∙ h))
  where
    some_eq : (a b : ℕ) → Option.some a ≡ some b → a ≡ b
    some_eq a b p = ground (arith, p)

entry-expiry :
    (json : Json) (c : Content) (id : Bytes) (o : Option Entry) (e : Entry)
    → Stored json c id o
    → o ≡ some e
    → c.scores key_expires_at_index id ≡ some (expiry e)
entry-expiry json c id o e st is = (subst (Stored json c id) is st).4

entry-activity :
    (json : Json) (c : Content) (id : Bytes) (o : Option Entry) (e : Entry)
    → Stored json c id o
    → o ≡ some e
    → c.scores key_last_activity_index id ≡ some e.active
entry-activity json c id o e st is = (subst (Stored json c id) is st).3

module _ (r : Redis) (json : Json) (content : r.State → Content) (redis : IsRedis r content) where
  -- Whatever index is listed, if its scores are the numbers of the sessions.
  range-Lists :
      (k : Bytes) (number : Entry → ℕ) (limit count : ℕ) (s : r.State) (m : Sessions)
      (ids : List Bytes)
      → ((id : Bytes) (n : ℕ)
          → (content s).scores k id ≡ some n
          → (e : Entry) × (m id ≡ some e) × (number e ≡ n))
      → ((id : Bytes) (e : Entry) → m id ≡ some e → (content s).scores k id ≡ some (number e))
      → r.z_range_by_score k limit count s ≡ some ids
      → Lists number limit count m ids
  range-Lists k number limit count s m ids back forth h = record {
    each =
        All-weaken (λ id. (n : ℕ) × ((content s).scores k id ≡ some n) × (n ≤ limit))
          (λ id. (e : Entry) × (m id ≡ some e) × (number e ≤ limit))
          (λ id (n, at, le). let (e, is, same) = back id n at in (e, is, omega (arith, same, le)))
          ids (redis.range_sound k limit count s ids h);
    all = λ few id e is le.
        redis.range_complete k limit count s ids h few id (number e) (forth id e is) le;
  }

  -- Where the store agrees with a map of sessions, a listing of expired sessions gives sessions of the
  -- map whose second of expiry is not after the second asked for, which may not have expired yet, and a
  -- listing of inactive ones gives sessions whose second of last activity is not after it; all of them,
  -- where there are fewer than were asked for.
  pub list_sessions-Lists :
      (s : r.State) (m : Sessions) (t count : ℕ) (expired inactive : List Bytes)
      → Represents json (content s) m
      → list_expired_sessions r json t count s ≡ ok expired
      → list_inactive_sessions r json t count s ≡ ok inactive
      → Lists expiry (unix t) count m expired × Lists (λ e. e.active) (unix t) count m inactive
  unfolding list_expired_sessions list_inactive_sessions
  list_sessions-Lists s m t count expired inactive rep he hi = (
    range-Lists key_expires_at_index expiry (unix t) count s m expired
        (λ id n. expiry_of json (content s) id (m id) n (rep id))
        (λ id e. entry-expiry json (content s) id (m id) e (rep id))
        (listed-ok (r.z_range_by_score key_expires_at_index (unix t) count s) expired he),
    range-Lists key_last_activity_index (λ e. e.active) (unix t) count s m inactive
        (λ id n. activity_of json (content s) id (m id) n (rep id))
        (λ id e. entry-activity json (content s) id (m id) e (rep id))
        (listed-ok (r.z_range_by_score key_last_activity_index (unix t) count s) inactive hi),
  )
