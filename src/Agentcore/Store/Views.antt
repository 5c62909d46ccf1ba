-- ===== src/Agentcore/Store/Views.antt =====
-- What the store relies on in Redis and JSON: the content that a state stands for, and how commands
-- change it.
use agentland.Base.{
  ℕ, ◌+◌, ◌<◌, ◌≤◌, Bool, true, false, Option, none, some, List, [], ◌∷◌, ltb, length,
  if◌then◌else◌, ◌≡◌, ◌⊎◌, All,
}
use mathlib.Core.List.{Mem}
use agentland.Text.{Bytes, bytes_eq}
use agentland.Agentcore.Store.{
  Command, set, z_add, del, z_rem, Reply, failed, Redis, Json, SandboxInfo,
}
use agentland.Agentcore.Store

-- Values with the times at which they end, and the scores of sorted sets. A key has one of both.
pub record Content : Type 0 where
  pub values : Bytes → Option (Bytes × ℕ)
  pub scores : Bytes → Bytes → Option ℕ

abbrev pub update : {A : Type 0} → Bytes → A → (Bytes → A) → Bytes → A
update k v f j = if bytes_eq k j then v else f j

unfoldable pub run_command : ℕ → Command → Content → Content
run_command now (set k v ttl) c = record {
  values = update k (some (v, now + ttl)) c.values;
  scores = update k (λ _. none) c.scores;
}
run_command now (z_add k m n) c = record c {
  scores = update k (update m (some n) (c.scores k)) c.scores;
}
run_command now (del k) c = record {
  values = update k none c.values;
  scores = update k (λ _. none) c.scores;
}
run_command now (z_rem k m) c = record c { scores = update k (update m none (c.scores k)) c.scores }

unfoldable pub run : ℕ → List Command → Content → Content
unfolding run_command
run now [] c = c
run now (x ∷ xs) c = run now xs (run_command now x c)

-- What is not over yet.
unfoldable pub live : ℕ → Option (Bytes × ℕ) → Option Bytes
live now none = none
live now (some (v, end)) = if ltb now end then some v else none

abbrev pub is_some : Option Bytes → Bool
is_some none = false
is_some (some v) = true

abbrev pub reply_of : Option Bytes → Reply
reply_of none = Store.nil
reply_of (some v) = Store.value v

-- `content` is what a state of Redis holds. A pipeline that succeeds has run its commands, and a reply
-- that is no error tells what is there. A range of scores lists members whose score is not above the
-- limit, and all of them where there are fewer than were asked for.
pub record IsRedis (r : Redis) (content : r.State → Content) : Type 0 where
  pub exec_run :
      (now : ℕ) (xs : List Command) (s : r.State)
      → (r.exec now xs s).0 ≡ true
      → content (r.exec now xs s).1 ≡ run now xs (content s)
  pub get_reads :
      (now : ℕ) (k : Bytes) (s : r.State)
      → (r.get now k s ≡ failed) ⊎ (r.get now k s ≡ reply_of (live now ((content s).values k)))
  pub exists_reads :
      (now : ℕ) (k : Bytes) (s : r.State) (b : Bool)
      → r.exists now k s ≡ some b
      → b ≡ is_some (live now ((content s).values k))
  pub range_sound :
      (k : Bytes) (limit count : ℕ) (s : r.State) (ids : List Bytes)
      → r.z_range_by_score k limit count s ≡ some ids
      → All (λ m. (n : ℕ) × ((content s).scores k m ≡ some n) × (n ≤ limit)) ids
  pub range_complete :
      (k : Bytes) (limit count : ℕ) (s : r.State) (ids : List Bytes)
      → r.z_range_by_score k limit count s ≡ some ids
      → length ids < count
      → (m : Bytes) (n : ℕ) → (content s).scores k m ≡ some n
      → n ≤ limit
      → Mem m ids

-- Decoding what was encoded.
abbrev pub IsJson : Json → Type 0
IsJson json =
    (info : SandboxInfo) (v : Bytes) → json.marshal info ≡ some v → json.unmarshal v ≡ some info
