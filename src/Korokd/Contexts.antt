-- ===== src/Korokd/Contexts.antt =====
-- The execution contexts of the daemon (pkg/korokd/handlers/context_manager.go): how they are made,
-- claimed for an execution, released and removed. A context is an object with an atomic flag: who has
-- looked it up in the map keeps it, whatever becomes of the map. Where the code gives up its lock, or
-- touches a flag that others change without the lock, what it does is split, and each part takes the
-- manager of its own time, so that an interleaving is a sequence of steps. What Jupyter and the file
-- system answer is an argument. Times are nanoseconds. Negative timeouts (which the code refuses), the
-- count of executions and the time of creation are left out.
pub mod Limit
pub mod Exclusive
use agentland.Base.{
  ℕ, ◌+◌, ◌*◌, ◌^◌, Bool, true, false, not, ◌&&◌, ◌||◌, Option, none, some, List, [], ◌∷◌, ◌++◌,
  length, ltb, leb, if◌then◌else◌, ◌==◌,
}
use agentland.Text.{Bytes, bytes, bytes_eq, trim_space, to_lower}
use agentland.Korokd.Kernels.{Specs, search_kernel}
use agentland.Korokd.Workspace.{resolve_context_cwd, notebook_path_for_cwd, Notebook, notebook}

abbrev pub context_max_count : ℕ
context_max_count = 32

-- 15 minutes.
abbrev pub context_idle_ttl : ℕ
context_idle_ttl = 15 * 60 * 10 ^ 9

abbrev pub context_default_timeout_ms : ℕ
context_default_timeout_ms = 30000

abbrev pub context_min_timeout_ms : ℕ
context_min_timeout_ms = 100

abbrev pub context_max_timeout_ms : ℕ
context_max_timeout_ms = 300000

-- `ref` is the address of the object, under which its flag is found.
pub record KernelContext : Type 0 where
  pub id : Bytes
  pub language : Bytes
  pub cwd : Bytes
  pub kernel_id : Bytes
  pub last_active : ℕ
  pub ref : ℕ

pub data Error : Type 0 where
  not_found busy limit_exceeded invalid_timeout cwd_outside_workspace unsupported_language : Error
  no_notebook no_kernel no_session no_kernel_id : Error

-- The map of contexts; an id stands in it once.
abbrev pub Contexts : Type 0
Contexts = List KernelContext

unfoldable pub find : Bytes → Contexts → Option KernelContext
find id [] = none
find id (k ∷ ks) = if bytes_eq k.id id then some k else find id ks

unfoldable pub delete : Bytes → Contexts → Contexts
delete id [] = []
delete id (k ∷ ks) = let rest = delete id ks in if bytes_eq k.id id then rest else k ∷ rest

-- The flags `busy` of all objects, also of those that are in the map no longer.
abbrev pub Flags : Type 0
Flags = ℕ → Bool

abbrev pub store_flag : ℕ → Bool → Flags → Flags
store_flag r b flags j = if j == r then b else flags j

pub record Manager : Type 0 where
  pub contexts : Contexts
  pub busy : Flags

-- What the world answers to a creation: a new uuid, whether the directory could be made, Jupyter's
-- kernelspecs, the session's and its kernel's id unless time ran out, the time, and the address of a
-- new object.
pub record World : Type 0 where
  pub uuid : Bytes
  pub mkdir_all : Bytes → Bool
  pub kernelspecs : Option Specs
  pub create_session : Bytes → Bytes → Bytes → Option (Bytes × Bytes)
  pub now : ℕ
  pub address : ℕ

abbrev pub or_id : Bytes → Bytes → Bytes
or_id [] id = id
or_id (c ∷ s) id = c ∷ s

abbrev pub supported : Bytes → Bool
supported language = bytes_eq language (bytes "python") || bytes_eq language (bytes "bash")

-- The entry for a session that was made; a session without a kernel is refused.
abbrev pub registered : World → Bytes → Bytes → Bytes → Bytes → Manager → Option Error × Manager
registered w language cwd session_id [] m = (some no_kernel_id, m)
registered w language cwd session_id (c ∷ kernel_id) m =
    let id = or_id session_id w.uuid in
    (
      none,
      record {
        contexts =
            record {
              id = id;
              language = language;
              cwd = cwd;
              kernel_id = c ∷ kernel_id;
              last_active = w.now;
              ref = w.address;
            }
            ∷ delete id m.contexts;
        busy = store_flag w.address false m.busy;
      },
    )

abbrev pub with_session :
    World → Bytes → Bytes → Option (Bytes × Bytes) → Manager → Option Error × Manager
with_session w language cwd none m = (some no_session, m)
with_session w language cwd (some (session_id, kernel_id)) m =
    registered w language cwd (trim_space session_id) (trim_space kernel_id) m

abbrev pub with_kernel :
    World → Bytes → Bytes → Bytes → Option Bytes → Manager → Option Error × Manager
with_kernel w language cwd path none m = (some no_kernel, m)
with_kernel w language cwd path (some kernel) m =
    with_session w language cwd (w.create_session w.uuid path kernel) m

abbrev pub with_notebook : World → Bytes → Bytes → Notebook → Manager → Option Error × Manager
with_notebook w language cwd (notebook path) m =
    with_kernel w language cwd path (search_kernel language w.kernelspecs) m
with_notebook w language cwd _ m = (some no_notebook, m)

abbrev pub with_cwd : World → Bytes → Option Bytes → Manager → Option Error × Manager
with_cwd w language none m = (some cwd_outside_workspace, m)
with_cwd w language (some cwd) m =
    if leb context_max_count (length m.contexts)
    then (some limit_exceeded, m)
    else if not (supported language)
    then (some unsupported_language, m)
    else with_notebook w language cwd (notebook_path_for_cwd w.mkdir_all w.uuid cwd) m

unfoldable pub create : World → Bytes → Bytes → Manager → Option Error × Manager
unfolding to_lower trim_space delete resolve_context_cwd notebook_path_for_cwd search_kernel
create w language cwd m = with_cwd w (to_lower (trim_space language)) (resolve_context_cwd cwd) m

-- What the start of `executeWithHooks` has before it takes the flag: the object, or an error.
pub data Looked : Type 0 where
  held : KernelContext → Looked
  refused : Error → Looked

abbrev pub timeout_checked : ℕ → Option KernelContext → Looked
timeout_checked timeout_ms none = refused not_found
timeout_checked timeout_ms (some k) =
    let t = if timeout_ms == 0 then context_default_timeout_ms else timeout_ms in
    if ltb t context_min_timeout_ms || ltb context_max_timeout_ms t
    then refused invalid_timeout
    else held k

-- The first part, under the lock for reading, which `get` gives up again.
unfoldable pub look_up : Bytes → ℕ → Manager → Looked
unfolding find
look_up id timeout_ms m = timeout_checked timeout_ms (find id m.contexts)

unfoldable pub compare_and_swap : ℕ → Manager → Bool × Manager
compare_and_swap r m =
    if m.busy r then (false, m) else (true, record m { busy = store_flag r true m.busy })

abbrev pub busy_unless : Bool × Manager → Option Error × Manager
busy_unless (true, m) = (none, m)
busy_unless (false, m) = (some busy, m)

-- The second part, without the lock.
abbrev pub claim : Looked → Manager → Option Error × Manager
claim (refused e) m = (some e, m)
claim (held k) m = busy_unless (compare_and_swap k.ref m)

-- The object is looked up in the first manager, and its flag taken in the second.
unfoldable pub begin_execute : Bytes → ℕ → Manager → Manager → Option Error × Manager
unfolding look_up compare_and_swap
begin_execute id timeout_ms seen m = claim (look_up id timeout_ms seen) m

-- The entry of this object with another time of activity.
unfoldable pub touch : ℕ → ℕ → Contexts → Contexts
touch r now [] = []
touch r now (k ∷ ks) =
    let rest = touch r now ks in
    if k.ref == r then record k { last_active = now } ∷ rest else k ∷ rest

-- How an execution ends.
pub data Ended : Type 0 where
  succeeded : ℕ → Ended
  failed timed_out : Ended

-- The end of an execution: a context that timed out is removed by force. Its flag is released after
-- that in any case.
unfoldable pub end_execute : KernelContext → Ended → Manager → Manager
unfolding touch delete
end_execute k (succeeded now) m = record m { contexts = touch k.ref now m.contexts }
end_execute k failed m = m
end_execute k timed_out m = record m { contexts = delete k.id m.contexts }

unfoldable pub release : ℕ → Manager → Manager
release r m = record m { busy = store_flag r false m.busy }

-- The first part of `removeContext`: what is in the map, and what its flag says. The lock is held to the
-- end, but flags change without it.
abbrev pub removable : Bool → Flags → Option KernelContext → Option Error
removable force flags none = some not_found
removable force flags (some k) = if not force && flags k.ref then some busy else none

abbrev pub removed : Bytes → Option Error → Manager → Option Error × Manager
removed id (some e) m = (some e, m)
removed id none m = (none, record m { contexts = delete id m.contexts })

-- `removeContext` up to the call of Jupyter, whose errors are ignored: the flag is read in the first
-- manager, and the entry deleted in the second.
unfoldable pub remove_context : Bytes → Bool → Manager → Manager → Option Error × Manager
unfolding find delete
remove_context id force seen m = removed id (removable force seen.busy (find id seen.contexts)) m

-- The scan of `runGC`: the ids of contexts that are idle for too long and not busy, as their flags are
-- read.
unfoldable pub stale_ids : ℕ → Flags → Contexts → List Bytes
stale_ids now flags [] = []
stale_ids now flags (k ∷ ks) =
    let rest = stale_ids now flags ks in
    if not (flags k.ref) && ltb (k.last_active + context_idle_ttl) now then k.id ∷ rest else rest
