-- ===== src/Korokd/Tests.antt =====
-- The theorems on the daemon's parts at concrete inputs.
use mathlib.Core.List.{flatten}
use agentland.FilePath.Segments.{IsNormal}
use agentland.Base.{
  false, length, ◌≤◌, ◌^◌, arith, Bool, not, ◌&&◌, ◌==◌, true, none, some, List, [], ◌∷◌, ◌++◌, ◌≡◌,
  refl, All,
}
use agentland.Text.{Bytes, bytes, index, last_index, trim_space}
use agentland.FilePath.{join, segments}
use agentland.FilePath.Cleaning.{render}
use agentland.Korokd.ExitCode.{drain_loop, new_filter, stream, strip_exit_marker, parse_exit_marker}
use agentland.Korokd.ExitCode.Whole.{drain_loop_fuel}
use agentland.Korokd.ExitCode.Lines.{NoReturn}
use agentland.Korokd.ExitCode.Chunks.{stream-flatten}
use agentland.Korokd.ExitCode.Marker.{strip-stream}
use agentland.Korokd.ExitCode.Clear.{stream-no_marker, stream-cut_line_end}
use agentland.Korokd.Contexts.{
  World, KernelContext, Manager, create, begin_execute, find, stale_ids, context_max_count,
}
use agentland.Korokd.Contexts.Limit.{Steps, creates, step, stop, Steps-limit}
use agentland.Korokd.Contexts.Exclusive.{
  IsStale, IsOther, IsExclusive, begin_execute-IsExclusive, stale_ids-IsStale,
}
use agentland.Korokd.Kernels.{Specs, is_for, search_kernel}
use agentland.Korokd.Kernels.Choice.{IsOffered, search_kernel-IsOffered, search_kernel-none}
use agentland.Korokd.Workspace.{resolve_context_cwd, resolve_workspace_path}
use agentland.Korokd.Workspace.Inside.{
  IsInside, resolve_context_cwd-IsInside, resolve_context_cwd_inside,
}
use agentland.Korokd.Workspace.Resolve.{Allowed, asked_for, resolve_workspace_path-Allowed}

abbrev chunks : List Bytes
chunks = bytes "hi\nM" ∷ bytes "=" ∷ bytes "12" ∷ bytes "\nbye" ∷ []

abbrev has_no_return : Bytes → Bool
has_no_return [] = true
has_no_return (c ∷ s) = not (c == 13) && has_no_return s

NoReturn-of : (s : Bytes) → has_no_return s ≡ true → NoReturn s
NoReturn-of [] h = tt
NoReturn-of (c ∷ s) h = (ground (arith, h), NoReturn-of s (ground (arith, h)))

chunks-NoReturn : All NoReturn chunks
chunks-NoReturn = (
  NoReturn-of (bytes "hi\nM") refl,
  (
    NoReturn-of (bytes "=") refl,
    (NoReturn-of (bytes "12") refl, (NoReturn-of (bytes "\nbye") refl, tt)),
  ),
)

drain_loop_fuel_example :
    drain_loop 9 (bytes "M=") 512 true (bytes "a\nM=3\nb") none
    ≡ drain_loop 20 (bytes "M=") 512 true (bytes "a\nM=3\nb") none
drain_loop_fuel_example =
    drain_loop_fuel (bytes "M=") (ground arith) 512 9 20 true (bytes "a\nM=3\nb") none
      (ground arith) (ground arith)

stream-flatten_example :
    stream (new_filter (bytes "M")) chunks ≡ stream (new_filter (bytes "M")) (flatten chunks ∷ [])
stream-flatten_example = stream-flatten (bytes "M") chunks (ground arith) chunks-NoReturn

strip-stream_example : stream (new_filter (bytes "M")) chunks ≡ (
  strip_exit_marker (flatten chunks) (bytes "M"),
  parse_exit_marker (flatten chunks) (bytes "M"),
)
unfolding flatten index last_index
strip-stream_example = strip-stream (bytes "M") chunks 3 (ground arith) chunks-NoReturn refl refl

test_stream_no_marker :
    stream (new_filter (bytes "M")) (bytes "a\r" ∷ bytes "\nb" ∷ [])
    ≡ (flatten (bytes "a\r" ∷ bytes "\nb" ∷ []), none)
unfolding flatten index
test_stream_no_marker =
    stream-no_marker (bytes "M") (bytes "a\r" ∷ bytes "\nb" ∷ []) (ground arith) refl

test_stream-cut_line_end :
    (stream (new_filter (bytes "M")) (((bytes "M" ++ bytes "=") ++ bytes "0\r\n") ∷ [])
      ≡ ([], some 0))
    × (stream (new_filter (bytes "M")) (((bytes "M" ++ bytes "=") ++ bytes "0\r") ∷ bytes "\n" ∷ [])
        ≡ (bytes "\n", some 0))
test_stream-cut_line_end = stream-cut_line_end (bytes "M") (ground arith)

resolve_context_cwd-IsInside_example : IsInside (bytes "/workspace/b")
unfolding resolve_context_cwd
resolve_context_cwd-IsInside_example =
    resolve_context_cwd-IsInside (bytes " /workspace/a/../b ") (bytes "/workspace/b") refl

a-IsNormal : IsNormal (bytes "a")
a-IsNormal = record {
  no_slash = ((λ h. absurd (ground (arith, h))), tt);
  not_empty = refl;
  not_dot = refl;
  not_dot_dot = refl;
}

test_cwd_inside :
    resolve_context_cwd (render (bytes "workspace" ∷ bytes "a" ∷ []))
    ≡ some (render (bytes "workspace" ∷ bytes "a" ∷ []))
unfolding trim_space join
test_cwd_inside = resolve_context_cwd_inside (bytes "a" ∷ []) (a-IsNormal, tt) refl

resolve_workspace_path-Allowed_example :
    (bytes "a" ≡ asked_for (bytes "b/../a"))
    × Allowed (segments (bytes "/workspace")) (bytes "/workspace/a") (bytes "a")
unfolding resolve_workspace_path
resolve_workspace_path-Allowed_example =
    resolve_workspace_path-Allowed (bytes "/workspace") (bytes "b/../a") (bytes "/workspace/a")
      (bytes "a") refl refl

-- The scan passes over `python3` and takes it only for want of another.
abbrev specs : Specs
specs =
    (bytes "python3", some (bytes "python"))
    ∷ (bytes "sh", some (bytes " Bash"))
    ∷ (bytes "broken", none)
    ∷ []

test_search_python : search_kernel (bytes "python") (some specs) ≡ some (bytes "python3")
unfolding search_kernel
test_search_python = refl

test_search_bash : search_kernel (bytes "bash") (some specs) ≡ some (bytes "sh")
unfolding search_kernel
test_search_bash = refl

test_search : IsOffered (bytes "bash") specs (bytes "sh")
test_search = search_kernel-IsOffered (bytes "bash") specs (bytes "sh") test_search_bash

abbrev no_bash : Specs
no_bash = (bytes "python3", some (bytes "python")) ∷ (bytes "bash", none) ∷ []

test_search_no_bash : search_kernel (bytes "bash") (some no_bash) ≡ none
unfolding search_kernel
test_search_no_bash = refl

test_search_kernel_none : All (λ s. is_for (bytes "bash") s.1 ≡ false) no_bash
test_search_kernel_none = search_kernel-none (bytes "bash") no_bash refl test_search_no_bash

abbrev world : World
world = record {
  uuid = bytes "u1";
  mkdir_all = λ _. true;
  kernelspecs = some specs;
  create_session = λ id path kernel. some (bytes "c1", bytes "k1");
  now = 5;
  address = 7;
}

abbrev context : KernelContext
context = record {
  id = bytes "c1";
  language = bytes "python";
  cwd = bytes "/workspace";
  kernel_id = bytes "k1";
  last_active = 5;
  ref = 7;
}

abbrev manager : Manager
manager = record { contexts = context ∷ []; busy = λ r. false }

abbrev no_contexts : Manager
no_contexts = record { contexts = []; busy = λ r. false }

test_create : (create world (bytes " Python") [] no_contexts).1.contexts ≡ context ∷ []
unfolding create
test_create = refl

Steps-limit_example :
    length (create world (bytes "python") [] no_contexts).1.contexts ≤ context_max_count
Steps-limit_example =
    Steps-limit (λ r. Unit {0}) no_contexts (create world (bytes "python") [] no_contexts).1
      (step _ _ _ (creates world (bytes "python") [] no_contexts tt) (stop _)) (ground arith)

-- An execution begins, a second looks up the context before and is refused after.
begin_execute-IsExclusive_example :
    (k : KernelContext) × (find (bytes "c1") (context ∷ []) ≡ some k)
    × (false ≡ false)
    × ((now : Manager)
        → Steps (IsOther k.ref) (begin_execute (bytes "c1") 0 manager manager).1 now
        → IsExclusive k now)
unfolding begin_execute
begin_execute-IsExclusive_example = begin_execute-IsExclusive (bytes "c1") 0 manager manager refl

test_stale_ids :
    All
      (IsStale (2 ^ 60) manager.busy (context ∷ []))
      (stale_ids (2 ^ 60) manager.busy (context ∷ []))
test_stale_ids = stale_ids-IsStale (2 ^ 60) manager.busy (context ∷ [])
