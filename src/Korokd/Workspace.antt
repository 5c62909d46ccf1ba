-- ===== src/Korokd/Workspace.antt =====
-- Which paths a request may name: `resolveWorkspacePath` of pkg/korokd/handlers/fs.go,
-- `resolveContextCWD` and `notebookPathForCWD` of pkg/korokd/handlers/context_manager.go.
pub mod Inside
pub mod Resolve
use agentland.Base.{
  ℕ, Bool, true, false, not, ◌&&◌, ◌||◌, Option, none, some, List, [], ◌∷◌, ◌++◌, if◌then◌else◌,
  ◌≡◌, refl,
}
use agentland.Text.{Bytes, bytes, bytes_eq, has_prefix, trim_space}
use agentland.FilePath.{slash, clean, join_paths, rel, is_abs}

abbrev pub context_workspace_root : Bytes
context_workspace_root = bytes "/workspace"

abbrev pub or_else : Bytes → Bytes → Bytes
or_else [] d = d
or_else (c ∷ s) d = c ∷ s

-- `none` is errCWDOutsideWorkspace.
unfoldable pub resolve_context_cwd : Bytes → Option Bytes
unfolding trim_space clean join_paths has_prefix
resolve_context_cwd input =
    let raw = or_else (trim_space input) context_workspace_root in
    let candidate =
      if is_abs raw then clean raw else clean (join_paths context_workspace_root raw) in
    let root = clean context_workspace_root in
    if not (bytes_eq candidate root) && not (has_prefix candidate (root ++ (slash ∷ [])))
    then none
    else some candidate

-- `..` itself, or a path that begins with `../`.
abbrev pub leads_up : Bytes → Bool
leads_up r = bytes_eq r (bytes "..") || has_prefix r (bytes "../")

-- The outcome of `resolveWorkspacePath`: the target and the cleaned path, or an error.
pub data Resolved : Type 0 where
  resolved : Bytes → Bytes → Resolved
  not_relative escapes : Resolved

abbrev pub resolved_under : Option Bytes → Bytes → Bytes → Resolved
resolved_under none target cleaned = not_relative
resolved_under (some r) target cleaned = if leads_up r then escapes else resolved target cleaned

unfoldable pub resolve_workspace_path : Bytes → Bytes → Resolved
unfolding trim_space clean join_paths rel has_prefix
resolve_workspace_path workspace_root requested =
    let root = clean workspace_root in
    let cleaned = clean (or_else (trim_space requested) (bytes ".")) in
    let target = clean (join_paths root cleaned) in
    if is_abs cleaned
    then resolved cleaned cleaned
    else resolved_under (rel root target) target cleaned

-- The outcome of `notebookPathForCWD`, where `os.MkdirAll` says whether the directory is there.
pub data Notebook : Type 0 where
  notebook : Bytes → Notebook
  mkdir_failed no_relative_path outside_workspace : Notebook

abbrev notebook_at : Option Bytes → Notebook
notebook_at none = no_relative_path
notebook_at (some r) =
    let r' = clean r in
    if has_prefix r' (bytes "../") || bytes_eq r' (bytes "..")
    then outside_workspace
    else notebook r'

unfoldable pub notebook_path_for_cwd : (Bytes → Bool) → Bytes → Bytes → Notebook
unfolding clean join_paths rel has_prefix
notebook_path_for_cwd mkdir_all context_id cwd =
    let dir = join_paths cwd (bytes ".agentland_contexts") in
    let absolute = join_paths dir (context_id ++ bytes ".ipynb") in
    if mkdir_all dir then notebook_at (rel context_workspace_root absolute) else mkdir_failed

test_cwd : resolve_context_cwd (bytes " /workspace/a/../b ") ≡ some (bytes "/workspace/b")
unfolding resolve_context_cwd
test_cwd = refl

test_cwd_outside : resolve_context_cwd (bytes "../workspace2") ≡ none
unfolding resolve_context_cwd
test_cwd_outside = refl

test_notebook :
    notebook_path_for_cwd (λ _. true) (bytes "c1") (bytes "/workspace/b")
    ≡ notebook (bytes "b/.agentland_contexts/c1.ipynb")
unfolding notebook_path_for_cwd
test_notebook = refl
