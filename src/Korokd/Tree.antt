-- ===== src/Korokd/Tree.antt =====
-- The directory tree of the daemon (GetFSTree in pkg/korokd/handlers/fs.go, with filepath.WalkDir).
-- What is on the disk is an argument: the entries of a directory in the order of their names, which
-- is that of os.ReadDir. The time of a file is the number of its seconds.
pub mod Listing
pub mod Answer
pub mod Bounds
mod Tests
use mathlib.Core.Option
use agentland.Base.{
  ℕ, Bool, true, false, not, ◌&&◌, Option, none, some, List, [], ◌∷◌, ◌++◌, ltb, ◌==◌, ◌||◌,
  if◌then◌else◌,
}
use agentland.Text.{Bytes, bytes, bytes_eq, trim_space}
use agentland.Controller.{sort}
use agentland.FilePath.{join_paths, rel}
use agentland.Korokd.Workspace.{resolve_workspace_path}
use agentland.Korokd.Files.Parameters.{
  parse_depth, parse_include_hidden, contains_hidden_segment, path_depth,
}
use agentland.Korokd.Files.{
  Response, success, form_error, server_error, Stat, found, missing, failed, FsHandler, or_default,
  or_form_error, and_then, workspace_path, is_directory,
}

-- A directory that cannot be read is locked. Whatever is neither a directory nor a link counts as a
-- file, with its size and time unless it is gone when these are asked for.
mutual
  pub data Entry : Type 0 where
    file : Bytes → Option (ℕ × ℕ) → Entry
    link : Bytes → Entry
    locked : Bytes → Entry
    folder : Bytes → Entries → Entry

  pub data Entries : Type 0 where
    nil : Entries
    cons : Entry → Entries → Entries

pub data NodeType : Type 0 where
  dir file : NodeType

pub record Node : Type 0 where
  pub path : Bytes
  pub name : Bytes
  pub kind : NodeType
  pub size : ℕ
  pub mod_time : ℕ

abbrev pub name : Entry → Bytes
name (Entry.file n info) = n
name (link n) = n
name (locked n) = n
name (folder n es) = n

-- d.IsDir
abbrev pub is_dir : Entry → Bool
is_dir (Entry.file n info) = false
is_dir (link n) = false
is_dir (locked n) = true
is_dir (folder n es) = true

abbrev pub is_link : Entry → Bool
is_link (link n) = true
is_link (Entry.file n info) = false
is_link (locked n) = false
is_link (folder n es) = false

-- What the function that is given to WalkDir does at an entry: it returns nil without a node,
-- returns SkipDir, adds a node, or fails.
pub data Verdict : Type 0 where
  pass skip fail : Verdict
  keep : Node → Verdict

abbrev pub dir_node : Bytes → Bytes → Node
dir_node path n = record { path = path; name = n; kind = dir; size = 0; mod_time = 0 }

abbrev pub file_node : Bytes → Bytes → ℕ → ℕ → Node
file_node path n size time = record {
  path = path;
  name = n;
  kind = file;
  size = size;
  mod_time = time;
}

abbrev pub node_at : Bytes → Entry → Verdict
node_at path (Entry.file n none) = fail
node_at path (Entry.file n (some (size, time))) = keep (file_node path n size time)
node_at path (link n) = pass
node_at path (locked n) = keep (dir_node path n)
node_at path (folder n es) = keep (dir_node path n)

abbrev pub left_out : Entry → Verdict
left_out e = if is_dir e then skip else pass

module _ (target : Bytes) (depth : ℕ) (include_hidden : Bool) where
  abbrev pub visit_rel : Option Bytes → Entry → Verdict
  unfolding contains_hidden_segment path_depth
  visit_rel none e = fail
  visit_rel (some path) e =
      if not include_hidden && contains_hidden_segment path
      then left_out e
      else if ltb 0 depth && ltb depth (path_depth path)
      then left_out e
      else if is_link e
      then left_out e
      else node_at path e

  unfoldable pub visit : Bytes → Entry → Verdict
  unfolding visit_rel rel
  visit curr e = if bytes_eq curr target then pass else visit_rel (rel target curr) e

-- What is walked below a directory, by the verdict on the directory itself; likewise for a file,
-- below which there is nothing.
abbrev pub with_below : Verdict → Option (List Node) → Option (List Node)
with_below pass below = below
with_below skip below = some []
with_below fail below = none
with_below (keep n) below = Option.map (λ ns. n ∷ ns) below

abbrev pub both : Option (List Node) → Option (List Node) → Option (List Node)
both none r = none
both (some ns) r = Option.map (λ ms. ns ++ ms) r

-- WalkDir at a path, for what the function says at each path and entry.
module _ (f : Bytes → Entry → Verdict) where
  unfoldable mutual
    unfolding join_paths

    pub walk : Bytes → Entry → Option (List Node)
    walk curr (Entry.file n info) = with_below (f curr (Entry.file n info)) (some [])
    walk curr (link n) = with_below (f curr (link n)) (some [])
    walk curr (locked n) = with_below (f curr (locked n)) none
    walk curr (folder n es) = with_below (f curr (folder n es)) (walk_all curr es)

    pub walk_all : Bytes → Entries → Option (List Node)
    walk_all curr nil = some []
    walk_all curr (cons e es) = both (walk (join_paths curr (name e)) e) (walk_all curr es)

-- The order of Go's strings.
unfoldable pub less : Bytes → Bytes → Bool
less s [] = false
less [] (d ∷ t) = true
less (c ∷ s) (d ∷ t) = ltb c d || (c == d && less s t)

abbrev pub by_path : Node → Node → Bool
by_path a b = less a.path b.path

pub record TreeResp : Type 0 where
  pub root : Bytes
  pub nodes : List Node

abbrev pub directory_at : Stat → Response (Unit {0})
directory_at missing = form_error
directory_at failed = server_error
directory_at (found info) = if is_directory info.mode then success tt else form_error

abbrev pub tree_resp : Bytes → Option (List Node) → Response TreeResp
unfolding sort less
tree_resp root none = server_error
tree_resp root (some nodes) = success (record { root = root; nodes = sort by_path nodes })

-- The root of a walk, unless it cannot be found.
abbrev pub walk_root : (Bytes → Entry → Verdict) → Bytes → Option Entry → Option (List Node)
unfolding walk
walk_root f target none = none
walk_root f target (some e) = walk f target e

unfoldable pub get_fs_tree :
    FsHandler
    → (Bytes → Stat)
    → (Bytes → Option Entry)
    → Option Bytes
    → Option Bytes
    → Option Bytes
    → Response TreeResp
unfolding trim_space parse_depth parse_include_hidden resolve_workspace_path tree_resp walk_root
    visit
get_fs_tree h stat disk path depth include_hidden =
    and_then (or_form_error (parse_depth (or_default (bytes "5") depth))) λ d.
      and_then (or_form_error (parse_include_hidden (or_default (bytes "false") include_hidden)))
        λ b.
          and_then (workspace_path h (trim_space (or_default (bytes ".") path)))
            λ (target, cleaned).
              and_then (directory_at (stat target))
                λ _. tree_resp cleaned (walk_root (visit target d b) target (disk target))
