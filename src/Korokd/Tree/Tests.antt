-- ===== src/Korokd/Tree/Tests.antt =====
-- The theorems on trees at concrete inputs.
use agentland.FilePath.Segments.{NoSlash, IsNormal}
use agentland.FilePath.{slash, is_dot_dot, is_abs}
use agentland.Korokd.Workspace.{resolve_workspace_path}
use agentland.Base.{
  ℕ, true, false, Bool, Option, none, some, [], ◌∷◌, ◌≡◌, refl, filter, All, ◌≤◌, arith, ◌||◌, ◌==◌,
}
use agentland.Text.{Bytes, bytes, bytes_eq, trim_space, has_prefix}
use agentland.Korokd.Files.{FsHandler, Stat, found, directory, success, workspace_path}
use agentland.Korokd.Files.Parameters.{parse_depth, parse_include_hidden}
use agentland.Korokd.Tree.{
  Entry, Entries, link, locked, folder, nil, cons, TreeResp, get_fs_tree, dir_node, file_node,
  tree_resp,
}
use agentland.Korokd.Tree.Listing.{listing_all, nodes, wanted, AreNames, AreNamesAll}
use agentland.Korokd.Tree.Answer.{get_fs_tree-listing}
use agentland.Korokd.Tree.Bounds.{Fits, HasNames, get_fs_tree-Fits}

abbrev handler : FsHandler
handler = record { workspace_root = bytes "/w"; max_file_bytes = 0 }

-- A hidden directory that cannot be read, a directory with a file and a deeper one, and a link.
abbrev below : Entries
below = cons (locked (bytes ".git")) (
    cons
      (folder (bytes "a") (
        cons (folder (bytes "d") (cons (locked (bytes "e")) nil))
          (cons (Entry.file (bytes "f") (some (3, 7))) nil)))
      (cons (link (bytes "z")) nil))

abbrev disk : Bytes → Option Entry
disk p = some (folder (bytes "w") below)

abbrev stat : Bytes → Stat
stat p = found (record { mode = directory; size = 0 })

abbrev answer : TreeResp
answer = record {
  root = bytes ".";
  nodes =
      dir_node (bytes "a") (bytes "a")
      ∷ dir_node (bytes "a/d") (bytes "d")
      ∷ file_node (bytes "a/f") (bytes "f") 3 7
      ∷ [];
}

test_tree : get_fs_tree handler stat disk none (some (bytes "2")) none ≡ success answer
unfolding get_fs_tree
test_tree = refl

rooted : is_abs handler.workspace_root ≡ true
unfolding has_prefix
rooted = refl

abbrev has_slash : Bytes → Bool
has_slash [] = false
has_slash (c ∷ s) = c == slash || has_slash s

NoSlash-of : (s : Bytes) → has_slash s ≡ false → NoSlash s
NoSlash-of [] h = tt
NoSlash-of (c ∷ s) h = (ground (arith, h), NoSlash-of s (ground (arith, h)))

IsNormal-of :
    (s : Bytes)
    → bytes_eq s [] ≡ false
    → bytes_eq s (bytes ".") ≡ false
    → is_dot_dot s ≡ false
    → has_slash s ≡ false
    → IsNormal s
IsNormal-of s a b c d = record {
  not_empty = a;
  not_dot = b;
  not_dot_dot = c;
  no_slash = NoSlash-of s d;
}

below-AreNames : AreNamesAll below
unfolding AreNames
below-AreNames = (
  IsNormal-of (bytes ".git") refl refl refl refl,
  tt,
  (
    IsNormal-of (bytes "a") refl refl refl refl,
    (
      IsNormal-of (bytes "d") refl refl refl refl,
      (IsNormal-of (bytes "e") refl refl refl refl, tt, tt),
      (IsNormal-of (bytes "f") refl refl refl refl, tt, tt),
    ),
    (IsNormal-of (bytes "z") refl refl refl refl, tt, tt),
  ),
)

disk-HasNames : (p : Bytes) → HasNames (disk p)
unfolding AreNames
disk-HasNames p = below-AreNames

depth_2 : parse_depth (bytes "2") ≡ some 2
unfolding parse_depth
depth_2 = refl

not_hidden : parse_include_hidden (bytes "false") ≡ some false
unfolding parse_include_hidden
not_hidden = refl

root_path : workspace_path handler (trim_space (bytes ".")) ≡ success (bytes "/w", bytes ".")
unfolding resolve_workspace_path trim_space
root_path = refl

get_fs_tree-listing_example :
    get_fs_tree handler stat disk none (some (bytes "2")) none
    ≡ tree_resp (bytes ".") (nodes (filter (wanted 2 false) (listing_all [] below)))
get_fs_tree-listing_example =
    get_fs_tree-listing handler stat disk none (some (bytes "2")) none 2 false (bytes "/w")
      (bytes ".") (bytes "w") below rooted depth_2 not_hidden root_path refl refl below-AreNames

get_fs_tree-Fits_example :
    (d : ℕ) × (b : Bool) × (parse_depth (bytes "2") ≡ some d)
    × (parse_include_hidden (bytes "false") ≡ some b)
    × (d ≤ 20)
    × All (Fits d b) answer.nodes
get_fs_tree-Fits_example =
    get_fs_tree-Fits handler stat disk none (some (bytes "2")) none answer rooted disk-HasNames
      test_tree
