-- ===== src/Korokd/Tree/Answer.antt =====
-- What a request for a tree is answered.
use agentland.Base.{
  ℕ, ◌≤◌, true, Bool, Option, none, some, List, [], ◌≡◌, refl, sym, subst, All, arith, filter,
}
use agentland.Text.{Bytes, bytes, trim_space, ℤ, pos, negsuc, atoi}
use agentland.FilePath.{is_abs}
use agentland.FilePath.Segments.{IsNormal}
use agentland.FilePath.Cleaning.{render}
use agentland.Korokd.Workspace.{Resolved, resolved, not_relative, escapes, resolve_workspace_path}
use agentland.Korokd.Workspace.Resolve.{resolve_workspace_path_form}
use agentland.Korokd.Files.Parameters.{parse_depth, parse_include_hidden, in_range}
use agentland.Korokd.Files.{success, Stat, FsHandler, or_default, workspace_path, of_resolved}
use agentland.Korokd.Tree.{
  Entry, Entries, folder, get_fs_tree, visit, tree_resp, walk, directory_at,
}
use agentland.Korokd.Tree.Listing.{listing_all, AreNamesAll, nodes, wanted, walk-listing}

pub parse_depth_bounds : (v : Bytes) (d : ℕ) → parse_depth v ≡ some d → (1 ≤ d) × (d ≤ 20)
unfolding parse_depth
parse_depth_bounds v d h = in_range_bounds (atoi (trim_space v)) d h
  where
    in_range_bounds : (o : Option ℤ) (e : ℕ) → in_range o ≡ some e → (1 ≤ e) × (e ≤ 20)
    in_range_bounds none e h = absurd (ground (arith, h))
    in_range_bounds (some (negsuc n)) e h = absurd (ground (arith, h))
    in_range_bounds (some (pos n)) e h = (ground (arith, h), ground (arith, h))

of_resolved-success :
    (r : Resolved) (t : Bytes × Bytes) → of_resolved r ≡ success t → r ≡ resolved t.0 t.1
of_resolved-success (resolved target cleaned) t e = ground (arith, e)
of_resolved-success not_relative t e = absurd (ground (arith, e))
of_resolved-success escapes t e = absurd (ground (arith, e))

-- Under an absolute root a request works on the text of normal segments.
pub target_form :
    (h : FsHandler) (p target cleaned : Bytes)
    → is_abs h.workspace_root ≡ true
    → workspace_path h p ≡ success (target, cleaned)
    → (ts : List Bytes) × (target ≡ render ts) × All IsNormal ts
target_form h p target cleaned rooted e =
    resolve_workspace_path_form h.workspace_root p target cleaned rooted
      (of_resolved-success (resolve_workspace_path h.workspace_root p) (target, cleaned) e)

walk-listing_at :
    (target n : Bytes) (es : Entries) (d : ℕ) (b : Bool)
    → ((ts : List Bytes) × (target ≡ render ts) × All IsNormal ts)
    → 1 ≤ d
    → AreNamesAll es
    → walk (visit target d b) target (folder n es) ≡ nodes (filter (wanted d b) (listing_all [] es))
walk-listing_at target n es d b (ts, e, nt) deep a =
    subst
      (λ (t : Bytes).
        walk (visit t d b) t (folder n es) ≡ nodes (filter (wanted d b) (listing_all [] es)))
      (sym e) (walk-listing ts d b nt deep n es a)

-- A request whose parameters are right, for a directory that is there and under an absolute root, is
-- answered by the nodes of those entries of the full listing that are not too deep, not hidden unless
-- that is asked for, and no links, sorted by their paths; by an error where one of them cannot be
-- read.
pub get_fs_tree-listing :
    (h : FsHandler) (stat : Bytes → Stat) (disk : Bytes → Option Entry)
    (path depth include_hidden : Option Bytes) (d : ℕ) (b : Bool) (target cleaned n : Bytes)
    (es : Entries)
    → is_abs h.workspace_root ≡ true
    → parse_depth (or_default (bytes "5") depth) ≡ some d
    → parse_include_hidden (or_default (bytes "false") include_hidden) ≡ some b
    → workspace_path h (trim_space (or_default (bytes ".") path)) ≡ success (target, cleaned)
    → directory_at (stat target) ≡ success tt
    → disk target ≡ some (folder n es)
    → AreNamesAll es
    → get_fs_tree h stat disk path depth include_hidden
      ≡ tree_resp cleaned (nodes (filter (wanted d b) (listing_all [] es)))
unfolding get_fs_tree
get_fs_tree-listing h stat disk path depth include_hidden d b target cleaned n es rooted ed eb et
      es' disk_is a =
    rw
      (
        ed,
        eb,
        et,
        es',
        disk_is,
        walk-listing_at target n es d b
            (target_form h (trim_space (or_default (bytes ".") path)) target cleaned rooted et)
            (parse_depth_bounds (or_default (bytes "5") depth) d ed).0 a,
      )
      refl
