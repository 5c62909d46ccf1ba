-- ===== src/Korokd/Tree/Bounds.antt =====
-- How deep the nodes of a tree lie.
use mathlib.Core.Option
use agentland.Base.{
  ℕ, ◌≤◌, true, false, Bool, Option, none, some, List, [], ◌∷◌, ◌++◌, ◌≡◌, refl, ap, sym, subst,
  ◌∙◌, All, All-append, arith, Bool-cases, inl, inr, length, filter,
}
use agentland.Text.{Bytes, bytes, trim_space}
use agentland.FilePath.{join, is_abs}
use agentland.FilePath.Segments.{IsNormal}
use agentland.Korokd.Files.Parameters.{
  parse_depth, parse_include_hidden, contains_hidden_segment, path_depth,
}
use agentland.Korokd.Tree.{
  TreeResp, walk_root, walk, visit, tree_resp, by_path, directory_at, get_fs_tree, Entry, Entries,
  link, locked, folder, nil, cons, Node, name, both,
}
use agentland.Korokd.Tree.Listing.{
  listing, listing_all, AreNames, AreNamesAll, node, nodes, wanted, path_depth-join,
  contains_hidden_segment-join, walk-listing,
}
use agentland.Korokd.Tree.Answer.{target_form, parse_depth_bounds}
use agentland.Korokd.Files.RoundTrip.{or_form_error-success}
use agentland.Korokd.Files.{
  Response, success, form_error, server_error, forbidden, Stat, FsHandler, or_default,
  or_form_error, and_then, workspace_path,
}
use agentland.Controller.{sort}
use agentland.Controller.Sorting.{sort-All}
use agentland.FilePath.Cleaning.{render}
use agentland.Text.Search.{bytes_eq_refl}

-- Names that lead somewhere.
abbrev Named : List Bytes → Type 0
Named names = All IsNormal names × (1 ≤ length names)

Named-append :
    (names : List Bytes) (n : Bytes) → All IsNormal names → IsNormal n → Named (names ++ n ∷ [])
Named-append names n h k = (All-append IsNormal names (n ∷ []) h (k, tt), nonempty names)
  where
    nonempty : (xs : List Bytes) → 1 ≤ length (xs ++ n ∷ [])
    nonempty [] = omega arith
    nonempty (x ∷ xs) = omega arith

mutual
  unfolding listing AreNames

  listing-Named :
      (names : List Bytes) (e : Entry)
      → Named names
      → AreNames e
      → All (λ x. Named x.0) (listing names e)
  listing-Named names (Entry.file n i) h a = (h, tt)
  listing-Named names (link n) h a = (h, tt)
  listing-Named names (locked n) h a = (h, tt)
  listing-Named names (folder n es) h a = (h, listing_all-Named names es h.0 a)

  listing_all-Named :
      (names : List Bytes) (es : Entries)
      → All IsNormal names
      → AreNamesAll es
      → All (λ x. Named x.0) (listing_all names es)
  listing_all-Named names nil h a = tt
  listing_all-Named names (cons e es) h (n, a, r) =
      All-append (λ x. Named x.0) (listing (names ++ name e ∷ []) e) (listing_all names es)
        (listing-Named (names ++ name e ∷ []) e (Named-append names (name e) h n) a)
        (listing_all-Named names es h r)

-- Within the depth that was asked for, and hidden only if that was asked for.
pub record Fits (depth : ℕ) (include_hidden : Bool) (n : Node) : Type 0 where
  pub below : 1 ≤ path_depth n.path
  pub within : path_depth n.path ≤ depth
  pub shown : include_hidden ≡ false → contains_hidden_segment n.path ≡ false

module _ (d : ℕ) (b : Bool) where
  names-Fits :
      (names : List Bytes) (e : Entry) (m : Node)
      → Named names
      → wanted d b (names, e) ≡ true
      → m.path ≡ join (bytes "/") names
      → Fits d b m
  names-Fits [] e m h w p = absurd (omega (arith, h.1))
  names-Fits (s ∷ ss) e m h w p =
      let depth_is = path_depth-join s ss h.0 in
      let hidden_is = contains_hidden_segment-join s ss h.0 in
      record {
        below = rw (p, depth_is) h.1;
        within = rw (p, depth_is) (ground (arith, w));
        shown = λ f. rw (p, hidden_is) (ground (arith, w, f));
      }

  node-path :
      (names : List Bytes) (e : Entry) (m : Node)
      → node (names, e) ≡ some m
      → m.path ≡ join (bytes "/") names
  node-path names (Entry.file n none) m h = absurd (ground (arith, h))
  node-path names (Entry.file n (some (size, time))) m h = ground (arith, h)
  node-path names (link n) m h = absurd (ground (arith, h))
  node-path names (locked n) m h = absurd (ground (arith, h))
  node-path names (folder n es) m h = ground (arith, h)

  both-some :
      (o : Option Node) (r : Option (List Node)) (ns : List Node)
      → both (Option.map (λ n. n ∷ []) o) r ≡ some ns
      → (m : Node) × (ms : List Node) × (o ≡ some m) × (r ≡ some ms) × (m ∷ ms ≡ ns)
  both-some none r ns h = absurd (ground (arith, h))
  both-some (some m) none ns h = absurd (ground (arith, h))
  both-some (some m) (some ms) ns h = (m, ms, refl, refl, ground (arith, h))

  nodes-Fits :
      (xs : List (List Bytes × Entry)) (ns : List Node)
      → All (λ x. Named x.0) xs
      → nodes (filter (wanted d b) xs) ≡ some ns
      → All (Fits d b) ns
  unfolding nodes
  nodes-Fits [] ns h e = let same : [] ≡ ns = ground (arith, e) in subst (All (Fits d b)) same tt
  nodes-Fits ((names, x) ∷ xs) ns h e = elim (Bool-cases (wanted d b (names, x))) [
    | inr w ↦ nodes-Fits xs ns h.1 (rw w at e)
    | inl w ↦
        let (m, ms, em, er, same) =
          both-some (node (names, x)) (nodes (filter (wanted d b) xs)) ns (rw w at e) in
        subst (All (Fits d b)) same
          (names-Fits names x m h.0 w (node-path names x m em), nodes-Fits xs ms h.1 er)
  ]

-- The disk below a path has names that it can have, whatever stands at the path.
abbrev pub HasNames : Option Entry → Type 0
unfolding AreNames
HasNames none = Unit {0}
HasNames (some e) = AreNames e

-- A walk gives nodes that fit.
walk_root-Fits :
    (ts : List Bytes) (d : ℕ) (b : Bool) (o : Option Entry) (ns : List Node)
    → All IsNormal ts
    → 1 ≤ d
    → HasNames o
    → walk_root (visit (render ts) d b) (render ts) o ≡ some ns
    → All (Fits d b) ns
unfolding walk_root walk visit AreNames
walk_root-Fits ts d b none ns nt deep a h = absurd (ground (arith, h))
walk_root-Fits ts d b (some (Entry.file n i)) ns nt deep a h =
    let same : [] ≡ ns = ground (arith, h, bytes_eq_refl (render ts)) in
    subst (All (Fits d b)) same tt
walk_root-Fits ts d b (some (link n)) ns nt deep a h =
    let same : [] ≡ ns = ground (arith, h, bytes_eq_refl (render ts)) in
    subst (All (Fits d b)) same tt
walk_root-Fits ts d b (some (locked n)) ns nt deep a h =
    absurd (ground (arith, h, bytes_eq_refl (render ts)))
walk_root-Fits ts d b (some (folder n es)) ns nt deep a h =
    nodes-Fits d b (listing_all [] es) ns (listing_all-Named [] es tt a)
      (sym (walk-listing ts d b nt deep n es a) ∙ h)

walk_root-Fits_at :
    (target : Bytes) (d : ℕ) (b : Bool) (o : Option Entry)
    → ((ts : List Bytes) × (target ≡ render ts) × All IsNormal ts)
    → 1 ≤ d
    → HasNames o
    → (ns : List Node) → walk_root (visit target d b) target o ≡ some ns
    → All (Fits d b) ns
walk_root-Fits_at target d b o (ts, e, nt) deep a ns h =
    walk_root-Fits ts d b o ns nt deep a (ap (λ t. walk_root (visit t d b) t o) (sym e) ∙ h)

and_then-success :
    {A B C : Type 0} (r : Response A) (f : A → Response B) (x : B)
    → and_then r f ≡ success x
    → ((a : A) → r ≡ success a → f a ≡ success x → C)
    → C
and_then-success (success a) f x h k = k a refl h
and_then-success form_error f x h k = absurd (ground (arith, h))
and_then-success server_error f x h k = absurd (ground (arith, h))
and_then-success forbidden f x h k = absurd (ground (arith, h))

tree_resp-Fits :
    (d : ℕ) (b : Bool) (root : Bytes) (o : Option (List Node)) (r : TreeResp)
    → ((ns : List Node) → o ≡ some ns → All (Fits d b) ns)
    → tree_resp root o ≡ success r
    → All (Fits d b) r.nodes
unfolding tree_resp
tree_resp-Fits d b root none r h e = absurd (ground (arith, e))
tree_resp-Fits d b root (some ns) r h e =
    let same : sort by_path ns ≡ r.nodes = ground (arith, e) in
    subst (All (Fits d b)) same (sort-All by_path (Fits d b) ns (h ns refl))

-- Whatever is on the disk below an absolute root, each node of an answer lies at most as deep as the
-- request says, which is from 1 to 20 levels below its directory, and is hidden only if hidden nodes
-- are asked for.
pub get_fs_tree-Fits :
    (h : FsHandler) (stat : Bytes → Stat) (disk : Bytes → Option Entry)
    (path depth include_hidden : Option Bytes) (r : TreeResp)
    → is_abs h.workspace_root ≡ true
    → ((p : Bytes) → HasNames (disk p))
    → get_fs_tree h stat disk path depth include_hidden ≡ success r
    → (d : ℕ) × (b : Bool) × (parse_depth (or_default (bytes "5") depth) ≡ some d)
      × (parse_include_hidden (or_default (bytes "false") include_hidden) ≡ some b)
      × (d ≤ 20)
      × All (Fits d b) r.nodes
unfolding get_fs_tree
get_fs_tree-Fits h stat disk path depth include_hidden r rooted named e =
    and_then-success (or_form_error (parse_depth (or_default (bytes "5") depth))) _ r e λ d ed e₁.
      and_then-success
        (or_form_error (parse_include_hidden (or_default (bytes "false") include_hidden))) _ r e₁
        λ b eb e₂.
          and_then-success (workspace_path h (trim_space (or_default (bytes ".") path))) _ r e₂
            λ t et e₃. and_then-success (directory_at (stat t.0)) _ r e₃ λ u eu e₄.
              let ed' = or_form_error-success (parse_depth (or_default (bytes "5") depth)) d ed in
              let eb' =
                or_form_error-success
                  (parse_include_hidden (or_default (bytes "false") include_hidden)) b eb in
              let bounds = parse_depth_bounds (or_default (bytes "5") depth) d ed' in
              (
                d,
                b,
                ed',
                eb',
                bounds.1,
                tree_resp-Fits d b t.1 (walk_root (visit t.0 d b) t.0 (disk t.0)) r
                    (walk_root-Fits_at t.0 d b (disk t.0)
                      (target_form h (trim_space (or_default (bytes ".") path)) t.0 t.1 rooted et)
                      bounds.0 (named t.0))
                    e₄,
              )
