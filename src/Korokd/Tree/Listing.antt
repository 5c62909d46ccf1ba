-- ===== src/Korokd/Tree/Listing.antt =====
-- What a walk finds.
use mathlib.Core.List.{append_assoc, append-nil}
use mathlib.Core.Option
use agentland.Text.Search.{bytes_eq_refl}
use agentland.Base.{
  ℕ, suc, ◌+◌, ◌≤◌, true, false, not, ◌&&◌, ◌||◌, Bool, Option, none, some, List, [], ◌∷◌, ◌++◌,
  if◌then◌else◌, ◌≡◌, refl, ap, sym, ◌∙◌, All, arith, Bool-cases, inl, inr, length, length-append,
  leb, ltb, All-append, filter, filter-append,
}
use agentland.Text.{Bytes, bytes, bytes_eq}
use agentland.FilePath.{slash, join, join_paths}
use agentland.FilePath.Segments.{NoSlash, IsNormal}
use agentland.FilePath.Cleaning.{render, split-join}
use agentland.FilePath.Relative.{join_paths-render, rel_below, or_dot-join, below-ne}
use agentland.Korokd.Files.Parameters.{any_hidden, contains_hidden_segment, path_depth, count}
use agentland.Korokd.Tree.{
  Entry, Entries, link, locked, folder, nil, cons, Node, name, is_link, Verdict, node_at, left_out,
  visit, with_below, both, walk, walk_all, dir_node, file_node,
}

-- Every entry below a directory, with the names that lead to it, a directory before what it holds.
unfoldable mutual
  pub listing : List Bytes → Entry → List (List Bytes × Entry)
  listing names (Entry.file n info) = (names, Entry.file n info) ∷ []
  listing names (link n) = (names, link n) ∷ []
  listing names (locked n) = (names, locked n) ∷ []
  listing names (folder n es) = (names, folder n es) ∷ listing_all names es

  pub listing_all : List Bytes → Entries → List (List Bytes × Entry)
  listing_all names nil = []
  listing_all names (cons e es) = listing (names ++ name e ∷ []) e ++ listing_all names es

-- Every name is one that a directory can have.
unfoldable mutual
  pub AreNames : Entry → Type 0
  AreNames (Entry.file n info) = Unit {0}
  AreNames (link n) = Unit {0}
  AreNames (locked n) = Unit {0}
  AreNames (folder n es) = AreNamesAll es

  pub AreNamesAll : Entries → Type 0
  AreNamesAll nil = Unit {0}
  AreNamesAll (cons e es) = IsNormal (name e) × AreNames e × AreNamesAll es

-- The node of an entry, unless it cannot be read.
abbrev pub node : List Bytes × Entry → Option Node
node (names, Entry.file n none) = none
node (names, Entry.file n (some (size, time))) =
    some (file_node (join (bytes "/") names) n size time)
node (names, link n) = none
node (names, locked n) = none
node (names, folder n es) = some (dir_node (join (bytes "/") names) n)

-- The nodes of entries all of which can be read.
unfoldable pub nodes : List (List Bytes × Entry) → Option (List Node)
nodes [] = some []
nodes (x ∷ xs) = both (Option.map (λ n. n ∷ []) (node x)) (nodes xs)

-- What a request asks for: not too deep, not hidden unless that is asked for, and no link.
abbrev pub wanted : ℕ → Bool → List Bytes × Entry → Bool
wanted depth include_hidden (names, e) =
    not (not include_hidden && any_hidden names) && leb (length names) depth && not (is_link e)

count_none : (s : Bytes) → NoSlash s → count slash s ≡ 0
unfolding count
count_none [] h = refl
count_none (c ∷ s) h = ground (arith, h.0, count_none s h.1)

count_joined : (s t : Bytes) → NoSlash s → count slash (s ++ (slash ∷ t)) ≡ suc (count slash t)
unfolding count
count_joined [] t h = refl
count_joined (c ∷ s) t h = ground (arith, h.0, count_joined s t h.1)

count-join :
    (s : Bytes) (ss : List Bytes)
    → All IsNormal (s ∷ ss)
    → count slash (join (bytes "/") (s ∷ ss)) + 1 ≡ length (s ∷ ss)
unfolding join
count-join s [] h = omega (arith, count_none s h.0.no_slash)
count-join s (t ∷ ss) h =
    omega (arith, count_joined s (join (bytes "/") (t ∷ ss)) h.0.no_slash, count-join t ss h.1)

join-plain :
    (s : Bytes) (ss : List Bytes)
    → All IsNormal (s ∷ ss)
    → (bytes_eq (join (bytes "/") (s ∷ ss)) (bytes ".") || bytes_eq (join (bytes "/") (s ∷ ss)) [])
      ≡ false
unfolding join
join-plain s [] h = ground (arith, h.0.not_empty, h.0.not_dot)
join-plain [] (t ∷ ss) h = absurd (ground (arith, h.0.not_empty))
join-plain (c ∷ []) (t ∷ ss) h = ground arith
join-plain (c ∷ d ∷ s) (t ∷ ss) h = ground arith

pub path_depth-join :
    (s : Bytes) (ss : List Bytes)
    → All IsNormal (s ∷ ss)
    → path_depth (join (bytes "/") (s ∷ ss)) ≡ length (s ∷ ss)
unfolding path_depth
path_depth-join s ss h = rw (join-plain s ss h) (count-join s ss h)

pub contains_hidden_segment-join :
    (s : Bytes) (ss : List Bytes)
    → All IsNormal (s ∷ ss)
    → contains_hidden_segment (join (bytes "/") (s ∷ ss)) ≡ any_hidden (s ∷ ss)
unfolding contains_hidden_segment
contains_hidden_segment-join s ss h = ap any_hidden (split-join s ss h)

abbrev barred : ℕ → Bool → List Bytes → Bool
barred depth include_hidden names =
    (not include_hidden && any_hidden names) || ltb depth (length names)

any_hidden-append : (xs ys : List Bytes) → any_hidden (xs ++ ys) ≡ (any_hidden xs || any_hidden ys)
unfolding any_hidden
any_hidden-append [] ys = refl
any_hidden-append (x ∷ xs) ys = ground (arith, any_hidden-append xs ys)

barred-append :
    (depth : ℕ) (include_hidden : Bool) (names : List Bytes) (n : Bytes)
    → barred depth include_hidden names ≡ true
    → barred depth include_hidden (names ++ n ∷ []) ≡ true
barred-append depth include_hidden names n h =
    ground (arith, any_hidden-append names (n ∷ []), length-append names (n ∷ []))

wanted-barred :
    (depth : ℕ) (include_hidden : Bool) (names : List Bytes) (e : Entry)
    → barred depth include_hidden names ≡ true
    → wanted depth include_hidden (names, e) ≡ false
wanted-barred depth include_hidden names e h = ground arith

mutual
  unfolding listing

  listing-barred :
      (depth : ℕ) (include_hidden : Bool) (names : List Bytes) (e : Entry)
      → barred depth include_hidden names ≡ true
      → filter (wanted depth include_hidden) (listing names e) ≡ []
  listing-barred d b names (Entry.file n i) h = rw (wanted-barred d b names (Entry.file n i) h) refl
  listing-barred d b names (link n) h = rw (wanted-barred d b names (link n) h) refl
  listing-barred d b names (locked n) h = rw (wanted-barred d b names (locked n) h) refl
  listing-barred d b names (folder n es) h =
      rw (wanted-barred d b names (folder n es) h) (listing_all-barred d b names es h)

  listing_all-barred :
      (depth : ℕ) (include_hidden : Bool) (names : List Bytes) (es : Entries)
      → barred depth include_hidden names ≡ true
      → filter (wanted depth include_hidden) (listing_all names es) ≡ []
  listing_all-barred d b names nil h = refl
  listing_all-barred d b names (cons e es) h =
      filter-append (wanted d b) (listing (names ++ name e ∷ []) e) (listing_all names es)
      ∙ ap (λ xs. xs ++ filter (wanted d b) (listing_all names es))
          (listing-barred d b (names ++ name e ∷ []) e (barred-append d b names (name e) h))
      ∙ listing_all-barred d b names es h

both_none : (r : Option (List Node)) → both (some []) r ≡ r
both_none none = refl
both_none (some ms) = refl

both_assoc : (a b c : Option (List Node)) → both (both a b) c ≡ both a (both b c)
both_assoc none b c = refl
both_assoc (some xs) none c = refl
both_assoc (some xs) (some ys) none = refl
both_assoc (some xs) (some ys) (some zs) = ap some (append_assoc xs ys zs)

nodes-append : (xs ys : List (List Bytes × Entry)) → nodes (xs ++ ys) ≡ both (nodes xs) (nodes ys)
unfolding nodes
nodes-append [] ys = sym (both_none (nodes ys))
nodes-append (x ∷ xs) ys =
    ap (both (Option.map (λ n. n ∷ []) (node x))) (nodes-append xs ys)
    ∙ sym (both_assoc (Option.map (λ n. n ∷ []) (node x)) (nodes xs) (nodes ys))

-- The verdict on an entry by the names that lead to it.
abbrev verdict : ℕ → Bool → List Bytes → Entry → Verdict
verdict depth include_hidden names e =
    if not include_hidden && any_hidden names
    then left_out e
    else if ltb depth (length names)
    then left_out e
    else if is_link e
    then left_out e
    else node_at (join (bytes "/") names) e

module _ (ts : List Bytes) (depth : ℕ) (include_hidden : Bool) (nt : All IsNormal ts)
    (deep : 1 ≤ depth) where
  abbrev f : Bytes → Entry → Verdict
  f = visit (render ts) depth include_hidden

  visit-verdict :
      (s : Bytes) (ss : List Bytes) (e : Entry)
      → All IsNormal (s ∷ ss)
      → f (render (ts ++ s ∷ ss)) e ≡ verdict depth include_hidden (s ∷ ss) e
  unfolding visit
  visit-verdict s ss e n =
      let positive : ltb 0 depth ≡ true = ground (arith, deep) in
      rw
        (
          below-ne ts ss s nt n,
          rel_below ts (s ∷ ss) nt n,
          or_dot-join s ss n.0,
          contains_hidden_segment-join s ss n,
          path_depth-join s ss n,
          positive,
        )
        refl

  abbrev asked : List Bytes × Entry → Bool
  asked = wanted depth include_hidden

  file_lem :
      (names : List Bytes) (n : Bytes) (info : Option (ℕ × ℕ))
      → with_below (verdict depth include_hidden names (Entry.file n info)) (some [])
        ≡ nodes (filter asked ((names, Entry.file n info) ∷ []))
  unfolding nodes
  file_lem names n none = ground arith
  file_lem names n (some (size, time)) = ground arith

  link_lem :
      (names : List Bytes) (n : Bytes)
      → with_below (verdict depth include_hidden names (link n)) (some [])
        ≡ nodes (filter asked ((names, link n) ∷ []))
  unfolding nodes
  link_lem names n = ground arith

  locked_lem :
      (names : List Bytes) (n : Bytes)
      → with_below (verdict depth include_hidden names (locked n)) none
        ≡ nodes (filter asked ((names, locked n) ∷ []))
  unfolding nodes
  locked_lem names n = ground arith

  -- What is left out of a directory that is left out is left out anyway.
  folder_lem :
      (names : List Bytes) (n : Bytes) (es : Entries)
      → with_below
          (verdict depth include_hidden names (folder n es))
          (nodes (filter asked (listing_all names es)))
        ≡ nodes (filter asked ((names, folder n es) ∷ listing_all names es))
  unfolding nodes
  folder_lem names n es = elim (Bool-cases (not include_hidden && any_hidden names)) [
    | inl e ↦ rw (e, listing_all-barred depth include_hidden names es (ground (arith, e))) refl
    | inr e ↦ elim (Bool-cases (ltb depth (length names))) [
      | inl l ↦
          let far : leb (length names) depth ≡ false = ground (arith, l) in
          rw (e, l, far, listing_all-barred depth include_hidden names es (ground (arith, l))) refl
      | inr l ↦
          let near : leb (length names) depth ≡ true = ground (arith, l) in rw (e, l, near) refl
    ]
  ]

  child_path :
      (names : List Bytes) (e : Entry)
      → All IsNormal names
      → IsNormal (name e)
      → join_paths (render (ts ++ names)) (name e) ≡ render (ts ++ (names ++ name e ∷ []))
  child_path names e n h =
      join_paths-render (ts ++ names) (name e) (All-append IsNormal ts names nt n) h
      ∙ ap render (append_assoc ts names (name e ∷ []))

  cons_lem :
      (names : List Bytes) (e : Entry) (es : Entries)
      → All IsNormal names
      → IsNormal (name e)
      → walk f (render (ts ++ (names ++ name e ∷ []))) e
        ≡ nodes (filter asked (listing (names ++ name e ∷ []) e))
      → walk_all f (render (ts ++ names)) es ≡ nodes (filter asked (listing_all names es))
      → walk_all f (render (ts ++ names)) (cons e es)
        ≡ nodes (filter asked (listing_all names (cons e es)))
  unfolding walk listing
  cons_lem names e es h n one all =
      rw (child_path names e h n, one, all)
        (sym (
          ap nodes (filter-append asked (listing (names ++ name e ∷ []) e) (listing_all names es))
          ∙ nodes-append (filter asked (listing (names ++ name e ∷ []) e))
              (filter asked (listing_all names es))))

  -- An entry below the root of the walk: its names are those of its directory and its own.
  mutual
    unfolding walk nodes listing AreNames

    walk-nodes :
        (s : Bytes) (ss : List Bytes) (e : Entry)
        → All IsNormal (s ∷ ss)
        → AreNames e
        → walk f (render (ts ++ s ∷ ss)) e ≡ nodes (filter asked (listing (s ∷ ss) e))
    walk-nodes s ss (Entry.file n i) h a =
        rw (visit-verdict s ss (Entry.file n i) h) (file_lem (s ∷ ss) n i)
    walk-nodes s ss (link n) h a = rw (visit-verdict s ss (link n) h) (link_lem (s ∷ ss) n)
    walk-nodes s ss (locked n) h a = rw (visit-verdict s ss (locked n) h) (locked_lem (s ∷ ss) n)
    walk-nodes s ss (folder n es) h a =
        rw (visit-verdict s ss (folder n es) h, walk_all-nodes (s ∷ ss) es h a)
          (folder_lem (s ∷ ss) n es)

    walk_all-nodes :
        (names : List Bytes) (es : Entries)
        → All IsNormal names
        → AreNamesAll es
        → walk_all f (render (ts ++ names)) es ≡ nodes (filter asked (listing_all names es))
    walk_all-nodes names nil h a = refl
    walk_all-nodes [] (cons e es) h (n, a, r) =
        cons_lem [] e es h n (walk-nodes (name e) [] e (n, tt) a) (walk_all-nodes [] es h r)
    walk_all-nodes (s ∷ ss) (cons e es) h (n, a, r) =
        cons_lem (s ∷ ss) e es h n
          (walk-nodes s (ss ++ name e ∷ []) e (All-append IsNormal (s ∷ ss) (name e ∷ []) h (n, tt))
            a)
          (walk_all-nodes (s ∷ ss) es h r)

  -- The walk of a directory, which skips whatever is below a directory that is left out, finds what
  -- is wanted of the full listing, in its order, and fails only where something that is wanted cannot
  -- be read.
  pub walk-listing :
      (n : Bytes) (es : Entries)
      → AreNamesAll es
      → walk f (render ts) (folder n es) ≡ nodes (filter asked (listing_all [] es))
  unfolding walk visit
  walk-listing n es a =
      rw (bytes_eq_refl (render ts))
        (ap (λ us. walk_all f (render us) es) (sym (append-nil ts)) ∙ walk_all-nodes [] es tt a)
