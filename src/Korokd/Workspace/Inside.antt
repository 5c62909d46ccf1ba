-- ===== src/Korokd/Workspace/Inside.antt =====
-- Which working directories are accepted.
use agentland.Text.Search.{bytes_eq→≡}
use agentland.Base.{
  subst, ℕ, true, not, ◌&&◌, Option, none, some, List, [], ◌∷◌, ◌++◌, if◌then◌else◌, ◌≡◌, refl, ap,
  sym, ◌∙◌, All, arith, Bool-cases, inl, inr,
}
use agentland.Text.{Bytes, bytes, bytes_eq, has_prefix, trim_space}
use agentland.FilePath.{slash, join, segments, clean, is_abs, join_paths}
use agentland.FilePath.Segments.{NoSlash, IsNormal, segments-IsNormal}
use agentland.FilePath.Cleaning.{render, clean_abs, clean-render}
use agentland.FilePath.Relative.{render-is_abs}
use agentland.Korokd.Workspace.{resolve_context_cwd, context_workspace_root, or_else}

-- A text without slashes that is followed by `/` fits only the same segment.
first_segment :
    (w s : Bytes) (ss : List Bytes)
    → NoSlash w
    → NoSlash s
    → has_prefix (join (bytes "/") (s ∷ ss)) (w ++ (slash ∷ [])) ≡ true
    → s ≡ w
unfolding has_prefix join
first_segment [] [] ss hw hs h = refl
first_segment [] (c ∷ s) [] hw hs h = ground (arith, hs.0)
first_segment [] (c ∷ s) (t ∷ ss) hw hs h = ground (arith, hs.0)
first_segment (d ∷ w) [] [] hw hs h = ground (arith)
first_segment (d ∷ w) [] (t ∷ ss) hw hs h = ground (arith, hw.0)
first_segment (d ∷ w) (c ∷ s) [] hw hs h = ground (arith, first_segment w s [] hw.1 hs.1)
first_segment (d ∷ w) (c ∷ s) (t ∷ ss) hw hs h =
    ground (arith, first_segment w s (t ∷ ss) hw.1 hs.1)

-- In the workspace, with the segments below it.
pub record IsInside (p : Bytes) : Type 0 where
  pub below : List Bytes
  pub at : p ≡ render (bytes "workspace" ∷ below)
  pub normal : All IsNormal below

-- An absolute path, cleaned, is the text of normal segments.
pub abs_form :
    (p : Bytes) → is_abs p ≡ true → (ss : List Bytes) × (clean p ≡ render ss) × All IsNormal ss
abs_form p h = (segments p, clean_abs p h, segments-IsNormal p h)

abbrev candidate : Bytes → Bytes
candidate raw = if is_abs raw then clean raw else clean (join_paths context_workspace_root raw)

joined_form :
    (c : ℕ) (t : Bytes)
    → (ss : List Bytes) × (join_paths context_workspace_root (c ∷ t) ≡ render ss) × All IsNormal ss
unfolding join_paths
joined_form c t = abs_form (context_workspace_root ++ (slash ∷ c ∷ t)) (unfold has_prefix in refl)

candidate_form :
    (c : ℕ) (t : Bytes) → (ss : List Bytes) × (candidate (c ∷ t) ≡ render ss) × All IsNormal ss
candidate_form c t = elim (Bool-cases (is_abs (c ∷ t))) [
  | inl e ↦ let (ss, eq, n) = abs_form (c ∷ t) e in (ss, rw e eq, n)
  | inr e ↦
      let (ss, eq, n) = joined_form c t in
      let (ss', eq', n') = abs_form (render ss) (render-is_abs ss) in
      (ss', rw e (ap clean eq ∙ eq'), n')
]

IsInside-of_prefix :
    (ss : List Bytes)
    → All IsNormal ss
    → has_prefix (render ss) (bytes "/workspace/") ≡ true
    → IsInside (render ss)
unfolding has_prefix
IsInside-of_prefix [] n h = absurd (unfold join in ground (arith, h))
IsInside-of_prefix (s ∷ ss) n h =
    let e = first_segment (bytes "workspace") s ss (omega arith) n.0.no_slash (ground (arith, h)) in
    record { below = ss; at = rw e refl; normal = n.1 }

raw_form :
    (s : Bytes)
    → (ss : List Bytes) × (candidate (or_else s context_workspace_root) ≡ render ss)
      × All IsNormal ss
raw_form [] = candidate_form slash (bytes "workspace")
raw_form (c ∷ s) = candidate_form c s

-- The test at the end of `resolve_context_cwd`.
checked : Bytes → Option Bytes
checked p =
    if not (bytes_eq p context_workspace_root) && not (has_prefix p (bytes "/workspace/"))
    then none
    else some p

IsInside-of_root : (p : Bytes) → bytes_eq p context_workspace_root ≡ true → IsInside p
unfolding join
IsInside-of_root p h = record {
  below = [];
  at = bytes_eq→≡ p context_workspace_root h;
  normal = tt;
}

checked-IsInside :
    (q p : Bytes) (ss : List Bytes)
    → q ≡ render ss
    → All IsNormal ss
    → checked q ≡ some p
    → IsInside p
unfolding checked
checked-IsInside q p ss e n h = elim (Bool-cases (bytes_eq q context_workspace_root)) [
  | inl root ↦ subst IsInside (ground (arith, h, root)) (IsInside-of_root q root)
  | inr other ↦ elim (Bool-cases (has_prefix q (bytes "/workspace/"))) [
    | inl below ↦
        subst IsInside (sym e ∙ ground (arith, h, other, below))
          (IsInside-of_prefix ss n (subst (λ t. has_prefix t (bytes "/workspace/") ≡ true) e below))
    | inr outside ↦ absurd (ground (arith, h, other, outside))
  ]
]

resolve-checked :
    (input : Bytes)
    → resolve_context_cwd input
      ≡ checked (candidate (or_else (trim_space input) context_workspace_root))
unfolding resolve_context_cwd checked
resolve-checked input = refl

workspace-IsNormal : IsNormal (bytes "workspace")
workspace-IsNormal = record {
  not_empty = refl;
  not_dot = refl;
  not_dot_dot = refl;
  no_slash = omega arith;
}

accepted :
    (below : List Bytes)
    → checked (render (bytes "workspace" ∷ below)) ≡ some (render (bytes "workspace" ∷ below))
unfolding checked join has_prefix
accepted [] = refl
accepted (s ∷ ss) = refl

-- Whatever directory a request asks for, one that is accepted is `/workspace` or lies below it, as
-- segments none of which is empty, `.` or `..`.
pub resolve_context_cwd-IsInside :
    (input p : Bytes) → resolve_context_cwd input ≡ some p → IsInside p
resolve_context_cwd-IsInside input p h =
    let raw = or_else (trim_space input) context_workspace_root in
    let (ss, e, n) = raw_form (trim_space input) in
    checked-IsInside (candidate raw) p ss e n (sym (resolve-checked input) ∙ h)

-- A directory in the workspace, written without white space around it, is accepted as it is.
pub resolve_context_cwd_inside :
    (below : List Bytes)
    → All IsNormal below
    → trim_space (render (bytes "workspace" ∷ below)) ≡ render (bytes "workspace" ∷ below)
    → resolve_context_cwd (render (bytes "workspace" ∷ below))
      ≡ some (render (bytes "workspace" ∷ below))
resolve_context_cwd_inside below n trimmed =
    let p = render (bytes "workspace" ∷ below) in
    resolve-checked p
    ∙ ap (λ t. checked (candidate (or_else t context_workspace_root))) trimmed
    ∙ rw
        (
          render-is_abs (bytes "workspace" ∷ below),
          clean-render (bytes "workspace") below (workspace-IsNormal, n),
        )
        (accepted below)
