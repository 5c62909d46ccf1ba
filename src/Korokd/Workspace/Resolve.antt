-- ===== src/Korokd/Workspace/Resolve.antt =====
-- Where `resolveWorkspacePath` leads.
use agentland.Text.Search.{bytes_eq→≡}
use agentland.Base.{
  Option, none, true, false, some, List, [], ◌∷◌, ◌++◌, if◌then◌else◌, ◌≡◌, refl, ap, sym, subst,
  ◌∙◌, All, arith, Bool-cases, Option-cases, inl, inr, map, All-append_right,
}
use agentland.Text.{Bytes, bytes, bytes_eq, has_prefix, trim_space}
use agentland.FilePath.{
  slash, dot_dot, is_dot_dot, join, segments, clean, is_abs, join_paths, unshared, rel, or_dot,
  rel_segments, joined_or_dot,
}
use agentland.FilePath.Segments.{IsNormal, segments-IsNormal}
use agentland.FilePath.Cleaning.{render, clean_abs}
use agentland.Korokd.Workspace.{
  resolve_workspace_path, Resolved, resolved, leads_up, or_else, resolved_under,
}
use agentland.Korokd.Workspace.Inside.{abs_form}
use agentland.FilePath.Relative.{clean-form, render-is_abs, clean-render-All, rel-render}

-- If nothing of the base is left over, the target continues it.
unshared-append : (bs ts : List Bytes) → (unshared bs ts).0 ≡ [] → ts ≡ bs ++ (unshared bs ts).1
unfolding unshared
unshared-append [] ts h = refl
unshared-append (b ∷ bs) [] h = ground (arith, h)
unshared-append (b ∷ bs) (t ∷ ts) h = elim (Bool-cases (bytes_eq b t)) [
  | inl e ↦ ground (arith, e, h, bytes_eq→≡ b t e, unshared-append bs ts)
  | inr e ↦ absurd (ground (arith, e, h))
]

leads_up-dot_dot : (ss : List Bytes) → leads_up (or_dot (join (bytes "/") (dot_dot ∷ ss))) ≡ true
unfolding has_prefix join
leads_up-dot_dot [] = refl
leads_up-dot_dot (s ∷ ss) = refl

no_rest :
    (u : List Bytes × List Bytes) (r : Bytes)
    → joined_or_dot (rel_segments u) ≡ some r
    → leads_up r ≡ false
    → u.0 ≡ []
no_rest ([], ts) r h up = refl
no_rest (s ∷ ss, ts) r h up = elim (Bool-cases (is_dot_dot s)) [
  | inl e ↦ absurd (ground (arith, h, e))
  | inr e ↦ absurd (ground (arith, h, e, up, leads_up-dot_dot (map (λ _. dot_dot) ss ++ ts)))
]

-- Where the relative path does not lead up, the target lies below the base.
rel_below :
    (bs ts : List Bytes) (r : Bytes)
    → All IsNormal bs
    → All IsNormal ts
    → rel (render bs) (render ts) ≡ some r
    → leads_up r ≡ false
    → (below : List Bytes) × (ts ≡ bs ++ below) × All IsNormal below
rel_below bs ts r nb nt h up =
    let below = (unshared bs ts).1 in
    let e : ts ≡ bs ++ below =
      unshared-append bs ts (no_rest (unshared bs ts) r (sym (rel-render bs ts nb nt) ∙ h) up) in
    (below, e, All-append_right IsNormal bs below (subst (All IsNormal) e nt))

-- Where a target may lie, for the cleaned path: it is that path where it is absolute, or below the root.
pub data Allowed (root : List Bytes) (target cleaned : Bytes) : Type 0 where
  absolute : is_abs cleaned ≡ true → target ≡ cleaned → Allowed root target cleaned
  under :
      (below : List Bytes)
      → is_abs cleaned ≡ false
      → target ≡ render (root ++ below)
      → All IsNormal below
      → Allowed root target cleaned

joined_form :
    (rs : List Bytes) (p : Bytes)
    → All IsNormal rs
    → (ts : List Bytes) × (join_paths (render rs) p ≡ render ts) × All IsNormal ts
unfolding join_paths
joined_form rs [] n = abs_form (render rs) (render-is_abs rs)
joined_form rs (c ∷ p) n = abs_form (render rs ++ (slash ∷ c ∷ p)) (unfold has_prefix in refl)

target_form :
    (rs : List Bytes) (p : Bytes)
    → All IsNormal rs
    → (ts : List Bytes) × (clean (join_paths (render rs) p) ≡ render ts) × All IsNormal ts
target_form rs p n =
    let (ts, e, nt) = joined_form rs p n in (ts, ap clean e ∙ clean-render-All ts nt, nt)

-- The relative branch.
under_root :
    (rs : List Bytes) (p target cleaned : Bytes)
    → All IsNormal rs
    → is_abs p ≡ false
    → resolved_under
        (rel (render rs) (clean (join_paths (render rs) p)))
        (clean (join_paths (render rs) p))
        p
      ≡ resolved target cleaned
    → Allowed rs target cleaned
under_root rs p target cleaned n relative h =
    elim (Option-cases (rel (render rs) (clean (join_paths (render rs) p)))) [
      | inl e ↦ absurd (ground (arith, h, e))
      | inr (r, e) ↦
          let (ts, et, nt) = target_form rs p n in
          let (below, eb, nb) =
            rel_below rs ts r n nt (subst (λ t. rel (render rs) t ≡ some r) et e)
              (ground (arith, h, e)) in
          under below (ground (arith, h, e, relative)) (ground (arith, h, e, et, eb)) nb
    ]

dispatch : Bytes → Bytes → Resolved
dispatch root p =
    if is_abs p
    then resolved p p
    else resolved_under (rel root (clean (join_paths root p))) (clean (join_paths root p)) p

resolve-dispatch :
    (workspace_root requested : Bytes)
    → resolve_workspace_path workspace_root requested
      ≡ dispatch (clean workspace_root) (clean (or_else (trim_space requested) (bytes ".")))
unfolding resolve_workspace_path dispatch
resolve-dispatch workspace_root requested = refl

dispatch-Allowed :
    (rs : List Bytes) (p target cleaned : Bytes)
    → All IsNormal rs
    → dispatch (render rs) p ≡ resolved target cleaned
    → Allowed rs target cleaned
unfolding dispatch
dispatch-Allowed rs p target cleaned n h = elim (Bool-cases (is_abs p)) [
  | inl e ↦ absolute (ground (arith, h, e)) (ground (arith, h, e))
  | inr e ↦ under_root rs p target cleaned n e (rw e at h)
]

under-cleaned :
    (o : Option Bytes) (t p target cleaned : Bytes)
    → resolved_under o t p ≡ resolved target cleaned
    → cleaned ≡ p
under-cleaned none t p target cleaned h = absurd (ground (arith, h))
under-cleaned (some r) t p target cleaned h = ground (arith, h)

dispatch-cleaned :
    (root p target cleaned : Bytes) → dispatch root p ≡ resolved target cleaned → cleaned ≡ p
unfolding dispatch
dispatch-cleaned root p target cleaned h = elim (Bool-cases (is_abs p)) [
  | inl e ↦ ground (arith, h, e)
  | inr e ↦
      under-cleaned (rel root (clean (join_paths root p))) (clean (join_paths root p)) p target
        cleaned (rw e at h)
]

-- The path that was asked for, without what does not matter.
abbrev pub asked_for : Bytes → Bytes
asked_for requested = clean (or_else (trim_space requested) (bytes "."))

-- Under an absolute root, the cleaned path that is given back is that of the request; where it is
-- absolute it is the target, and else the target lies below the root, by segments none of which leads
-- up.
pub resolve_workspace_path-Allowed :
    (workspace_root requested target cleaned : Bytes)
    → is_abs workspace_root ≡ true
    → resolve_workspace_path workspace_root requested ≡ resolved target cleaned
    → (cleaned ≡ asked_for requested) × Allowed (segments workspace_root) target cleaned
resolve_workspace_path-Allowed workspace_root requested target cleaned rooted h =
    let p = asked_for requested in
    let dispatched : dispatch (clean workspace_root) p ≡ resolved target cleaned =
      sym (resolve-dispatch workspace_root requested) ∙ h in
    (
      dispatch-cleaned (clean workspace_root) p target cleaned dispatched,
      dispatch-Allowed (segments workspace_root) p target cleaned
          (segments-IsNormal workspace_root rooted)
          (ap (λ root. dispatch root p) (sym (clean_abs workspace_root rooted)) ∙ dispatched),
    )

resolved_under_target :
    (o : Option Bytes) (t p target cleaned : Bytes)
    → resolved_under o t p ≡ resolved target cleaned
    → t ≡ target
resolved_under_target none t p target cleaned h = absurd (ground (arith, h))
resolved_under_target (some r) t p target cleaned h = ground (arith, h)

dispatch-form :
    (rs : List Bytes) (x target cleaned : Bytes)
    → All IsNormal rs
    → dispatch (render rs) (clean x) ≡ resolved target cleaned
    → (ts : List Bytes) × (target ≡ render ts) × All IsNormal ts
unfolding dispatch
dispatch-form rs x target cleaned n h = elim (Bool-cases (is_abs (clean x))) [
  | inl e ↦
      let (ss, es, ns) = clean-form x e in
      let same : clean x ≡ target = ground (arith, h, e) in (ss, sym same ∙ es, ns)
  | inr e ↦
      let (ts, et, nt) = target_form rs (clean x) n in
      (
        ts,
        sym (
              resolved_under_target (rel (render rs) (clean (join_paths (render rs) (clean x))))
                (clean (join_paths (render rs) (clean x))) (clean x) target cleaned (rw e at h))
            ∙ et,
        nt,
      )
]

-- Under an absolute root, an accepted path leads to the text of normal segments.
pub resolve_workspace_path_form :
    (workspace_root requested target cleaned : Bytes)
    → is_abs workspace_root ≡ true
    → resolve_workspace_path workspace_root requested ≡ resolved target cleaned
    → (ts : List Bytes) × (target ≡ render ts) × All IsNormal ts
resolve_workspace_path_form workspace_root requested target cleaned rooted h =
    let x = or_else (trim_space requested) (bytes ".") in
    dispatch-form (segments workspace_root) x target cleaned
      (segments-IsNormal workspace_root rooted)
      (ap (λ root. dispatch root (clean x)) (sym (clean_abs workspace_root rooted))
        ∙ sym (resolve-dispatch workspace_root requested)
        ∙ h)
