-- ===== src/Korokd/Contexts/Exclusive.antt =====
-- Executions and removals of one context.
use mathlib.Core.List.{Mem, mem-cons_self, mem-cons_of_mem}
use agentland.Base.{
  leb, length, ℕ, ◌+◌, ◌<◌, All, All-weaken, Bool, true, false, not, ◌&&◌, Option, none, some, [],
  ◌∷◌, ◌≡◌, ◌≢◌, refl, arith, ap, sym, ◌∙◌, ltb, Bool-cases, if-cases, inl, inr, ◌==◌, ==_iff,
}
use agentland.Text.{Bytes, trim_space, to_lower}
use agentland.Korokd.Workspace.{Notebook, notebook, resolve_context_cwd, notebook_path_for_cwd}
use agentland.Korokd.Kernels.{search_kernel}
use agentland.Korokd.Contexts.{
  KernelContext, Error, busy, Contexts, Flags, store_flag, Manager, find, delete, World, supported,
  registered, with_session, with_kernel, with_notebook, with_cwd, create, Looked, held, refused,
  timeout_checked, look_up, compare_and_swap, claim, busy_unless, begin_execute, succeeded, failed,
  timed_out, end_execute, release, removable, removed, remove_context, stale_ids, context_idle_ttl,
  context_max_count,
}
use agentland.Korokd.Contexts.Limit.{
  Step, creates, begins, ends, releases, removes, Steps, stop, step,
}

store_flag-other : (r j : ℕ) (b : Bool) (flags : Flags) → r ≢ j → store_flag r b flags j ≡ flags j
store_flag-other r j b flags n = elim (Bool-cases (j == r)) [
  | inl e ↦ absurd (n (sym ((==_iff j r).0 e)))
  | inr e ↦ rw e refl
]

store_flag-same : (r : ℕ) (b : Bool) (flags : Flags) → store_flag r b flags r ≡ b
store_flag-same r b flags = let e : (r == r) ≡ true = (==_iff r r).1 refl in rw e refl

-- The flag of one object along the steps that neither release it nor make it.
module _ (ref : ℕ) where
  abbrev IsTaken : Manager → Type 0
  IsTaken m = m.busy ref ≡ true

  -- The objects that others make and release.
  abbrev pub IsOther : ℕ → Type 0
  IsOther r = r ≢ ref

  compare_and_swap-IsTaken : (r : ℕ) (m : Manager) → IsTaken m → IsTaken (compare_and_swap r m).1
  unfolding compare_and_swap
  compare_and_swap-IsTaken r m h = elim (Bool-cases (m.busy r)) [
    | inl e ↦ rw e h
    | inr e ↦ rw e (elim (Bool-cases (ref == r)) [ inl f ↦ rw f refl | inr f ↦ rw f h ])
  ]

  claim-IsTaken : (l : Looked) (m : Manager) → IsTaken m → IsTaken (claim l m).1
  claim-IsTaken (refused e) m h = h
  claim-IsTaken (held k) m h =
      unless (compare_and_swap k.ref m) (compare_and_swap-IsTaken k.ref m h)
    where
      unless : (x : Bool × Manager) → IsTaken x.1 → IsTaken (busy_unless x).1
      unless (true, a) t = t
      unless (false, a) t = t

  removed-IsTaken :
      (id : Bytes) (o : Option Error) (m : Manager) → IsTaken m → IsTaken (removed id o m).1
  removed-IsTaken id (some e) m h = h
  removed-IsTaken id none m h = h

  module _ (w : World) (language : Bytes) (m : Manager) (new : IsOther w.address)
      (h : IsTaken m) where
    registered-IsTaken : (cwd s k : Bytes) → IsTaken (registered w language cwd s k m).1
    registered-IsTaken cwd s [] = h
    registered-IsTaken cwd s (c ∷ k) = store_flag-other w.address ref false m.busy new ∙ h

    with_session-IsTaken :
        (cwd : Bytes) (o : Option (Bytes × Bytes)) → IsTaken (with_session w language cwd o m).1
    with_session-IsTaken cwd none = h
    with_session-IsTaken cwd (some (s, k)) = registered-IsTaken cwd (trim_space s) (trim_space k)

    with_kernel-IsTaken :
        (cwd path : Bytes) (o : Option Bytes) → IsTaken (with_kernel w language cwd path o m).1
    with_kernel-IsTaken cwd path none = h
    with_kernel-IsTaken cwd path (some kernel) =
        with_session-IsTaken cwd (w.create_session w.uuid path kernel)

    with_notebook-IsTaken :
        (cwd : Bytes) (n : Notebook) → IsTaken (with_notebook w language cwd n m).1
    with_notebook-IsTaken cwd (notebook path) =
        with_kernel-IsTaken cwd path (search_kernel language w.kernelspecs)
    with_notebook-IsTaken cwd n = h

    with_cwd-IsTaken : (o : Option Bytes) → IsTaken (with_cwd w language o m).1
    with_cwd-IsTaken none = h
    with_cwd-IsTaken (some cwd) =
        if-cases (λ (r : Option Error × Manager). IsTaken r.1)
          (leb context_max_count (length m.contexts)) _ _ (λ _. h)
          (λ _.
            if-cases (λ (r : Option Error × Manager). IsTaken r.1) (not (supported language)) _ _
              (λ _. h)
              (λ _. with_notebook-IsTaken cwd (notebook_path_for_cwd w.mkdir_all w.uuid cwd)))

  Step-IsTaken : (a b : Manager) → Step IsOther a b → IsTaken a → IsTaken b
  unfolding create begin_execute end_execute release remove_context
  Step-IsTaken m _ (creates w language cwd _ new) h =
      with_cwd-IsTaken w (to_lower (trim_space language)) m new h (resolve_context_cwd cwd)
  Step-IsTaken m _ (begins id t seen _) h = claim-IsTaken (look_up id t seen) m h
  Step-IsTaken m _ (ends k (succeeded now) _) h = h
  Step-IsTaken m _ (ends k failed _) h = h
  Step-IsTaken m _ (ends k timed_out _) h = h
  Step-IsTaken m _ (releases r _ other) h = store_flag-other r ref false m.busy other ∙ h
  Step-IsTaken m _ (removes id force seen _) h =
      removed-IsTaken id (removable force seen.busy (find id seen.contexts)) m h

  Steps-IsTaken : (a b : Manager) → Steps IsOther a b → IsTaken a → IsTaken b
  Steps-IsTaken a _ (stop _) h = h
  Steps-IsTaken a c (step _ b _ s rest) h = Steps-IsTaken b c rest (Step-IsTaken a b s h)

-- What a claim that succeeds has found, and that it has taken the flag.
timeout_checked-held :
    (t : ℕ) (o : Option KernelContext) (k : KernelContext)
    → timeout_checked t o ≡ held k
    → o ≡ some k
timeout_checked-held t none k h = absurd (ground (arith, h))
timeout_checked-held t (some j) k h = ground (arith, h)

claim-none :
    (l : Looked) (m : Manager)
    → (claim l m).0 ≡ none
    → (k : KernelContext) × (l ≡ held k)
      × (m.busy k.ref ≡ false)
      × ((claim l m).1.busy k.ref ≡ true)
unfolding compare_and_swap
claim-none (refused e) m h = absurd (ground (arith, h))
claim-none (held k) m h = elim (Bool-cases (m.busy k.ref)) [
  | inl e ↦ let no : Option.some busy ≡ none = rw e at h in absurd (ground (arith, no))
  | inr e ↦ (k, refl, e, rw e (store_flag-same k.ref true m.busy))
]

claim-busy :
    (t : ℕ) (k j : KernelContext) (m : Manager)
    → j.ref ≡ k.ref
    → m.busy k.ref ≡ true
    → (claim (timeout_checked t (some j)) m).0 ≢ none
unfolding compare_and_swap
claim-busy t k j m same taken =
    let e : m.busy j.ref ≡ true = ap m.busy same ∙ taken in λ h. ground (arith, e, h)

-- While an execution holds the object of a context: its flag stays taken, no execution begins that has
-- found the same object, whenever it did, and a removal without force that finds it now is refused.
pub record IsExclusive (k : KernelContext) (now : Manager) : Type 0 where
  pub taken : now.busy k.ref ≡ true
  pub no_second :
      (id : Bytes) (t : ℕ) (seen : Manager) (j : KernelContext)
      → find id seen.contexts ≡ some j
      → j.ref ≡ k.ref
      → (begin_execute id t seen now).0 ≢ none
  pub not_removed :
      (id : Bytes) (j : KernelContext)
      → find id now.contexts ≡ some j
      → j.ref ≡ k.ref
      → remove_context id false now now ≡ (some busy, now)
  -- But one that has read the flag before deletes the context under the execution.
  pub removed_late :
      (id : Bytes) (seen : Manager) (j : KernelContext)
      → find id seen.contexts ≡ some j
      → seen.busy j.ref ≡ false
      → remove_context id false seen now ≡ (none, record now { contexts = delete id now.contexts })

taken-IsExclusive : (k : KernelContext) (now : Manager) → now.busy k.ref ≡ true → IsExclusive k now
unfolding begin_execute look_up remove_context
taken-IsExclusive k now taken = record {
  taken = taken;
  no_second = λ id t seen j found same. rw found (claim-busy t k j now same taken);
  not_removed = λ id j found same.
      let e : now.busy j.ref ≡ true = ap now.busy same ∙ taken in rw (found, e) refl;
  removed_late = λ id seen j found free. rw (found, free) refl;
}

-- An execution that begins has found an object whose flag was free, and from then on, along all steps of
-- others up to its release, that flag stays taken: no second execution begins in the object, and a
-- removal without force that reads the flag is refused; one that has read it before the execution began
-- takes the context away under the execution.
pub begin_execute-IsExclusive :
    (id : Bytes) (t : ℕ) (seen m : Manager)
    → (begin_execute id t seen m).0 ≡ none
    → (k : KernelContext) × (find id seen.contexts ≡ some k)
      × (m.busy k.ref ≡ false)
      × ((now : Manager)
          → Steps (IsOther k.ref) (begin_execute id t seen m).1 now
          → IsExclusive k now)
unfolding begin_execute look_up
begin_execute-IsExclusive id t seen m h =
    let (k, found, free, taken) = claim-none (timeout_checked t (find id seen.contexts)) m h in
    (
      k,
      timeout_checked-held t (find id seen.contexts) k found,
      free,
      λ now steps. taken-IsExclusive k now (Steps-IsTaken k.ref _ now steps taken),
    )

-- An id of a context of the list that is not busy and was idle for longer than the limit.
abbrev pub IsStale : ℕ → Flags → Contexts → Bytes → Type 0
IsStale now flags ks id =
    (k : KernelContext) × Mem k ks
    × (k.id ≡ id)
    × (flags k.ref ≡ false)
    × (k.last_active + context_idle_ttl < now)

-- The scan of the collection gives only ids of contexts that are not busy then and were idle for
-- longer than the limit.
pub stale_ids-IsStale :
    (now : ℕ) (flags : Flags) (ks : Contexts) → All (IsStale now flags ks) (stale_ids now flags ks)
unfolding stale_ids
stale_ids-IsStale now flags [] = tt
stale_ids-IsStale now flags (k ∷ ks) =
    let rest =
      All-weaken (IsStale now flags ks) (IsStale now flags (k ∷ ks))
        (λ id (j, m, e, f, l). (j, mem-cons_of_mem k m, e, f, l)) (stale_ids now flags ks)
        (stale_ids-IsStale now flags ks) in
    if-cases (All (IsStale now flags (k ∷ ks)))
      (not (flags k.ref) && ltb (k.last_active + context_idle_ttl) now)
      (k.id ∷ stale_ids now flags ks) (stale_ids now flags ks)
      (λ e. ((k, mem-cons_self, refl, ground (arith, e), ground (arith, e)), rest)) (λ _. rest)
