-- ===== src/Korokd/Contexts/Limit.antt =====
-- The number of contexts along sequences of steps.
use agentland.Base.{
  ap, Bool-cases, inl, inr, ℕ, suc, ◌≤◌, Bool, false, not, Option, none, some, [], ◌∷◌, ◌≡◌, refl,
  arith, length, leb, if-cases,
}
use agentland.Text.{Bytes, trim_space, to_lower}
use agentland.Korokd.Workspace.{Notebook, notebook, resolve_context_cwd, notebook_path_for_cwd}
use agentland.Korokd.Kernels.{search_kernel}
use agentland.Korokd.Contexts.{
  KernelContext, Error, Contexts, Manager, find, delete, touch, Ended, succeeded, failed, timed_out,
  end_execute, release, World, or_id, supported, registered, with_session, with_kernel,
  with_notebook, with_cwd, create, Looked, held, refused, look_up, compare_and_swap, claim,
  begin_execute, removable, removed, remove_context, context_max_count,
}

length-delete : (id : Bytes) (ks : Contexts) → length (delete id ks) ≤ length ks
unfolding delete
length-delete id [] = ground arith
length-delete id (k ∷ ks) = ground (arith, length-delete id ks)

length-touch : (r now : ℕ) (ks : Contexts) → length (touch r now ks) ≡ length ks
unfolding touch
length-touch r now [] = refl
length-touch r now (k ∷ ks) = ground (arith, length-touch r now ks)

-- One step of the manager. An execution and a removal look at some manager `seen` before they act; that
-- it is an earlier one is not asked for. `P` are the objects that are made and released.
pub data Step (P : ℕ → Type 0) : Manager → Manager → Type 0 where
  creates :
      (w : World) (language cwd : Bytes) (m : Manager)
      → P w.address
      → Step P m (create w language cwd m).1
  begins :
      (id : Bytes) (timeout_ms : ℕ) (seen m : Manager)
      → Step P m (begin_execute id timeout_ms seen m).1
  ends : (k : KernelContext) (how : Ended) (m : Manager) → Step P m (end_execute k how m)
  releases : (r : ℕ) (m : Manager) → P r → Step P m (release r m)
  removes :
      (id : Bytes) (force : Bool) (seen m : Manager) → Step P m (remove_context id force seen m).1

pub data Steps (P : ℕ → Type 0) : Manager → Manager → Type 0 where
  stop : (m : Manager) → Steps P m m
  step : (a b c : Manager) → Step P a b → Steps P b c → Steps P a c

below : (n : ℕ) → leb context_max_count n ≡ false → suc n ≤ context_max_count
below n h = ground (arith, h)

module _ (w : World) (language : Bytes) (m : Manager) where
  abbrev Bounded : Option Error × Manager → Type 0
  Bounded r = length r.1.contexts ≤ suc (length m.contexts)

  registered-Bounded : (cwd s k : Bytes) → Bounded (registered w language cwd s k m)
  registered-Bounded cwd s [] = ground arith
  registered-Bounded cwd s (c ∷ k) = ground (arith, length-delete (or_id s w.uuid) m.contexts)

  with_session-Bounded :
      (cwd : Bytes) (o : Option (Bytes × Bytes)) → Bounded (with_session w language cwd o m)
  with_session-Bounded cwd none = ground arith
  with_session-Bounded cwd (some (s, k)) = registered-Bounded cwd (trim_space s) (trim_space k)

  with_kernel-Bounded :
      (cwd path : Bytes) (o : Option Bytes) → Bounded (with_kernel w language cwd path o m)
  with_kernel-Bounded cwd path none = ground arith
  with_kernel-Bounded cwd path (some kernel) =
      with_session-Bounded cwd (w.create_session w.uuid path kernel)

  with_notebook-Bounded : (cwd : Bytes) (n : Notebook) → Bounded (with_notebook w language cwd n m)
  with_notebook-Bounded cwd (notebook path) =
      with_kernel-Bounded cwd path (search_kernel language w.kernelspecs)
  with_notebook-Bounded cwd n = ground arith

  with_cwd-limit :
      (o : Option Bytes)
      → length m.contexts ≤ context_max_count
      → length (with_cwd w language o m).1.contexts ≤ context_max_count
  with_cwd-limit none h = h
  with_cwd-limit (some cwd) h =
      if-cases (λ (r : Option Error × Manager). length r.1.contexts ≤ context_max_count)
        (leb context_max_count (length m.contexts)) _ _ (λ _. h)
        (λ room.
          if-cases (λ (r : Option Error × Manager). length r.1.contexts ≤ context_max_count)
            (not (supported language)) _ _ (λ _. h)
            (λ _. omega (
              arith,
              with_notebook-Bounded cwd (notebook_path_for_cwd w.mkdir_all w.uuid cwd),
              below (length m.contexts) room,
            )))

claim-contexts : (l : Looked) (m : Manager) → (claim l m).1.contexts ≡ m.contexts
unfolding compare_and_swap
claim-contexts (refused e) m = refl
claim-contexts (held k) m = elim (Bool-cases (m.busy k.ref)) [
  | inl e ↦ rw e refl
  | inr e ↦ rw e refl
]

removed-length :
    (id : Bytes) (o : Option Error) (m : Manager)
    → length (removed id o m).1.contexts ≤ length m.contexts
removed-length id (some e) m = ground arith
removed-length id none m = length-delete id m.contexts

abbrev IsWithin : Manager → Type 0
IsWithin m = length m.contexts ≤ context_max_count

Step-limit : (P : ℕ → Type 0) (a b : Manager) → Step P a b → IsWithin a → IsWithin b
unfolding create begin_execute end_execute release remove_context
Step-limit P m _ (creates w language cwd _ _) h =
    with_cwd-limit w (to_lower (trim_space language)) m (resolve_context_cwd cwd) h
Step-limit P m _ (begins id t seen _) h =
    omega (arith, h, ap length (claim-contexts (look_up id t seen) m))
Step-limit P m _ (ends k (succeeded now) _) h = omega (arith, h, length-touch k.ref now m.contexts)
Step-limit P m _ (ends k failed _) h = h
Step-limit P m _ (ends k timed_out _) h = omega (arith, h, length-delete k.id m.contexts)
Step-limit P m _ (releases r _ _) h = h
Step-limit P m _ (removes id force seen _) h =
    omega (arith, h, removed-length id (removable force seen.busy (find id seen.contexts)) m)

-- From a manager within its limit of contexts, every sequence of creations, executions and removals
-- leads to one within its limit.
pub Steps-limit :
    (P : ℕ → Type 0) (a b : Manager)
    → Steps P a b
    → length a.contexts ≤ context_max_count
    → length b.contexts ≤ context_max_count
Steps-limit P a _ (stop _) h = h
Steps-limit P a c (step _ b _ s rest) h = Steps-limit P b c rest (Step-limit P a b s h)
