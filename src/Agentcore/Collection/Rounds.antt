-- ===== src/Agentcore/Collection/Rounds.antt =====
-- The order of the calls of a collection.
use mathlib.Core.List.{append-nil, append_assoc, flatten, Mem, mem-cons_self, mem-append_right}
use mathlib.Core.Path.{ap₂}
use agentland.Base.{
  All, All-weaken, ℕ, ◌-◌, Bool, true, false, Option, none, some, List, [], ◌∷◌, ◌++◌, ◌≡◌, refl,
  arith, sym, subst, map, Bool-cases, inl, inr, if◌then◌else◌,
}
use agentland.Text.{Bytes}
use agentland.Agentcore.Collection.{
  Kind, code_interpreter, agent_session, Step, delete_cr, delete_session, Log, Backend, gone,
  collect_one, collect, collected, gc_once, candidates, max_idle_duration, session_gc_batch_limit,
}

-- The object of this kind was deleted, or was not there, by a call in the log.
abbrev pub Deleted : Backend → Kind → Bytes → Log → Type 0
Deleted b kind id log =
    (before : Log) × (after : Log) × (log ≡ before ++ (delete_cr kind id ∷ after))
    × (gone (b.answer before (delete_cr kind id)) ≡ true)

-- Both objects of a session go before its record.
abbrev pub IsSafe : Backend → Log → Log → Type 0
IsSafe b past [] = Unit
IsSafe b past (delete_cr kind id ∷ rest) = IsSafe b (past ++ delete_cr kind id ∷ []) rest
IsSafe b past (delete_session id ∷ rest) =
    Deleted b code_interpreter id past
    × Deleted b agent_session id past
    × IsSafe b (past ++ delete_session id ∷ []) rest

module _ (b : Backend) where
  IsSafe-append :
      (past xs ys : Log) → IsSafe b past xs → IsSafe b (past ++ xs) ys → IsSafe b past (xs ++ ys)
  IsSafe-append past [] ys h k = subst (λ l. IsSafe b l ys) (append-nil past) k
  IsSafe-append past (delete_cr kind id ∷ xs) ys h k =
      IsSafe-append (past ++ delete_cr kind id ∷ []) xs ys h
        (subst (λ l. IsSafe b l ys) (sym (append_assoc past (delete_cr kind id ∷ []) xs)) k)
  IsSafe-append past (delete_session id ∷ xs) ys (first, second, h) k = (
    first,
    second,
    IsSafe-append (past ++ delete_session id ∷ []) xs ys h
        (subst (λ l. IsSafe b l ys) (sym (append_assoc past (delete_session id ∷ []) xs)) k),
  )

  abbrev interpreter : Bytes → Step
  interpreter id = delete_cr code_interpreter id

  abbrev agent : Bytes → Step
  agent id = delete_cr agent_session id

  collect_one-IsSafe : (id : Bytes) (log : Log) → IsSafe b log (collect_one b id log).1
  unfolding collect_one
  collect_one-IsSafe id log = elim (Bool-cases (gone (b.answer log (interpreter id)))) [
    | inl e ↦ elim (Bool-cases (gone (b.answer (log ++ interpreter id ∷ []) (agent id)))) [
      | inl f ↦
          rw (e, f)
            (
              (log, agent id ∷ [], append_assoc log (interpreter id ∷ []) (agent id ∷ []), e),
              (log ++ interpreter id ∷ [], [], refl, f),
              tt,
            )
      | inr f ↦ rw (e, f) tt
    ]
    | inr e ↦ rw e tt
  ]

  collect-IsSafe : (ids : List Bytes) (log : Log) → IsSafe b log (collect b ids log).1
  unfolding collect
  collect-IsSafe [] log = tt
  collect-IsSafe (id ∷ ids) log =
      IsSafe-append log (collect_one b id log).1 (collect b ids (log ++ (collect_one b id log).1)).1
        (collect_one-IsSafe id log) (collect-IsSafe ids (log ++ (collect_one b id log).1))

  abbrev pub steps : Bytes → Log
  steps id = interpreter id ∷ agent id ∷ delete_session id ∷ []

  -- A round without a failure makes its three calls; the first is made in any case.
  collect_one-steps :
      (id : Bytes) (log : Log)
      → ((collect_one b id log).0 ≡ true → (collect_one b id log).1 ≡ steps id)
        × ((more : Log) → Mem (interpreter id) ((collect_one b id log).1 ++ more))
  unfolding collect_one
  collect_one-steps id log = elim (Bool-cases (gone (b.answer log (interpreter id)))) [
    | inl e ↦ elim (Bool-cases (gone (b.answer (log ++ interpreter id ∷ []) (agent id)))) [
      | inl f ↦ rw (e, f) (λ _. refl, λ more. mem-cons_self)
      | inr f ↦ rw (e, f) (λ h. absurd (ground (arith, h)), λ more. mem-cons_self)
    ]
    | inr e ↦ rw e (λ h. absurd (ground (arith, h)), λ more. mem-cons_self)
  ]

  no_error :
      (ok : Bool) (id : Bytes) (errs : List Bytes)
      → (if ok then errs else id ∷ errs) ≡ []
      → (ok ≡ true) × (errs ≡ [])
  no_error true id errs h = (refl, h)
  no_error false id errs h = absurd (ground (arith, h))

  -- A collection that reports no failure has made all three calls for every session, in their order.
  pub collect-steps :
      (ids : List Bytes) (log : Log)
      → (collect b ids log).0 ≡ []
      → (collect b ids log).1 ≡ flatten (map steps ids)
  unfolding collect flatten
  collect-steps [] log h = refl
  collect-steps (id ∷ ids) log h =
      let (fine, rest) =
        no_error (collect_one b id log).0 id (collect b ids (log ++ (collect_one b id log).1)).0
          h in
      ap₂ (λ s t. s ++ t) ((collect_one-steps id log).0 fine)
        (collect-steps ids (log ++ (collect_one b id log).1) rest)

  -- A failure for one session keeps no other from being tried.
  pub collect-All :
      (ids : List Bytes) (log : Log) → All (λ id. Mem (interpreter id) (collect b ids log).1) ids
  unfolding collect
  collect-All [] log = tt
  collect-All (id ∷ ids) log = (
    (collect_one-steps id log).1 (collect b ids (log ++ (collect_one b id log).1)).1,
    All-weaken (λ j. Mem (interpreter j) (collect b ids (log ++ (collect_one b id log).1)).1) _
        (λ j m. mem-append_right (collect_one b id log).1 m) ids
        (collect-All ids (log ++ (collect_one b id log).1)),
  )

  collected-IsSafe :
      (order : List Bytes → List Bytes) (inactive expired : Option (List Bytes))
      → IsSafe b [] (collected b order inactive expired).1
  unfolding collected
  collected-IsSafe order none none = tt
  collected-IsSafe order none (some expired) = tt
  collected-IsSafe order (some inactive) none = tt
  collected-IsSafe order (some inactive) (some expired) =
      collect-IsSafe (order (candidates b inactive expired)) []

  -- Whatever Redis and the cluster answer, and in whatever order the candidates are visited, a cycle
  -- deletes the stored record of a session only after both of its objects were deleted or found
  -- missing.
  pub gc_once-IsSafe :
      (order : List Bytes → List Bytes) (now : ℕ) → IsSafe b [] (gc_once b order now).1
  unfolding gc_once
  gc_once-IsSafe order now =
      collected-IsSafe order (b.list_inactive (now - max_idle_duration) session_gc_batch_limit)
        (b.list_expired now session_gc_batch_limit)
