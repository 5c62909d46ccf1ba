-- ===== src/Agentcore/Store/Refinement.antt =====
-- The store against a map of sessions.
use agentland.Text.Search.{bytes_eq→≡}
use agentland.Base.{
  ℕ, ◌+◌, ◌-◌, ◌<◌, Bool, true, false, Option, none, some, List, [], ◌∷◌, ltb, leb, if◌then◌else◌,
  ◌≡◌, ◌≢◌, ◌⊎◌, All, refl, arith, ap, sym, subst, ◌∙◌, Bool-cases, Option-cases, inl, inr,
}
use agentland.Text.{Bytes, bytes_eq}
use agentland.Agentcore.Store.{
  Command, Reply, Redis, Json, SandboxInfo, Failure, session_not_found, invalid_expiry, not_json,
  redis_failed, Result, ok, err, session_key, key_last_activity_index, key_expires_at_index, unix,
  or_time, stamped, create_commands, delete_commands, executed, create_session, write_session,
  delete_session, get_session, update_latest_activity, touched, reply_decoded, failed,
}
use agentland.Agentcore.Store
use agentland.Agentcore.Store.Views.{Content, update, run, live, reply_of, is_some, IsRedis, IsJson}

-- A session with the time at which it ends and the second of its last activity.
pub record Entry : Type 0 where
  pub info : SandboxInfo
  pub ends : ℕ
  pub active : ℕ

abbrev pub Sessions : Type 0
Sessions = Bytes → Option Entry

pub data Op : Type 0 where
  create : ℕ → ℕ → SandboxInfo → Op
  delete : ℕ → Bytes → Op
  touch : ℕ → Bytes → Op
  get : ℕ → Bytes → Op

pub data Answer : Type 0 where
  done : Result (Unit {0}) → Answer
  got : Result SandboxInfo → Answer

-- What the map answers: a session is there until it ends.
abbrev pub present : ℕ → Option Entry → Option Entry
present now none = none
present now (some e) = if ltb now e.ends then some e else none

abbrev pub is_present : Option Entry → Bool
is_present none = false
is_present (some e) = true

abbrev pub found_info : Option Entry → Result SandboxInfo
found_info none = err session_not_found
found_info (some e) = ok e.info

abbrev pub entry : ℕ → SandboxInfo → Entry
entry now info =
    let info' = stamped now info in
    record { info = info'; ends = or_time 0 info'.expires_at; active = unix now }

abbrev pub put : ℕ → ℕ → SandboxInfo → Bool → Sessions → Answer × Sessions
put now later info encodable m =
    if leb (entry now info).ends later
    then (done (err invalid_expiry), m)
    else if encodable
    then (done (ok tt), update info.sandbox_id (some (entry now info)) m)
    else (done (err not_json), m)

abbrev pub touched_map : ℕ → Bytes → Option Entry → Sessions → Answer × Sessions
touched_map now id none m = (done (err session_not_found), m)
touched_map now id (some e) m = (done (ok tt), update id (some (record e { active = unix now })) m)

abbrev pub is_encoded : Option Bytes → Bool
is_encoded none = false
is_encoded (some v) = true

module _ (json : Json) where
  -- One operation on the map.
  unfoldable pub step_map : Op → Sessions → Answer × Sessions
  step_map (create now later info) m =
      put now later info (is_encoded (json.marshal (stamped now info))) m
  step_map (delete now id) m = (done (ok tt), update id none m)
  step_map (touch now id) m = touched_map now id (present now (m id)) m
  step_map (get now id) m = (got (found_info (present now (m id))), m)

  unfoldable pub run_map : List Op → Sessions → List Answer × Sessions
  unfolding step_map
  run_map [] m = ([], m)
  run_map (x ∷ xs) m =
      let (a, m') = step_map x m in let (as', m'') = run_map xs m' in (a ∷ as', m'')

module _ (r : Redis) (json : Json) where
  abbrev pub done_with : Result (Unit {0}) × r.State → Answer × r.State
  done_with (a, s) = (done a, s)

  -- The same operation of the store.
  unfoldable pub step_store : Op → r.State → Answer × r.State
  unfolding create_session delete_session update_latest_activity get_session
  step_store (create now later info) s = done_with (create_session r json now later info s)
  step_store (delete now id) s = done_with (delete_session r json now id s)
  step_store (touch now id) s = done_with (update_latest_activity r json now id s)
  step_store (get now id) s = (got (get_session r json now id s), s)

  unfoldable pub run_store : List Op → r.State → List Answer × r.State
  unfolding step_store
  run_store [] s = ([], s)
  run_store (x ∷ xs) s =
      let (a, s') = step_store x s in let (as', s'') = run_store xs s' in (a ∷ as', s'')

-- What is stored for a session.
abbrev pub Stored : Json → Content → Bytes → Option Entry → Type 0
Stored json c id none =
    (c.values (session_key id) ≡ none)
    × (c.scores key_last_activity_index id ≡ none)
    × (c.scores key_expires_at_index id ≡ none)
Stored json c id (some e) =
    (v : Bytes) × (c.values (session_key id) ≡ some (v, e.ends))
    × (json.unmarshal v ≡ some e.info)
    × (c.scores key_last_activity_index id ≡ some e.active)
    × (c.scores key_expires_at_index id ≡ some (unix (or_time 0 e.info.expires_at)))

abbrev pub Represents : Json → Content → Sessions → Type 0
Represents json c m = (id : Bytes) → Stored json c id (m id)

-- Redis answered.
abbrev pub Answered : Answer → Type 0
Answered (done a) = a ≢ err redis_failed
Answered (got a) = a ≢ err redis_failed

module _ (json : Json) where
  -- It depends on three reads.
  Stored-same :
      (c d : Content) (id : Bytes) (o : Option Entry)
      → d.values (session_key id) ≡ c.values (session_key id)
      → d.scores key_last_activity_index id ≡ c.scores key_last_activity_index id
      → d.scores key_expires_at_index id ≡ c.scores key_expires_at_index id
      → Stored json c id o
      → Stored json d id o
  Stored-same c d id none ev ea ee (v, a, e) = (ev ∙ v, ea ∙ a, ee ∙ e)
  Stored-same c d id (some x) ev ea ee (v, at, decodes, a, e) =
      (v, ev ∙ at, decodes, ea ∙ a, ee ∙ e)

  Stored_created :
      (c : Content) (now later : ℕ) (info : SandboxInfo) (v : Bytes) (m : Sessions)
      → json.unmarshal v ≡ some (stamped now info)
      → later < (entry now info).ends
      → Represents json c m
      → Represents json
          (run later
            (create_commands now info.sandbox_id v
              (entry now info).ends
              ((entry now info).ends - later))
            c)
          (update info.sandbox_id (some (entry now info)) m)
  unfolding run
  Stored_created c now later info v m d h rep id = elim (Bool-cases (bytes_eq info.sandbox_id id)) [
    | inl e ↦
        let ends : later + ((entry now info).ends - later) ≡ (entry now info).ends =
          omega (arith, h) in
        rw e (v, rw (e, ends) refl, d, rw e refl, rw e refl)
    | inr e ↦ rw e (
        Stored-same c
          (run later
            (create_commands now info.sandbox_id v (entry now info).ends
              ((entry now info).ends - later))
            c)
          id (m id) (rw e refl) (rw e refl) (rw e refl) (rep id))
  ]

  Stored_deleted :
      (c : Content) (now : ℕ) (id : Bytes) (m : Sessions)
      → Represents json c m
      → Represents json (run now (delete_commands id) c) (update id none m)
  unfolding run
  Stored_deleted c now id m rep j = elim (Bool-cases (bytes_eq id j)) [
    | inl e ↦ rw e (rw e refl, rw e refl, rw e refl)
    | inr e ↦ rw e (
        Stored-same c (run now (delete_commands id) c) j (m j) (rw e refl) (rw e refl) (rw e refl)
          (rep j))
  ]

  Stored_touched :
      (c : Content) (now : ℕ) (id : Bytes) (e : Entry) (m : Sessions)
      → m id ≡ some e
      → Represents json c m
      → Represents json
          (run now (Store.z_add key_last_activity_index id (unix now) ∷ []) c)
          (update id (some (record e { active = unix now })) m)
  unfolding run
  Stored_touched c now id e m at rep j = elim (Bool-cases (bytes_eq id j)) [
    | inl same ↦
        let (v, value, decodes, active, ends) = subst (Stored json c id) at (rep id) in
        let moved = bytes_eq→≡ id j same in
        rw same (
          v,
          subst (λ (k : Bytes). c.values (session_key k) ≡ some (v, e.ends)) moved value,
          decodes,
          rw same refl,
          subst
              (λ (k : Bytes).
                c.scores key_expires_at_index k ≡ some (unix (or_time 0 e.info.expires_at)))
              moved ends,
        )
    | inr other ↦ rw other (
        Stored-same c (run now (Store.z_add key_last_activity_index id (unix now) ∷ []) c) j (m j)
          refl (rw other refl) refl (rep j))
  ]

executed_lem :
    {S : Type 0} (p : Bool × S)
    → (executed p).0 ≢ err redis_failed
    → (p.0 ≡ true) × (executed p ≡ (ok tt, p.1))
executed_lem (true, s) h = (refl, refl)
executed_lem (false, s) h = absurd (h refl)

is_some-present :
    (json : Json) (c : Content) (now : ℕ) (id : Bytes) (o : Option Entry)
    → Stored json c id o
    → is_some (live now (c.values (session_key id))) ≡ is_present (present now o)
unfolding live
is_some-present json c now id none (v, a, e) = rw v refl
is_some-present json c now id (some x) (v, at, decodes, a, e) = rw at (ground arith)

module _ (r : Redis) (json : Json) where
  decoded_present :
      (c : Content) (now : ℕ) (id : Bytes) (o : Option Entry)
      → Stored json c id o
      → reply_decoded r json (reply_of (live now (c.values (session_key id))))
        ≡ found_info (present now o)
  unfolding live
  decoded_present c now id none (v, a, e) = rw v refl
  decoded_present c now id (some x) (v, at, decodes, a, e) = elim (Bool-cases (ltb now x.ends)) [
    | inl l ↦ rw (at, l, decodes) refl
    | inr l ↦ rw (at, l) refl
  ]

present-some : (now : ℕ) (o : Option Entry) (x : Entry) → present now o ≡ some x → o ≡ some x
present-some now none x h = absurd (ground (arith, h))
present-some now (some e) x h = ground (arith, h)

module _ (r : Redis) (json : Json) (content : r.State → Content) (redis : IsRedis r content)
    (decodes : IsJson json) where
  -- The store and the map answer the same, and agree after it.
  abbrev pub Follows : Answer × r.State → Answer × Sessions → Type 0
  Follows (a, s) (b, m) = (a ≡ b) × Represents json (content s) m

  written :
      (now : ℕ) (xs : List Command) (s : r.State) (m : Sessions)
      → Represents json (run now xs (content s)) m
      → (executed (r.exec now xs s)).0 ≢ err redis_failed
      → Follows (done_with r json (executed (r.exec now xs s))) (done (ok tt), m)
  written now xs s m rep h =
      let (made, e) = executed_lem (r.exec now xs s) h in
      rw e (refl, subst (λ c. Represents json c m) (sym (redis.exec_run now xs s made)) rep)

  pub create_follows :
      (now later : ℕ) (info : SandboxInfo) (s : r.State) (m : Sessions)
      → Represents json (content s) m
      → Answered (step_store r json (create now later info) s).0
      → Follows
          (step_store r json (create now later info) s)
          (step_map json (create now later info) m)
  unfolding step_store step_map create_session
  create_follows now later info s m rep h = elim (Bool-cases (leb (entry now info).ends later)) [
    | inl l ↦ rw l (refl, rep)
    | inr l ↦ elim (Option-cases (json.marshal (stamped now info))) [
      | inl e ↦ rw (l, e) (refl, rep)
      | inr (v, e) ↦
          let h' = rw (l, e) at h in
          rw (l, e)
            (written later
              (create_commands now info.sandbox_id v (entry now info).ends
                ((entry now info).ends - later))
              s (update info.sandbox_id (some (entry now info)) m)
              (Stored_created json (content s) now later info v m (decodes (stamped now info) v e)
                (ground (arith, l)) rep)
              h')
    ]
  ]

  pub delete_follows :
      (now : ℕ) (id : Bytes) (s : r.State) (m : Sessions)
      → Represents json (content s) m
      → Answered (step_store r json (delete now id) s).0
      → Follows (step_store r json (delete now id) s) (step_map json (delete now id) m)
  unfolding step_store step_map delete_session
  delete_follows now id s m rep h =
      written now (delete_commands id) s (update id none m)
        (Stored_deleted json (content s) now id m rep) h

  -- The key is looked for first.
  touch_found :
      (now : ℕ) (id : Bytes) (s : r.State) (m : Sessions) (o : Option Bool)
      → ((b : Bool) → o ≡ some b → b ≡ is_present (present now (m id)))
      → Represents json (content s) m
      → Answered (done_with r json (touched r json now id o s)).0
      → Follows
          (done_with r json (touched r json now id o s))
          (touched_map now id (present now (m id)) m)
  touch_found now id s m none f rep h = absurd (h refl)
  touch_found now id s m (some false) f rep h = elim (Option-cases (present now (m id))) [
    | inl e ↦ rw e (refl, rep)
    | inr (x, e) ↦
        let no : false ≡ true = f false refl ∙ ap is_present e in absurd (ground (arith, no))
  ]
  touch_found now id s m (some true) f rep h = elim (Option-cases (present now (m id))) [
    | inl e ↦ let no : true ≡ false = f true refl ∙ ap is_present e in absurd (ground (arith, no))
    | inr (x, e) ↦ rw e (
        written now (Store.z_add key_last_activity_index id (unix now) ∷ []) s
          (update id (some (record x { active = unix now })) m)
          (Stored_touched json (content s) now id x m (present-some now (m id) x e) rep) h)
  ]

  touch_follows :
      (now : ℕ) (id : Bytes) (s : r.State) (m : Sessions)
      → Represents json (content s) m
      → Answered (step_store r json (touch now id) s).0
      → Follows (step_store r json (touch now id) s) (step_map json (touch now id) m)
  unfolding step_store step_map update_latest_activity
  touch_follows now id s m rep h =
      touch_found now id s m (r.exists now (session_key id) s)
        (λ b e.
          redis.exists_reads now (session_key id) s b e
          ∙ is_some-present json (content s) now id (m id) (rep id))
        rep h

  -- A read gives the session that is present, unless Redis fails.
  pub get_session-present :
      (now : ℕ) (id : Bytes) (s : r.State) (m : Sessions)
      → Represents json (content s) m
      → (get_session r json now id s ≡ err redis_failed)
        ⊎ (get_session r json now id s ≡ found_info (present now (m id)))
  unfolding get_session
  get_session-present now id s m rep = elim (redis.get_reads now (session_key id) s) [
    | inl e ↦ inl (ap (reply_decoded r json) e)
    | inr e ↦
        inr
          (ap (reply_decoded r json) e ∙ decoded_present r json (content s) now id (m id) (rep id))
  ]

  get_follows :
      (now : ℕ) (id : Bytes) (s : r.State) (m : Sessions)
      → Represents json (content s) m
      → Answered (step_store r json (get now id) s).0
      → Follows (step_store r json (get now id) s) (step_map json (get now id) m)
  unfolding step_store step_map
  get_follows now id s m rep h = elim (get_session-present now id s m rep) [
    | inl e ↦ absurd (h e)
    | inr e ↦ (ap got e, rep)
  ]

  step_follows :
      (x : Op) (s : r.State) (m : Sessions)
      → Represents json (content s) m
      → Answered (step_store r json x s).0
      → Follows (step_store r json x s) (step_map json x m)
  step_follows (create now later info) s m rep h = create_follows now later info s m rep h
  step_follows (delete now id) s m rep h = delete_follows now id s m rep h
  step_follows (touch now id) s m rep h = touch_follows now id s m rep h
  step_follows (get now id) s m rep h = get_follows now id s m rep h

  -- The store refines a map of sessions. If Redis does what it says and never fails, any sequence of
  -- creations, deletions, notes of activity and reads, at any times, is answered as the map answers
  -- it, in which a session is present until it ends, and the store still agrees with the map.
  pub run_store-refines :
      (xs : List Op) (s : r.State) (m : Sessions)
      → Represents json (content s) m
      → All Answered (run_store r json xs s).0
      → ((run_store r json xs s).0 ≡ (run_map json xs m).0)
        × Represents json (content (run_store r json xs s).1) (run_map json xs m).1
  unfolding run_store run_map
  run_store-refines [] s m rep h = (refl, rep)
  run_store-refines (x ∷ xs) s m rep h =
      let (same, rep') = step_follows x s m rep h.0 in
      let (more, rep'') =
        run_store-refines xs (step_store r json x s).1 (step_map json x m).1 rep' h.1 in
      (cc, rep'')
