-- ===== src/Agentcore/Service/RoundTrip.antt =====
-- Reading a session that was created or deleted.
use agentland.Text.Search.{bytes_eq_refl}
use agentland.Base.{
  ℕ, ◌+◌, ◌<◌, true, false, Bool, none, some, List, [], ◌∷◌, ◌++◌, ◌≡◌, ◌≢◌, ◌⊎◌, refl, arith, ap,
  sym, subst, ◌∙◌, Bool-cases, inl, inr, ltb, leb, Option,
}
use agentland.Text.{Bytes, bytes_eq, trim_space}
use agentland.Agentcore.Collection.{
  Backend, delete_session_cr, delete_cr, gone, code_interpreter, agent_session,
}
use agentland.Agentcore.Collection.Rounds.{Deleted}
use agentland.Agentcore.Store.{
  Redis, Json, SandboxInfo, create_session, get_session, delete_session, max_session_duration,
  stamped, redis_failed, session_not_found,
}
use agentland.Agentcore.Store
use agentland.Agentcore.Store.Views.{Content, IsRedis, IsJson, update}
use agentland.Agentcore.Store.Refinement.{
  Sessions, Represents, entry, step_store, step_map, create_follows, delete_follows, done,
  get_session-present, present, found_info, put, is_encoded,
}
use agentland.Agentcore.Service.{
  Server, World, Event, Result, ok, err, Failure, store_failed, store_is_nil, watch_failed, timeout,
  empty_name, create_failed, runtime_name_required, session_id_required, delete_cr_failed,
  agent_session_object, record_session, session_info, wait_session_ready, create_agent_session,
  recorded_at, get_agent_session, delete_agent_session, created, named, with_id, answered, deleted,
  korokd_port,
}
use agentland.Agentcore.Service.Waiting.{
  Waits, recorded, failed, timed_out, wait_session_ready-Waits,
}

-- The calls of a deletion, for which the object of each kind was deleted or not there.
abbrev pub DeletesBoth : Backend → Bytes → Type 0
DeletesBoth b id =
    Deleted b code_interpreter id (delete_session_cr b id []).1
    × Deleted b agent_session id (delete_session_cr b id []).1

delete_session_cr-DeletesBoth :
    (b : Backend) (id : Bytes) → (delete_session_cr b id []).0 ≡ true → DeletesBoth b id
delete_session_cr-DeletesBoth b id h =
    elim (Bool-cases (gone (b.answer [] (delete_cr code_interpreter id)))) [
      | inl e ↦
          elim (Bool-cases
            (gone (b.answer (delete_cr code_interpreter id ∷ []) (delete_cr agent_session id)))) [
              | inl f ↦ rw e (
                ([], delete_cr agent_session id ∷ [], refl, e),
                (delete_cr code_interpreter id ∷ [], [], refl, f),
              )
              | inr f ↦ let no : false ≡ true = rw (e, f) at h in absurd (ground (arith, no))
            ]
      | inr e ↦ let no : false ≡ true = rw e at h in absurd (ground (arith, no))
    ]

put-done :
    (now later : ℕ) (info : SandboxInfo) (encodable : Bool) (m : Sessions)
    → (put now later info encodable m).0 ≡ done (Store.ok tt)
    → (put now later info encodable m).1 ≡ update info.sandbox_id (some (entry now info)) m
put-done now later info encodable m h = elim (Bool-cases (leb (entry now info).ends later)) [
  | inl e ↦
      let no : done (Store.err Store.invalid_expiry) ≡ done (Store.ok tt) = rw e at h in
      absurd (ground (arith, no))
  | inr e ↦ elim (Bool-cases encodable) [
    | inl f ↦ rw (e, f) refl
    | inr f ↦
        let no : done (Store.err Store.not_json) ≡ done (Store.ok tt) = rw (e, f) at h in
        absurd (ground (arith, no))
  ]
]

module _ (r : Redis) (json : Json) (content : r.State → Content) (redis : IsRedis r content)
    (decodes : IsJson json) (srv : Server) where
  -- A session that the store has created is in the map.
  create_session-Represents :
      (now later : ℕ) (info : SandboxInfo) (s : r.State) (m : Sessions)
      → Represents json (content s) m
      → (create_session r json now later info s).0 ≡ Store.ok tt
      → Represents json
          (content (create_session r json now later info s).1)
          (update info.sandbox_id (some (entry now info)) m)
  unfolding step_store step_map
  create_session-Represents now later info s m rep h =
      let fine : (create_session r json now later info s).0 ≢ Store.err redis_failed =
        (λ e. ground (arith, h, e)) in
      let (same, rep') = create_follows r json content redis decodes now later info s m rep fine in
      let made : (put now later info (is_encoded (json.marshal (stamped now info))) m).0
          ≡ done (Store.ok tt) =
        sym same ∙ ap done h in
      subst (Represents json (content (create_session r json now later info s).1))
        (put-done now later info (is_encoded (json.marshal (stamped now info))) m made) rep'

  delete_session-Represents :
      (now : ℕ) (id : Bytes) (s : r.State) (m : Sessions)
      → Represents json (content s) m
      → (delete_session r json now id s).0 ≡ Store.ok tt
      → Represents json (content (delete_session r json now id s).1) (update id none m)
  unfolding step_store step_map
  delete_session-Represents now id s m rep h =
      (delete_follows r json content redis decodes now id s m rep (λ e. ground (arith, h, e))).1

recorded_at-ok :
    {S : Type 0} (endpoint ep : Bytes) (p : Store.Result (Unit {0}) × S) (s' : S)
    → recorded_at endpoint p ≡ (ok ep, s')
    → (endpoint ≡ ep) × (p.0 ≡ Store.ok tt) × (p.1 ≡ s')
recorded_at-ok endpoint ep (Store.ok x, s) s' h =
    let same : Result.ok endpoint ≡ ok ep = ap (λ q. q.0) h in
    (ground (arith, same), refl, ap (λ q. q.1) h)
recorded_at-ok endpoint ep (Store.err e, s) s' h =
    let no : Result.err (store_failed e) ≡ ok ep = ap (λ q. q.0) h in absurd (ground (arith, no))

err-ne-ok : (f : Failure) (ep : Bytes) → Result.err f ≢ ok ep
err-ne-ok f ep h = ground (arith, h)

err-ne-ok_pair : (f : Failure) (p : Bytes × Bytes) → Result.err f ≢ ok p
err-ne-ok_pair f p h = ground (arith, h)

err-ne-done : (f : Failure) → Result.err f ≢ ok (tt {0})
err-ne-done f h = ground (arith, h)

module _ (r : Redis) (json : Json) (srv : Server) where
  -- A session with an id that the store has taken.
  record Made (now now' later : ℕ) (id ep : Bytes) (s s' : r.State) : Type 0 where
    stored : srv.has_store ≡ true
    answer :
        (create_session r json now' later (session_info r json srv now id ep) s).0 ≡ Store.ok tt
    after : (create_session r json now' later (session_info r json srv now id ep) s).1 ≡ s'

  record_session-Made :
      (now now' later : ℕ) (id ip ep : Bytes) (s s' : r.State)
      → record_session r json srv now now' later id ip s ≡ (ok ep, s')
      → Made now now' later id ep s s'
  unfolding record_session
  record_session-Made now now' later id ip ep s s' h = elim (Bool-cases srv.has_store) [
    | inl e ↦
        let endpoint = ip ++ korokd_port in
        let (at, fine, moved) =
          recorded_at-ok endpoint ep
            (create_session r json now' later (session_info r json srv now id endpoint) s) s'
            (rw e at h) in
        subst (λ (p : Bytes). Made now now' later id p s s') at
          (record { stored = e; answer = fine; after = moved })
    | inr e ↦
        let no : (err store_is_nil, s) ≡ (ok ep, s') = rw e at h in
        absurd (err-ne-ok store_is_nil ep (ap (λ q. q.0) no))
  ]

  Waits-Made :
      (now now' later : ℕ) (id ep : Bytes) (es : List Event) (s s' : r.State)
      (x : Result Bytes × r.State)
      → Waits r.State s es (λ ip. record_session r json srv now now' later id ip s) x
      → x ≡ (ok ep, s')
      → Made now now' later id ep s s'
  Waits-Made now now' later id ep es s s' x (recorded before after st _ split all run is) h =
      record_session-Made now now' later id st.pod_ip ep s s' (sym is ∙ h)
  Waits-Made now now' later id ep es s s' x (failed before after f e _ split all fail is) h =
      absurd (err-ne-ok f ep (ap (λ q. q.0) (sym is ∙ h)))
  Waits-Made now now' later id ep es s s' x (timed_out _ all is) h =
      absurd (err-ne-ok timeout ep (ap (λ q. q.0) (sym is ∙ h)))

  wait-Made :
      (watching : Bool) (now now' later : ℕ) (id ep : Bytes) (es : List Event) (s s' : r.State)
      → wait_session_ready r json srv watching now now' later id es s ≡ (ok ep, s')
      → Made now now' later id ep s s'
  unfolding wait_session_ready
  wait-Made false now now' later id ep es s s' h =
      absurd (err-ne-ok watch_failed ep (ap (λ q. q.0) h))
  wait-Made true now now' later id ep es s s' h =
      Waits-Made now now' later id ep es s s'
        (wait_session_ready r json srv true now now' later id es s)
        (wait_session_ready-Waits r json srv now now' later id es s) h

  deleted-ok :
      (p : Store.Result (Unit {0}) × r.State) (s' : r.State)
      → deleted r json srv p ≡ (ok tt, s')
      → (p.0 ≡ Store.ok tt) × (p.1 ≡ s')
  deleted-ok (Store.ok x, s) s' h = (refl, ap (λ q. q.1) h)
  deleted-ok (Store.err e, s) s' h = absurd (err-ne-done (store_failed e) (ap (λ q. q.0) h))

  with_id-ok :
      (id : Bytes) (p : Result Bytes × r.State) (i ep : Bytes) (s' : r.State)
      → with_id r json srv id p ≡ (ok (i, ep), s')
      → (id ≡ i) × (p ≡ (ok ep, s'))
  with_id-ok id (ok e, s) i ep s' h =
      let same : ◌≡◌ {A = Result (Bytes × Bytes)} (ok (id, e)) (ok (i, ep)) = ap (λ q. q.0) h in
      let moved : s ≡ s' = ap (λ q. q.1) h in
      let at : e ≡ ep = ground (arith, same) in (ground (arith, same), (λ i. (ok (at i), moved i)))
  with_id-ok id (err e, s) i ep s' h = absurd (err-ne-ok_pair e (i, ep) (ap (λ q. q.0) h))

  -- The id is the name that the cluster gave, and not empty.
  record MadeFor (w : World) (id ep : Bytes) (s s' : r.State) : Type 0 where
    made : Made w.now w.now' w.later id ep s s'
    c : ℕ
    rest : Bytes
    nonempty : id ≡ c ∷ rest

  named-MadeFor :
      (w : World) (name id ep : Bytes) (s s' : r.State)
      → named r json srv w name s ≡ (ok (id, ep), s')
      → MadeFor w id ep s s'
  named-MadeFor w [] id ep s s' h = absurd (err-ne-ok_pair empty_name (id, ep) (ap (λ q. q.0) h))
  named-MadeFor w (c ∷ name) id ep s s' h =
      let (same, waited) =
        with_id-ok (c ∷ name)
          (wait_session_ready r json srv (w.watching (c ∷ name)) w.now w.now' w.later (c ∷ name)
            (w.events (c ∷ name)) s)
          id ep s' h in
      record {
        made =
            subst (λ (i : Bytes). Made w.now w.now' w.later i ep s s') same
              (wait-Made (w.watching (c ∷ name)) w.now w.now' w.later (c ∷ name) ep
                (w.events (c ∷ name)) s s' waited);
        c = c;
        rest = name;
        nonempty = sym same;
      }

  created-MadeFor :
      (w : World) (o : Option Bytes) (id ep : Bytes) (s s' : r.State)
      → created r json srv w o s ≡ (ok (id, ep), s')
      → MadeFor w id ep s s'
  created-MadeFor w none id ep s s' h =
      absurd (err-ne-ok_pair create_failed (id, ep) (ap (λ q. q.0) h))
  created-MadeFor w (some name) id ep s s' h = named-MadeFor w (trim_space name) id ep s s' h

-- The second at which a session that was made then ends.
abbrev pub ends_at : World → ℕ
ends_at w = w.now + max_session_duration

module _ (r : Redis) (json : Json) (content : r.State → Content) (redis : IsRedis r content)
    (decodes : IsJson json) (srv : Server) where
  -- What a read answers, unless Redis fails.
  abbrev pub Reads : ℕ → Bytes → r.State → Result (Bytes × Bytes) → Type 0
  Reads t id s x =
      (get_agent_session r json srv t id s ≡ err (store_failed redis_failed))
      ⊎ (get_agent_session r json srv t id s ≡ x)

  read_of :
      (t c : ℕ) (id : Bytes) (s : r.State) (m : Sessions)
      → srv.has_store ≡ true
      → Represents json (content s) m
      → Reads t (c ∷ id) s (answered r json srv (found_info (present t (m (c ∷ id)))))
  unfolding get_agent_session
  read_of t c id s m e rep =
      elim (get_session-present r json content redis decodes t (c ∷ id) s m rep) [
        | inl f ↦ inl (rw (e, f) refl)
        | inr f ↦ inr (rw (e, f) refl)
      ]

  -- The session that is in the map.
  answered_entry :
      (now now' t c : ℕ) (id ep : Bytes) (m : Sessions)
      → t < now + max_session_duration
      → answered r json srv (
          found_info (
            present t (
              update
                (c ∷ id)
                (some (entry now' (session_info r json srv now (c ∷ id) ep)))
                m
                (c ∷ id))))
        ≡ ok (c ∷ id, ep)
  answered_entry now now' t c id ep m before =
      let same : bytes_eq (c ∷ id) (c ∷ id) ≡ true = bytes_eq_refl (c ∷ id) in
      let live : ltb t (now + max_session_duration) ≡ true = ground (arith, before) in
      rw (same, live) refl

  taken-read :
      (w : World) (c : ℕ) (id ep : Bytes) (s s' : r.State) (m : Sessions) (t : ℕ)
      → Represents json (content s) m
      → Made r json srv w.now w.now' w.later (c ∷ id) ep s s'
      → t < ends_at w
      → Reads t (c ∷ id) s' (ok (c ∷ id, ep))
  taken-read w c id ep s s' m t rep f before =
      let info = session_info r json srv w.now (c ∷ id) ep in
      let m' = update (c ∷ id) (some (entry w.now' info)) m in
      let rep' : Represents json (content s') m' =
        subst (λ x. Represents json (content x) m') f.after
          (create_session-Represents r json content redis decodes srv w.now' w.later info s m rep
            f.answer) in
      subst (Reads t (c ∷ id) s') (answered_entry w.now w.now' t c id ep m before)
        (read_of t c id s' m' f.stored rep')

  created-read :
      (w : World) (o : Option Bytes) (id ep : Bytes) (s s' : r.State) (m : Sessions) (t : ℕ)
      → Represents json (content s) m
      → created r json srv w o s ≡ (ok (id, ep), s')
      → t < ends_at w
      → Reads t id s' (ok (id, ep))
  created-read w o id ep s s' m t rep h before =
      let f = created-MadeFor r json srv w o id ep s s' h in
      subst (λ i. Reads t i s' (ok (i, ep))) (sym f.nonempty)
        (taken-read w f.c f.rest ep s s' m t rep
          (subst (λ i. Made r json srv w.now w.now' w.later i ep s s') f.nonempty f.made) before)

  -- If Redis does what it says, a session that was created for an agent's runtime is read, until an
  -- hour after the clock was read for it, with the id and the endpoint that its creation gave; unless
  -- Redis fails then.
  pub create-get :
      (w : World) (name namespace id ep : Bytes) (s s' : r.State) (m : Sessions) (t : ℕ)
      → Represents json (content s) m
      → create_agent_session r json srv w name namespace s ≡ (ok (id, ep), s')
      → t < ends_at w
      → Reads t id s' (ok (id, ep))
  unfolding create_agent_session
  create-get w [] namespace id ep s s' m t rep h before =
      absurd (err-ne-ok_pair runtime_name_required (id, ep) (ap (λ q. q.0) h))
  create-get w (c ∷ name) namespace id ep s s' m t rep h before =
      created-read w (w.create (agent_session_object srv (c ∷ name) namespace)) id ep s s' m t rep h
        before

  -- After a deletion that succeeds no session is read, unless Redis fails then, and its calls deleted the
  -- object of each of the two kinds, or were told that it is not there.
  pub delete-get :
      (b : Backend) (now t : ℕ) (id : Bytes) (s s' : r.State) (m : Sessions)
      → srv.has_store ≡ true
      → Represents json (content s) m
      → delete_agent_session r json srv b now id s ≡ (ok tt, s')
      → DeletesBoth b id × Reads t id s' (err (store_failed session_not_found))
  unfolding delete_agent_session
  delete-get b now t [] s s' m e rep h = absurd (err-ne-done session_id_required (ap (λ q. q.0) h))
  delete-get b now t (c ∷ id) s s' m e rep h =
      elim (Bool-cases (delete_session_cr b (c ∷ id) []).0) [
        | inr f ↦
            let no : (err delete_cr_failed, s) ≡ (ok tt, s') = rw f at h in
            absurd (err-ne-done delete_cr_failed (ap (λ q. q.0) no))
        | inl f ↦
            let h' : deleted r json srv (delete_session r json now (c ∷ id) s) ≡ (ok tt, s') =
              rw (f, e) at h in
            let (fine, moved) =
              deleted-ok r json srv (delete_session r json now (c ∷ id) s) s' h' in
            let rep' : Represents json (content s') (update (c ∷ id) none m) =
              subst (λ x. Represents json (content x) (update (c ∷ id) none m)) moved
                (delete_session-Represents r json content redis decodes srv now (c ∷ id) s m rep
                  fine) in
            let same : bytes_eq (c ∷ id) (c ∷ id) ≡ true = bytes_eq_refl (c ∷ id) in
            (
              delete_session_cr-DeletesBoth b (c ∷ id) f,
              subst (Reads t (c ∷ id) s') (rw same refl)
                  (read_of t c id s' (update (c ∷ id) none m) e rep'),
            )
      ]
