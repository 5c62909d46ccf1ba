-- ===== src/Gateway/Keys/Agreement.antt =====
-- What the two secrets hold once the code has made sure of them.
use agentland.Base.{
  ℕ, zero, suc, Option, none, some, [], ◌∷◌, ◌≡◌, refl, sym, ap, ◌∙◌, subst, Bool-cases, inl, inr,
}
use agentland.Text.{Bytes, bytes_eq}
use agentland.Text.Search.{bytes_eq→≡}
use agentland.Gateway.Keys.{
  private_key_data_key, public_key_data_key, Data, Found, found, not_found, get_failed, Created,
  created, already_exists, create_failed, Env, Outcome, of_option, or_empty, with_public, key_pair,
  made, public_updated, public_found, ensure_public_key_secret, identity_held, identity_private,
  identity_found, ensure_identity_secret, generate_rsa_key_pair_pem, generate_private_key_pem,
  public_key_pem_from_private_pem,
}
use agentland.Gateway.Keys.Cluster.{
  Secrets, Sets, Reads, IsCluster, Holds, Holds-and_then, Holds-weaken, Holds-any, of_bool-Holds,
  of_option-Holds,
}

module _ (env : Env) (secrets : Secrets env) (files : env.State → Bytes → Option Bytes)
    (is : IsCluster env secrets files) where
  Sets-trans :
      (ns name : Bytes) (d e : Data) (a b c : env.State)
      → Sets env secrets ns name d a b
      → Sets env secrets ns name e b c
      → Sets env secrets ns name e a c
  Sets-trans ns name d e a b c h k = record {
    here = k.here;
    elsewhere = λ ns' name' n. k.elsewhere ns' name' n ∙ h.elsewhere ns' name' n;
  }

  Sets-after :
      (ns name : Bytes) (d : Data) (a b c : env.State)
      → secrets b ≡ secrets a
      → Sets env secrets ns name d b c
      → Sets env secrets ns name d a c
  Sets-after ns name d a b c e k = record {
    here = k.here;
    elsewhere = λ ns' name' n.
        k.elsewhere ns' name' n ∙ ap (λ (x : Bytes → Bytes → Option Data). x ns' name') e;
  }

  -- A secret is set to data with this public key; the rest of its data is as it was.
  abbrev pub Published : Bytes → Bytes → Bytes → env.State → env.State → Type 0
  Published ns name pem before after =
      (d : Data) × Sets env secrets ns name d before after
      × (or_empty (d public_key_data_key) ≡ pem)

  public_updated-Holds :
      (ns name : Bytes) (d : Data) (pem : Bytes) (s : env.State)
      → secrets s ns name ≡ some d
      → Holds
          (λ (_ : Unit {0}) s'.
            (d' : Data) × Sets env secrets ns name d' s s'
            × (or_empty (d' public_key_data_key) ≡ pem)
            × (d' private_key_data_key ≡ d private_key_data_key))
          (public_updated env ns name d pem s)
  public_updated-Holds ns name d pem s held =
      elim (Bool-cases (bytes_eq (or_empty (d public_key_data_key)) pem)) [
        | inl e ↦ rw e (
          d,
          record { here = held; elsewhere = λ ns' name' n. refl },
          bytes_eq→≡ (or_empty (d public_key_data_key)) pem e,
          refl,
        )
        | inr e ↦ rw e (
            of_bool-Holds _ (env.update_secret ns name (with_public pem d) s) (λ done.
              (with_public pem d, is.update_sets ns name (with_public pem d) s done, refl, refl)))
      ]

  made-Holds :
      {A : Type 0} (P : A → env.State → Type 0) (a : A) (retry : env.State → Outcome A × env.State)
      (x : Created × env.State)
      → (x.0 ≡ created → P a x.1)
      → (x.0 ≡ already_exists → Holds P (retry x.1))
      → Holds P (made env a retry x)
  made-Holds P a retry (created, s) h k = h refl
  made-Holds P a retry (already_exists, s) h k = k refl
  made-Holds P a retry (create_failed, s) h k = tt

  public_found-Holds :
      (ns name pem : Bytes) (retry : env.State → Outcome (Unit {0}) × env.State)
      → ((s : env.State) → Holds (λ (_ : Unit {0}) s'. Published ns name pem s s') (retry s))
      → (x : Found × env.State) → Reads x.0 (secrets x.1 ns name)
      → Holds
          (λ (_ : Unit {0}) s'. Published ns name pem x.1 s')
          (public_found env ns name pem retry x)
  public_found-Holds ns name pem retry h (found d, s) reads =
      Holds-weaken _ _ (public_updated env ns name d pem s)
        (λ _ s' (e, set, same, rest). (e, set, same)) (public_updated-Holds ns name d pem s reads)
  public_found-Holds ns name pem retry h (get_failed, s) reads = tt
  public_found-Holds ns name pem retry h (not_found, s) reads =
      let content : Data = with_public pem (λ k. none) in
      made-Holds (λ _ s'. Published ns name pem s s') tt retry (env.create_secret ns name content s)
        (λ done. (content, is.create_sets ns name content s done, refl))
        (λ done.
          let (other, set) = is.create_exists ns name content s done in
          Holds-weaken _ _ (retry (env.create_secret ns name content s).1)
            (λ _ s' (e, set', same). (e, Sets-trans ns name other e _ _ _ set set', same))
            (h (env.create_secret ns name content s).1))

  -- What was read is still there.
  Reads-after :
      (ns name : Bytes) (s : env.State)
      → Reads (env.get_secret ns name s).0 (secrets (env.get_secret ns name s).1 ns name)
  Reads-after ns name s =
      subst (λ (x : Bytes → Bytes → Option Data). Reads (env.get_secret ns name s).0 (x ns name))
        (sym (is.get_keeps ns name s)) (is.get_reads ns name s)

  pub ensure_public_key_secret-Holds :
      (n : ℕ) (ns name pem : Bytes) (s : env.State)
      → Holds
          (λ (_ : Unit {0}) s'. Published ns name pem s s')
          (ensure_public_key_secret env n ns name pem s)
  unfolding ensure_public_key_secret
  ensure_public_key_secret-Holds zero ns name pem s = tt
  ensure_public_key_secret-Holds (suc n) ns name pem s =
      Holds-weaken _ _
        (public_found env ns name pem (ensure_public_key_secret env n ns name pem)
          (env.get_secret ns name s))
        (λ _ s' (e, set, same). (e, Sets-after ns name e _ _ _ (is.get_keeps ns name s) set, same))
        (public_found-Holds ns name pem (ensure_public_key_secret env n ns name pem)
          (ensure_public_key_secret-Holds n ns name pem) (env.get_secret ns name s)
          (Reads-after ns name s))

  -- The secret holds this private key and the public key that belongs to it.
  pub record IsIdentity (ns name private_pem public_pem : Bytes) (s : env.State) : Type 0 where
    pub content : Data
    pub held : secrets s ns name ≡ some content
    pub private_held : content private_key_data_key ≡ some private_pem
    pub public_held : or_empty (content public_key_data_key) ≡ public_pem
    pub derived : public_key_pem_from_private_pem env private_pem ≡ some public_pem

  abbrev pub Identified : Bytes → Bytes → Bytes × Bytes → env.State → Type 0
  Identified ns name pair s = IsIdentity ns name pair.0 pair.1 s

  identity_held-Holds :
      (ns name : Bytes) (d : Data) (private_pem : Bytes) (s : env.State)
      → secrets s ns name ≡ some d
      → d private_key_data_key ≡ some private_pem
      → Holds (Identified ns name) (identity_held env ns name d private_pem s)
  identity_held-Holds ns name d private_pem s held named =
      Holds-and_then
        (λ public_pem s'.
          (secrets s' ns name ≡ some d)
          × (public_key_pem_from_private_pem env private_pem ≡ some public_pem))
        (Identified ns name) (of_option (public_key_pem_from_private_pem env private_pem) s) _
        (of_option-Holds _ (public_key_pem_from_private_pem env private_pem) s (λ pem e. (held, e)))
        (λ public_pem s1 (still, derived).
          Holds-and_then _ (Identified ns name) (public_updated env ns name d public_pem s1) _
            (public_updated-Holds ns name d public_pem s1 still)
            (λ _ s2 (e, set, same, rest). record {
              content = e;
              held = set.here;
              private_held = rest ∙ named;
              public_held = same;
              derived = derived;
            }))

  identity_private-Holds :
      (ns name : Bytes) (d : Data) (private_pem : Option Bytes) (s : env.State)
      → secrets s ns name ≡ some d
      → d private_key_data_key ≡ private_pem
      → Holds (Identified ns name) (identity_private env ns name d private_pem s)
  identity_private-Holds ns name d none s held named = tt
  identity_private-Holds ns name d (some []) s held named = tt
  identity_private-Holds ns name d (some (b ∷ pem)) s held named =
      identity_held-Holds ns name d (b ∷ pem) s held named

  generated-Holds :
      (bits : ℕ) (s : env.State)
      → Holds
          (λ pair s'. public_key_pem_from_private_pem env pair.0 ≡ some pair.1)
          (generate_rsa_key_pair_pem env bits s)
  unfolding generate_rsa_key_pair_pem
  generated-Holds bits s =
      Holds-and_then (λ pem s'. Unit {0}) _ (generate_private_key_pem env bits s) _
        (Holds-any (generate_private_key_pem env bits s))
        (λ pem s1 _.
          Holds-and_then
            (λ public_pem s'. public_key_pem_from_private_pem env pem ≡ some public_pem) _
            (of_option (public_key_pem_from_private_pem env pem) s1) _
            (of_option-Holds _ (public_key_pem_from_private_pem env pem) s1 (λ q e. e))
            (λ public_pem s2 e. e))

  identity_found-Holds :
      (ns name : Bytes) (bits : ℕ) (retry : env.State → Outcome (Bytes × Bytes) × env.State)
      → ((s : env.State) → Holds (Identified ns name) (retry s))
      → (x : Found × env.State) → Reads x.0 (secrets x.1 ns name)
      → Holds (Identified ns name) (identity_found env ns name bits retry x)
  identity_found-Holds ns name bits retry h (found d, s) reads =
      identity_private-Holds ns name d (d private_key_data_key) s reads refl
  identity_found-Holds ns name bits retry h (get_failed, s) reads = tt
  identity_found-Holds ns name bits retry h (not_found, s) reads =
      Holds-and_then _ (Identified ns name) (generate_rsa_key_pair_pem env bits s) _
        (generated-Holds bits s)
        (λ (private_pem, public_pem) s1 derived.
          let content : Data = key_pair private_pem public_pem in
          made-Holds (Identified ns name) (private_pem, public_pem) retry
            (env.create_secret ns name content s1)
            (λ done. record {
              content = content;
              held = (is.create_sets ns name content s1 done).here;
              private_held = refl;
              public_held = refl;
              derived = derived;
            })
            (λ done. h (env.create_secret ns name content s1).1))

  pub ensure_identity_secret-Holds :
      (n : ℕ) (ns name : Bytes) (bits : ℕ) (s : env.State)
      → Holds (Identified ns name) (ensure_identity_secret env n ns name bits s)
  unfolding ensure_identity_secret
  ensure_identity_secret-Holds zero ns name bits s = tt
  ensure_identity_secret-Holds (suc n) ns name bits s =
      identity_found-Holds ns name bits (ensure_identity_secret env n ns name bits)
        (ensure_identity_secret-Holds n ns name bits) (env.get_secret ns name s)
        (Reads-after ns name s)
