-- ===== src/Gateway/Keys/Retries.antt =====
-- How often the code starts again.
use agentland.Base.{
  ℕ, suc, ◌*◌, Bool, true, false, not, Option, none, some, [], ◌∷◌, ◌≡◌, refl, sym, ◌∙◌, subst,
  arith, if◌then◌else◌,
}
use agentland.Text.{Bytes, bytes_eq}
use agentland.Gateway.Keys.{
  private_key_data_key, public_key_data_key, Data, Found, found, not_found, get_failed, Created,
  created, already_exists, create_failed, Env, Outcome, ok, err, again, and_then, of_bool,
  of_option, or_empty, or_bits, with_public, key_pair, made, public_updated, public_found,
  ensure_public_key_secret, identity_private, identity_found, ensure_identity_secret,
  generate_rsa_key_pair_pem, generate_private_key_pem, private_of, public_key_pem_from_private_pem,
  write_private_key_file, cluster_key, local_fresh, local_parsed, local_key, with_defaults,
  ensure_gateway_signing_key, BootstrapConfig,
}
use agentland.FilePath.{dir}
use agentland.Token.{positive}
use agentland.Gateway.Keys.Cluster.{Secrets, Reads, IsCluster}

-- The code ends with a result or an error.
abbrev pub Ends : {A S : Type 0} → Outcome A × S → Type 0
Ends (ok a, s) = Unit {0}
Ends (err, s) = Unit {0}
Ends (again, s) = ⊥

Ends-and_then :
    {A B S : Type 0} (x : Outcome A × S) (f : A → S → Outcome B × S)
    → Ends x
    → ((a : A) (s : S) → Ends (f a s))
    → Ends (and_then x f)
Ends-and_then (ok a, s) f h k = k a s
Ends-and_then (err, s) f h k = tt
Ends-and_then (again, s) f h k = h

of_bool-Ends : {S : Type 0} (x : Bool × S) → Ends (of_bool x)
of_bool-Ends (true, s) = tt
of_bool-Ends (false, s) = tt

of_option-Ends : {A S : Type 0} (x : Option A) (s : S) → Ends (of_option x s)
of_option-Ends none s = tt
of_option-Ends (some a) s = tt

if-Ends :
    {A S : Type 0} (b : Bool) (x y : Outcome A × S) → Ends x → Ends y → Ends (if b then x else y)
if-Ends true x y h k = h
if-Ends false x y h k = k

module _ (env : Env) where
  public_updated-Ends :
      (ns name : Bytes) (d : Data) (pem : Bytes) (s : env.State)
      → Ends (public_updated env ns name d pem s)
  public_updated-Ends ns name d pem s =
      if-Ends (bytes_eq (or_empty (d public_key_data_key)) pem) (ok tt, s) _ tt
        (of_bool-Ends (env.update_secret ns name (with_public pem d) s))

  identity_private-Ends :
      (ns name : Bytes) (d : Data) (pem : Option Bytes) (s : env.State)
      → Ends (identity_private env ns name d pem s)
  identity_private-Ends ns name d none s = tt
  identity_private-Ends ns name d (some []) s = tt
  identity_private-Ends ns name d (some (b ∷ pem)) s =
      Ends-and_then (of_option (public_key_pem_from_private_pem env (b ∷ pem)) s) _
        (of_option-Ends (public_key_pem_from_private_pem env (b ∷ pem)) s)
        (λ q s1.
          Ends-and_then (public_updated env ns name d q s1) _ (public_updated-Ends ns name d q s1)
            (λ _ s2. tt))

  private_of-Ends : (x : Option env.PrivateKey × env.State) → Ends (private_of env x)
  private_of-Ends (none, s) = tt
  private_of-Ends (some key, s) = of_option-Ends _ s

  generate_private_key_pem-Ends :
      (bits : ℕ) (s : env.State) → Ends (generate_private_key_pem env bits s)
  unfolding generate_private_key_pem
  generate_private_key_pem-Ends bits s = private_of-Ends (env.generate_key bits s)

  generate_rsa_key_pair_pem-Ends :
      (bits : ℕ) (s : env.State) → Ends (generate_rsa_key_pair_pem env bits s)
  unfolding generate_rsa_key_pair_pem
  generate_rsa_key_pair_pem-Ends bits s =
      Ends-and_then (generate_private_key_pem env bits s) _ (generate_private_key_pem-Ends bits s)
        (λ pem s1.
          Ends-and_then (of_option (public_key_pem_from_private_pem env pem) s1) _
            (of_option-Ends (public_key_pem_from_private_pem env pem) s1) (λ q s2. tt))

  write_private_key_file-Ends :
      (path pem : Bytes) (s : env.State) → Ends (write_private_key_file env path pem s)
  unfolding write_private_key_file
  write_private_key_file-Ends path pem s =
      Ends-and_then (of_bool (env.mkdir_all (dir path) (7 * 64) s)) _
        (of_bool-Ends (env.mkdir_all (dir path) (7 * 64) s))
        (λ _ s1. of_bool-Ends (env.write_file path pem (6 * 64) s1))

  local_fresh-Ends : (c : BootstrapConfig) (s : env.State) → Ends (local_fresh env c s)
  local_fresh-Ends c s =
      Ends-and_then (generate_private_key_pem env (or_bits (positive c.rsa_key_bits)) s) _
        (generate_private_key_pem-Ends (or_bits (positive c.rsa_key_bits)) s)
        (λ pem s1.
          Ends-and_then (write_private_key_file env c.local_private_key_path pem s1) _
            (write_private_key_file-Ends c.local_private_key_path pem s1) (λ _ s2. tt))

  local_parsed-Ends :
      (c : BootstrapConfig) (key : Option env.PrivateKey) (s : env.State)
      → Ends (local_parsed env c key s)
  local_parsed-Ends c none s = local_fresh-Ends c s
  local_parsed-Ends c (some key) s = tt

  local_key-Ends :
      (c : BootstrapConfig) (content : Option Bytes) (s : env.State)
      → Ends (local_key env c content s)
  local_key-Ends c none s = local_fresh-Ends c s
  local_key-Ends c (some content) s = local_parsed-Ends c _ s

  made-Ends :
      {A : Type 0} (a : A) (retry : env.State → Outcome A × env.State) (x : Created × env.State)
      → (x.0 ≡ already_exists → Ends (retry x.1))
      → Ends (made env a retry x)
  made-Ends a retry (created, s) h = tt
  made-Ends a retry (already_exists, s) h = h refl
  made-Ends a retry (create_failed, s) h = tt

  public_found-Ends :
      (ns name pem : Bytes) (retry : env.State → Outcome (Unit {0}) × env.State)
      (x : Found × env.State)
      → (x.0 ≡ not_found
          → Ends (made env tt retry (env.create_secret ns name (with_public pem (λ k. none)) x.1)))
      → Ends (public_found env ns name pem retry x)
  public_found-Ends ns name pem retry (found d, s) h = public_updated-Ends ns name d pem s
  public_found-Ends ns name pem retry (get_failed, s) h = tt
  public_found-Ends ns name pem retry (not_found, s) h = h refl

  identity_found-Ends :
      (ns name : Bytes) (bits : ℕ) (retry : env.State → Outcome (Bytes × Bytes) × env.State)
      (x : Found × env.State)
      → (x.0 ≡ not_found
          → (private_pem public_pem : Bytes) (s : env.State)
          → Ends (
              made env
                (private_pem, public_pem)
                retry
                (env.create_secret ns name (key_pair private_pem public_pem) s)))
      → Ends (identity_found env ns name bits retry x)
  identity_found-Ends ns name bits retry (found d, s) h =
      identity_private-Ends ns name d (d private_key_data_key) s
  identity_found-Ends ns name bits retry (get_failed, s) h = tt
  identity_found-Ends ns name bits retry (not_found, s) h =
      Ends-and_then (generate_rsa_key_pair_pem env bits s) _ (generate_rsa_key_pair_pem-Ends bits s)
        (λ (a, b) s1. h refl a b s1)

  module _ (secrets : Secrets env) (files : env.State → Bytes → Option Bytes)
      (is : IsCluster env secrets files) where
    -- After a secret was there when it was to be created, it is read.
    read_back :
        (ns name : Bytes) (d : Data) (s : env.State)
        → (env.create_secret ns name d s).0 ≡ already_exists
        → (env.get_secret ns name (env.create_secret ns name d s).1).0 ≡ not_found
        → ⊥
    read_back ns name d s e missing =
        let (other, set) = is.create_exists ns name d s e in
        let absent : secrets (env.create_secret ns name d s).1 ns name ≡ none =
          subst (λ (x : Found). Reads x (secrets (env.create_secret ns name d s).1 ns name)) missing
            (is.get_reads ns name (env.create_secret ns name d s).1) in
        let no_data : some other ≡ Option.none = sym set.here ∙ absent in
        absurd (ground (arith, no_data))

    ensure_public_key_secret-Ends :
        (n : ℕ) (ns name pem : Bytes) (s : env.State)
        → Ends (ensure_public_key_secret env (suc (suc n)) ns name pem s)
    unfolding ensure_public_key_secret
    ensure_public_key_secret-Ends n ns name pem s =
        public_found-Ends ns name pem _ (env.get_secret ns name s) (λ _.
          made-Ends tt (ensure_public_key_secret env (suc n) ns name pem)
            (env.create_secret ns name (with_public pem (λ k. none)) (env.get_secret ns name s).1)
            (λ e.
              public_found-Ends ns name pem (ensure_public_key_secret env n ns name pem) _
                (λ missing. absurd (read_back ns name (with_public pem (λ k. none)) _ e missing))))

    ensure_identity_secret-Ends :
        (n : ℕ) (ns name : Bytes) (bits : ℕ) (s : env.State)
        → Ends (ensure_identity_secret env (suc (suc n)) ns name bits s)
    unfolding ensure_identity_secret
    ensure_identity_secret-Ends n ns name bits s =
        identity_found-Ends ns name bits _ (env.get_secret ns name s) (λ _ a b s1.
          made-Ends (a, b) (ensure_identity_secret env (suc n) ns name bits)
            (env.create_secret ns name (key_pair a b) s1)
            (λ e.
              identity_found-Ends ns name bits (ensure_identity_secret env n ns name bits) _
                (λ missing. absurd (read_back ns name (key_pair a b) s1 e missing))))

    cluster_key-Ends :
        (n : ℕ) (c : BootstrapConfig) (s : env.State) → Ends (cluster_key env (suc (suc n)) c s)
    cluster_key-Ends n c s =
        Ends-and_then (ensure_identity_secret env (suc (suc n)) _ _ _ s) _
          (ensure_identity_secret-Ends n c.identity_secret_namespace c.identity_secret_name
            (or_bits (positive c.rsa_key_bits)) s)
          (λ (a, b) s1.
            Ends-and_then (ensure_public_key_secret env (suc (suc n)) _ _ b s1) _
              (ensure_public_key_secret-Ends n c.public_secret_namespace c.public_secret_name b s1)
              (λ _ s2.
                Ends-and_then (write_private_key_file env c.local_private_key_path a s2) _
                  (write_private_key_file-Ends c.local_private_key_path a s2) (λ _ s3. tt)))

    -- The gateway starts again at most once for each secret, as long as no secret is deleted in
    -- between: two rounds end with a key or an error.
    pub ensure_gateway_signing_key-Ends :
        (n : ℕ) (cfg : BootstrapConfig) (s : env.State)
        → Ends (ensure_gateway_signing_key env (suc (suc n)) cfg s)
    unfolding ensure_gateway_signing_key
    ensure_gateway_signing_key-Ends n cfg s =
        let c : BootstrapConfig = with_defaults env cfg s in
        if-Ends (not env.in_cluster) _ _
          (local_key-Ends c (env.read_file c.local_private_key_path s) s)
          (if-Ends (not env.has_client) (err, s) _ tt (cluster_key-Ends n c s))
