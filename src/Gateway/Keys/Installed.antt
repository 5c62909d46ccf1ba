-- ===== src/Gateway/Keys/Installed.antt =====
-- What is there when the gateway has its key.
use agentland.Base.{
  ℕ, ◌*◌, Bool, true, false, not, Option, some, ◌≡◌, refl, ap, ◌∙◌, arith, if◌then◌else◌,
}
use agentland.Text.{Bytes}
use agentland.Token.{positive}
use agentland.FilePath.{dir}
use agentland.Gateway.Keys.{
  public_key_data_key, BootstrapConfig, Data, Env, Outcome, ok, err, and_then, of_bool, or_empty,
  or_bits, ensure_public_key_secret, ensure_identity_secret, write_private_key_file, cluster_key,
  with_defaults, ensure_gateway_signing_key,
}
use agentland.Gateway.Keys.Cluster.{Secrets, IsCluster, Holds, Holds-and_then, of_bool-Holds}
use agentland.Gateway.Keys.Agreement.{
  IsIdentity, ensure_public_key_secret-Holds, ensure_identity_secret-Holds,
}

inside-Holds :
    {A S : Type 0} (P : A → S → Type 0) (b : Bool) (x y : Outcome A × S)
    → b ≡ true
    → Holds P y
    → Holds P (if not b then x else y)
inside-Holds P true x y e h = h
inside-Holds P false x y e h = absurd (ground (arith, e))

client-Holds :
    {A S : Type 0} (P : A → S → Type 0) (b : Bool) (s : S) (x : Outcome A × S)
    → Holds P x
    → Holds P (if not b then (err, s) else x)
client-Holds P true s x h = h
client-Holds P false s x h = tt

module _ (env : Env) (secrets : Secrets env) (files : env.State → Bytes → Option Bytes)
    (is : IsCluster env secrets files) where
  -- One pair of keys is in the identity secret, its public key in the public secret, its private key
  -- in the file.
  pub record IsInstalled (c : BootstrapConfig) (path : Bytes) (s : env.State) : Type 0 where
    pub private_pem : Bytes
    pub public_pem : Bytes
    pub identity :
        IsIdentity env secrets files is c.identity_secret_namespace c.identity_secret_name
          private_pem public_pem s
    pub content : Data
    pub published : secrets s c.public_secret_namespace c.public_secret_name ≡ some content
    pub public_held : or_empty (content public_key_data_key) ≡ public_pem
    pub cached : files s path ≡ some private_pem
    pub path_given : path ≡ c.local_private_key_path

  write_private_key_file-Holds :
      (path pem : Bytes) (s : env.State)
      → Holds
          (λ (_ : Unit {0}) s'. (secrets s' ≡ secrets s) × (files s' path ≡ some pem))
          (write_private_key_file env path pem s)
  unfolding write_private_key_file
  write_private_key_file-Holds path pem s =
      Holds-and_then (λ _ s'. secrets s' ≡ secrets s) _
        (of_bool (env.mkdir_all (dir path) (7 * 64) s)) _
        (of_bool-Holds _ (env.mkdir_all (dir path) (7 * 64) s)
          (λ _. is.mkdir_keeps (dir path) (7 * 64) s))
        (λ _ s1 e. of_bool-Holds _ (env.write_file path pem (6 * 64) s1) (λ done.
          (is.write_keeps path pem (6 * 64) s1 ∙ e, is.write_sets path pem (6 * 64) s1 done)))

  -- The identity's secret is not touched where another is set, or none.
  IsIdentity-kept :
      (ns name private_pem public_pem : Bytes) (a b : env.State)
      → secrets b ns name ≡ secrets a ns name
      → IsIdentity env secrets files is ns name private_pem public_pem a
      → IsIdentity env secrets files is ns name private_pem public_pem b
  IsIdentity-kept ns name private_pem public_pem a b e id = record {
    content = id.content;
    held = e ∙ id.held;
    private_held = id.private_held;
    public_held = id.public_held;
    derived = id.derived;
  }

  module _ (c : BootstrapConfig)
      (apart : ¬ (
        (c.public_secret_namespace ≡ c.identity_secret_namespace)
        × (c.public_secret_name ≡ c.identity_secret_name))) where
    cached-Holds :
        (private_pem public_pem : Bytes) (s : env.State)
        → IsIdentity env secrets files is c.identity_secret_namespace c.identity_secret_name
            private_pem public_pem s
        → (d : Data) × (secrets s c.public_secret_namespace c.public_secret_name ≡ some d)
          × (or_empty (d public_key_data_key) ≡ public_pem)
        → Holds (IsInstalled c) (
            and_then
              (write_private_key_file env c.local_private_key_path private_pem s)
              (λ _ s'. (ok c.local_private_key_path, s')))
    cached-Holds private_pem public_pem s id (d, held, same) =
        Holds-and_then _ (IsInstalled c)
          (write_private_key_file env c.local_private_key_path private_pem s) _
          (write_private_key_file-Holds c.local_private_key_path private_pem s)
          (λ _ s' (kept, written). record {
            private_pem = private_pem;
            public_pem = public_pem;
            identity =
                IsIdentity-kept c.identity_secret_namespace c.identity_secret_name private_pem
                  public_pem s s'
                  (ap
                    (λ (x : Bytes → Bytes → Option Data).
                      x c.identity_secret_namespace c.identity_secret_name)
                    kept)
                  id;
            content = d;
            published =
                ap
                  (λ (x : Bytes → Bytes → Option Data).
                    x c.public_secret_namespace c.public_secret_name)
                  kept
                ∙ held;
            public_held = same;
            cached = written;
            path_given = refl;
          })

    cluster_key-Holds :
        (fuel : ℕ) (s : env.State) → Holds (IsInstalled c) (cluster_key env fuel c s)
    cluster_key-Holds fuel s =
        Holds-and_then _ (IsInstalled c)
          (ensure_identity_secret env fuel c.identity_secret_namespace c.identity_secret_name
            (or_bits (positive c.rsa_key_bits)) s)
          _
          (ensure_identity_secret-Holds env secrets files is fuel c.identity_secret_namespace
            c.identity_secret_name (or_bits (positive c.rsa_key_bits)) s)
          (λ (private_pem, public_pem) s1 id.
            Holds-and_then _ (IsInstalled c)
              (ensure_public_key_secret env fuel c.public_secret_namespace c.public_secret_name
                public_pem s1)
              _
              (ensure_public_key_secret-Holds env secrets files is fuel c.public_secret_namespace
                c.public_secret_name public_pem s1)
              (λ _ s2 (d, set, same).
                cached-Holds private_pem public_pem s2
                  (IsIdentity-kept c.identity_secret_namespace c.identity_secret_name private_pem
                    public_pem s1 s2
                    (set.elsewhere c.identity_secret_namespace c.identity_secret_name apart) id)
                  (d, set.here, same)))

  -- In a cluster, where the two secrets of the configuration are not one: when the gateway has its
  -- key, the identity secret holds a pair of keys, the public secret its public key, and the file at
  -- the path that is given its private key; also where other gateways create the secrets at the same
  -- time.
  pub ensure_gateway_signing_key-IsInstalled :
      (fuel : ℕ) (cfg : BootstrapConfig) (s : env.State)
      → env.in_cluster ≡ true
      → ¬ (
          ((with_defaults env cfg s).public_secret_namespace
            ≡ (with_defaults env cfg s).identity_secret_namespace)
          × ((with_defaults env cfg s).public_secret_name
              ≡ (with_defaults env cfg s).identity_secret_name))
      → Holds (IsInstalled (with_defaults env cfg s)) (ensure_gateway_signing_key env fuel cfg s)
  unfolding ensure_gateway_signing_key
  ensure_gateway_signing_key-IsInstalled fuel cfg s inside apart =
      let c : BootstrapConfig = with_defaults env cfg s in
      inside-Holds (IsInstalled c) env.in_cluster _ _ inside (
        client-Holds (IsInstalled c) env.has_client s (cluster_key env fuel c s)
          (cluster_key-Holds c apart fuel s))
