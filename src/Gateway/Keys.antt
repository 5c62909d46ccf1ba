-- ===== src/Gateway/Keys.antt =====
-- The key with which the gateway signs tokens (pkg/gateway/pkgs/sandboxjwt/keystore.go): it is found or
-- made, its public half is put where sandboxes read it, and it is cached in a file. Secrets, files, RSA,
-- x509 and PEM are arguments, the secrets and files with a state. Where another gateway has made a
-- secret in between, the code starts again; it does so on fuel here, and says `again` where that is used
-- up.
pub mod Cluster
pub mod Agreement
pub mod Installed
pub mod Retries
mod Tests
use agentland.Base.{
  ℕ, zero, suc, ◌*◌, Bool, true, false, not, Option, none, some, List, [], ◌∷◌, ◌++◌, if◌then◌else◌,
}
use agentland.Text.{Bytes, bytes, bytes_eq, trim_space, ℤ}
use agentland.Token.{is_empty, positive}
use agentland.FilePath.{dir}

abbrev pub private_key_data_key : Bytes
private_key_data_key = bytes "private.pem"

abbrev pub public_key_data_key : Bytes
public_key_data_key = bytes "public.pem"

abbrev pub service_account_namespace_path : Bytes
service_account_namespace_path = bytes "/var/run/secrets/kubernetes.io/serviceaccount/namespace"

pub record BootstrapConfig : Type 0 where
  pub identity_secret_name : Bytes
  pub identity_secret_namespace : Bytes
  pub public_secret_name : Bytes
  pub public_secret_namespace : Bytes
  pub local_private_key_path : Bytes
  pub rsa_key_bits : ℤ

-- The data of a secret.
abbrev pub Data : Type 0
Data = Bytes → Option Bytes

pub data Found : Type 0 where
  found : Data → Found
  not_found get_failed : Found

pub data Created : Type 0 where
  created already_exists create_failed : Created

-- `parse_pkcs8` yields no key where the key is not RSA.
pub record Env : Type 1 where
  pub State : Type 0
  pub in_cluster : Bool
  pub has_client : Bool
  pub getenv : Bytes → Bytes
  pub read_file : Bytes → State → Option Bytes
  pub mkdir_all : Bytes → ℕ → State → Bool × State
  pub write_file : Bytes → Bytes → ℕ → State → Bool × State
  pub get_secret : Bytes → Bytes → State → Found × State
  pub update_secret : Bytes → Bytes → Data → State → Bool × State
  pub create_secret : Bytes → Bytes → Data → State → Created × State
  pub PrivateKey : Type 0
  pub generate_key : ℕ → State → Option PrivateKey × State
  pub marshal_private : PrivateKey → Option Bytes
  pub marshal_public : PrivateKey → Option Bytes
  pub encode_pem : Bytes → Bytes → Bytes
  pub decode_pem : Bytes → Option Bytes × Bytes
  pub parse_pkcs1 : Bytes → Option PrivateKey
  pub parse_pkcs8 : Bytes → Option (Option PrivateKey)

pub data Outcome {ℓ} (A : Type ℓ) : Type ℓ where
  ok : A → Outcome A
  err again : Outcome A

abbrev pub and_then : {A B S : Type 0} → Outcome A × S → (A → S → Outcome B × S) → Outcome B × S
and_then (ok a, s) f = f a s
and_then (err, s) f = (err, s)
and_then (again, s) f = (again, s)

abbrev pub of_bool : {S : Type 0} → Bool × S → Outcome (Unit {0}) × S
of_bool (true, s) = (ok tt, s)
of_bool (false, s) = (err, s)

abbrev pub of_option : {A S : Type 0} → Option A → S → Outcome A × S
of_option (some a) s = (ok a, s)
of_option none s = (err, s)

abbrev pub or_default : Bytes → Bytes → Bytes
or_default s default = if is_empty (trim_space s) then default else s

abbrev pub or_empty : Option Bytes → Bytes
or_empty none = []
or_empty (some s) = s

abbrev pub or_bits : Option ℕ → ℕ
or_bits none = 2048
or_bits (some n) = n

-- A public key that is put into the data.
abbrev pub with_public : Bytes → Data → Data
with_public pem d k = if bytes_eq public_key_data_key k then some pem else d k

abbrev pub key_pair : Bytes → Bytes → Data
key_pair private_pem public_pem k =
    if bytes_eq private_key_data_key k
    then some private_pem
    else with_public public_pem (λ j. none) k

module _ (env : Env) where
  open env use {
    State, getenv, read_file, mkdir_all, write_file, get_secret, update_secret, create_secret,
    PrivateKey, generate_key, marshal_private, marshal_public, encode_pem, decode_pem, parse_pkcs1,
    parse_pkcs8,
  }

  abbrev pub file_namespace : Bytes → Option Bytes → Bytes
  file_namespace default none = default
  file_namespace default (some content) =
      let ns = trim_space content in if is_empty ns then default else ns

  unfoldable pub current_namespace_or_default : Bytes → State → Bytes
  unfolding trim_space
  current_namespace_or_default default s =
      let ns = trim_space (getenv (bytes "AL_GATEWAY_NAMESPACE")) in
      if is_empty ns
      then file_namespace default (read_file service_account_namespace_path s)
      else ns

  unfoldable pub with_defaults : BootstrapConfig → State → BootstrapConfig
  unfolding trim_space current_namespace_or_default
  with_defaults cfg s = record cfg {
    identity_secret_name =
        or_default cfg.identity_secret_name (bytes "gateway-sandbox-jwt-identity");
    identity_secret_namespace =
        or_default cfg.identity_secret_namespace
          (current_namespace_or_default (bytes "agentland-system") s);
    public_secret_name = or_default cfg.public_secret_name (bytes "gateway-sandbox-jwt-public-key");
    public_secret_namespace = or_default cfg.public_secret_namespace (bytes "agentland-sandboxes");
    local_private_key_path =
        or_default cfg.local_private_key_path (bytes "/tmp/agentland/jwt/private.pem");
  }

  abbrev pub or_pkcs8 : Option (Option PrivateKey) → Option PrivateKey
  or_pkcs8 none = none
  or_pkcs8 (some key) = key

  abbrev pub parsed_der : Bytes → Option PrivateKey → Option PrivateKey
  parsed_der der (some key) = some key
  parsed_der der none = or_pkcs8 (parse_pkcs8 der)

  abbrev pub parse_block : Option Bytes × Bytes → Option PrivateKey
  parse_block (none, rest) = none
  parse_block (some der, rest) =
      if not (is_empty (trim_space rest)) then none else parsed_der der (parse_pkcs1 der)

  unfoldable pub parse_rsa_private_key_pem : Bytes → Option PrivateKey
  unfolding trim_space
  parse_rsa_private_key_pem content = parse_block (decode_pem content)

  abbrev pub pem_of : Bytes → Option Bytes → Option Bytes
  pem_of kind none = none
  pem_of kind (some der) = some (encode_pem kind der)

  abbrev pub public_of : Option PrivateKey → Option Bytes
  public_of none = none
  public_of (some key) = pem_of (bytes "PUBLIC KEY") (marshal_public key)

  unfoldable pub public_key_pem_from_private_pem : Bytes → Option Bytes
  unfolding parse_rsa_private_key_pem
  public_key_pem_from_private_pem pem = public_of (parse_rsa_private_key_pem pem)

  abbrev pub private_of : Option PrivateKey × State → Outcome Bytes × State
  private_of (none, s) = (err, s)
  private_of (some key, s) = of_option (pem_of (bytes "PRIVATE KEY") (marshal_private key)) s

  unfoldable pub generate_private_key_pem : ℕ → State → Outcome Bytes × State
  generate_private_key_pem bits s = private_of (generate_key bits s)

  unfoldable pub generate_rsa_key_pair_pem : ℕ → State → Outcome (Bytes × Bytes) × State
  unfolding generate_private_key_pem public_key_pem_from_private_pem
  generate_rsa_key_pair_pem bits s = and_then (generate_private_key_pem bits s) λ private_pem s1.
      and_then (of_option (public_key_pem_from_private_pem private_pem) s1)
        λ public_pem s2. (ok (private_pem, public_pem), s2)

  unfoldable pub write_private_key_file : Bytes → Bytes → State → Outcome (Unit {0}) × State
  unfolding dir
  write_private_key_file path pem s =
      and_then (of_bool (mkdir_all (dir path) (7 * 64) s))
        λ _ s1. of_bool (write_file path pem (6 * 64) s1)

  abbrev pub made :
      {A : Type 0} → A → (State → Outcome A × State) → Created × State → Outcome A × State
  made a retry (created, s) = (ok a, s)
  made a retry (already_exists, s) = retry s
  made a retry (create_failed, s) = (err, s)

  -- The public key in the data of a secret is this one, or is made it.
  abbrev pub public_updated : Bytes → Bytes → Data → Bytes → State → Outcome (Unit {0}) × State
  public_updated ns name d pem s =
      if bytes_eq (or_empty (d public_key_data_key)) pem
      then (ok tt, s)
      else of_bool (update_secret ns name (with_public pem d) s)

  abbrev pub public_found :
      Bytes
      → Bytes
      → Bytes
      → (State → Outcome (Unit {0}) × State)
      → Found × State
      → Outcome (Unit {0}) × State
  public_found ns name pem retry (found d, s) = public_updated ns name d pem s
  public_found ns name pem retry (get_failed, s) = (err, s)
  public_found ns name pem retry (not_found, s) =
      made tt retry (create_secret ns name (with_public pem (λ k. none)) s)

  unfoldable pub ensure_public_key_secret :
      ℕ → Bytes → Bytes → Bytes → State → Outcome (Unit {0}) × State
  ensure_public_key_secret zero ns name pem s = (again, s)
  ensure_public_key_secret (suc n) ns name pem s =
      public_found ns name pem (ensure_public_key_secret n ns name pem) (get_secret ns name s)

  -- The pair of a private key that a secret holds.
  abbrev pub identity_held : Bytes → Bytes → Data → Bytes → State → Outcome (Bytes × Bytes) × State
  identity_held ns name d private_pem s =
      and_then (of_option (public_key_pem_from_private_pem private_pem) s) λ public_pem s1.
        and_then (public_updated ns name d public_pem s1) λ _ s2. (ok (private_pem, public_pem), s2)

  abbrev pub identity_private :
      Bytes → Bytes → Data → Option Bytes → State → Outcome (Bytes × Bytes) × State
  identity_private ns name d none s = (err, s)
  identity_private ns name d (some []) s = (err, s)
  identity_private ns name d (some (b ∷ pem)) s = identity_held ns name d (b ∷ pem) s

  abbrev pub identity_found :
      Bytes
      → Bytes
      → ℕ
      → (State → Outcome (Bytes × Bytes) × State)
      → Found × State
      → Outcome (Bytes × Bytes) × State
  identity_found ns name bits retry (found d, s) =
      identity_private ns name d (d private_key_data_key) s
  identity_found ns name bits retry (get_failed, s) = (err, s)
  identity_found ns name bits retry (not_found, s) =
      and_then (generate_rsa_key_pair_pem bits s) λ (private_pem, public_pem) s1.
        made (private_pem, public_pem) retry
          (create_secret ns name (key_pair private_pem public_pem) s1)

  unfoldable pub ensure_identity_secret :
      ℕ → Bytes → Bytes → ℕ → State → Outcome (Bytes × Bytes) × State
  unfolding generate_rsa_key_pair_pem public_key_pem_from_private_pem
  ensure_identity_secret zero ns name bits s = (again, s)
  ensure_identity_secret (suc n) ns name bits s =
      identity_found ns name bits (ensure_identity_secret n ns name bits) (get_secret ns name s)

  abbrev pub local_fresh : BootstrapConfig → State → Outcome Bytes × State
  local_fresh c s =
      and_then (generate_private_key_pem (or_bits (positive c.rsa_key_bits)) s) λ pem s1.
        and_then (write_private_key_file c.local_private_key_path pem s1)
          λ _ s2. (ok c.local_private_key_path, s2)

  abbrev pub local_parsed : BootstrapConfig → Option PrivateKey → State → Outcome Bytes × State
  local_parsed c (some key) s = (ok c.local_private_key_path, s)
  local_parsed c none s = local_fresh c s

  -- Outside a cluster.
  abbrev pub local_key : BootstrapConfig → Option Bytes → State → Outcome Bytes × State
  local_key c none s = local_fresh c s
  local_key c (some content) s = local_parsed c (parse_rsa_private_key_pem content) s

  abbrev pub cluster_key : ℕ → BootstrapConfig → State → Outcome Bytes × State
  cluster_key fuel c s =
      and_then
        (ensure_identity_secret fuel c.identity_secret_namespace c.identity_secret_name
          (or_bits (positive c.rsa_key_bits)) s)
        λ (private_pem, public_pem) s1.
          and_then
            (ensure_public_key_secret fuel c.public_secret_namespace c.public_secret_name public_pem
              s1)
            λ _ s2.
              and_then (write_private_key_file c.local_private_key_path private_pem s2)
                λ _ s3. (ok c.local_private_key_path, s3)

  unfoldable pub ensure_gateway_signing_key : ℕ → BootstrapConfig → State → Outcome Bytes × State
  unfolding with_defaults ensure_identity_secret ensure_public_key_secret write_private_key_file
      generate_private_key_pem parse_rsa_private_key_pem
  ensure_gateway_signing_key fuel cfg s =
      let c = with_defaults cfg s in
      if not env.in_cluster
      then local_key c (read_file c.local_private_key_path s) s
      else if not env.has_client
      then (err, s)
      else cluster_key fuel c s
