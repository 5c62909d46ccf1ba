-- ===== src/Gateway/Keys/Tests.antt =====
-- The theorems on the gateway's key at concrete inputs. The secrets and the files of the tests are
-- functions; a key is a number.
use agentland.Base.{
  ℕ, suc, Bool, true, false, ◌&&◌, Option, none, some, [], ◌∷◌, ◌≡◌, refl, arith, Bool-cases, inl,
  inr, if◌then◌else◌,
}
use agentland.Text.{Bytes, bytes, bytes_eq, pos, trim_space}
use agentland.Text.Search.{bytes_eq→≡, bytes_eq_refl}
use agentland.Gateway.Keys.{
  Data, BootstrapConfig, Found, found, not_found, Created, created, already_exists, Env, Outcome,
  ok, with_defaults, current_namespace_or_default, ensure_gateway_signing_key,
  ensure_identity_secret, ensure_public_key_secret, generate_rsa_key_pair_pem,
  generate_private_key_pem, public_key_pem_from_private_pem, parse_rsa_private_key_pem,
  write_private_key_file,
}
use agentland.Gateway.Keys.Cluster.{Sets, Reads, IsCluster, Holds}
use agentland.Gateway.Keys.Installed.{IsInstalled, ensure_gateway_signing_key-IsInstalled}
use agentland.Gateway.Keys.Retries.{Ends, ensure_gateway_signing_key-Ends}

record Store : Type 0 where
  secrets : Bytes → Bytes → Option Data
  files : Bytes → Option Bytes

abbrev put_secret :
    Bytes → Bytes → Data → (Bytes → Bytes → Option Data) → Bytes → Bytes → Option Data
put_secret ns name d f ns' name' =
    if bytes_eq ns ns' && bytes_eq name name' then some d else f ns' name'

abbrev put_file : Bytes → Bytes → (Bytes → Option Bytes) → Bytes → Option Bytes
put_file path content f path' = if bytes_eq path path' then some content else f path'

abbrev found_of : Option Data → Found
found_of none = not_found
found_of (some d) = found d

abbrev stored : Bytes → Bytes → Data → Store → Store
stored ns name d s = record s { secrets = put_secret ns name d s.secrets }

abbrev create_in : Bytes → Bytes → Data → Store → Option Data → Created × Store
create_in ns name d s none = (created, stored ns name d s)
create_in ns name d s (some old) = (already_exists, s)

abbrev env : Env
env = record {
  State = Store;
  in_cluster = true;
  has_client = true;
  getenv = λ k. [];
  read_file = λ path s. s.files path;
  mkdir_all = λ path mode s. (true, s);
  write_file = λ path content mode s. (true, record s { files = put_file path content s.files });
  get_secret = λ ns name s. (found_of (s.secrets ns name), s);
  update_secret = λ ns name d s. (true, stored ns name d s);
  create_secret = λ ns name d s. create_in ns name d s (s.secrets ns name);
  PrivateKey = ℕ;
  generate_key = λ bits s. (some bits, s);
  marshal_private = λ key. some (key ∷ []);
  marshal_public = λ key. some (suc key ∷ []);
  encode_pem = λ kind der. der;
  decode_pem = λ pem. (some pem, []);
  parse_pkcs1 = λ der. none;
  parse_pkcs8 = λ der. some (some 2048);
}

both_true : (a b : Bool) → a && b ≡ true → (a ≡ true) × (b ≡ true)
both_true true true h = (refl, refl)
both_true true false h = absurd (ground (arith, h))
both_true false b h = absurd (ground (arith, h))

stored-Sets :
    (ns name : Bytes) (d : Data) (s : Store)
    → Sets env (λ x. x.secrets) ns name d s (stored ns name d s)
stored-Sets ns name d s = record {
  here = rw (bytes_eq_refl ns, bytes_eq_refl name) refl;
  elsewhere = λ ns' name' n. elim (Bool-cases (bytes_eq ns ns' && bytes_eq name name')) [
    | inl e ↦
        let (a, b) = both_true (bytes_eq ns ns') (bytes_eq name name') e in
        absurd (n (bytes_eq→≡ ns ns' a, bytes_eq→≡ name name' b))
    | inr e ↦ rw e refl
  ];
}

created-Sets :
    (ns name : Bytes) (d : Data) (s : Store) (old : Option Data)
    → (create_in ns name d s old).0 ≡ created
    → Sets env (λ x. x.secrets) ns name d s (create_in ns name d s old).1
created-Sets ns name d s none e = stored-Sets ns name d s
created-Sets ns name d s (some old) e = absurd (ground (arith, e))

exists-Sets :
    (ns name : Bytes) (d : Data) (s : Store) (old : Option Data)
    → s.secrets ns name ≡ old
    → (create_in ns name d s old).0 ≡ already_exists
    → (d' : Data) × Sets env (λ x. x.secrets) ns name d' s (create_in ns name d s old).1
exists-Sets ns name d s none held e = absurd (ground (arith, e))
exists-Sets ns name d s (some old) held e =
    (old, record { here = held; elsewhere = λ ns' name' n. refl })

found_of-Reads : (o : Option Data) → Reads (found_of o) o
found_of-Reads none = refl
found_of-Reads (some d) = refl

env-IsCluster : IsCluster env (λ s. s.secrets) (λ s. s.files)
env-IsCluster = record {
  get_reads = λ ns name s. found_of-Reads (s.secrets ns name);
  get_keeps = λ ns name s. refl;
  update_sets = λ ns name d s e. stored-Sets ns name d s;
  create_sets = λ ns name d s e. created-Sets ns name d s (s.secrets ns name) e;
  create_exists = λ ns name d s e. exists-Sets ns name d s (s.secrets ns name) refl e;
  mkdir_keeps = λ path mode s. refl;
  write_keeps = λ path content mode s. refl;
  write_sets = λ path content mode s e. rw (bytes_eq_refl path) refl;
}

abbrev empty : Store
empty = record { secrets = λ ns name. none; files = λ path. none }

abbrev config : BootstrapConfig
config = record {
  identity_secret_name = [];
  identity_secret_namespace = [];
  public_secret_name = [];
  public_secret_namespace = [];
  local_private_key_path = bytes "/k";
  rsa_key_bits = pos 0;
}

abbrev result : Outcome Bytes × Store
result = ensure_gateway_signing_key env 1 config empty

test_first_run : (result.0 ≡ ok (bytes "/k")) × (result.1.files (bytes "/k") ≡ some (2048 ∷ []))
unfolding ensure_gateway_signing_key with_defaults current_namespace_or_default
    ensure_identity_secret ensure_public_key_secret generate_rsa_key_pair_pem
    generate_private_key_pem public_key_pem_from_private_pem parse_rsa_private_key_pem
    write_private_key_file trim_space
test_first_run = (refl, refl)

secrets_apart : ¬ (
    ((with_defaults env config empty).public_secret_namespace
      ≡ (with_defaults env config empty).identity_secret_namespace)
    × ((with_defaults env config empty).public_secret_name
        ≡ (with_defaults env config empty).identity_secret_name))
unfolding with_defaults current_namespace_or_default trim_space
secrets_apart (same, h) = absurd (ground (arith, same))

ensure_gateway_signing_key-IsInstalled_example :
    Holds
      (IsInstalled env
        (λ s. s.secrets)
        (λ s. s.files)
        env-IsCluster
        (with_defaults env config empty))
      result
ensure_gateway_signing_key-IsInstalled_example =
    ensure_gateway_signing_key-IsInstalled env (λ s. s.secrets) (λ s. s.files) env-IsCluster 1
      config empty refl secrets_apart

ensure_gateway_signing_key-Ends_example : Ends (ensure_gateway_signing_key env 2 config empty)
ensure_gateway_signing_key-Ends_example =
    ensure_gateway_signing_key-Ends env (λ s. s.secrets) (λ s. s.files) env-IsCluster 0 config empty
