-- ===== src/Gateway/Keys/Cluster.antt =====
-- The cluster that the key is kept in, and what holds of a result that the code gives.
use agentland.Base.{ℕ, Bool, true, false, Option, none, some, ◌≡◌, refl}
use agentland.Text.{Bytes}
use agentland.Gateway.Keys.{
  Data, Found, found, not_found, get_failed, created, already_exists, Env, Outcome, ok, err, again,
  and_then, of_bool, of_option,
}

-- What the secrets of a state hold.
abbrev pub Secrets : Env → Type 0
Secrets env = env.State → Bytes → Bytes → Option Data

-- One secret has this data afterwards, and no other has changed.
pub record Sets (env : Env) (secrets : Secrets env) (ns name : Bytes) (d : Data)
    (before after : env.State) : Type 0 where
  pub here : secrets after ns name ≡ some d
  pub elsewhere :
      (ns' name' : Bytes)
      → ¬ ((ns ≡ ns') × (name ≡ name'))
      → secrets after ns' name' ≡ secrets before ns' name'

abbrev pub Reads : Found → Option Data → Type 0
Reads (found d) held = held ≡ some d
Reads not_found held = held ≡ none
Reads get_failed held = Unit {0}

-- `secrets` and `files` are what a state stands for. A secret that is there when it is to be created
-- may have been created by another just before.
pub record IsCluster (env : Env) (secrets : Secrets env) (files : env.State → Bytes → Option Bytes)
    : Type 0 where
  pub get_reads :
      (ns name : Bytes) (s : env.State) → Reads (env.get_secret ns name s).0 (secrets s ns name)
  pub get_keeps :
      (ns name : Bytes) (s : env.State) → secrets (env.get_secret ns name s).1 ≡ secrets s
  pub update_sets :
      (ns name : Bytes) (d : Data) (s : env.State)
      → (env.update_secret ns name d s).0 ≡ true
      → Sets env secrets ns name d s (env.update_secret ns name d s).1
  pub create_sets :
      (ns name : Bytes) (d : Data) (s : env.State)
      → (env.create_secret ns name d s).0 ≡ created
      → Sets env secrets ns name d s (env.create_secret ns name d s).1
  pub create_exists :
      (ns name : Bytes) (d : Data) (s : env.State)
      → (env.create_secret ns name d s).0 ≡ already_exists
      → (d' : Data) × Sets env secrets ns name d' s (env.create_secret ns name d s).1
  pub mkdir_keeps :
      (path : Bytes) (mode : ℕ) (s : env.State) → secrets (env.mkdir_all path mode s).1 ≡ secrets s
  pub write_keeps :
      (path content : Bytes) (mode : ℕ) (s : env.State)
      → secrets (env.write_file path content mode s).1 ≡ secrets s
  pub write_sets :
      (path content : Bytes) (mode : ℕ) (s : env.State)
      → (env.write_file path content mode s).0 ≡ true
      → files (env.write_file path content mode s).1 path ≡ some content

-- What holds of a result and of the state with it.
abbrev pub Holds : {A S : Type 0} → (A → S → Type 0) → Outcome A × S → Type 0
Holds P (ok a, s) = P a s
Holds P (err, s) = Unit {0}
Holds P (again, s) = Unit {0}

pub Holds-and_then :
    {A B S : Type 0} (P : A → S → Type 0) (Q : B → S → Type 0) (x : Outcome A × S)
    (f : A → S → Outcome B × S)
    → Holds P x
    → ((a : A) (s : S) → P a s → Holds Q (f a s))
    → Holds Q (and_then x f)
Holds-and_then P Q (ok a, s) f h k = k a s h
Holds-and_then P Q (err, s) f h k = tt
Holds-and_then P Q (again, s) f h k = tt

pub Holds-weaken :
    {A S : Type 0} (P Q : A → S → Type 0) (x : Outcome A × S)
    → ((a : A) (s : S) → P a s → Q a s)
    → Holds P x
    → Holds Q x
Holds-weaken P Q (ok a, s) f h = f a s h
Holds-weaken P Q (err, s) f h = tt
Holds-weaken P Q (again, s) f h = tt

pub Holds-any : {A S : Type 0} (x : Outcome A × S) → Holds (λ (_ : A) (_ : S). Unit {0}) x
Holds-any (ok a, s) = tt
Holds-any (err, s) = tt
Holds-any (again, s) = tt

pub of_bool-Holds :
    {S : Type 0} (P : S → Type 0) (x : Bool × S)
    → (x.0 ≡ true → P x.1)
    → Holds (λ (_ : Unit {0}) s. P s) (of_bool x)
of_bool-Holds P (true, s) h = h refl
of_bool-Holds P (false, s) h = tt

pub of_option-Holds :
    {A S : Type 0} (P : A → S → Type 0) (x : Option A) (s : S)
    → ((a : A) → x ≡ some a → P a s)
    → Holds P (of_option x s)
of_option-Holds P (some a) s h = h a refl
of_option-Holds P none s h = tt
