-- ===== src/Agentcore/Store/Concrete.antt =====
-- A Redis and an encoding that satisfy what the store asks of them. The Redis is the log of its
-- pipelines, which never fail, the last one first; it lists a member as often as it was added. A record
-- is encoded by the lengths of its texts.
use mathlib.Core.List.{
  Mem, mem-cons_self, mem-cons_of_mem, mem-append_left, mem-append_right, not-mem-nil, mem-cons,
  Mem-prop,
}
use mathlib.Core.Logic.Or
use agentland.Text.Search.{bytes_eq→≡}
use agentland.Base.{
  ℕ, zero, suc, ◌<◌, ◌≤◌, Bool, true, false, Option, none, some, List, [], ◌∷◌, ◌++◌, ◌≡◌, ◌⊎◌,
  refl, arith, leb, take, filter, length, All, All-take, subst, sym, ap, ◌∙◌, Bool-cases,
  Option-cases, inl, inr,
}
use agentland.Text.{Bytes, bytes_eq}
use agentland.Text.Prefixed.{put_text, get_text, get_text-put_text}
use agentland.Agentcore.Store.{Command, set, z_add, del, z_rem, Redis, Json, SandboxInfo}
use agentland.Agentcore.Store.Views.{
  Content, run, run_command, live, reply_of, is_some, IsRedis, IsJson,
}
use agentland.Agentcore.Store.Refinement.{Represents}

abbrev pub Pipelines : Type 0
Pipelines = List (ℕ × List Command)

abbrev pub empty : Content
empty = record { values = λ k. none; scores = λ k m. none }

abbrev pub content : Pipelines → Content
content [] = empty
content ((now, xs) ∷ s) = run now xs (content s)

abbrev pub added : List Command → List Bytes
added [] = []
added (set k v ttl ∷ xs) = added xs
added (z_add k m n ∷ xs) = m ∷ added xs
added (del k ∷ xs) = added xs
added (z_rem k m ∷ xs) = added xs

abbrev pub members : Pipelines → List Bytes
members [] = []
members ((now, xs) ∷ s) = added xs ++ members s

abbrev pub at_most : ℕ → Option ℕ → Bool
at_most limit none = false
at_most limit (some n) = leb n limit

-- A score has been set by a command.
command-added :
    (now : ℕ) (x : Command) (c : Content) (k m : Bytes) (n : ℕ)
    → (run_command now x c).scores k m ≡ some n
    → Mem m (added (x ∷ [])) ⊎ (c.scores k m ≡ some n)
unfolding run_command
command-added now (set j v ttl) c k m n h = elim (Bool-cases (bytes_eq j k)) [
  | inl e ↦ let no : Option.none ≡ some n = rw e at h in absurd (ground (arith, no))
  | inr e ↦ inr (rw e at h)
]
command-added now (del j) c k m n h = elim (Bool-cases (bytes_eq j k)) [
  | inl e ↦ let no : Option.none ≡ some n = rw e at h in absurd (ground (arith, no))
  | inr e ↦ inr (rw e at h)
]
command-added now (z_add j i l) c k m n h = elim (Bool-cases (bytes_eq i m)) [
  | inl f ↦ inl (subst (λ (x : Bytes). Mem m (x ∷ [])) (sym (bytes_eq→≡ i m f)) mem-cons_self)
  | inr f ↦ elim (Bool-cases (bytes_eq j k)) [
    | inl e ↦ inr (subst (λ (x : Bytes). c.scores x m ≡ some n) (bytes_eq→≡ j k e) (rw (e, f) at h))
    | inr e ↦ inr (rw e at h)
  ]
]
command-added now (z_rem j i) c k m n h = elim (Bool-cases (bytes_eq j k)) [
  | inr e ↦ inr (rw e at h)
  | inl e ↦ elim (Bool-cases (bytes_eq i m)) [
    | inl f ↦ let no : Option.none ≡ some n = rw (e, f) at h in absurd (ground (arith, no))
    | inr f ↦ inr (subst (λ (x : Bytes). c.scores x m ≡ some n) (bytes_eq→≡ j k e) (rw (e, f) at h))
  ]
]

added-one :
    (x : Command) (xs : List Command) (m : Bytes) → Mem m (added (x ∷ [])) → Mem m (added (x ∷ xs))
added-one (set j v ttl) xs m h = absurd (not-mem-nil h)
added-one (del j) xs m h = absurd (not-mem-nil h)
added-one (z_rem j i) xs m h = absurd (not-mem-nil h)
added-one (z_add j i l) xs m h = mem-append_left (added xs) h

added-rest :
    (x : Command) (xs : List Command) (m : Bytes) → Mem m (added xs) → Mem m (added (x ∷ xs))
added-rest (set j v ttl) xs m h = h
added-rest (del j) xs m h = h
added-rest (z_rem j i) xs m h = h
added-rest (z_add j i l) xs m h = mem-cons_of_mem i h

run-added :
    (now : ℕ) (xs : List Command) (c : Content) (k m : Bytes) (n : ℕ)
    → (run now xs c).scores k m ≡ some n
    → Mem m (added xs) ⊎ (c.scores k m ≡ some n)
unfolding run
run-added now [] c k m n h = inr h
run-added now (x ∷ xs) c k m n h = elim (run-added now xs (run_command now x c) k m n h) [
  | inl a ↦ inl (added-rest x xs m a)
  | inr e ↦ elim (command-added now x c k m n e) [
    | inl b ↦ inl (added-one x xs m b)
    | inr f ↦ inr f
  ]
]

content-members :
    (s : Pipelines) (k m : Bytes) (n : ℕ) → (content s).scores k m ≡ some n → Mem m (members s)
content-members [] k m n h = let no : Option.none ≡ some n = h in absurd (ground (arith, no))
content-members ((now, xs) ∷ s) k m n h = elim (run-added now xs (content s) k m n h) [
  | inl a ↦ mem-append_left (members s) a
  | inr e ↦ mem-append_right (added xs) (content-members s k m n e)
]

filter-each :
    (f : Bytes → Option ℕ) (limit : ℕ) (ms : List Bytes)
    → All (λ m. (n : ℕ) × (f m ≡ some n) × (n ≤ limit)) (filter (λ m. at_most limit (f m)) ms)
filter-each f limit [] = tt
filter-each f limit (m ∷ ms) = elim (Option-cases (f m)) [
  | inl e ↦ rw e (filter-each f limit ms)
  | inr (n, e) ↦ elim (Bool-cases (leb n limit)) [
    | inl l ↦ rw (e, l) ((n, e, ground (arith, l)), filter-each f limit ms)
    | inr l ↦ rw (e, l) (filter-each f limit ms)
  ]
]

filter-mem :
    (p : Bytes → Bool) (m : Bytes) → p m ≡ true → (ms : List Bytes) → Mem m ms → Mem m (filter p ms)
filter-mem p m h [] k = absurd (not-mem-nil k)
filter-mem p m h (x ∷ ms) k = elim (Bool-cases (p x)) [
  | inl e ↦ rw e (
      Or.elim Mem-prop (mem-cons.0 k)
        (λ same. subst (λ (y : Bytes). Mem m (y ∷ filter p ms)) same mem-cons_self)
        (λ later. mem-cons_of_mem x (filter-mem p m h ms later)))
  | inr e ↦ rw e (
      Or.elim Mem-prop (mem-cons.0 k) (λ same. absurd (ground (arith, e, h, ap p same)))
        (λ later. filter-mem p m h ms later))
]

take_all : (n : ℕ) (xs : List Bytes) → length (take n xs) < n → take n xs ≡ xs
take_all zero xs h = elim h [ ]
take_all (suc n) [] h = refl
take_all (suc n) (x ∷ xs) h = ap (λ ys. x ∷ ys) (take_all n xs (omega arith))

abbrev pub range : Bytes → ℕ → ℕ → Pipelines → List Bytes
range k limit count s =
    take count (filter (λ m. at_most limit ((content s).scores k m)) (members s))

abbrev pub logged : Redis
logged = record {
  State = Pipelines;
  exec = λ now xs s. (true, (now, xs) ∷ s);
  get = λ now k s. reply_of (live now ((content s).values k));
  exists = λ now k s. some (is_some (live now ((content s).values k)));
  z_range_by_score = λ k limit count s. some (range k limit count s);
}

some_eq : {A : Type 0} (a b : A) → Option.some a ≡ some b → a ≡ b
some_eq a b h = ground (arith, h)

range_all :
    (k : Bytes) (limit count : ℕ) (s : Pipelines) (m : Bytes) (n : ℕ)
    → length (range k limit count s) < count
    → (content s).scores k m ≡ some n
    → n ≤ limit
    → Mem m (range k limit count s)
range_all k limit count s m n few e le =
    let test = λ (j : Bytes). at_most limit ((content s).scores k j) in
    let is : at_most limit ((content s).scores k m) ≡ true = rw e (ground (arith, le)) in
    subst (Mem m) (sym (take_all count (filter test (members s)) few))
      (filter-mem test m is (members s) (content-members s k m n e))

pub logged-IsRedis : IsRedis logged content
logged-IsRedis = record {
  exec_run = λ now xs s h. refl;
  get_reads = λ now k s. inr refl;
  exists_reads = λ now k s b h. sym (some_eq (is_some (live now ((content s).values k))) b h);
  range_sound = λ k limit count s ids h.
      subst (All (λ m. (n : ℕ) × ((content s).scores k m ≡ some n) × (n ≤ limit)))
        (some_eq (range k limit count s) ids h)
        (All-take (λ m. (n : ℕ) × ((content s).scores k m ≡ some n) × (n ≤ limit)) count
          (filter (λ m. at_most limit ((content s).scores k m)) (members s))
          (filter-each ((content s).scores k) limit (members s)));
  range_complete = λ k limit count s ids h few m n e le.
      let same = some_eq (range k limit count s) ids h in
      subst (Mem m) same
        (range_all k limit count s m n (subst (λ xs. length xs < count) (sym same) few) e le);
}

unfoldable pub put_time : Option ℕ → Bytes → Bytes
put_time none r = 0 ∷ 0 ∷ r
put_time (some t) r = 1 ∷ t ∷ r

unfoldable pub get_time {ℓ} : {B : Type ℓ} → Bytes → (Option ℕ → Bytes → B) → B
get_time (zero ∷ t ∷ r) k = k none r
get_time (suc _ ∷ t ∷ r) k = k (some t) r
get_time _ k = k none []

get_time-put_time {ℓ} :
    {B : Type ℓ} (o : Option ℕ) (r : Bytes) (k : Option ℕ → Bytes → B)
    → get_time (put_time o r) k ≡ k o r
unfolding get_time put_time
get_time-put_time none r k = refl
get_time-put_time (some t) r k = refl

unfoldable pub write_info : SandboxInfo → Bytes
write_info i =
    put_text i.sandbox_id
      (put_text i.grpc_endpoint (put_time i.created_at (put_time i.expires_at [])))

unfoldable pub info : Bytes → Bytes → Option ℕ → Option ℕ → SandboxInfo
info id endpoint created expires = record {
  sandbox_id = id;
  grpc_endpoint = endpoint;
  created_at = created;
  expires_at = expires;
}

unfoldable pub read_info : Bytes → SandboxInfo
read_info s =
    get_text s
      (λ a r1. get_text r1 (λ b r2. get_time r2 (λ c r3. get_time r3 (λ d r4. info a b c d))))

read_info-write_info : (i : SandboxInfo) → read_info (write_info i) ≡ i
unfolding read_info write_info info
read_info-write_info i =
    get_text-put_text i.sandbox_id _ _
    ∙ get_text-put_text i.grpc_endpoint _ _
    ∙ get_time-put_time i.created_at _ _
    ∙ get_time-put_time i.expires_at _ _

abbrev pub prefixed : Json
prefixed = record { marshal = λ i. some (write_info i); unmarshal = λ s. some (read_info s) }

pub prefixed-IsJson : IsJson prefixed
prefixed-IsJson i v h =
    ap (λ (s : Bytes). Option.some (read_info s)) (sym (some_eq (write_info i) v h))
    ∙ ap some (read_info-write_info i)

pub none_yet : Represents prefixed (content []) (λ id. none)
none_yet id = (refl, refl, refl)
