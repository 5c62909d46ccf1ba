-- ===== src/Agentcore/Service/Deciding.antt =====
-- What one event means for the wait for a session, in the terms of the cluster's objects.
use agentland.Base.{
  true, false, Option, none, some, List, [], ◌∷◌, ◌≡◌, ◌≢◌, ◌⊎◌, refl, arith, Bool-cases, inl, inr,
}
use agentland.Text.{Bytes, bytes, bytes_eq}
use agentland.Text.Search.{bytes_eq_refl, bytes_eq→≡}
use agentland.Agentcore.Service.{
  Condition, Status, status, closed, no_status, Event, ready, failure, Failure, channel_closed,
  provisioning_failed, first_condition, extract_condition, provisioning_error, running, has_failed,
  Decision, undecided, runs, fails, decide,
}

abbrev pub IsRunning : Status → Type 0
IsRunning s = (s.phase ≡ bytes "Running") × (s.pod_ip ≢ [])

-- The reason and message of the first condition of the type, of any where the type is empty; nothing
-- where there is none.
abbrev pub FirstOf : Bytes → List (Option Condition) → Bytes × Bytes → Type 0
FirstOf type [] p = p ≡ ([], [])
FirstOf type (none ∷ cs) p = FirstOf type cs p
FirstOf type (some c ∷ cs) p =
    ((type ≢ []) × (c.type ≢ type) × FirstOf type cs p)
    ⊎ (((type ≡ []) ⊎ (c.type ≡ type)) × (p ≡ (c.reason, c.message)))

abbrev pub IsCause : Bytes → Option (List (Option Condition)) → Bytes × Bytes → Type 0
IsCause type none p = p ≡ ([], [])
IsCause type (some cs) p = FirstOf type cs p

-- The provisioning has failed, for the cause that the conditions of this type give.
abbrev pub IsFailed : Status → Bytes → Failure → Type 0
IsFailed s type f =
    (s.phase ≡ bytes "Failed")
    × ((cause : Bytes × Bytes) × IsCause type s.conditions cause
        × (f ≡ provisioning_failed cause.0 cause.1))

abbrev pub Fails : Event → Failure → Type 0
Fails (ready closed) f = f ≡ channel_closed
Fails (failure closed) f = f ≡ channel_closed
Fails (ready no_status) f = ⊥
Fails (failure no_status) f = ⊥
Fails (ready (status s)) f = IsFailed s [] f
Fails (failure (status s)) f = IsFailed s (bytes "Accepted") f

abbrev pub IsUndecided : Event → Type 0
IsUndecided (ready closed) = ⊥
IsUndecided (failure closed) = ⊥
IsUndecided (ready no_status) = Unit
IsUndecided (failure no_status) = Unit
IsUndecided (ready (status s)) = ¬ IsRunning s × (s.phase ≢ bytes "Failed")
IsUndecided (failure (status s)) = s.phase ≢ bytes "Failed"

-- What a decision says of its event.
abbrev pub Means : Event → Decision → Type 0
Means e undecided = IsUndecided e
Means e (runs pod_ip) = (s : Status) × (e ≡ ready (status s)) × IsRunning s × (s.pod_ip ≡ pod_ip)
Means e (fails f) = Fails e f

bytes-ne : (a b : Bytes) → bytes_eq a b ≡ false → a ≢ b
bytes-ne a b h e =
    let same : bytes_eq a b ≡ true = rw e (bytes_eq_refl b) in absurd (ground (arith, h, same))

first_condition-FirstOf :
    (type : Bytes) (cs : List (Option Condition)) → FirstOf type cs (first_condition type cs)
unfolding first_condition
first_condition-FirstOf type [] = refl
first_condition-FirstOf type (none ∷ cs) = first_condition-FirstOf type cs
first_condition-FirstOf type (some c ∷ cs) = elim (Bool-cases (bytes_eq type [])) [
  | inl e ↦ rw e (inr (inl (bytes_eq→≡ type [] e), refl))
  | inr e ↦ elim (Bool-cases (bytes_eq c.type type)) [
    | inl f ↦ rw (e, f) (inr (inr (bytes_eq→≡ c.type type f), refl))
    | inr f ↦
        rw (e, f)
          (inl (bytes-ne type [] e, bytes-ne c.type type f, first_condition-FirstOf type cs))
  ]
]

extract_condition-IsCause :
    (type : Bytes) (cs : Option (List (Option Condition)))
    → IsCause type cs (extract_condition cs type)
extract_condition-IsCause type none = refl
extract_condition-IsCause type (some cs) = first_condition-FirstOf type cs

provisioning_error-IsFailed :
    (s : Status) (type : Bytes) → has_failed s ≡ true → IsFailed s type (provisioning_error s type)
unfolding provisioning_error
provisioning_error-IsFailed s type h = (
  bytes_eq→≡ s.phase (bytes "Failed") h,
  (extract_condition s.conditions type, extract_condition-IsCause type s.conditions, refl),
)

running-IsRunning : (s : Status) → running s ≡ true → IsRunning s
running-IsRunning s h = elim (Bool-cases (bytes_eq s.phase (bytes "Running"))) [
  | inr e ↦ let no : false ≡ true = rw e at h in absurd (ground (arith, no))
  | inl e ↦ elim (Bool-cases (bytes_eq s.pod_ip [])) [
    | inl f ↦ let no : false ≡ true = rw (e, f) at h in absurd (ground (arith, no))
    | inr f ↦ (bytes_eq→≡ s.phase (bytes "Running") e, bytes-ne s.pod_ip [] f)
  ]
]

not_running : (s : Status) → running s ≡ false → ¬ IsRunning s
not_running s h (phase, address) = elim (Bool-cases (bytes_eq s.pod_ip [])) [
  | inl f ↦ absurd (address (bytes_eq→≡ s.pod_ip [] f))
  | inr f ↦
      let here : bytes_eq s.phase (bytes "Running") ≡ true =
        rw phase (bytes_eq_refl (bytes "Running")) in
      let no : true ≡ false = rw (here, f) at h in absurd (ground (arith, no))
]

-- Every decision is right about its event.
pub decide-Means : (e : Event) → Means e (decide e)
decide-Means (ready closed) = refl
decide-Means (failure closed) = refl
decide-Means (ready no_status) = tt
decide-Means (failure no_status) = tt
decide-Means (ready (status s)) = elim (Bool-cases (running s)) [
  | inl e ↦ rw e (s, refl, running-IsRunning s e, refl)
  | inr e ↦ elim (Bool-cases (has_failed s)) [
    | inl f ↦ rw (e, f) (provisioning_error-IsFailed s [] f)
    | inr f ↦ rw (e, f) (not_running s e, bytes-ne s.phase (bytes "Failed") f)
  ]
]
decide-Means (failure (status s)) = elim (Bool-cases (has_failed s)) [
  | inl f ↦ rw f (provisioning_error-IsFailed s (bytes "Accepted") f)
  | inr f ↦ rw f (bytes-ne s.phase (bytes "Failed") f)
]
