-- ===== src/Controller/Claim/Adoption.antt =====
-- What an adoption changes for the selectors of the controllers, and what it hands over.
use text.Mathlib.TextPositions.{eq_refl}
use agentland.Base.{
  Bool, true, false, ◌&&◌, Option, none, some, [], ◌∷◌, ◌≡◌, refl, sym, subst, ◌∙◌, String, str_eq,
  eq_iff, Bool-cases, inl, inr,
}
use agentland.Cluster.{Pod, SandboxClaim, StringMap, lookup, remove, put}
use agentland.Controller.{Env, pool_label, profile_hash_label, sandbox_label, claim_uid_label}
use agentland.Controller.Claim.{adopted, selector}

-- A label selector of equalities, as the server reads it.
abbrev equals : Option String → String → Bool
equals none v = false
equals (some u) v = str_eq u v

pub matches : StringMap → StringMap → Bool
unfolding lookup
matches [] labels = true
matches ((k, v) ∷ wanted) labels = equals (lookup k labels) v && matches wanted labels

lookup-remove : (k : String) (m : StringMap) → lookup k (remove k m) ≡ none
unfolding lookup remove
lookup-remove k [] = refl
lookup-remove k ((j, v) ∷ m) = elim (Bool-cases (str_eq j k)) [
  | inl e ↦ rw e (lookup-remove k m)
  | inr e ↦ rw (e, e) (lookup-remove k m)
]

lookup-remove_other :
    (k j : String) (m : StringMap) → str_eq j k ≡ false → lookup k (remove j m) ≡ lookup k m
unfolding lookup remove
lookup-remove_other k j [] h = refl
lookup-remove_other k j ((i, v) ∷ m) h = elim (Bool-cases (str_eq i j)) [
  | inl e ↦
      let other = subst (λ s. str_eq s k ≡ false) (sym ((eq_iff i j).0 e)) h in
      rw (e, other) (lookup-remove_other k j m h)
  | inr e ↦ elim (Bool-cases (str_eq i k)) [
    | inl f ↦ rw (e, f) refl
    | inr f ↦ rw (e, f) (lookup-remove_other k j m h)
  ]
]

lookup-put_other :
    (k j v : String) (m : StringMap) → str_eq j k ≡ false → lookup k (put j v m) ≡ lookup k m
unfolding lookup put
lookup-put_other k j v m h = rw h (lookup-remove_other k j m h)

pub lookup-put : (k v : String) (m : StringMap) → lookup k (put k v m) ≡ some v
unfolding lookup put
lookup-put k v m = rw (eq_refl k) refl

module _ (env : Env) (claim : SandboxClaim) (pod : Pod) where
  adopted-profile : lookup profile_hash_label (adopted env claim pod).meta.labels ≡ none
  adopted-profile =
      lookup-put_other profile_hash_label claim_uid_label _ _ refl
      ∙ lookup-put_other profile_hash_label sandbox_label _ _ refl
      ∙ lookup-remove profile_hash_label (remove pool_label pod.meta.labels)

  adopted-pool : lookup pool_label (adopted env claim pod).meta.labels ≡ none
  adopted-pool =
      lookup-put_other pool_label claim_uid_label _ _ refl
      ∙ lookup-put_other pool_label sandbox_label _ _ refl
      ∙ lookup-remove_other pool_label profile_hash_label _ refl
      ∙ lookup-remove pool_label pod.meta.labels

  pub adopted-sandbox :
      lookup sandbox_label (adopted env claim pod).meta.labels
      ≡ some (env.name_hash claim.meta.name)
  adopted-sandbox =
      lookup-put_other sandbox_label claim_uid_label _ _ refl ∙ lookup-put sandbox_label _ _

  -- An adopted pod is out of reach of every claim's selection and of every pool, and the list of
  -- the sandbox with the claim's name finds it.
  pub adopted-matches :
      ((other : SandboxClaim)
        → matches (selector env other) (adopted env claim pod).meta.labels ≡ false)
      × ((hash : String)
          → matches ((pool_label, hash) ∷ []) (adopted env claim pod).meta.labels ≡ false)
      × (matches
            ((sandbox_label, env.name_hash claim.meta.name) ∷ [])
            (adopted env claim pod).meta.labels
          ≡ true)
  unfolding matches
  adopted-matches = (
    λ other. rw adopted-profile refl,
    λ hash. rw adopted-pool refl,
    rw adopted-sandbox (rw (eq_refl (env.name_hash claim.meta.name)) refl),
  )
