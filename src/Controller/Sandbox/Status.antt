-- ===== src/Controller/Sandbox/Status.antt =====
-- What a sandbox shows of its pod, and what a claim makes of that.
use agentland.Base.{
  Bool, true, false, not, ◌&&◌, ◌||◌, subst, Option, none, some, ◌≡◌, refl, arith, Bool-cases, inl,
  inr, String, str_eq, eq_iff,
}
use agentland.Cluster.{Pod, SandboxStatus}
use agentland.Controller.{is_pod_ready}
use agentland.Controller.Sandbox.{sandbox_status_from_pod}

-- A pod that can serve.
abbrev pub serves : Pod → Bool
serves pod =
    str_eq pod.status.phase "Running" && is_pod_ready pod && not (str_eq pod.status.pod_ip "")

-- The status has an address exactly when the phase is Running; then the pod runs, is ready, and
-- the address is the pod's own.
abbrev pub Shows : Option Pod → SandboxStatus → Type 0
Shows none status = (status.phase ≡ "Pending") × (status.pod_ip ≡ "")
Shows (some pod) status =
    (serves pod ≡ true → (status.phase ≡ "Running") × (status.pod_ip ≡ pod.status.pod_ip))
    × (serves pod ≡ false → (str_eq status.phase "Running" ≡ false) × (status.pod_ip ≡ ""))

ended_not_running :
    (phase : String)
    → (str_eq phase "Failed" || str_eq phase "Succeeded") ≡ true
    → str_eq phase "Running" ≡ false
ended_not_running phase h = elim (Bool-cases (str_eq phase "Running")) [
  | inl e ↦ absurd (
      ground (
        arith,
        subst (λ s. (str_eq s "Failed" || str_eq s "Succeeded") ≡ true)
            ((eq_iff phase "Running").0 e) h,
      ))
  | inr e ↦ e
]

pub status-Shows : (pod : Option Pod) → Shows pod (sandbox_status_from_pod pod)
unfolding sandbox_status_from_pod
status-Shows none = (refl, refl)
status-Shows (some pod) = elim (Bool-cases (serves pod)) [
  | inl e ↦ rw e (λ _. (refl, refl), λ h. absurd (ground (arith, h)))
  | inr e ↦ rw e (
    λ h. absurd (ground (arith, h)),
    λ _.
        elim (Bool-cases
          (str_eq pod.status.phase "Failed" || str_eq pod.status.phase "Succeeded")) [
            | inl f ↦ rw f (ended_not_running pod.status.phase f, refl)
            | inr f ↦ rw f (refl, refl)
          ],
  )
]
