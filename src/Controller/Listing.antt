-- ===== src/Controller/Listing.antt =====
-- What the server gives where a controller lists pods.
use mathlib.Core.List.{Mem, mem-cons_self, mem-cons_of_mem}
use agentland.Base.{Option-cases, inl, inr, List, [], ◌∷◌, ◌≡◌, refl, All, All-weaken, String}
use agentland.Cluster.{Pod, StringMap}
use agentland.Cluster.Calls.{list_pods, list, Log, Api}
use agentland.Controller.Loops.{OnOk}

-- A pod of a listing that the server gave.
abbrev pub IsListed : Api → String → StringMap → Pod → Type 0
IsListed api namespace labels pod = (log : Log) × Mem pod (api.pods_at log namespace labels)

pub members : (pods : List Pod) → All (λ p. Mem p pods) pods
members [] = tt
members (pod ∷ pods) = (
  mem-cons_self,
  All-weaken (λ p. Mem p pods) (λ p. Mem p (pod ∷ pods)) (λ p h. mem-cons_of_mem pod h) pods
      (members pods),
)

pub list-IsListed :
    (api : Api) (namespace : String) (labels : StringMap) (log : Log)
    → OnOk (All (IsListed api namespace labels)) (list api namespace labels log).0
list-IsListed api namespace labels log =
    elim (Option-cases (api.answer log (list_pods namespace labels))) [
      | inl e ↦ rw e (
          All-weaken (λ p. Mem p (api.pods_at log namespace labels)) (IsListed api namespace labels)
            (λ p h. (log, h)) (api.pods_at log namespace labels)
            (members (api.pods_at log namespace labels)))
      | inr (x, e) ↦ rw e tt
    ]

-- What a listing gives is what the server has for it at some time.
abbrev pub IsListing : Api → String → StringMap → List Pod → Type 0
IsListing api namespace labels pods = (log : Log) × (pods ≡ api.pods_at log namespace labels)

pub list-IsListing :
    (api : Api) (namespace : String) (labels : StringMap) (log : Log)
    → OnOk (IsListing api namespace labels) (list api namespace labels log).0
list-IsListing api namespace labels log =
    elim (Option-cases (api.answer log (list_pods namespace labels))) [
      | inl e ↦ rw e (log, refl)
      | inr (x, e) ↦ rw e tt
    ]
