-- ===== src/Agentcore/Tests.antt =====
-- The theorems on the session service at concrete inputs.
use mathlib.Core.List.{Mem, flatten}
use agentland.Base.{ℕ, ◌||◌, Option, none, some, List, [], ◌∷◌, ◌≡◌, refl, map, All}
use agentland.Text.{Bytes, bytes}
use agentland.Agentcore.Collection.{
  Backend, Step, delete_cr, code_interpreter, agent_session, Failure, not_found, Log, collect,
  gc_once, candidates, contains,
}
use agentland.Agentcore.Collection.Candidates.{IsDistinct, candidates-IsDistinct}
use agentland.Agentcore.Collection.Rounds.{
  IsSafe, steps, collect-steps, collect-All, gc_once-IsSafe,
}

-- No session has an object of the second kind.
abbrev answers : Log → Step → Option Failure
answers log (delete_cr agent_session id) = some not_found
answers log step = none

abbrev backend : Backend
backend = record {
  list_inactive = λ _ _. some (bytes "s1" ∷ [] ∷ bytes "s2" ∷ []);
  list_expired = λ _ _. some (bytes "s2" ∷ bytes "s3" ∷ []);
  answer = answers;
}

abbrev ids : List Bytes
ids = bytes "s1" ∷ bytes "s2" ∷ []

test_gc_once :
    gc_once backend (λ xs. xs) 1000
    ≡ (some [], flatten (map (steps backend) (bytes "s1" ∷ bytes "s2" ∷ bytes "s3" ∷ [])))
unfolding gc_once flatten
test_gc_once = refl

gc_once-IsSafe_example : IsSafe backend [] (gc_once backend (λ xs. xs) 1000).1
gc_once-IsSafe_example = gc_once-IsSafe backend (λ xs. xs) 1000

test_rounds : (collect backend ids []).1 ≡ flatten (map (steps backend) ids)
unfolding collect
test_rounds = collect-steps backend ids [] refl

collect-All_example : All (λ id. Mem (delete_cr code_interpreter id) (collect backend ids []).1) ids
collect-All_example = collect-All backend ids []

test_candidates-IsDistinct :
    IsDistinct (candidates backend ids (bytes "s2" ∷ []))
    × ((c : ℕ) (s : Bytes)
        → contains (c ∷ s) (candidates backend ids (bytes "s2" ∷ []))
          ≡ (contains (c ∷ s) ids || contains (c ∷ s) (bytes "s2" ∷ [])))
test_candidates-IsDistinct = candidates-IsDistinct backend ids (bytes "s2" ∷ [])
