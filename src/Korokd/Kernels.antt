-- ===== src/Korokd/Kernels.antt =====
-- The choice of a kernel for a language (`searchKernel` and `pickKernelBySpecLanguage` in
-- pkg/korokd/handlers/context_manager.go). Jupyter's answer is an argument: the map of kernelspecs as
-- the list of its entries in the order in which Go happens to visit them.
pub mod Choice
use agentland.Base.{
  Bool, true, false, not, ◌&&◌, ◌||◌, Option, none, some, List, [], ◌∷◌, if◌then◌else◌,
}
use agentland.Text.{Bytes, bytes, bytes_eq, trim_space, to_lower}

-- What is known of a kernel, `none` for a nil pointer: the language of its spec.
abbrev pub Specs : Type 0
Specs = List (Bytes × Option Bytes)

unfoldable pub kernelspec : Bytes → Specs → Option Bytes
kernelspec name [] = none
kernelspec name ((n, info) ∷ specs) = if bytes_eq n name then info else kernelspec name specs

unfoldable pub is_for : Bytes → Option Bytes → Bool
unfolding to_lower trim_space
is_for language none = false
is_for language (some l) = bytes_eq (to_lower (trim_space l)) language

unfoldable pub avoided : Bytes → List Bytes → Bool
avoided name [] = false
avoided name (n ∷ ns) = bytes_eq n name || avoided name ns

abbrev pub is_empty : Bytes → Bool
is_empty [] = true
is_empty (c ∷ s) = false

-- The loop over the preferred names.
unfoldable pub preferred : Bytes → List Bytes → Specs → Option Bytes
unfolding kernelspec is_for
preferred language [] specs = none
preferred language (n ∷ ns) specs =
    let rest = preferred language ns specs in
    if is_for language (kernelspec n specs) then some n else rest

-- The loop over the map, with `hasFallback` as the flag, and what follows it.
unfoldable pub scan : Bytes → List Bytes → Bytes → Bool → Specs → Option Bytes
unfolding is_for avoided
scan language avoid fallback has [] = if not (is_empty fallback) && has then some fallback else none
scan language avoid fallback has ((n, info) ∷ specs) =
    let rest = scan language avoid fallback has specs in
    let seen = scan language avoid fallback true specs in
    if not (is_for language info)
    then rest
    else if not (is_empty fallback) && bytes_eq n fallback
    then seen
    else if avoided n avoid
    then rest
    else some n

abbrev pub or_scan : Option Bytes → Option Bytes → Option Bytes
or_scan (some n) o = some n
or_scan none o = o

unfoldable pub pick_kernel : Bytes → List Bytes → List Bytes → Bytes → Specs → Option Bytes
unfolding preferred scan
pick_kernel language prefer avoid fallback specs =
    or_scan (preferred language prefer specs) (scan language avoid fallback false specs)

abbrev pub python : Bytes
python = bytes "python"

abbrev pub bash : Bytes
bash = bytes "bash"

abbrev pub python3 : Bytes
python3 = bytes "python3"

-- The specs are `none` where Jupyter did not give them in time, the kernel where the search fails,
-- also for want of any kernelspec.
unfoldable pub search_kernel : Bytes → Option Specs → Option Bytes
unfolding pick_kernel
search_kernel language none = none
search_kernel language (some []) = none
search_kernel language (some (s ∷ specs)) =
    if bytes_eq language python
    then pick_kernel python (python ∷ []) (python3 ∷ []) python3 (s ∷ specs)
    else if bytes_eq language bash
    then pick_kernel bash (bash ∷ bytes "bash_kernel" ∷ []) [] [] (s ∷ specs)
    else none
