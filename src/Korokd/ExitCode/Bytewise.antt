-- ===== src/Korokd/ExitCode/Bytewise.antt =====
-- A text that `drain` sees whole, at its last call, byte by byte.
use mathlib.Core.List.{append_assoc}
use agentland.Base.{
  ℕ, zero, suc, ◌+◌, ◌≤◌, ◌<◌, ◌≡◌, refl, ap, sym, ◌∙◌, true, false, [], ◌∷◌, ◌++◌, arith, length,
  take, drop, Option, none, some, Option-cases, inl, inr,
}
use agentland.Text.{Bytes, has_prefix, index}
use agentland.Text.Search.{has_prefix-append}
use agentland.Korokd.ExitCode.{Drained, emit, flushed, or_else, after_line, line_value, drain_loop}
use agentland.Korokd.ExitCode.Whole.{round_none, round_line, drain_loop_fuel, shorter}

pub emit_nil : (d : Drained) → emit [] d ≡ d
emit_nil d = refl

pub emit-emit : (s t : Bytes) (d : Drained) → emit s (emit t d) ≡ emit (s ++ t) d
emit-emit s t d = rw append_assoc

flushed-emit : (s : Bytes) (d : Drained) → flushed true (emit s d) ≡ emit s (flushed true d)
flushed-emit s d = rw append_assoc

module _ (m : Bytes) (pos : 0 < length m) (keep : ℕ) where
  unfoldable pub whole : Bytes → Option ℕ → Drained
  whole s code = flushed true (drain_loop (suc (length s)) m keep true s code)

  pub whole-none :
      (s : Bytes) (code : Option ℕ)
      → index s m ≡ none
      → whole s code ≡ record { out = s; rest = []; code = code }
  unfolding whole
  whole-none s code e = ap (flushed true) (round_none m pos keep (length s) true s code e)

  pub whole_line :
      (s : Bytes) (code : Option ℕ) (i : ℕ)
      → index s m ≡ some i
      → whole s code
        ≡ emit (take i s) (
            whole
              (after_line (drop (length m) (drop i s)))
              (or_else (line_value (drop (length m) (drop i s))) code))
  unfolding whole
  whole_line s code i e =
      let rest = drop (length m) (drop i s) in
      let code' = or_else (line_value rest) code in
      ap (flushed true) (round_line m pos keep (length s) true s code i e (ground arith))
      ∙ flushed-emit (take i s) (drain_loop (length s) m keep true (after_line rest) code')
      ∙ ap (λ d. emit (take i s) (flushed true d))
          (drain_loop_fuel m pos keep (length s) (suc (length (after_line rest))) true
            (after_line rest) code' (shorter m pos keep s i e) (omega arith))

  -- A byte at which no marker begins goes out unchanged.
  pub whole-cons :
      (c : ℕ) (s : Bytes) (code : Option ℕ)
      → has_prefix (c ∷ s) m ≡ false
      → whole (c ∷ s) code ≡ emit (c ∷ []) (whole s code)
  unfolding index
  whole-cons c s code h = elim (Option-cases (index s m)) [
    | inl e ↦
        whole-none (c ∷ s) code (ground (arith, e)) ∙ ap (emit (c ∷ [])) (sym (whole-none s code e))
    | inr (i, e) ↦
        whole_line (c ∷ s) code (suc i) (ground (arith, e))
        ∙ ap (emit (c ∷ [])) (sym (whole_line s code i e))
  ]

  -- So does a part in which none begins.
  pub whole_split :
      (n : ℕ) (s r : Bytes) (code : Option ℕ)
      → index s m ≡ none
      → n + length m ≤ suc (length s)
      → whole (s ++ r) code ≡ emit (take n s) (whole (drop n s ++ r) code)
  unfolding index
  whole_split zero s r code e h = refl
  whole_split (suc n) [] r code e h = refl
  whole_split (suc n) (c ∷ s) r code e h =
      whole-cons c (s ++ r) code (has_prefix-append (c ∷ s) r m (omega arith) ∙ ground arith)
      ∙ ap (emit (c ∷ [])) (whole_split n s r code (ground arith) (omega arith))
      ∙ emit-emit (c ∷ []) (take n s) (whole (drop n s ++ r) code)

  -- And what stands before the first marker.
  pub whole_at :
      (i : ℕ) (s : Bytes) (code : Option ℕ)
      → index s m ≡ some i
      → whole s code ≡ emit (take i s) (whole (drop i s) code)
  unfolding index
  whole_at zero s code e = refl
  whole_at (suc i) [] code e = ground arith
  whole_at (suc i) (c ∷ s) code e =
      whole-cons c s code (ground arith)
      ∙ ap (emit (c ∷ [])) (whole_at i s code (ground arith))
      ∙ emit-emit (c ∷ []) (take i s) (whole (drop i s) code)
