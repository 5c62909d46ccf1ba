-- ===== src/Korokd/ExitCode/Whole.antt =====
-- What the last call of `drain` makes of a text that it sees whole, round by round and byte by
-- byte. The other modules compare the stream with this.
use agentland.Base.{
  ℕ, zero, suc, ◌<◌, ◌≡◌, ap, sym, ◌∙◌, Bool, true, false, arith, length, take, drop, length-drop,
  Option, none, some, Option-cases, ◌==◌, Bool-cases, inl, inr, not, ◌&&◌,
}
use agentland.Text.{Bytes, index}
use agentland.Text.Search.{index-le}
use agentland.Korokd.ExitCode.{
  emit, or_else, scan_line_end, after_line, line_value, drain_loop, keep_tail_of,
}
use agentland.Korokd.ExitCode.Lines.{length-after_line}

module _ (m : Bytes) (pos : 0 < length m) (keep : ℕ) where
  pub round_none :
      (f : ℕ) (final : Bool) (s : Bytes) (code : Option ℕ)
      → index s m ≡ none
      → drain_loop (suc f) m keep final s code ≡ keep_tail_of keep final s code
  unfolding drain_loop
  round_none f final s code e = rw (e, drain_loop)

  pub round_wait :
      (f : ℕ) (s : Bytes) (code : Option ℕ) (i : ℕ)
      → index s m ≡ some i
      → (scan_line_end (drop (length m) (drop i s))).1 ≡ 0
      → drain_loop (suc f) m keep false s code
        ≡ record { out = take i s; rest = drop i s; code = code }
  unfolding drain_loop
  round_wait f s code i e z = rw (e, drain_loop) (rw (z, drain_loop))

  pub round_line :
      (f : ℕ) (final : Bool) (s : Bytes) (code : Option ℕ) (i : ℕ)
      → index s m ≡ some i
      → ((scan_line_end (drop (length m) (drop i s))).1 == 0 && not final) ≡ false
      → drain_loop (suc f) m keep final s code
        ≡ emit (take i s) (
            drain_loop f m keep final
              (after_line (drop (length m) (drop i s)))
              (or_else (line_value (drop (length m) (drop i s))) code))
  unfolding drain_loop
  round_line f final s code i e z = rw (e, drain_loop) (rw (z, drain_loop))

  -- Dropping a marker makes the text shorter.
  pub shorter :
      (s : Bytes) (i : ℕ)
      → index s m ≡ some i
      → length (after_line (drop (length m) (drop i s))) < length s
  shorter s i e =
      let rest = drop (length m) (drop i s) in
      omega (
        arith,
        length-after_line rest,
        index-le s m i e,
        length-drop (length m) (drop i s),
        length-drop i s,
      )

  waiting :
      (f g : ℕ) (final : Bool) (s : Bytes) (code : Option ℕ) (i : ℕ)
      → index s m ≡ some i
      → ((scan_line_end (drop (length m) (drop i s))).1 == 0 && not final) ≡ true
      → drain_loop (suc f) m keep final s code ≡ drain_loop (suc g) m keep final s code
  waiting f g true s code i e w = ground arith
  waiting f g false s code i e w =
      let z : (scan_line_end (drop (length m) (drop i s))).1 ≡ 0 = ground arith in
      round_wait f s code i e z ∙ sym (round_wait g s code i e z)

  -- Fuel above the length of the text is as good as any other.
  pub drain_loop_fuel :
      (f g : ℕ) (final : Bool) (s : Bytes) (code : Option ℕ)
      → length s < f
      → length s < g
      → drain_loop f m keep final s code ≡ drain_loop g m keep final s code
  drain_loop_fuel zero g final s code hf hg = elim hf [ ]
  drain_loop_fuel (suc f) zero final s code hf hg = elim hg [ ]
  drain_loop_fuel (suc f) (suc g) final s code hf hg = elim (Option-cases (index s m)) [
    | inl e ↦ round_none f final s code e ∙ sym (round_none g final s code e)
    | inr (i, e) ↦
        let rest = drop (length m) (drop i s) in
        let ih : drain_loop f m keep final (after_line rest) (or_else (line_value rest) code)
            ≡ drain_loop g m keep final (after_line rest) (or_else (line_value rest) code) =
          drain_loop_fuel f g final (after_line rest) (or_else (line_value rest) code)
            (omega (arith, shorter s i e)) (omega (arith, shorter s i e)) in
        elim (Bool-cases ((scan_line_end rest).1 == 0 && not final)) [
          | inl w ↦ waiting f g final s code i e w
          | inr w ↦
              round_line f final s code i e w
              ∙ ap (emit (take i s)) ih
              ∙ sym (round_line g final s code i e w)
        ]
  ]
