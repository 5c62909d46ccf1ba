-- ===== src/Korokd/ExitCode/Chunks.antt =====
-- The stream of a bash execution in chunks, where no carriage return is among the bytes.
use mathlib.Core.List.{append-nil, append_assoc, flatten}
use agentland.Base.{
  ℕ, zero, suc, ◌-◌, ◌≤◌, ◌<◌, ◌≡◌, refl, ap, sym, ◌∙◌, ◌≢◌, false, List, [], ◌∷◌, ◌++◌, arith,
  length, take, drop, length-drop, length-append, Option, none, some, Option-cases, ltb, ◌==◌,
  Bool-cases, inl, inr, not, ◌&&◌, take-append, drop-append, All, All-append, All-drop,
}
use agentland.Text.{Bytes, bytes, index}
use agentland.Text.Search.{index-append, index-le}
use agentland.Korokd.ExitCode.{
  BashExitCodeFilter, new_filter, stream, Drained, emit, or_else, scan_line_end, after_line,
  line_value, drain_loop, keep_tail_of,
}
use agentland.Korokd.ExitCode.Lines.{
  NoReturn, after_line-append, line_value-append, after_line-NoReturn,
}
use agentland.Korokd.ExitCode.Whole.{round_none, round_wait, round_line, shorter}
use agentland.Korokd.ExitCode.Bytewise.{whole, whole_line, whole_split, whole_at, emit-emit}

abbrev pub written : Drained → Bytes × Option ℕ
written d = (d.out, d.code)

flatten-NoReturn : (chunks : List Bytes) → All NoReturn chunks → NoReturn (flatten chunks)
unfolding flatten
flatten-NoReturn [] clean = tt
flatten-NoReturn (c ∷ chunks) clean =
    All-append _ c (flatten chunks) clean.0 (flatten-NoReturn chunks clean.1)

module _ (m : Bytes) (pos : 0 < length m) (keep : ℕ) (fits : length m ≤ suc keep) where
  -- Reading `b` now and `r` later is reading both at once.
  abbrev Resumes : Bytes → Bytes → Option ℕ → Drained → Type 0
  Resumes b r code d =
      whole m pos keep (b ++ r) code ≡ emit d.out (whole m pos keep (d.rest ++ r) d.code)

  Resumes-tail :
      (b r : Bytes) (code : Option ℕ)
      → index b m ≡ none
      → Resumes b r code (keep_tail_of keep false b code)
  Resumes-tail b r code e = elim (Bool-cases (ltb keep (length b))) [
    | inl long ↦ rw long (whole_split m pos keep (length b - keep) b r code e (ground arith))
    | inr short ↦ rw short
  ]

  -- A marker's line that has ended goes in the same way when more text follows.
  whole_line-append :
      (b r : Bytes) (code : Option ℕ) (i : ℕ)
      → index b m ≡ some i
      → NoReturn (drop (length m) (drop i b))
      → (scan_line_end (drop (length m) (drop i b))).1 ≢ 0
      → whole m pos keep (b ++ r) code
        ≡ emit (take i b) (
            whole m pos keep
              (after_line (drop (length m) (drop i b)) ++ r)
              (or_else (line_value (drop (length m) (drop i b))) code))
  whole_line-append b r code i e clean ended =
      let rest = drop (length m) (drop i b) in
      let fit = index-le b m i e in
      let cut : drop (length m) (drop i (b ++ r)) ≡ rest ++ r =
        ap (drop (length m)) (drop-append i b r (omega arith))
        ∙ drop-append (length m) (drop i b) r (omega (arith, length-drop i b)) in
      whole_line m pos keep (b ++ r) code i (index-append b r m i e)
      ∙ rw
          (
            cut,
            take-append i b r (omega arith),
            after_line-append rest r clean ended,
            line_value-append rest r clean ended,
          )
          refl

  Resumes-round :
      (f : ℕ) (b r : Bytes) (code : Option ℕ)
      → length b < f
      → NoReturn b
      → Resumes b r code (drain_loop f m keep false b code)
  Resumes-round zero b r code h clean = elim h [ ]
  Resumes-round (suc f) b r code h clean = elim (Option-cases (index b m)) [
    | inl e ↦ rw (round_none m pos keep f false b code e) (Resumes-tail b r code e)
    | inr (i, e) ↦
        let rest = drop (length m) (drop i b) in
        let here = index-append b r m i e in
        let fit = index-le b m i e in
        elim (Bool-cases ((scan_line_end rest).1 == 0 && not false)) [
          | inl w ↦ rw (round_wait m pos keep f b code i e (ground arith)) (
              rw (← take-append i b r (omega arith), ← drop-append i b r (omega arith))
                (whole_at m pos keep i (b ++ r) code here))
          | inr w ↦ rw (round_line m pos keep f false b code i e w) (
              whole_line-append b r code i e
                (All-drop _ (length m) (drop i b) (All-drop _ i b clean)) (ground arith)
              ∙ ap (emit (take i b)) (
                  Resumes-round f (after_line rest) r (or_else (line_value rest) code)
                    (omega (arith, shorter m pos keep b i e))
                    (after_line-NoReturn rest
                      (All-drop _ (length m) (drop i b) (All-drop _ i b clean))))
              ∙ emit-emit (take i b) _ _)
        ]
  ]

  -- What stays in the buffer came in.
  rest-NoReturn :
      (f : ℕ) (b : Bytes) (code : Option ℕ)
      → NoReturn b
      → NoReturn (drain_loop f m keep false b code).rest
  unfolding drain_loop
  rest-NoReturn zero b code clean = clean
  rest-NoReturn (suc f) b code clean = elim (Option-cases (index b m)) [
    | inl e ↦ rw (round_none m pos keep f false b code e) (elim (Bool-cases (ltb keep (length b))) [
      | inl long ↦ rw long (All-drop _ (length b - keep) b clean)
      | inr short ↦ rw short clean
    ])
    | inr (i, e) ↦
        let rest = drop (length m) (drop i b) in
        elim (Bool-cases ((scan_line_end rest).1 == 0 && not false)) [
          | inl w ↦ rw (round_wait m pos keep f b code i e (ground arith)) (All-drop _ i b clean)
          | inr w ↦ rw (round_line m pos keep f false b code i e w) (
              rest-NoReturn f (after_line rest) (or_else (line_value rest) code) (
                after_line-NoReturn rest (All-drop _ (length m) (drop i b) (All-drop _ i b clean))))
        ]
  ]

  abbrev filter_at : Bytes → Option ℕ → BashExitCodeFilter
  filter_at buf code = record { marker_prefix = m; keep_tail = keep; buf = buf; exit_code = code }

  -- The stream writes what the buffer and all chunks, seen at once, amount to.
  pub stream-whole :
      (chunks : List Bytes) (buf : Bytes) (code : Option ℕ)
      → NoReturn buf
      → All NoReturn chunks
      → stream (filter_at buf code) chunks ≡ written (whole m pos keep (buf ++ flatten chunks) code)
  unfolding stream whole flatten
  stream-whole [] buf code hb hc = rw (append-nil buf)
  stream-whole ([] ∷ chunks) buf code hb hc = stream-whole chunks buf code hb hc.1
  stream-whole ((c ∷ chunk) ∷ chunks) buf code hb hc =
      let b = buf ++ (c ∷ chunk) in
      let clean = All-append _ buf (c ∷ chunk) hb hc.0 in
      let d = drain_loop (suc (length b)) m keep false b code in
      let ih =
        stream-whole chunks d.rest d.code (rest-NoReturn (suc (length b)) b code clean) hc.1 in
      let joined : whole m pos keep (buf ++ ((c ∷ chunk) ++ flatten chunks)) code
          ≡ emit d.out (whole m pos keep (d.rest ++ flatten chunks) d.code) =
        ap (λ t. whole m pos keep t code) (sym (append_assoc buf (c ∷ chunk) (flatten chunks)))
        ∙ Resumes-round (suc (length b)) b (flatten chunks) code (omega arith) clean in
      ap (λ (p : Bytes × Option ℕ). (d.out ++ p.0, p.1)) ih ∙ sym (ap written joined)

pub marker_fits :
    (marker_key : Bytes)
    → length marker_key ≤ 512
    → (0 < length (marker_key ++ bytes "=")) × (length (marker_key ++ bytes "=") ≤ 513)
marker_fits marker_key short = omega (arith, length-append marker_key (bytes "="))

-- Where a stream without carriage returns is cut does not matter: the filter that the program makes
-- for a marker key of at most 512 bytes writes the same output, and finds the same exit code, as if
-- all chunks came as one.
pub stream-flatten :
    (marker_key : Bytes) (chunks : List Bytes)
    → length marker_key ≤ 512
    → All NoReturn chunks
    → stream (new_filter marker_key) chunks ≡ stream (new_filter marker_key) (flatten chunks ∷ [])
unfolding new_filter flatten
stream-flatten marker_key chunks short clean =
    let m = marker_key ++ bytes "=" in
    let (pos, fits) = marker_fits marker_key short in
    stream-whole m pos 512 fits chunks [] none tt clean
    ∙ ap (λ t. written (whole m pos 512 t none)) (sym (append-nil (flatten chunks)))
    ∙ sym (
        stream-whole m pos 512 fits (flatten chunks ∷ []) [] none tt
          (flatten-NoReturn chunks clean, tt))
