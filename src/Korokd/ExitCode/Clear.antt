-- ===== src/Korokd/ExitCode/Clear.antt =====
-- Output without a marker, and the one line end that depends on how the stream is cut.
use mathlib.Core.List.{append-nil, append_assoc, flatten}
use mathlib.Core.Path.{ap₂}
use agentland.Base.{
  ℕ, suc, ◌-◌, ◌≤◌, ◌<◌, ◌≡◌, refl, ap, sym, ◌∙◌, Bool, true, false, List, [], ◌∷◌, ◌++◌, arith,
  length, drop, length-append, Option, none, some, take-append-drop, drop_all, drop-append, ltb,
  Bool-cases, inl, inr, not, ◌&&◌, ◌==◌,
}
use agentland.Text.{Bytes, bytes, index}
use agentland.Text.Search.{
  index-none-drop, index-none-append_left, index_of_has_prefix, has_prefix-append_self,
  index-none_of_short,
}
use agentland.Korokd.ExitCode.{
  new_filter, stream, drain_loop, keep_tail_of, Drained, BashExitCodeFilter, scan_line_end,
  after_line, line_value, or_else, parse_leading_int32, handle_chunk,
}
use agentland.Korokd.ExitCode.Whole.{round_none, round_line}
use agentland.Korokd.ExitCode.Chunks.{marker_fits}

module _ (m : Bytes) (pos : 0 < length m) (keep : ℕ) where
  abbrev kept : Bytes → Option ℕ → Drained
  kept b code = keep_tail_of keep false b code

  -- A round that finds no marker moves bytes and loses none.
  kept-join : (b : Bytes) (code : Option ℕ) → (kept b code).out ++ (kept b code).rest ≡ b
  kept-join b code = elim (Bool-cases (ltb keep (length b))) [
    | inl long ↦ rw long (take-append-drop (length b - keep) b)
    | inr short ↦ rw short
  ]

  kept-code : (b : Bytes) (code : Option ℕ) → (kept b code).code ≡ code
  kept-code b code = ground arith

  kept-none :
      (b r : Bytes) (code : Option ℕ)
      → index (b ++ r) m ≡ none
      → index ((kept b code).rest ++ r) m ≡ none
  kept-none b r code h = elim (Bool-cases (ltb keep (length b))) [
    | inl long ↦ rw long (
        rw (← drop-append (length b - keep) b r (omega arith))
          (index-none-drop (length b - keep) (b ++ r) m h))
    | inr short ↦ rw short h
  ]

  abbrev filter_at : Bytes → Option ℕ → BashExitCodeFilter
  filter_at buf code = record { marker_prefix = m; keep_tail = keep; buf = buf; exit_code = code }

  stream_clear :
      (chunks : List Bytes) (buf : Bytes) (code : Option ℕ)
      → index (buf ++ flatten chunks) m ≡ none
      → stream (filter_at buf code) chunks ≡ (buf ++ flatten chunks, code)
  unfolding stream flatten
  stream_clear [] buf code h =
      rw (round_none m pos keep (length buf) true buf code (index-none-append_left buf [] m h))
        (rw (append-nil buf))
  stream_clear ([] ∷ chunks) buf code h = stream_clear chunks buf code h
  stream_clear ((c ∷ chunk) ∷ chunks) buf code h =
      let b = buf ++ (c ∷ chunk) in
      let r = flatten chunks in
      let all = append_assoc buf (c ∷ chunk) r in
      let none_b : index (b ++ r) m ≡ none = rw all h in
      rw (round_none m pos keep (length b) false b code (index-none-append_left b r m none_b)) (
        ap (λ (p : Bytes × Option ℕ). ((kept b code).out ++ p.0, p.1))
          (stream_clear chunks (kept b code).rest (kept b code).code (kept-none b r code none_b))
        ∙ ap₂ (λ out code. (out, code))
            (sym (append_assoc (kept b code).out (kept b code).rest r)
              ∙ ap (λ t. t ++ r) (kept-join b code)
              ∙ all)
            (kept-code b code))

-- Output in which the marker does not occur is written unchanged, carriage returns included, and no
-- exit code is found, whatever the chunks.
pub stream-no_marker :
    (marker_key : Bytes) (chunks : List Bytes)
    → length marker_key ≤ 512
    → index (flatten chunks) (marker_key ++ bytes "=") ≡ none
    → stream (new_filter marker_key) chunks ≡ (flatten chunks, none)
unfolding new_filter
stream-no_marker marker_key chunks short clear =
    stream_clear (marker_key ++ bytes "=") (marker_fits marker_key short).0 512 chunks [] none clear

-- The exit line that a terminal ends with a carriage return and a line feed.
abbrev exit_line : Bytes → Bytes
exit_line marker_key = (marker_key ++ bytes "=") ++ bytes "0\r"

module _ (m : Bytes) (long : 1 < length m) where
  behind_marker : (r : Bytes) → drop (length m) (m ++ r) ≡ r
  behind_marker r =
      drop-append (length m) m r (omega arith)
      ∙ ap (λ t. t ++ r) (drop_all (length m) m (omega arith))

  -- A round at a marker whose line has ended.
  marker_round :
      (f : ℕ) (final : Bool) (r : Bytes) (code : Option ℕ)
      → ((scan_line_end r).1 == 0 && not final) ≡ false
      → drain_loop (suc f) m 512 final (m ++ r) code
        ≡ drain_loop f m 512 final (after_line r) (or_else (line_value r) code)
  marker_round f final r code ended =
      let here = index_of_has_prefix (m ++ r) m (has_prefix-append_self m r) in
      round_line m (omega arith) 512 f final (m ++ r) code 0 here (rw (behind_marker r) ended)
      ∙ rw (behind_marker r) refl

  short_round :
      (f : ℕ) (final : Bool) (b : Bytes) (code : Option ℕ)
      → length b ≤ 1
      → drain_loop (suc f) m 512 final b code ≡ record { out = []; rest = b; code = code }
  short_round f final b code h =
      round_none m (omega arith) 512 f final b code (index-none_of_short b m (omega arith))
      ∙ ground arith

  -- A round whose marker's line is all that is left.
  last_round :
      (f : ℕ) (final : Bool) (r : Bytes)
      → ((scan_line_end r).1 == 0 && not final) ≡ false
      → after_line r ≡ []
      → line_value r ≡ some 0
      → drain_loop (suc (suc f)) m 512 final (m ++ r) none
        ≡ record { out = []; rest = []; code = some 0 }
  last_round f final r ended rest value =
      marker_round (suc f) final r none ended
      ∙ rw (rest, value) (short_round f final [] (some 0) (omega arith))

stream-cons :
    (f : BashExitCodeFilter) (c : Bytes) (cs : List Bytes)
    → stream f (c ∷ cs) ≡ (
      (handle_chunk f c).0 ++ (stream (handle_chunk f c).1 cs).0,
      (stream (handle_chunk f c).1 cs).1,
    )
unfolding stream
stream-cons f c cs = refl

-- The chunk that ends the marker's line leaves nothing in the filter.
handle_line :
    (k : ℕ) (key r : Bytes)
    → ((scan_line_end r).1 == 0 && true) ≡ false
    → after_line r ≡ []
    → line_value r ≡ some 0
    → handle_chunk (new_filter (k ∷ key)) (((k ∷ key) ++ bytes "=") ++ r)
      ≡ ([], record (new_filter (k ∷ key)) { exit_code = some 0 })
unfolding handle_chunk new_filter
handle_line k key r ended rest value =
    rw
      (last_round ((k ∷ key) ++ bytes "=") (omega (arith, length-append (k ∷ key) (bytes "=")))
        (length ((key ++ bytes "=") ++ r)) false r ended rest value)
      refl

after_line_chunk :
    (k : ℕ) (key r : Bytes) (cs : List Bytes)
    → ((scan_line_end r).1 == 0 && true) ≡ false
    → after_line r ≡ []
    → line_value r ≡ some 0
    → length (flatten cs) ≤ 1
    → stream (new_filter (k ∷ key)) ((((k ∷ key) ++ bytes "=") ++ r) ∷ cs) ≡ (flatten cs, some 0)
unfolding new_filter
after_line_chunk k key r cs ended rest value small =
    let m = (k ∷ key) ++ bytes "=" in
    let len = length-append (k ∷ key) (bytes "=") in
    let f = record (new_filter (k ∷ key)) { exit_code = some 0 } in
    stream-cons (new_filter (k ∷ key)) (m ++ r) cs
    ∙ ap (λ (p : Bytes × BashExitCodeFilter). (p.0 ++ (stream p.1 cs).0, (stream p.1 cs).1))
        (handle_line k key r ended rest value)
    ∙ stream_clear m (omega (arith, len)) 512 cs [] (some 0)
        (index-none_of_short (flatten cs) m (omega (arith, len)))

-- A carriage return and a line feed that end the marker's line are dropped together where they come
-- in one chunk. Where the chunk ends between them, the line feed is written. So it is for every
-- marker key.
pub stream-cut_line_end :
    (marker_key : Bytes)
    → 0 < length marker_key
    → (stream (new_filter marker_key) (((marker_key ++ bytes "=") ++ bytes "0\r\n") ∷ [])
        ≡ ([], some 0))
      × (stream
            (new_filter marker_key)
            (((marker_key ++ bytes "=") ++ bytes "0\r") ∷ bytes "\n" ∷ [])
          ≡ (bytes "\n", some 0))
unfolding scan_line_end parse_leading_int32 flatten
stream-cut_line_end [] h = elim h [ ]
stream-cut_line_end (k ∷ key) h = (
  after_line_chunk k key (bytes "0\r\n") [] refl refl refl (omega arith),
  after_line_chunk k key (bytes "0\r") (bytes "\n" ∷ []) refl refl refl (omega arith),
)
