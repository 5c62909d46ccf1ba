-- ===== src/Korokd/ExitCode/Marker.antt =====
-- The two ways in which a bash execution takes the marker out: chunk by chunk for the event stream,
-- and from the collected output for the reply.
use mathlib.Core.List.{flatten}
use mathlib.Core.Path.{ap₂}
use agentland.Base.{
  ℕ, ◌+◌, ◌≤◌, ◌<◌, ◌≡◌, refl, ap, sym, ◌∙◌, List, [], ◌++◌, arith, length, take, drop, Option,
  none, some, drop-drop, drop_all, All, ltb, if◌then◌else◌,
}
use agentland.Text.{Bytes, bytes, index, last_index}
use agentland.Text.Search.{index-drop_last}
use agentland.Korokd.ExitCode.{
  new_filter, stream, strip_exit_marker, parse_exit_marker, emit, or_else, scan_line_end,
  after_line, line_value,
}
use agentland.Korokd.ExitCode.Lines.{NoReturn, after_line_lem}
use agentland.Korokd.ExitCode.Bytewise.{whole, whole_line, whole-none}
use agentland.Korokd.ExitCode.Chunks.{stream-whole, written, marker_fits}

or_else-none : (o : Option ℕ) → or_else o none ≡ o
or_else-none none = refl
or_else-none (some n) = refl

module _ (m : Bytes) (pos : 0 < length m) (keep : ℕ) (s : Bytes) (i : ℕ) where
  -- A text with one marker, seen whole.
  whole_once :
      index s m ≡ some i
      → last_index s m ≡ some i
      → whole m pos keep s none ≡ record {
        out = take i s ++ after_line (drop (i + length m) s);
        rest = [];
        code = line_value (drop (i + length m) s);
      }
  whole_once first last =
      let rest = drop (length m) (drop i s) in
      let same : rest ≡ drop (i + length m) s = drop-drop i (length m) (i + length m) s refl in
      let n = (scan_line_end rest).0 + (scan_line_end rest).1 in
      let gone : index (after_line rest) m ≡ none =
        ap (λ t. index t m)
          (after_line_lem rest
            ∙ ap (drop n) same
            ∙ drop-drop (i + length m) n (i + length m + n) s refl)
        ∙ index-drop_last s m i (i + length m + n) pos last (omega arith) in
      whole_line m pos keep s none i first
      ∙ ap (emit (take i s))
          (whole-none m pos keep (after_line rest) (or_else (line_value rest) none) gone)
      ∙ rw (same, or_else-none (line_value (drop (i + length m) s))) refl

-- `drop` stops at the end of the text.
clip : (n : ℕ) (s : Bytes) → drop (if ltb (length s) n then length s else n) s ≡ drop n s
clip n s = ground (arith, drop_all n s, drop_all (length s) s)

parse_at :
    (marker_key s : Bytes) (i : ℕ)
    → last_index s (marker_key ++ bytes "=") ≡ some i
    → parse_exit_marker s marker_key ≡ line_value (drop (i + length (marker_key ++ bytes "=")) s)
unfolding parse_exit_marker
parse_at marker_key s i last = rw (last, parse_exit_marker) refl

strip_at :
    (marker_key s : Bytes) (i : ℕ)
    → last_index s (marker_key ++ bytes "=") ≡ some i
    → strip_exit_marker s marker_key
      ≡ take i s ++ after_line (drop (i + length (marker_key ++ bytes "=")) s)
unfolding strip_exit_marker
strip_at marker_key s i last =
    let m = marker_key ++ bytes "=" in
    let rest = drop (i + length m) s in
    let (value_end, newline_len) = scan_line_end rest in
    rw (last, strip_exit_marker)
      (ap (λ t. take i s ++ t)
        (clip (i + length m + value_end + newline_len) s
          ∙ sym (
              after_line_lem rest
              ∙ drop-drop (i + length m) (value_end + newline_len)
                  (i + length m + value_end + newline_len) s (omega arith))))

-- Where the marker occurs exactly once, and no carriage return occurs, the text of the event stream
-- and that of the reply are the same, and so are the exit codes, whatever the chunks.
pub strip-stream :
    (marker_key : Bytes) (chunks : List Bytes) (i : ℕ)
    → length marker_key ≤ 512
    → All NoReturn chunks
    → index (flatten chunks) (marker_key ++ bytes "=") ≡ some i
    → last_index (flatten chunks) (marker_key ++ bytes "=") ≡ some i
    → stream (new_filter marker_key) chunks ≡ (
      strip_exit_marker (flatten chunks) marker_key,
      parse_exit_marker (flatten chunks) marker_key,
    )
unfolding new_filter
strip-stream marker_key chunks i short clean first last =
    let m = marker_key ++ bytes "=" in
    let (pos, fits) = marker_fits marker_key short in
    stream-whole m pos 512 fits chunks [] none tt clean
    ∙ ap written (whole_once m pos 512 (flatten chunks) i first last)
    ∙ ap₂ (λ out code. (out, code)) (sym (strip_at marker_key (flatten chunks) i last))
        (sym (parse_at marker_key (flatten chunks) i last))
