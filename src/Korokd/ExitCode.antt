-- ===== src/Korokd/ExitCode.antt =====
-- The exit-code marker that a bash execution prints, taken out of its output again
-- (pkg/korokd/pkgs/utils/bash_exitcode.go). A Go string is its bytes. An `int32` is its bit
-- pattern, a number below 2 ^ 32.
pub mod Lines
pub mod Whole
pub mod Bytewise
pub mod Chunks
pub mod Marker
pub mod Clear
use mathlib.Core.Option
use agentland.Base.{
  ℕ, zero, suc, ◌+◌, ◌-◌, ◌%◌, ◌^◌, Bool, true, false, not, ◌&&◌, ◌≡◌, refl, Option, none, some,
  List, [], ◌∷◌, ◌++◌, leb, ltb, ◌==◌, if◌then◌else◌, length, take, drop,
}
use agentland.Text.{Bytes, bytes, index, last_index, trim_space, atoi, ℤ, pos, negsuc}

pub record BashExitCodeFilter : Type 0 where
  pub marker_prefix : Bytes
  pub keep_tail : ℕ
  pub buf : Bytes
  pub exit_code : Option ℕ

unfoldable pub new_filter : Bytes → BashExitCodeFilter
new_filter marker_key = record {
  marker_prefix = marker_key ++ bytes "=";
  keep_tail = 512;
  buf = [];
  exit_code = none;
}

-- A carriage return ends a line, alone or with the line feed behind it.
abbrev return_width : Bytes → ℕ
return_width [] = 1
return_width (d ∷ _) = if d == 10 then 2 else 1

-- Where the line's value ends, and how many bytes its end takes.
unfoldable pub scan_line_end : Bytes → ℕ × ℕ
scan_line_end [] = (0, 0)
scan_line_end (c ∷ s) =
    let rest = scan_line_end s in
    if c == 10 then (0, 1) else if c == 13 then (0, return_width s) else (suc rest.0, rest.1)

-- The conversion int32(n) of a Go int.
unfoldable pub int32 : ℤ → ℕ
int32 (pos n) = n % 2 ^ 32
int32 (negsuc n) = 2 ^ 32 - 1 - n % 2 ^ 32

abbrev leading_int32 : Bytes → Option ℕ
leading_int32 [] = none
leading_int32 (c ∷ v) = Option.map int32 (atoi (c ∷ v))

unfoldable pub parse_leading_int32 : Bytes → Option ℕ
unfolding int32 trim_space atoi
parse_leading_int32 s = leading_int32 (trim_space s)

pub record Drained : Type 0 where
  pub out : Bytes
  pub rest : Bytes
  pub code : Option ℕ

abbrev pub emit : Bytes → Drained → Drained
emit s d = record d { out = s ++ d.out }

-- A code that parsed replaces the one before.
abbrev pub or_else : Option ℕ → Option ℕ → Option ℕ
or_else (some n) _ = some n
or_else none o = o

-- `rest[valueEnd+newlineLen:]`, or nothing where that is past the end.
abbrev pub after_line : Bytes → Bytes
after_line rest =
    let (value_end, newline_len) = scan_line_end rest in
    if leb (length rest) (value_end + newline_len) then [] else drop (value_end + newline_len) rest

-- The value on the marker's line.
abbrev pub line_value : Bytes → Option ℕ
line_value rest = parse_leading_int32 (take (scan_line_end rest).0 rest)

-- The end of a round that finds no marker: all but the tail goes out, unless this is the last call.
abbrev pub keep_tail_of : ℕ → Bool → Bytes → Option ℕ → Drained
keep_tail_of keep final buf code =
    if not final && ltb keep (length buf)
    then record {
      out = take (length buf - keep) buf;
      rest = drop (length buf - keep) buf;
      code = code;
    }
    else record { out = []; rest = buf; code = code }

-- The loop of `drain`. Each further round has dropped a marker from the buffer, so fuel above the
-- buffer's length is enough.
unfoldable pub drain_loop : ℕ → Bytes → ℕ → Bool → Bytes → Option ℕ → Drained
unfolding index scan_line_end parse_leading_int32
drain_loop zero marker keep final buf code = record { out = []; rest = buf; code = code }
drain_loop (suc fuel) marker keep final buf code = elim (index buf marker) [
  | some idx ↦
      let rest = drop (length marker) (drop idx buf) in
      elim ((scan_line_end rest).1 == 0 && not final) [
        | true ↦ record { out = take idx buf; rest = drop idx buf; code = code }
        | false ↦
            emit (take idx buf)
              (drain_loop fuel marker keep final (after_line rest) (or_else (line_value rest) code))
      ]
  | none ↦ keep_tail_of keep final buf code
]

-- The last call writes what is left.
abbrev pub flushed : Bool → Drained → Drained
flushed true d = record { out = d.out ++ d.rest; rest = []; code = d.code }
flushed false d = d

unfoldable pub drain : BashExitCodeFilter → Bool → Bytes × BashExitCodeFilter
unfolding drain_loop
drain f final =
    let d =
      flushed final
        (drain_loop (suc (length f.buf)) f.marker_prefix f.keep_tail final f.buf f.exit_code) in
    (d.out, record f { buf = d.rest; exit_code = d.code })

unfoldable pub handle_chunk : BashExitCodeFilter → Bytes → Bytes × BashExitCodeFilter
unfolding drain
handle_chunk f [] = ([], f)
handle_chunk f (c ∷ chunk) = drain (record f { buf = f.buf ++ (c ∷ chunk) }) false

unfoldable pub flush : BashExitCodeFilter → Bytes × BashExitCodeFilter
unfolding drain
flush f = drain f true

unfoldable pub parse_exit_marker : Bytes → Bytes → Option ℕ
unfolding last_index scan_line_end parse_leading_int32
parse_exit_marker stdout marker_key =
    let marker = marker_key ++ bytes "=" in
    elim (last_index stdout marker) [
      | none ↦ none
      | some idx ↦
          let rest = drop (idx + length marker) stdout in
          parse_leading_int32 (take (scan_line_end rest).0 rest)
    ]

unfoldable pub strip_exit_marker : Bytes → Bytes → Bytes
unfolding last_index scan_line_end
strip_exit_marker stdout marker_key =
    let marker = marker_key ++ bytes "=" in
    elim (last_index stdout marker) [
      | none ↦ stdout
      | some idx ↦
          let (value_end, newline_len) = scan_line_end (drop (idx + length marker) stdout) in
          let cut_end = idx + length marker + value_end + newline_len in
          take idx stdout
          ++ drop (if ltb (length stdout) cut_end then length stdout else cut_end) stdout
    ]

-- A stream of chunks, then the flush: what is written, and the exit code.
unfoldable pub stream : BashExitCodeFilter → List Bytes → Bytes × Option ℕ
unfolding handle_chunk flush
stream f [] = let (out, g) = flush f in (out, g.exit_code)
stream f (chunk ∷ chunks) =
    let (out, g) = handle_chunk f chunk in let (rest, code) = stream g chunks in (out ++ rest, code)

test_stream :
    stream (new_filter (bytes "M")) (bytes "hi\nM" ∷ bytes "=" ∷ bytes "12" ∷ bytes "\nbye" ∷ [])
    ≡ (bytes "hi\nbye", some 12)
unfolding new_filter stream
test_stream = refl
