-- ===== src/Korokd/ExitCode/Lines.antt =====
-- The end of the marker's line, in text that more text may follow.
use agentland.Base.{
  ◌+◌, ◌≤◌, ◌≡◌, refl, ap, ◌≢◌, [], ◌∷◌, ◌++◌, arith, length, drop, All, All-drop, length-drop,
  drop_all, take-append, drop-append,
}
use agentland.Text.{Bytes}
use agentland.Korokd.ExitCode.{scan_line_end, after_line, line_value, parse_leading_int32}

abbrev pub NoReturn : Bytes → Type 0
NoReturn = All (λ c. c ≢ 13)

pub scan_line_end-le : (s : Bytes) → (scan_line_end s).0 + (scan_line_end s).1 ≤ length s
unfolding scan_line_end
scan_line_end-le [] = omega arith
scan_line_end-le (c ∷ []) = ground arith
scan_line_end-le (c ∷ d ∷ s) = ground (arith, scan_line_end-le (d ∷ s))

-- A line that has ended, not by a carriage return, ends there whatever follows.
pub scan_line_end-append :
    (s r : Bytes) → NoReturn s → (scan_line_end s).1 ≢ 0 → scan_line_end (s ++ r) ≡ scan_line_end s
unfolding scan_line_end
scan_line_end-append [] r h k = absurd (k refl)
scan_line_end-append (c ∷ s) r h k = ground (arith, h.0, scan_line_end-append s r h.1)

pub after_line_lem : (s : Bytes) → after_line s ≡ drop ((scan_line_end s).0 + (scan_line_end s).1) s
after_line_lem s = ground (arith, drop_all ((scan_line_end s).0 + (scan_line_end s).1) s)

pub length-after_line : (s : Bytes) → length (after_line s) ≤ length s
length-after_line s = rw after_line_lem (rw length-drop (omega arith))

pub after_line-append :
    (s r : Bytes) → NoReturn s → (scan_line_end s).1 ≢ 0 → after_line (s ++ r) ≡ after_line s ++ r
after_line-append s r h k =
    rw (after_line_lem (s ++ r), after_line_lem s, scan_line_end-append s r h k)
      (drop-append _ s r (scan_line_end-le s))

pub line_value-append :
    (s r : Bytes) → NoReturn s → (scan_line_end s).1 ≢ 0 → line_value (s ++ r) ≡ line_value s
line_value-append s r h k =
    rw (scan_line_end-append s r h k)
      (ap parse_leading_int32 (take-append _ s r (omega (arith, scan_line_end-le s))))

pub after_line-NoReturn : (s : Bytes) → NoReturn s → NoReturn (after_line s)
after_line-NoReturn s h = rw after_line_lem (All-drop _ _ s h)
