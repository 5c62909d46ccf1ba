-- ===== src/Korokd/Shell/Quote.antt =====
-- What a shell reads where a quoted text stands.
use mathlib.Core.List.{append_assoc}
use agentland.Base.{
  ℕ, Bool, ◌||◌, Option, none, some, [], ◌∷◌, ◌++◌, if◌then◌else◌, ◌==◌, ◌≡◌, refl, arith, ap, drop,
  length, ◌∙◌, Bool-cases, inl, inr,
}
use agentland.Text.{Bytes}
use agentland.Korokd.Shell.{replace_quotes, shell_quote, before_cwd, after_cwd, with_bash_init}

-- Outside of quotes, in single quotes, in double quotes.
pub data Mode : Type 0 where
  plain single double : Mode

abbrev pub first : ℕ → Option (Bytes × Bytes) → Option (Bytes × Bytes)
first c none = none
first c (some (w, t)) = some (c ∷ w, t)

-- A blank, a line's end or a semicolon.
abbrev pub ends_word : ℕ → Bool
ends_word c = c == 32 || c == 10 || c == 59

-- In double quotes a dollar, a backquote and a backslash are special.
abbrev pub is_special : ℕ → Bool
is_special c = c == 36 || c == 92 || c == 96

-- The first word of a command, by the rules of POSIX for words whose characters are all quoted, and
-- what follows it; `none` for any other word and for quotes that stay open.
unfoldable pub read_word : Mode → Bytes → Option (Bytes × Bytes)
read_word plain [] = some ([], [])
read_word plain (c ∷ s) =
    let one = read_word single s in
    let two = read_word double s in
    if ends_word c then some ([], c ∷ s) else if c == 39 then one else if c == 34 then two else none
read_word single [] = none
read_word single (c ∷ s) =
    let out = read_word plain s in
    let rest = read_word single s in if c == 39 then out else first c rest
read_word double [] = none
read_word double (c ∷ s) =
    let out = read_word plain s in
    let rest = read_word double s in
    if c == 34 then out else if is_special c then none else first c rest

-- The quoted text ends where a word ends.
unfoldable pub IsAfterWord : Bytes → Type 0
IsAfterWord t = read_word plain t ≡ some ([], t)

replace_quotes-read_word :
    (s t : Bytes) → IsAfterWord t → read_word single (replace_quotes s ++ (39 ∷ t)) ≡ some (s, t)
unfolding replace_quotes read_word IsAfterWord
replace_quotes-read_word [] t h = h
replace_quotes-read_word (c ∷ s) t h = elim (Bool-cases (c == 39)) [
  | inl e ↦
      let quote : 39 ≡ c = ground (arith, e) in
      rw e (
        ap (first 39) (replace_quotes-read_word s t h)
        ∙ ap (λ (x : ℕ). Option.some (x ∷ s, t)) quote)
  | inr e ↦ rw (e, e) (ap (first c) (replace_quotes-read_word s t h))
]

-- Whatever the text is, a shell reads its quoted form as one word, which is the text itself, where
-- a blank, a line's end, a semicolon or nothing follows.
pub shell_quote-read_word :
    (s t : Bytes) → IsAfterWord t → read_word plain (shell_quote s ++ t) ≡ some (s, t)
unfolding shell_quote read_word
shell_quote-read_word s t h =
    rw (append_assoc (replace_quotes s) (39 ∷ []) t) (replace_quotes-read_word s t h)

-- After the words before it, the text for a bash kernel has the working directory as one word, and
-- what follows that word does not depend on the directory.
pub with_bash_init-read_word :
    (cwd code marker_key : Bytes)
    → read_word plain (drop (length before_cwd) (with_bash_init cwd code marker_key))
      ≡ some (cwd, after_cwd code marker_key)
unfolding with_bash_init read_word IsAfterWord
with_bash_init-read_word cwd code marker_key =
    shell_quote-read_word cwd (after_cwd code marker_key) refl
