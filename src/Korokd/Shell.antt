-- ===== src/Korokd/Shell.antt =====
-- The text that a bash kernel is given (`withBashInit` and `shellQuote` in
-- pkg/korokd/handlers/context_manager.go).
pub mod Quote
mod Tests
use agentland.Base.{[], ◌∷◌, ◌++◌, if◌then◌else◌, ◌==◌}
use agentland.Text.{Bytes, bytes}

-- `ReplaceAll` of every single quote: the quote is closed, a quoted quote follows, and it opens anew.
unfoldable pub replace_quotes : Bytes → Bytes
replace_quotes [] = []
replace_quotes (c ∷ s) =
    let rest = replace_quotes s in if c == 39 then 39 ∷ 34 ∷ 39 ∷ 34 ∷ 39 ∷ rest else c ∷ rest

unfoldable pub shell_quote : Bytes → Bytes
unfolding replace_quotes
shell_quote s = 39 ∷ (replace_quotes s ++ (39 ∷ []))

-- The words before the working directory, up to the blank after `cd`.
abbrev pub before_cwd : Bytes
before_cwd = bytes "if [ -z \"${__agentland_cwd_inited+x}\" ]; then cd "

-- The end of the first line, the code, and the line that prints the marker.
abbrev pub after_cwd : Bytes → Bytes → Bytes
unfolding shell_quote
after_cwd code marker_key =
    bytes "; __agentland_cwd_inited=1; fi\n"
    ++ (code
        ++ (bytes "\n__agentland_ec=$?\nprintf '%s=%s\\n' "
            ++ (shell_quote marker_key ++ bytes " \"$__agentland_ec\"\n")))

unfoldable pub with_bash_init : Bytes → Bytes → Bytes → Bytes
unfolding shell_quote
with_bash_init cwd code marker_key = before_cwd ++ (shell_quote cwd ++ after_cwd code marker_key)
