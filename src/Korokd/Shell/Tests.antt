-- ===== src/Korokd/Shell/Tests.antt =====
-- The theorems on the text of a bash kernel at concrete inputs.
use agentland.Base.{some, ◌++◌, ◌≡◌, refl, drop, length}
use agentland.Text.{bytes}
use agentland.Korokd.Shell.{shell_quote, before_cwd, after_cwd, with_bash_init}
use agentland.Korokd.Shell.Quote.{
  plain, read_word, IsAfterWord, shell_quote-read_word, with_bash_init-read_word,
}

test_quote : shell_quote (bytes "it's") ≡ bytes "'it'\"'\"'s'"
unfolding shell_quote
test_quote = refl

test_init :
    with_bash_init (bytes "/workspace") (bytes "ls") (bytes "KEY")
    ≡ bytes
        "if [ -z \"${__agentland_cwd_inited+x}\" ]; then cd '/workspace'; __agentland_cwd_inited=1; fi\n"
      ++ bytes "ls\n__agentland_ec=$?\nprintf '%s=%s\\n' 'KEY' \"$__agentland_ec\"\n"
unfolding with_bash_init
test_init = refl

shell_quote-read_word_example :
    read_word plain (shell_quote (bytes "a'; rm $x") ++ bytes "; ls")
    ≡ some (bytes "a'; rm $x", bytes "; ls")
unfolding read_word IsAfterWord
shell_quote-read_word_example = shell_quote-read_word (bytes "a'; rm $x") (bytes "; ls") refl

test_init_word :
    read_word plain (
      drop (length before_cwd) (with_bash_init (bytes "/workspace/o'k") (bytes "ls") (bytes "KEY")))
    ≡ some (bytes "/workspace/o'k", after_cwd (bytes "ls") (bytes "KEY"))
test_init_word = with_bash_init-read_word (bytes "/workspace/o'k") (bytes "ls") (bytes "KEY")
