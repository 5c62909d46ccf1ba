-- ===== src/Korokd/Files/Parameters.antt =====
-- The parameters of a request for files (pkg/korokd/handlers/fs.go).
use agentland.Base.{
  ℕ, suc, ◌+◌, Bool, true, false, not, ◌&&◌, ◌||◌, Option, none, some, List, [], ◌∷◌, ltb,
  if◌then◌else◌, ◌==◌, ◌≡◌, refl,
}
use agentland.Text.{Bytes, bytes, bytes_eq, has_prefix, trim_space, to_lower, atoi, ℤ, pos, negsuc}
use agentland.Text.Base64
use agentland.FilePath.{slash, dot_dot, split}

abbrev pub default_file_encoding : Bytes
default_file_encoding = bytes "utf8"

abbrev pub in_range : Option ℤ → Option ℕ
in_range none = none
in_range (some (negsuc n)) = none
in_range (some (pos n)) = if ltb n 1 || ltb 20 n then none else some n

unfoldable pub parse_depth : Bytes → Option ℕ
unfolding trim_space atoi
parse_depth v = in_range (atoi (trim_space v))

unfoldable pub parse_include_hidden : Bytes → Option Bool
unfolding trim_space to_lower
parse_include_hidden v =
    let t = to_lower (trim_space v) in
    if bytes_eq t (bytes "true") || bytes_eq t (bytes "1")
    then some true
    else if bytes_eq t (bytes "false") || bytes_eq t (bytes "0") || bytes_eq t []
    then some false
    else none

unfoldable pub is_hidden : Bytes → Bool
unfolding has_prefix
is_hidden seg =
    has_prefix seg (bytes ".") && not (bytes_eq seg (bytes ".")) && not (bytes_eq seg dot_dot)

unfoldable pub any_hidden : List Bytes → Bool
unfolding is_hidden
any_hidden [] = false
any_hidden (s ∷ ss) = is_hidden s || any_hidden ss

unfoldable pub contains_hidden_segment : Bytes → Bool
unfolding any_hidden split
contains_hidden_segment path = any_hidden (split slash path)

-- strings.Count of one byte.
unfoldable pub count : ℕ → Bytes → ℕ
count b [] = 0
count b (c ∷ s) = let rest = count b s in if c == b then suc rest else rest

unfoldable pub path_depth : Bytes → ℕ
unfolding count
path_depth path = if bytes_eq path (bytes ".") || bytes_eq path [] then 0 else count slash path + 1

unfoldable pub parse_encoding : Bytes → Option Bytes
unfolding trim_space to_lower
parse_encoding v =
    let t = to_lower (trim_space v) in
    if bytes_eq t [] || bytes_eq t (bytes "utf8") || bytes_eq t (bytes "utf-8")
    then some default_file_encoding
    else if bytes_eq t (bytes "base64")
    then some (bytes "base64")
    else none

unfoldable pub decode_content : Bytes → Bytes → Option Bytes
unfolding Base64.decode
decode_content content encoding =
    if bytes_eq encoding default_file_encoding
    then some content
    else if bytes_eq encoding (bytes "base64")
    then Base64.decode content
    else none

test_depth : parse_depth (bytes " 20 ") ≡ some 20
unfolding parse_depth
test_depth = refl

test_depth_above : parse_depth (bytes "21") ≡ none
unfolding parse_depth
test_depth_above = refl

test_hidden : contains_hidden_segment (bytes "a/.git/config") ≡ true
unfolding contains_hidden_segment
test_hidden = refl
