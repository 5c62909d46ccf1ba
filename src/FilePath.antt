-- ===== src/FilePath.antt =====
-- What the program uses of Go's `path/filepath` on Unix, on the segments between the slashes.
pub mod Segments
pub mod Cleaning
pub mod Relative
use mathlib.Core.List.{reverse}
use agentland.Base.{
  ℕ, Bool, true, false, not, ◌&&◌, ◌||◌, Option, none, some, List, [], ◌∷◌, ◌++◌, ◌==◌,
  if◌then◌else◌, ◌≡◌, refl, ◌≢◌, All, map,
}
use agentland.Text.{Bytes, bytes, bytes_eq, has_prefix}

abbrev pub slash : ℕ
slash = b'/'

abbrev pub dot_dot : Bytes
dot_dot = bytes ".."

-- strings.Split at one byte; the segment that is open comes first.
abbrev add_first : ℕ → List Bytes → List Bytes
add_first c [] = (c ∷ []) ∷ []
add_first c (s ∷ ss) = (c ∷ s) ∷ ss

unfoldable pub split : ℕ → Bytes → List Bytes
split sep [] = [] ∷ []
split sep (c ∷ s) = let rest = split sep s in if c == sep then [] ∷ rest else add_first c rest

-- strings.Join
unfoldable pub join : Bytes → List Bytes → Bytes
join sep [] = []
join sep (s ∷ []) = s
join sep (s ∷ t ∷ ss) = s ++ (sep ++ join sep (t ∷ ss))

abbrev pub is_dot_dot : Bytes → Bool
is_dot_dot s = bytes_eq s dot_dot

-- A `..` removes the segment before it; above the root it goes, at the start of a relative path it
-- stays.
abbrev pub parent : Bool → List Bytes → List Bytes
parent rooted [] = if rooted then [] else dot_dot ∷ []
parent rooted (t ∷ ts) = if is_dot_dot t then dot_dot ∷ t ∷ ts else ts

-- One segment against those kept, the last on top.
abbrev pub push_segment : Bool → Bytes → List Bytes → List Bytes
push_segment rooted s kept =
    if bytes_eq s [] || bytes_eq s (bytes ".")
    then kept
    else if is_dot_dot s
    then parent rooted kept
    else s ∷ kept

unfoldable pub resolve : Bool → List Bytes → List Bytes → List Bytes
resolve rooted kept [] = reverse kept
resolve rooted kept (s ∷ ss) = resolve rooted (push_segment rooted s kept) ss

-- filepath.IsAbs
abbrev pub is_abs : Bytes → Bool
is_abs s = has_prefix s (bytes "/")

abbrev pub segments : Bytes → List Bytes
segments s = resolve (is_abs s) [] (split slash s)

abbrev pub or_dot : Bytes → Bytes
or_dot [] = bytes "."
or_dot (c ∷ s) = c ∷ s

-- filepath.Clean
unfoldable pub clean : Bytes → Bytes
unfolding has_prefix split resolve join
clean s =
    if is_abs s
    then slash ∷ join (bytes "/") (segments s)
    else or_dot (join (bytes "/") (segments s))

-- filepath.Join of two elements; empty ones are left out.
unfoldable pub join_paths : Bytes → Bytes → Bytes
unfolding clean
join_paths [] [] = []
join_paths [] (c ∷ t) = clean (c ∷ t)
join_paths (c ∷ s) [] = clean (c ∷ s)
join_paths (c ∷ s) (d ∷ t) = clean ((c ∷ s) ++ (slash ∷ d ∷ t))

-- What is left of two lists behind the segments that they share.
unfoldable pub unshared : List Bytes → List Bytes → List Bytes × List Bytes
unshared [] ts = ([], ts)
unshared (s ∷ ss) [] = (s ∷ ss, [])
unshared (s ∷ ss) (t ∷ ts) =
    let rest = unshared ss ts in if bytes_eq s t then rest else (s ∷ ss, t ∷ ts)

-- From what is left of the base up, then down to the target; no way leads up out of a `..`.
abbrev pub rel_segments : List Bytes × List Bytes → Option (List Bytes)
rel_segments ([], ts) = some ts
rel_segments (s ∷ ss, ts) = if is_dot_dot s then none else some (map (λ _. dot_dot) (s ∷ ss) ++ ts)

abbrev pub joined_or_dot : Option (List Bytes) → Option Bytes
joined_or_dot none = none
joined_or_dot (some ss) = some (or_dot (join (bytes "/") ss))

-- filepath.Rel. A path and its base are both absolute or both relative.
unfoldable pub rel : Bytes → Bytes → Option Bytes
unfolding has_prefix split resolve join unshared
rel base target =
    if (is_abs base && is_abs target) || (not (is_abs base) && not (is_abs target))
    then joined_or_dot (rel_segments (unshared (segments base) (segments target)))
    else none

-- Of a reversed path: what comes behind its last element, and that element.
unfoldable pub from_slash : Bytes → Bytes
from_slash [] = []
from_slash (c ∷ s) = let rest = from_slash s in if c == slash then c ∷ s else rest

unfoldable pub until_slash : Bytes → Bytes
until_slash [] = []
until_slash (c ∷ s) = let rest = until_slash s in if c == slash then [] else c ∷ rest

unfoldable pub without_slashes : Bytes → Bytes
without_slashes [] = []
without_slashes (c ∷ s) = let rest = without_slashes s in if c == slash then rest else c ∷ s

-- filepath.Dir
unfoldable pub dir : Bytes → Bytes
unfolding clean from_slash
dir s = clean (reverse (from_slash (reverse s)))

abbrev or_slash : Bytes → Bytes
or_slash [] = bytes "/"
or_slash (c ∷ s) = c ∷ s

-- filepath.Base
unfoldable pub base : Bytes → Bytes
unfolding until_slash without_slashes
base [] = bytes "."
base (c ∷ s) = or_slash (reverse (until_slash (without_slashes (reverse (c ∷ s)))))

test_dir : dir (bytes "/w/a/../b") ≡ bytes "/w"
unfolding dir
test_dir = refl

test_base : base (bytes "/w/a.txt//") ≡ bytes "a.txt"
unfolding base
test_base = refl

test_clean : clean (bytes "/workspace/./a//../../x/../etc/") ≡ bytes "/etc"
unfolding clean
test_clean = refl

test_clean_relative : clean (bytes "a/../../b/.") ≡ bytes "../b"
unfolding clean
test_clean_relative = refl

test_rel : rel (bytes "/w/a") (bytes "/w/b/c") ≡ some (bytes "../b/c")
unfolding rel
test_rel = refl
