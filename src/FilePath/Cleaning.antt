-- ===== src/FilePath/Cleaning.antt =====
-- Absolute paths as the text of their segments.
use agentland.Base.{true, List, [], ◌∷◌, ◌++◌, ◌≡◌, refl, ap, ◌∙◌, All, arith}
use agentland.Text.{Bytes, bytes, has_prefix}
use agentland.FilePath.{slash, split, join, resolve, segments, clean, is_abs}
use agentland.FilePath.Segments.{NoSlash, IsNormal, resolve_normal}

-- The absolute path with these segments.
abbrev pub render : List Bytes → Bytes
render ss = slash ∷ join (bytes "/") ss

pub clean_abs : (s : Bytes) → is_abs s ≡ true → clean s ≡ render (segments s)
unfolding clean
clean_abs s h = rw h refl

pub split_segment : (s : Bytes) → NoSlash s → split slash s ≡ s ∷ []
unfolding split
split_segment [] h = refl
split_segment (c ∷ s) h = ground (arith, h.0, split_segment s h.1)

pub split_joined : (s r : Bytes) → NoSlash s → split slash (s ++ (slash ∷ r)) ≡ s ∷ split slash r
unfolding split
split_joined [] r h = refl
split_joined (c ∷ s) r h = ground (arith, h.0, split_joined s r h.1)

pub split-join :
    (s : Bytes) (ss : List Bytes)
    → All IsNormal (s ∷ ss)
    → split slash (join (bytes "/") (s ∷ ss)) ≡ s ∷ ss
unfolding join
split-join s [] h = split_segment s h.0.no_slash
split-join s (t ∷ ss) h =
    split_joined s (join (bytes "/") (t ∷ ss)) h.0.no_slash ∙ ap (λ r. s ∷ r) (split-join t ss h.1)

pub segments-render :
    (s : Bytes) (ss : List Bytes) → All IsNormal (s ∷ ss) → segments (render (s ∷ ss)) ≡ s ∷ ss
unfolding split resolve has_prefix
segments-render s ss h = rw (split-join s ss h) (resolve_normal (s ∷ ss) [] h)

-- A path of normal segments is clean.
pub clean-render :
    (s : Bytes) (ss : List Bytes)
    → All IsNormal (s ∷ ss)
    → clean (render (s ∷ ss)) ≡ render (s ∷ ss)
unfolding has_prefix
clean-render s ss h = clean_abs (render (s ∷ ss)) refl ∙ ap render (segments-render s ss h)
