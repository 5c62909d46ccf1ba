-- ===== src/Text/Trim.antt =====
-- Trimming white space. `IsPlain` are the bytes of printed ASCII, white space not among them.
use mathlib.Core.List.{reverse, reverse-append, reverse-reverse}
use agentland.Base.{ℕ, zero, suc, ◌<◌, ◌≤◌, ◌≡◌, refl, sym, ap, ◌∙◌, [], ◌∷◌, ◌++◌, arith, All}
use agentland.Text.{Bytes, strip, trim_space, space_width, space_width_end}

abbrev pub IsPlain : Bytes → Type 0
IsPlain = All (λ b. (33 ≤ b) × (b < 128))

pub space_width-plain : (b : ℕ) (s : Bytes) → (33 ≤ b) × (b < 128) → space_width (b ∷ s) ≡ 0
unfolding space_width
space_width-plain b [] h = ground (arith, h)
space_width-plain b (c ∷ []) h = ground (arith, h)
space_width-plain b (c ∷ d ∷ s) h = ground (arith, h)

pub space_width_end-plain : (b : ℕ) (s : Bytes) → (33 ≤ b) × (b < 128) → space_width_end (b ∷ s) ≡ 0
unfolding space_width_end
space_width_end-plain b [] h = ground (arith, h)
space_width_end-plain b (c ∷ []) h = ground (arith, h)
space_width_end-plain b (c ∷ d ∷ s) h = ground (arith, h)

-- What starts a longer text without white space starts without it.
space_width-append : (u w : Bytes) → space_width (u ++ w) ≡ 0 → space_width u ≡ 0
unfolding space_width
space_width-append [] w h = refl
space_width-append (a ∷ []) [] h = h
space_width-append (a ∷ []) (b ∷ []) h = ground (arith, h)
space_width-append (a ∷ []) (b ∷ c ∷ w) h = ground (arith, h)
space_width-append (a ∷ b ∷ []) [] h = h
space_width-append (a ∷ b ∷ []) (c ∷ w) h = ground (arith, h)
space_width-append (a ∷ b ∷ c ∷ u) w h = h

empty_start : space_width [] ≡ 0
unfolding space_width
empty_start = refl

empty_end : space_width_end [] ≡ 0
unfolding space_width_end
empty_end = refl

module _ (width : Bytes → ℕ) where
  stop-width :
      (n : ℕ) (x : Bytes) (rest : ℕ → Bytes)
      → width x ≡ n
      → ((k : ℕ) → width (rest k) ≡ 0)
      → width (elim n [ zero ↦ x | suc k ↦ rest k ]) ≡ 0
  stop-width zero x rest e h = e
  stop-width (suc k) x rest e h = h k

  stop-suffix :
      (n a : ℕ) (s : Bytes) (rest : ℕ → Bytes)
      → ((k : ℕ) → (w : Bytes) × (w ++ rest k ≡ s))
      → (w : Bytes) × (w ++ elim n [ zero ↦ a ∷ s | suc k ↦ rest k ] ≡ a ∷ s)
  stop-suffix zero a s rest h = ([], refl)
  stop-suffix (suc k) a s rest h = (a ∷ (h k).0, ap (λ (t : Bytes). a ∷ t) (h k).1)

  strip_none : (s : Bytes) → width s ≡ 0 → strip width 0 s ≡ s
  unfolding strip
  strip_none [] h = refl
  strip_none (a ∷ s) h = rw (h, strip) refl

  strip-width : width [] ≡ 0 → (k : ℕ) (s : Bytes) → width (strip width k s) ≡ 0
  unfolding strip
  strip-width e k [] = e
  strip-width e (suc k) (a ∷ s) = strip-width e k s
  strip-width e zero (a ∷ s) =
      stop-width (width (a ∷ s)) (a ∷ s) (λ k. strip width k s) refl (λ k. strip-width e k s)

  strip-suffix : (k : ℕ) (s : Bytes) → (w : Bytes) × (w ++ strip width k s ≡ s)
  unfolding strip
  strip-suffix k [] = ([], refl)
  strip-suffix (suc k) (a ∷ s) =
      (a ∷ (strip-suffix k s).0, ap (λ (t : Bytes). a ∷ t) (strip-suffix k s).1)
  strip-suffix zero (a ∷ s) =
      stop-suffix (width (a ∷ s)) a s (λ k. strip width k s) (λ k. strip-suffix k s)

-- A text without white space at its ends is left alone.
pub trim_space_none :
    (s : Bytes) → space_width s ≡ 0 → space_width_end (reverse s) ≡ 0 → trim_space s ≡ s
unfolding trim_space
trim_space_none s h k =
    ap (λ (t : Bytes). reverse (strip space_width_end 0 (reverse t))) (strip_none space_width s h)
    ∙ ap (λ (t : Bytes). reverse t) (strip_none space_width_end (reverse s) k)
    ∙ reverse-reverse s

-- Trimming twice is trimming once.
pub trim_space_idem : (s : Bytes) → trim_space (trim_space s) ≡ trim_space s
unfolding trim_space
trim_space_idem s =
    let t : Bytes = strip space_width 0 s in
    let u : Bytes = strip space_width_end 0 (reverse t) in
    let (w, e) = strip-suffix space_width_end 0 (reverse t) in
    let whole : reverse u ++ reverse w ≡ t =
      sym (reverse-append w u) ∙ ap (λ (x : Bytes). reverse x) e ∙ reverse-reverse t in
    trim_space_none (reverse u)
      (space_width-append (reverse u) (reverse w)
        (ap space_width whole ∙ strip-width space_width empty_start 0 s))
      (ap space_width_end (reverse-reverse u) ∙ strip-width space_width_end empty_end 0 (reverse t))
