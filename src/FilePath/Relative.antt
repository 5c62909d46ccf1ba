-- ===== src/FilePath/Relative.antt =====
-- Going from one absolute path to another that continues it.
use agentland.Text.Search.{bytes_eq→≡, bytes_eq_refl}
use agentland.Base.{
  Bool, true, false, ◌||◌, some, List, [], ◌∷◌, ◌++◌, ◌≡◌, refl, ap, sym, ◌∙◌, All, arith,
  Bool-cases, inl, inr, length, length-append, ◌≢◌, All-append,
}
use agentland.Text.{Bytes, bytes, bytes_eq, has_prefix}
use agentland.FilePath.{
  slash, dot_dot, is_dot_dot, split, join, resolve, segments, clean, is_abs, join_paths, unshared,
  rel, or_dot, rel_segments, joined_or_dot, parent, push_segment,
}
use mathlib.Core.List.{append_assoc}
use agentland.FilePath.Segments.{
  NoSlash, IsNormal, resolve_normal, All-reverse, split-NoSlash, segments-IsNormal,
}
use agentland.FilePath.Cleaning.{render, clean_abs, segments-render, split_segment}

pub render-is_abs : (ss : List Bytes) → is_abs (render ss) ≡ true
unfolding has_prefix
render-is_abs ss = refl

pub segments-render-All : (ss : List Bytes) → All IsNormal ss → segments (render ss) ≡ ss
unfolding split resolve has_prefix join
segments-render-All [] n = refl
segments-render-All (s ∷ ss) n = segments-render s ss n

pub clean-render-All : (ss : List Bytes) → All IsNormal ss → clean (render ss) ≡ render ss
clean-render-All ss n =
    clean_abs (render ss) (render-is_abs ss) ∙ ap render (segments-render-All ss n)

pub rel-render :
    (bs ts : List Bytes)
    → All IsNormal bs
    → All IsNormal ts
    → rel (render bs) (render ts) ≡ joined_or_dot (rel_segments (unshared bs ts))
unfolding rel
rel-render bs ts nb nt = rw (segments-render-All bs nb, segments-render-All ts nt) refl

unshared-append : (bs ts : List Bytes) → unshared bs (bs ++ ts) ≡ ([], ts)
unfolding unshared
unshared-append [] ts = refl
unshared-append (b ∷ bs) ts = rw (bytes_eq_refl b) (unshared-append bs ts)

-- From a directory to what is below it.
pub rel_below :
    (bs ts : List Bytes)
    → All IsNormal bs
    → All IsNormal ts
    → rel (render bs) (render (bs ++ ts)) ≡ some (or_dot (join (bytes "/") ts))
rel_below bs ts nb nt =
    rel-render bs (bs ++ ts) nb (All-append IsNormal bs ts nb nt)
    ∙ ap (λ u. joined_or_dot (rel_segments u)) (unshared-append bs ts)

pub or_dot-join :
    (s : Bytes) (ss : List Bytes)
    → IsNormal s
    → or_dot (join (bytes "/") (s ∷ ss)) ≡ join (bytes "/") (s ∷ ss)
unfolding join
or_dot-join [] [] n = absurd (ground (arith, n.not_empty))
or_dot-join (c ∷ s) [] n = refl
or_dot-join [] (t ∷ ss) n = absurd (ground (arith, n.not_empty))
or_dot-join (c ∷ s) (t ∷ ss) n = refl

append-ne : {A : Type 0} (xs ys : List A) (y : A) → xs ++ y ∷ ys ≢ xs
append-ne xs ys y e = omega (arith, ap length e, length-append xs (y ∷ ys))

-- What is below a directory is not the directory.
pub below-ne :
    (bs ts : List Bytes) (t : Bytes)
    → All IsNormal bs
    → All IsNormal (t ∷ ts)
    → bytes_eq (render (bs ++ t ∷ ts)) (render bs) ≡ false
below-ne bs ts t nb nt = elim (Bool-cases (bytes_eq (render (bs ++ t ∷ ts)) (render bs))) [
  | inr e ↦ e
  | inl e ↦
      let same : bs ++ t ∷ ts ≡ bs =
        sym (segments-render-All (bs ++ t ∷ ts) (All-append IsNormal bs (t ∷ ts) nb nt))
        ∙ ap segments (bytes_eq→≡ (render (bs ++ t ∷ ts)) (render bs) e)
        ∙ segments-render-All bs nb in
      absurd (append-ne bs ts t same)
]

join-append :
    (b : Bytes) (bs : List Bytes) (n : Bytes)
    → join (bytes "/") (b ∷ bs) ++ (slash ∷ n) ≡ join (bytes "/") (b ∷ bs ++ n ∷ [])
unfolding join
join-append b [] n = refl
join-append b (d ∷ bs) n =
    append_assoc b (slash ∷ join (bytes "/") (d ∷ bs)) (slash ∷ n)
    ∙ ap (λ t. b ++ (slash ∷ t)) (join-append d bs n)

segments_root : (n : Bytes) → IsNormal n → segments (slash ∷ slash ∷ n) ≡ n ∷ []
unfolding split resolve has_prefix
segments_root n h = rw (split_segment n h.no_slash) (resolve_normal (n ∷ []) [] (h, tt))

-- The path of an entry, from that of its directory.
pub join_paths-render :
    (bs : List Bytes) (n : Bytes)
    → All IsNormal bs
    → IsNormal n
    → join_paths (render bs) n ≡ render (bs ++ n ∷ [])
unfolding join_paths
join_paths-render bs [] nb h = absurd (ground (arith, h.not_empty))
join_paths-render [] (c ∷ n) nb h =
    clean_abs (slash ∷ slash ∷ c ∷ n) (unfold has_prefix in refl)
    ∙ ap render (segments_root (c ∷ n) h)
join_paths-render (b ∷ bs) (c ∷ n) nb h =
    ap (λ t. clean (slash ∷ t)) (join-append b bs (c ∷ n))
    ∙ clean-render-All (b ∷ bs ++ (c ∷ n) ∷ [])
        (All-append IsNormal (b ∷ bs) ((c ∷ n) ∷ []) nb (h, tt))

-- What a segment of any cleaned path is: not empty, and with no slash in it.
pub record IsSegment (s : Bytes) : Type 0 where
  pub not_empty : bytes_eq s [] ≡ false
  pub no_slash : NoSlash s

dot_dot-IsSegment : IsSegment dot_dot
dot_dot-IsSegment = record { not_empty = refl; no_slash = (omega arith, (omega arith, tt)) }

parent-IsSegment :
    (rooted : Bool) (kept : List Bytes) → All IsSegment kept → All IsSegment (parent rooted kept)
parent-IsSegment true [] k = tt
parent-IsSegment false [] k = (dot_dot-IsSegment, tt)
parent-IsSegment rooted (t ∷ ts) k = elim (Bool-cases (is_dot_dot t)) [
  | inl e ↦ rw e (dot_dot-IsSegment, k)
  | inr e ↦ rw e k.1
]

push-IsSegment :
    (rooted : Bool) (s : Bytes) (kept : List Bytes)
    → NoSlash s
    → All IsSegment kept
    → All IsSegment (push_segment rooted s kept)
push-IsSegment rooted s kept h k = elim (Bool-cases (bytes_eq s [] || bytes_eq s (bytes "."))) [
  | inl e ↦ rw e k
  | inr e ↦ elim (Bool-cases (is_dot_dot s)) [
    | inl d ↦ rw (e, d) (parent-IsSegment rooted kept k)
    | inr d ↦ rw (e, d) (record { not_empty = ground (arith, e); no_slash = h }, k)
  ]
]

resolve-IsSegment :
    (rooted : Bool) (ss kept : List Bytes)
    → All NoSlash ss
    → All IsSegment kept
    → All IsSegment (resolve rooted kept ss)
unfolding resolve
resolve-IsSegment rooted [] kept h k = All-reverse IsSegment kept k
resolve-IsSegment rooted (s ∷ ss) kept h k =
    resolve-IsSegment rooted ss (push_segment rooted s kept) h.1
      (push-IsSegment rooted s kept h.0 k)

join-not_abs : (ss : List Bytes) → All IsSegment ss → is_abs (or_dot (join (bytes "/") ss)) ≡ false
unfolding join has_prefix
join-not_abs [] h = refl
join-not_abs ([] ∷ []) h = refl
join-not_abs ((c ∷ s) ∷ []) h = ground (arith, h.0.no_slash.0)
join-not_abs ([] ∷ t ∷ ss) h = absurd (ground (arith, h.0.not_empty))
join-not_abs ((c ∷ s) ∷ t ∷ ss) h = ground (arith, h.0.no_slash.0)

-- Cleaning makes no relative path absolute.
clean-not_abs : (s : Bytes) → is_abs s ≡ false → is_abs (clean s) ≡ false
unfolding clean
clean-not_abs s h = rw h (
    join-not_abs (resolve false [] (split slash s))
      (resolve-IsSegment false (split slash s) [] (split-NoSlash s) tt))

-- A cleaned path that is absolute is the text of normal segments.
pub clean-form :
    (s : Bytes)
    → is_abs (clean s) ≡ true
    → (ss : List Bytes) × (clean s ≡ render ss) × All IsNormal ss
clean-form s h = elim (Bool-cases (is_abs s)) [
  | inl e ↦ (segments s, clean_abs s e, segments-IsNormal s e)
  | inr e ↦ absurd (ground (arith, h, clean-not_abs s e))
]
