-- ===== src/Text/Prefixed.antt =====
-- Texts that stand behind their lengths, with which the concrete encodings of the tests are made.
use agentland.Base.{length, take, drop, ap, [], ◌∷◌, ◌++◌, ◌≡◌, refl}
use agentland.Text.{Bytes}

unfoldable pub put_text : Bytes → Bytes → Bytes
put_text s r = length s ∷ s ++ r

unfoldable pub get_text {ℓ} : {B : Type ℓ} → Bytes → (Bytes → Bytes → B) → B
get_text [] k = k [] []
get_text (n ∷ t) k = k (take n t) (drop n t)

take-length : (s r : Bytes) → take (length s) (s ++ r) ≡ s
take-length [] r = refl
take-length (b ∷ s) r = ap (λ t. b ∷ t) (take-length s r)

drop-length : (s r : Bytes) → drop (length s) (s ++ r) ≡ r
drop-length [] r = refl
drop-length (b ∷ s) r = drop-length s r

pub get_text-put_text {ℓ} :
    {B : Type ℓ} (s r : Bytes) (k : Bytes → Bytes → B) → get_text (put_text s r) k ≡ k s r
unfolding get_text put_text
get_text-put_text s r k = rw (take-length s r, drop-length s r) refl
