-- ===== src/Cipher/Keystream.antt =====
-- Laws of `apply_keystream`.
use cpxy.Base.{
  ℕ, zero, suc, ◌+◌, ◌<◌, ◌≡◌, refl, ap, ◌∙◌, Bytes, [], ◌∷◌, ◌++◌, length, take, arith,
}
use cpxy.Cipher.{Mask, apply_keystream}

pub length-apply_keystream :
    (mask : Mask) (k : ℕ) (bs : Bytes) → length (apply_keystream mask k bs) ≡ length bs
unfolding apply_keystream
length-apply_keystream mask k [] = refl
length-apply_keystream mask k (b ∷ bs) = ap suc (length-apply_keystream mask (suc k) bs)

pub apply_keystream-append :
    (mask : Mask) (k : ℕ) (xs ys : Bytes)
    → apply_keystream mask k (xs ++ ys)
      ≡ apply_keystream mask k xs ++ apply_keystream mask (k + length xs) ys
unfolding apply_keystream
apply_keystream-append mask k [] ys =
    ap (λ (p : ℕ). apply_keystream mask p ys) {x = k} {y = k + 0} (omega arith)
apply_keystream-append mask k (x ∷ xs) ys =
    ap (λ (b : Bytes). mask k x ∷ b)
      (apply_keystream-append mask (suc k) xs ys
        ∙ ap (λ (p : ℕ). apply_keystream mask (suc k) xs ++ apply_keystream mask p ys)
            {x = suc k + length xs} {y = k + suc (length xs)} (omega arith))

pub take-apply_keystream :
    (mask : Mask) (k n : ℕ) (bs : Bytes)
    → take n (apply_keystream mask k bs) ≡ apply_keystream mask k (take n bs)
unfolding apply_keystream
take-apply_keystream mask k zero bs = refl
take-apply_keystream mask k (suc n) [] = refl
take-apply_keystream mask k (suc n) (b ∷ bs) =
    ap (λ (x : Bytes). mask k b ∷ x) (take-apply_keystream mask (suc k) n bs)

-- Two keystreams that agree where the bytes are.
pub apply_keystream-agree :
    (f g : Mask) (j k : ℕ) (bs : Bytes)
    → ((i b : ℕ) → i < length bs → f (j + i) b ≡ g (k + i) b)
    → apply_keystream f j bs ≡ apply_keystream g k bs
unfolding apply_keystream
apply_keystream-agree f g j k [] h = refl
apply_keystream-agree f g j k (b ∷ bs) h =
    let here : f j b ≡ g k b =
      ap (λ (p : ℕ). f p b) {x = j} {y = j + 0} (omega arith)
      ∙ h 0 b (omega arith)
      ∙ ap (λ (p : ℕ). g p b) {x = k + 0} {y = k} (omega arith) in
    let later = apply_keystream-agree f g (suc j) (suc k) bs (λ i x l.
      ap (λ (p : ℕ). f p x) {x = suc j + i} {y = j + suc i} (omega arith)
      ∙ h (suc i) x (omega arith)
      ∙ ap (λ (p : ℕ). g p x) {x = k + suc i} {y = suc k + i} (omega arith)) in
    rw (here, later)

pub apply_keystream_twice :
    (mask : Mask)
    → ((p b : ℕ) → mask p (mask p b) ≡ b)
    → (k : ℕ) (bs : Bytes) → apply_keystream mask k (apply_keystream mask k bs) ≡ bs
unfolding apply_keystream
apply_keystream_twice mask h k [] = refl
apply_keystream_twice mask h k (b ∷ bs) = rw (h k b, apply_keystream_twice mask h (suc k) bs)
