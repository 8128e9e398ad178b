-- ===== src/Base/Slices.antt =====
-- A slice of a longer list: what `take` and `drop` read when more bytes follow.
use Prim.Native.Nat.{ℕ, zero, suc, ◌+◌, ◌-◌, ◌<◌, ◌≤◌, min}
use mathlib.Core.Path.{◌≡◌, refl, ap, sym, ◌∙◌}
use mathlib.Core.List.{List, [], ◌∷◌, ◌++◌, append-nil, append_assoc}
use native.Mathlib.Omega.{arith}
use cpxy.Base.Lists.{length, length-append, take, drop}

module _ {ℓ} {A : Type ℓ} where
  pub take-append_le : (n : ℕ) (xs ys : List A) → n ≤ length xs → take n (xs ++ ys) ≡ take n xs
  take-append_le zero xs ys h = refl
  take-append_le (suc n) [] ys h = absurd (omega arith)
  take-append_le (suc n) (x ∷ xs) ys h = ap (◌∷◌ x) (take-append_le n xs ys (omega arith))

  pub drop-append_le :
      (n : ℕ) (xs ys : List A) → n ≤ length xs → drop n (xs ++ ys) ≡ drop n xs ++ ys
  drop-append_le zero xs ys h = refl
  drop-append_le (suc n) [] ys h = absurd (omega arith)
  drop-append_le (suc n) (x ∷ xs) ys h = drop-append_le n xs ys (omega arith)

  pub take-append : (n : ℕ) (xs ys : List A) → length xs ≡ n → take n (xs ++ ys) ≡ xs
  take-append zero [] ys h = refl
  take-append zero (x ∷ xs) ys h = absurd (omega arith)
  take-append (suc n) [] ys h = absurd (omega arith)
  take-append (suc n) (x ∷ xs) ys h = ap (◌∷◌ x) (take-append n xs ys (omega arith))

  pub drop-append : (n : ℕ) (xs ys : List A) → length xs ≡ n → drop n (xs ++ ys) ≡ ys
  drop-append zero [] ys h = refl
  drop-append zero (x ∷ xs) ys h = absurd (omega arith)
  drop-append (suc n) [] ys h = absurd (omega arith)
  drop-append (suc n) (x ∷ xs) ys h = drop-append n xs ys (omega arith)

  pub take-length : (n : ℕ) (xs : List A) → length xs ≡ n → take n xs ≡ xs
  take-length n xs h = ap (take n) (sym (append-nil xs)) ∙ take-append n xs [] h

  drop-nil : (n : ℕ) → drop {A = A} n [] ≡ []
  drop-nil zero = refl
  drop-nil (suc n) = refl

  pub drop-drop : (m n : ℕ) (xs : List A) → drop n (drop m xs) ≡ drop (m + n) xs
  drop-drop zero n xs = ap (λ (k : ℕ). drop k xs) (omega arith)
  drop-drop (suc m) n [] = drop-nil n ∙ sym (drop-nil (suc m + n))
  drop-drop (suc m) n (x ∷ xs) = drop-drop m n xs ∙ ap (λ (k : ℕ). drop k (x ∷ xs)) (eq m n)
    where
      eq : (a b : ℕ) → suc (a + b) ≡ suc a + b
      eq a b = omega arith

  pub take-take : (m n : ℕ) (xs : List A) → m ≤ n → take m (take n xs) ≡ take m xs
  take-take zero n xs h = refl
  take-take (suc m) zero xs h = absurd (omega arith)
  take-take (suc m) (suc n) [] h = refl
  take-take (suc m) (suc n) (x ∷ xs) h = ap (◌∷◌ x) (take-take m n xs (omega arith))

  pub take-drop-take :
      (m k n : ℕ) (xs : List A) → m + k ≤ n → take k (drop m (take n xs)) ≡ take k (drop m xs)
  take-drop-take zero k n xs h = take-take k n xs (omega arith)
  take-drop-take (suc m) k zero xs h = absurd (omega arith)
  take-drop-take (suc m) k (suc n) [] h = refl
  take-drop-take (suc m) k (suc n) (x ∷ xs) h = take-drop-take m k n xs (omega arith)

  take-nil : (n : ℕ) → take {A = A} n [] ≡ []
  take-nil zero = refl
  take-nil (suc n) = refl

  take-sub_zero : (n : ℕ) (xs : List A) → take n xs ≡ take (n - 0) xs
  take-sub_zero n xs = ap (λ (k : ℕ). take k xs) (sub_zero n)
    where
      sub_zero : (k : ℕ) → k ≡ k - 0
      sub_zero k = omega arith

  pub drop-take : (m n : ℕ) (xs : List A) → drop m (take n xs) ≡ take (n - m) (drop m xs)
  drop-take zero n xs = take-sub_zero n xs
  drop-take (suc m) zero xs = sym (ap (λ (k : ℕ). take k (drop (suc m) xs)) (zero_sub m))
    where
      zero_sub : (k : ℕ) → 0 - suc k ≡ 0
      zero_sub k = omega arith
  drop-take (suc m) (suc n) [] = sym (take-nil _)
  drop-take (suc m) (suc n) (x ∷ xs) =
      drop-take m n xs ∙ ap (λ (k : ℕ). take k (drop m xs)) (suc_sub n m)
    where
      suc_sub : (a b : ℕ) → a - b ≡ suc a - suc b
      suc_sub a b = omega arith

  pub take-min : (n : ℕ) (xs : List A) → take (min (length xs) n) xs ≡ take n xs
  take-min zero xs = ap (λ (k : ℕ). take k xs) {x = min (length xs) 0} {y = 0} (omega arith)
  take-min (suc n) [] = ap (λ (k : ℕ). take k []) {x = min 0 (suc n)} {y = 0} (omega arith)
  take-min (suc n) (x ∷ xs) =
      ap (λ (k : ℕ). take k (x ∷ xs)) {x = min (suc (length xs)) (suc n)}
        {y = suc (min (length xs) n)} (omega arith)
      ∙ ap (◌∷◌ x) (take-min n xs)

  pub drop-min : (n : ℕ) (xs : List A) → drop (min (length xs) n) xs ≡ drop n xs
  drop-min zero xs = ap (λ (k : ℕ). drop k xs) {x = min (length xs) 0} {y = 0} (omega arith)
  drop-min (suc n) [] = ap (λ (k : ℕ). drop k []) {x = min 0 (suc n)} {y = 0} (omega arith)
  drop-min (suc n) (x ∷ xs) =
      ap (λ (k : ℕ). drop k (x ∷ xs)) {x = min (suc (length xs)) (suc n)}
        {y = suc (min (length xs) n)} (omega arith)
      ∙ drop-min n xs

  -- Two fields of known length and what follows them.
  pub two_fields :
      (m n : ℕ) (xs ys rest : List A)
      → length xs ≡ m
      → length ys ≡ n
      → (take m ((xs ++ ys) ++ rest) ≡ xs)
        × (take n (drop m ((xs ++ ys) ++ rest)) ≡ ys)
        × (length ((xs ++ ys) ++ rest) ≡ m + n + length rest)
  two_fields m n xs ys rest hm hn = rw (append_assoc xs ys rest) (
    take-append m xs (ys ++ rest) hm,
    rw (drop-append m xs (ys ++ rest) hm) (take-append n ys rest hn),
    omega (arith, length-append xs (ys ++ rest), length-append ys rest),
  )

  pub take-append_ge :
      (n : ℕ) (xs ys : List A) → length xs ≤ n → take n (xs ++ ys) ≡ xs ++ take (n - length xs) ys
  take-append_ge n [] ys h = ap (λ (m : ℕ). take m ys) {x = n} {y = n - 0} (omega arith)
  take-append_ge zero (x ∷ xs) ys h = absurd (omega arith)
  take-append_ge (suc n) (x ∷ xs) ys h = ap (◌∷◌ x) (
      take-append_ge n xs ys (omega arith)
      ∙ ap (λ (m : ℕ). xs ++ take m ys) {x = n - length xs} {y = suc n - suc (length xs)}
          (omega arith))

  -- A list is longer than its front.
  pub take_split :
      (n : ℕ) (xs : List A)
      → n < length xs
      → (x : A) × (back : List A) × (xs ≡ take n xs ++ (x ∷ back))
  take_split n [] h = absurd (omega arith)
  take_split zero (x ∷ xs) h = (x, xs, refl)
  take_split (suc n) (x ∷ xs) h =
      let (y, back, e) = take_split n xs (omega arith) in (y, back, ap (◌∷◌ x) e)
