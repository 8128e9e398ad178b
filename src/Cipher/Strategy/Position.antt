-- ===== src/Cipher/Strategy/Position.antt =====
-- The state of a strategy's cipher is a function of the number of bytes it has been through.
use cpxy.Base.{
  ℕ, zero, suc, ◌+◌, ◌-◌, ◌^◌, ◌<◌, ◌≤◌, ◌≡◌, refl, ap, sym, ◌∙◌, ltb, min, Bool, true, false, some,
  Bytes, [], ◌∷◌, ◌++◌, length, take, drop, if◌then◌else◌, arith, take-min, drop-min,
}
use cpxy.Base.Int.{pos, ◌-ℤ◌, ◌+ℤ◌, in_isize, is_positive, positive_part, checked_sub, checked_add}
use cpxy.Cipher.{Mask, apply_keystream}
use cpxy.Cipher.Strategy.{
  EncryptionStrategy, first_n, always, never, StrategyCipher, first, all_of, none_of, wrap_cipher,
  seek_back, partial_rewound, partial_rewind_to, partial_rewind, partial_applied, partial_apply,
  will_modify_data, first_applied, apply, first_rewound, all_rewound, rewind,
}

-- Whether the byte at a position is encrypted, and the encryption of bytes from a position.
abbrev pub covers : EncryptionStrategy → ℕ → Bool
covers (first_n n) k = ltb k n
covers always k = true
covers never k = false

unfoldable pub encrypted : Mask → EncryptionStrategy → ℕ → Bytes → Bytes
encrypted mask s k [] = []
encrypted mask s k (b ∷ bs) = (if covers s k then mask k b else b) ∷ encrypted mask s (suc k) bs

-- The cipher of a strategy behind `k` bytes.
abbrev pub state_at : EncryptionStrategy → ℕ → StrategyCipher
state_at (first_n n) k = first (record { inner = min k n; n = pos n -ℤ k })
state_at always k = all_of k
state_at never k = none_of

-- A limit that `isize` holds.
abbrev pub IsSize : EncryptionStrategy → Type 0
IsSize (first_n n) = n < 2 ^ 63
IsSize always = Unit
IsSize never = Unit

-- No byte from position `k` is encrypted.
abbrev pub Past : EncryptionStrategy → ℕ → Type 0
Past (first_n n) k = n ≤ k
Past always k = ⊥
Past never k = Unit

pub wrap_cipher-state_at : (s : EncryptionStrategy) → IsSize s → wrap_cipher s ≡ some (state_at s 0)
unfolding wrap_cipher ◌-ℤ◌
wrap_cipher-state_at (first_n n) h = ground arith
wrap_cipher-state_at always h = refl
wrap_cipher-state_at never h = refl

pub Past-encrypted :
    (mask : Mask) (s : EncryptionStrategy) (k : ℕ) (bs : Bytes)
    → Past s k
    → encrypted mask s k bs ≡ bs
unfolding encrypted
Past-encrypted mask (first_n n) k [] h = refl
Past-encrypted mask (first_n n) k (b ∷ bs) h =
    ground (arith, Past-encrypted mask (first_n n) (suc k) bs)
Past-encrypted mask never k [] h = refl
Past-encrypted mask never k (b ∷ bs) h =
    ap (λ (x : Bytes). b ∷ x) (Past-encrypted mask never (suc k) bs tt)
Past-encrypted mask always k bs h = absurd h

pub not_modify-Past :
    (s : EncryptionStrategy) (k : ℕ) → will_modify_data (state_at s k) ≡ false → Past s k
unfolding will_modify_data is_positive ◌-ℤ◌
not_modify-Past (first_n n) k h = ground arith
not_modify-Past always k h = cc
not_modify-Past never k h = tt

apply_keystream-always :
    (mask : Mask) (k : ℕ) (bs : Bytes) → apply_keystream mask k bs ≡ encrypted mask always k bs
unfolding apply_keystream encrypted
apply_keystream-always mask k [] = refl
apply_keystream-always mask k (b ∷ bs) =
    ap (λ (x : Bytes). mask k b ∷ x) (apply_keystream-always mask (suc k) bs)

-- Encrypting the first bytes and leaving the others.
apply_keystream-take :
    (mask : Mask) (n k d : ℕ) (bs : Bytes)
    → n ≡ k + d
    → apply_keystream mask k (take d bs) ++ drop d bs ≡ encrypted mask (first_n n) k bs
unfolding apply_keystream encrypted
apply_keystream-take mask n k zero bs h = sym (Past-encrypted mask (first_n n) k bs (omega arith))
apply_keystream-take mask n k (suc d) [] h = refl
apply_keystream-take mask n k (suc d) (b ∷ bs) h =
    ground (arith, apply_keystream-take mask n (suc k) d bs)

take-drop-min :
    (mask : Mask) (k d : ℕ) (bs : Bytes)
    → apply_keystream mask k (take (min d (length bs)) bs) ++ drop (min d (length bs)) bs
      ≡ apply_keystream mask k (take d bs) ++ drop d bs
take-drop-min mask k d bs =
    let comm : (a b : ℕ) → min a b ≡ min b a = λ a b. omega arith in
    rw (comm d (length bs), take-min d bs, drop-min d bs)

-- Before its limit a partial cipher is at the start of what is left.
state_at-before :
    (n k : ℕ) → k < n → state_at (first_n n) k ≡ first (record { inner = k; n = pos (n - k) })
unfolding ◌-ℤ◌
state_at-before n k h = ground arith

apply-before :
    (mask : Mask) (n k : ℕ) (bs : Bytes)
    → k < n
    → n < 2 ^ 63
    → length bs < 2 ^ 63
    → apply mask (first (record { inner = k; n = pos (n - k) })) bs
      ≡ some (encrypted mask (first_n n) k bs, state_at (first_n n) (k + length bs))
unfolding apply first_applied partial_apply partial_applied checked_sub in_isize is_positive
    positive_part ◌-ℤ◌
apply-before mask n k bs h hn l =
    let out =
      take-drop-min mask k (n - k) bs ∙ apply_keystream-take mask n k (n - k) bs (omega arith) in
    ground (arith, out)

will_modify-before : (n k : ℕ) → will_modify_data (state_at (first_n n) k) ≡ true → k < n
unfolding will_modify_data is_positive ◌-ℤ◌
will_modify-before n k h = ground arith

-- Behind any `k` bytes, a cipher that still modifies data encrypts the bytes that its strategy
-- covers and no others, does not panic, and stands behind them, for a limit and a buffer shorter
-- than 2 ^ 63.
pub apply-state_at :
    (mask : Mask) (s : EncryptionStrategy) (k : ℕ) (bs : Bytes)
    → IsSize s
    → length bs < 2 ^ 63
    → will_modify_data (state_at s k) ≡ true
    → apply mask (state_at s k) bs ≡ some (encrypted mask s k bs, state_at s (k + length bs))
unfolding apply will_modify_data
apply-state_at mask (first_n n) k bs h l m =
    let before = will_modify-before n k m in
    ap (λ (c : StrategyCipher). apply mask c bs) (state_at-before n k before)
    ∙ apply-before mask n k bs before h l
apply-state_at mask always k bs h l m =
    ap (λ (x : Bytes). some (x, all_of (k + length bs))) (apply_keystream-always mask k bs)
apply-state_at mask never k bs h l m = cc

-- A position that the counter of a partial cipher can be at.
abbrev pub Near : EncryptionStrategy → ℕ → Type 0
Near (first_n n) k = k < n + 2 ^ 63
Near always k = Unit
Near never k = Unit

pub will_modify-Near :
    (s : EncryptionStrategy) (k m : ℕ)
    → will_modify_data (state_at s k) ≡ true
    → m < 2 ^ 63
    → Near s (k + m)
will_modify-Near (first_n n) k m h l = let before = will_modify-before n k h in omega arith
will_modify-Near always k m h l = tt
will_modify-Near never k m h l = tt

pub will_modify-Near_here :
    (s : EncryptionStrategy) (k : ℕ) → will_modify_data (state_at s k) ≡ true → Near s k
will_modify-Near_here (first_n n) k h = let before = will_modify-before n k h in omega arith
will_modify-Near_here always k h = tt
will_modify-Near_here never k h = tt

pub Past-later : (s : EncryptionStrategy) (k m : ℕ) → Past s k → Past s (k + m)
Past-later (first_n n) k m h = omega arith
Past-later always k m h = h
Past-later never k m h = tt

-- A rewind by the bytes of the last call goes back to where the cipher stood.
pub rewind-state_at :
    (s : EncryptionStrategy) (k m : ℕ)
    → IsSize s
    → m < 2 ^ 63
    → Near s k
    → rewind (state_at s (k + m)) m ≡ some (state_at s k)
unfolding rewind first_rewound all_rewound partial_rewind partial_rewind_to partial_rewound
    seek_back checked_add in_isize is_positive positive_part ◌-ℤ◌ ◌+ℤ◌
rewind-state_at (first_n n) k m h l w = ground arith
rewind-state_at always k m h l w = ground arith
rewind-state_at never k m h l w = refl
