-- ===== src/Cipher/Opening/Seal.antt =====
-- The first data of a connection under a cipher, which the client encrypts and the server reads.
use cpxy.Base.{
  ℕ, suc, lt→ltb, ◌+◌, ◌<◌, ◌^◌, ◌≡◌, refl, ap, sym, ◌∙◌, some, [], ◌∷◌, Bytes, arith, ltb, length,
  true,
}
use cpxy.Base.Int.{is_positive, ◌-ℤ◌}
use cpxy.Cipher.{Mask}
use cpxy.Cipher.Strategy.{
  EncryptionStrategy, first_n, always, never, none_of, apply, will_modify_data,
}
use cpxy.Cipher.Strategy.Position.{encrypted, state_at, IsSize, Past-encrypted, apply-state_at}
use cpxy.Cipher.Stream.Runs.{encrypted_twice}
use cpxy.Cipher.Stream.Writes.{length-encrypted}
use cpxy.Cipher.Opening.Params.{IsNonZero}
use cpxy.Cipher.Opening.Connect.{seal}

-- A limit that `isize` holds and that is not 0.
abbrev pub IsLimit : EncryptionStrategy → Type 0
IsLimit (first_n n) = (0 < n) × (n < 2 ^ 63)
IsLimit always = Unit
IsLimit never = Unit

pub limit-IsSize : (s : EncryptionStrategy) → IsLimit s → IsSize s
limit-IsSize (first_n n) h = h.1
limit-IsSize always h = tt
limit-IsSize never h = tt

pub limit-IsNonZero : (s : EncryptionStrategy) → IsLimit s → IsNonZero s
limit-IsNonZero (first_n n) h = (h.0, omega arith)
limit-IsNonZero always h = tt
limit-IsNonZero never h = tt

-- A cipher at its start encrypts the whole buffer.
apply-start :
    (mask : Mask) (s : EncryptionStrategy) (bs : Bytes)
    → IsLimit s
    → length bs < 2 ^ 63
    → apply mask (state_at s 0) bs ≡ some (encrypted mask s 0 bs, state_at s (0 + length bs))
unfolding will_modify_data apply is_positive ◌-ℤ◌
apply-start mask (first_n n) bs h l = apply-state_at mask (first_n n) 0 bs (h.1) l (ground arith)
apply-start mask always bs h l = apply-state_at mask always 0 bs tt l refl
apply-start mask never bs h l =
    ap (λ (x : Bytes). some (x, none_of)) (sym (Past-encrypted mask never 0 bs tt))

pub seal-start :
    (mask : Mask) (s : EncryptionStrategy) (bs : Bytes)
    → IsLimit s
    → length bs < 2 ^ 63
    → seal mask (state_at s 0) bs ≡ some (encrypted mask s 0 bs, state_at s (0 + length bs))
unfolding seal encrypted
seal-start mask s [] h l = refl
seal-start mask s (b ∷ bs) h l =
    let some_bytes : ltb 0 (suc (length bs)) ≡ true = lt→ltb 0 (suc (length bs)) (omega arith) in
    rw some_bytes (apply-start mask s (b ∷ bs) h l)

-- The server's cipher makes the first data readable again, and stands where the client's does.
pub apply-sealed :
    (mask : Mask) (s : EncryptionStrategy) (bs : Bytes)
    → ((p b : ℕ) → mask p (mask p b) ≡ b)
    → IsLimit s
    → length bs < 2 ^ 63
    → apply mask (state_at s 0) (encrypted mask s 0 bs) ≡ some (bs, state_at s (0 + length bs))
apply-sealed mask s bs law h l =
    let same = length-encrypted mask s 0 bs in
    apply-start mask s (encrypted mask s 0 bs) h (omega (arith, same))
    ∙ ap (λ (x : Bytes). some (x, state_at s (0 + length (encrypted mask s 0 bs))))
        (encrypted_twice mask s law 0 bs)
    ∙ ap (λ (n : ℕ). some (bs, state_at s (0 + n))) same
