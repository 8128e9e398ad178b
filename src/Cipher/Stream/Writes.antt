-- ===== src/Cipher/Stream/Writes.antt =====
-- Any run of calls of `poll_write`: what reaches the stream under it.
use cpxy.Base.{
  ℕ, zero, suc, ◌+◌, ◌-◌, ◌^◌, ◌<◌, ◌≤◌, ◌≡◌, refl, ap, sym, ◌∙◌, ◌⊎◌, inl, inr, ltb, min, true,
  Bool-cases, none, some, [], ◌∷◌, ◌++◌, Bytes, length, take, if◌then◌else◌, arith, length-take,
  take-take,
}
use cpxy.Cipher.{Mask}
use cpxy.Cipher.Strategy.{EncryptionStrategy, StrategyCipher, will_modify_data, apply, rewind}
use cpxy.Cipher.Strategy.Position.{
  covers, encrypted, will_modify-Near, will_modify-Near_here, Past-later, state_at, IsSize, Past,
  Past-encrypted, not_modify-Past, apply-state_at, rewind-state_at,
}
use cpxy.Cipher.Stream.{
  CipherStream, Poll, pending, ready, failed, Written, desired_write_len, rewound, answered,
  encrypted_write, plain_write, write_with, poll_write,
}

-- What the stream under it has to say to a call: an error, not now, or room for some bytes.
pub data Offer : Type 0 where
  broken : Offer
  busy : Offer
  room : ℕ → Offer

abbrev pub answer : Offer → Bytes → Poll
answer broken passed = failed
answer busy passed = pending
answer (room n) passed = ready (min n (length passed))

-- The bytes of a call that a result stands for.
abbrev pub taken : Poll → Bytes → Bytes
taken (ready n) buf = take n buf
taken pending buf = []
taken failed buf = []

-- The stream is behind `k` bytes of what is written.
abbrev pub WritesFrom : EncryptionStrategy → ℕ → CipherStream → Type 0
WritesFrom s k c = (c.wr_cipher ≡ some (state_at s k)) ⊎ ((c.wr_cipher ≡ none) × Past s k)

module _ (mask : Mask) where
  encrypted-take :
      (s : EncryptionStrategy) (k n : ℕ) (bs : Bytes)
      → take n (encrypted mask s k bs) ≡ encrypted mask s k (take n bs)
  unfolding encrypted
  encrypted-take s k zero bs = refl
  encrypted-take s k (suc n) [] = refl
  encrypted-take s k (suc n) (b ∷ bs) =
      ap (λ (x : Bytes). (if covers s k then mask k b else b) ∷ x) (encrypted-take s (suc k) n bs)

  pub length-encrypted :
      (s : EncryptionStrategy) (k : ℕ) (bs : Bytes) → length (encrypted mask s k bs) ≡ length bs
  unfolding encrypted
  length-encrypted s k [] = refl
  length-encrypted s k (b ∷ bs) = ap suc (length-encrypted s (suc k) bs)

  pub encrypted-append :
      (s : EncryptionStrategy) (k : ℕ) (xs ys : Bytes)
      → encrypted mask s k (xs ++ ys) ≡ encrypted mask s k xs ++ encrypted mask s (k + length xs) ys
  unfolding encrypted
  encrypted-append s k [] ys =
      ap (λ (p : ℕ). encrypted mask s p ys) {x = k} {y = k + 0} (omega arith)
  encrypted-append s k (x ∷ xs) ys =
      ap (λ (b : Bytes). (if covers s k then mask k x else x) ∷ b)
        (encrypted-append s (suc k) xs ys
          ∙ ap (λ (p : ℕ). encrypted mask s (suc k) xs ++ encrypted mask s p ys)
              {x = suc k + length xs} {y = k + suc (length xs)} (omega arith))

  -- A stream whose cipher is gone, or has nothing more to encrypt, passes everything on.
  plain_write-taken :
      (s : EncryptionStrategy) (k : ℕ) (c : CipherStream) (r : Poll) (buf : Bytes)
      → c.wr_cipher ≡ none
      → Past s k
      → (taken r buf ≡ encrypted mask s k (taken r buf)) × WritesFrom s (k + length (taken r buf)) c
  plain_write-taken s k c r buf e p = (
    sym (Past-encrypted mask s k (taken r buf) p),
    inr (e, Past-later s k (length (taken r buf)) p),
  )

  write_with-encrypts :
      (c : CipherStream) (o : Bytes → Poll) (buf : Bytes) (w next : StrategyCipher) (out : Bytes)
      → will_modify_data w ≡ true
      → apply mask w (take (desired_write_len c buf) buf) ≡ some (out, next)
      → write_with mask c o buf (some w) ≡ answered c next out (o out)
  unfolding write_with encrypted_write
  write_with-encrypts c o buf w next out m e = rw (m, e)

  poll_write-encrypts :
      (s : EncryptionStrategy) (k : ℕ) (c : CipherStream) (o : Bytes → Poll) (buf : Bytes)
      → IsSize s
      → length buf < 2 ^ 63
      → c.wr_cipher ≡ some (state_at s k)
      → will_modify_data (state_at s k) ≡ true
      → (let d = take (desired_write_len c buf) buf in
          poll_write mask c o buf
          ≡ answered c
              (state_at s (k + length d))
              (encrypted mask s k d)
              (o (encrypted mask s k d)))
  unfolding poll_write
  poll_write-encrypts s k c o buf h l e m =
      let d = take (desired_write_len c buf) buf in
      let next =
        apply-state_at mask s k d h (omega (arith, length-take (desired_write_len c buf) buf)) m in
      ap (write_with mask c o buf) e ∙ write_with-encrypts c o buf (state_at s k) _ _ m next

  rewind_rest :
      (s : EncryptionStrategy) (k v l : ℕ)
      → IsSize s
      → l < 2 ^ 63
      → v ≤ l
      → will_modify_data (state_at s k) ≡ true
      → (if ltb v l then rewind (state_at s (k + l)) (l - v) else some (state_at s (k + l)))
        ≡ some (state_at s (k + v))
  rewind_rest s k v l h b le m = elim (Bool-cases (ltb v l)) [
    | inl less ↦ rw less (
        ap (λ (p : ℕ). rewind (state_at s p) (l - v)) {x = k + l} {y = (k + v) + (l - v)}
          (omega arith)
        ∙ rewind-state_at s (k + v) (l - v) h (omega arith)
            (will_modify-Near s k v m (omega arith)))
    | inr all ↦ rw all (ap (λ (p : ℕ). some (state_at s p)) {x = k + l} {y = k + v} (ground arith))
  ]

  answered-taken :
      (s : EncryptionStrategy) (k : ℕ) (c : CipherStream) (o : Offer) (d : Bytes) (size : ℕ)
      (buf : Bytes)
      → IsSize s
      → length d < 2 ^ 63
      → will_modify_data (state_at s k) ≡ true
      → d ≡ take size buf
      → (w : Written) × (answered c
            (state_at s (k + length d))
            (encrypted mask s k d)
            (answer o (encrypted mask s k d))
          ≡ some w)
        × (taken w.result w.passed ≡ encrypted mask s k (taken w.result d))
        × (taken w.result d ≡ taken w.result buf)
        × ((w.result ≡ failed) ⊎ WritesFrom s (k + length (taken w.result d)) w.next)
  unfolding answered rewound encrypted
  answered-taken s k c broken d size buf h l m q = (
    record {
      result = failed;
      passed = encrypted mask s k d;
      next = record c { wr_cipher = some (state_at s (k + length d)) };
    },
    refl,
    refl,
    refl,
    inl refl,
  )
  answered-taken s k c busy d size buf h l m q = (
    record {
      result = pending;
      passed = encrypted mask s k d;
      next = record c { wr_cipher = some (state_at s k) };
    },
    rw (length-encrypted s k d, rewind-state_at s k (length d) h l (will_modify-Near_here s k m)),
    refl,
    refl,
    inr (inl (ap (λ (p : ℕ). some (state_at s p)) {x = k} {y = k + 0} (omega arith))),
  )
  answered-taken s k c (room n) d size buf h l m q =
      let v = min n (length d) in
      (
        record {
          result = ready v;
          passed = encrypted mask s k d;
          next = record {
            rd_cipher = c.rd_cipher;
            wr_cipher = some (state_at s (k + v));
            last_written_size = some v;
          };
        },
        rw (length-encrypted s k d, rewind_rest s k v (length d) h l (omega arith) m),
        encrypted-take s k v d,
        ap (take v) q ∙ take-take v size buf (omega (arith, ap length q, length-take size buf)),
        inr (
            inl (
              ap (λ (p : ℕ). some (state_at s p)) {x = k + v} {y = k + length (take v d)}
                (omega (arith, length-take v d)))),
      )

  -- One call does not panic, and unless it fails the stream stands behind what was taken.
  pub poll_write-taken :
      (s : EncryptionStrategy) (k : ℕ) (c : CipherStream) (o : Offer) (buf : Bytes)
      → IsSize s
      → length buf < 2 ^ 63
      → WritesFrom s k c
      → (w : Written) × (poll_write mask c (answer o) buf ≡ some w)
        × (taken w.result w.passed ≡ encrypted mask s k (taken w.result buf))
        × ((w.result ≡ failed) ⊎ WritesFrom s (k + length (taken w.result buf)) w.next)
  unfolding poll_write write_with plain_write
  poll_write-taken s k c o buf h l (inr (e, p)) =
      let (same, later) = plain_write-taken s k c (answer o buf) buf e p in
      (
        record { result = answer o buf; passed = buf; next = c },
        ap (write_with mask c (answer o) buf) e,
        same,
        inr later,
      )
  poll_write-taken s k c o buf h l (inl e) = elim (Bool-cases (will_modify_data (state_at s k))) [
    | inl m ↦
        let d = take (desired_write_len c buf) buf in
        let small = length-take (desired_write_len c buf) buf in
        let (w, a, t, q, i) =
          answered-taken s k c o d (desired_write_len c buf) buf h (omega (arith, small)) m refl in
        (
          w,
          poll_write-encrypts s k c (answer o) buf h l e m ∙ a,
          t ∙ ap (encrypted mask s k) q,
          rw (← q) i,
        )
    | inr m ↦
        let p = not_modify-Past s k m in
        let c' = record c { wr_cipher = none } in
        let (same, later) = plain_write-taken s k c' (answer o buf) buf refl p in
        (
          record { result = answer o buf; passed = buf; next = c' },
          ap (write_with mask c (answer o) buf) e ∙ rw m,
          same,
          inr later,
        )
  ]
