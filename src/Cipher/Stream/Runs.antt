-- ===== src/Cipher/Stream/Runs.antt =====
-- Runs of `poll_write` and of `poll_read`, and two streams that are connected.
use cpxy.Base.{
  ℕ, suc, ◌+◌, ◌^◌, ◌<◌, ◌≡◌, refl, ap, sym, ◌∙◌, ◌⊎◌, inl, inr, Bool-cases, Option, none, some,
  List, [], ◌∷◌, ◌++◌, Bytes, length, arith, All,
}
use cpxy.Cipher.{Mask}
use cpxy.Cipher.Strategy.{EncryptionStrategy, StrategyCipher, will_modify_data}
use cpxy.Cipher.Strategy.Position.{
  covers, encrypted, state_at, IsSize, Past, Past-encrypted, Past-later, not_modify-Past,
  apply-state_at,
}
use cpxy.Cipher.Stream.{
  CipherStream, Poll, pending, ready, failed, Written, poll_write, decrypted, read_with, poll_read,
}
use cpxy.Cipher.Stream.Writes.{Offer, answer, taken, WritesFrom, encrypted-append, poll_write-taken}

-- What a call adds to the run behind it, which an error ends.
unfoldable pub add_call : Bytes → Bytes → Poll → Option (Bytes × Bytes) → Option (Bytes × Bytes)
add_call plain wire failed rest = some ([], [])
add_call plain wire r none = none
add_call plain wire r (some (ps, ws)) = some (plain ++ ps, wire ++ ws)

-- The bytes that the callers of `poll_write` were told are written, and those that the stream
-- under it took, up to the first error; `none` is a panic.
unfoldable pub run_writes : Mask → List (Bytes × Offer) → CipherStream → Option (Bytes × Bytes)
run_writes mask [] c = some ([], [])
run_writes mask ((buf, o) ∷ calls) c = elim (poll_write mask c (answer o) buf) [
  | none ↦ none
  | some w ↦
      add_call (taken w.result buf) (taken w.result w.passed) w.result
        (run_writes mask calls w.next)
]

-- The bytes that come out of `poll_read` where the stream under it reads the chunks.
unfoldable pub run_reads : Mask → List Bytes → CipherStream → Option Bytes
run_reads mask [] c = some []
run_reads mask (chunk ∷ chunks) c = elim (poll_read mask c chunk) [
  | none ↦ none
  | some (out, next) ↦ elim (run_reads mask chunks next) [
    | none ↦ none
    | some rest ↦ some (out ++ rest)
  ]
]

abbrev pub concat : List Bytes → Bytes
concat [] = []
concat (chunk ∷ chunks) = chunk ++ concat chunks

abbrev pub IsShort : Bytes → Type 0
IsShort bs = length bs < 2 ^ 63

abbrev pub ReadsFrom : EncryptionStrategy → ℕ → CipherStream → Type 0
ReadsFrom s k c = (c.rd_cipher ≡ some (state_at s k)) ⊎ ((c.rd_cipher ≡ none) × Past s k)

add_call_cases :
    (plain wire ps ws : Bytes) (r : Poll)
    → (add_call plain wire r (some (ps, ws)) ≡ some ([], []))
      ⊎ (add_call plain wire r (some (ps, ws)) ≡ some (plain ++ ps, wire ++ ws))
unfolding add_call
add_call_cases plain wire ps ws failed = inl refl
add_call_cases plain wire ps ws pending = inr refl
add_call_cases plain wire ps ws (ready n) = inr refl

add_call-failed :
    (plain wire : Bytes) (r : Poll) (rest : Option (Bytes × Bytes))
    → r ≡ failed
    → add_call plain wire r rest ≡ some ([], [])
unfolding add_call
add_call-failed plain wire r rest h = rw h

run_writes-cons :
    (mask : Mask) (buf : Bytes) (o : Offer) (calls : List (Bytes × Offer)) (c : CipherStream)
    (w : Written)
    → poll_write mask c (answer o) buf ≡ some w
    → run_writes mask ((buf, o) ∷ calls) c
      ≡ add_call
          (taken w.result buf)
          (taken w.result w.passed)
          w.result
          (run_writes mask calls w.next)
unfolding run_writes
run_writes-cons mask buf o calls c w h = rw (h, run_writes) refl

run_reads-cons :
    (mask : Mask) (chunk : Bytes) (chunks : List Bytes) (c next : CipherStream) (out rest : Bytes)
    → poll_read mask c chunk ≡ some (out, next)
    → run_reads mask chunks next ≡ some rest
    → run_reads mask (chunk ∷ chunks) c ≡ some (out ++ rest)
unfolding run_reads
run_reads-cons mask chunk chunks c next out rest h t = rw (h, t, run_reads) refl

module _ (mask : Mask) (s : EncryptionStrategy) where
  -- A run of `poll_write` up to its first error, from a stream that stands behind `k` bytes,
  -- does not panic, whatever the stream under it answers: pending, a part, or an error. What
  -- reached it is the encryption, from position `k`, of exactly the bytes that the callers were
  -- told are written, for a limit and calls shorter than 2 ^ 63.
  pub run_writes-encrypted :
      (calls : List (Bytes × Offer)) (k : ℕ) (c : CipherStream)
      → IsSize s
      → All (λ (call : Bytes × Offer). IsShort call.0) calls
      → WritesFrom s k c
      → (plain wire : Bytes) × (run_writes mask calls c ≡ some (plain, wire))
        × (wire ≡ encrypted mask s k plain)
  unfolding run_writes
  run_writes-encrypted [] k c h l i = ([], [], refl, unfold encrypted in refl)
  run_writes-encrypted ((buf, o) ∷ calls) k c h (l, ls) i =
      let (w, e, t, i') = poll_write-taken mask s k c o buf h l i in
      let first = run_writes-cons mask buf o calls c w e in
      elim i' [
        | inl f ↦ ([], [], first ∙ add_call-failed _ _ w.result _ f, unfold encrypted in refl)
        | inr later ↦
            let plain = taken w.result buf in
            let (ps, ws, r, q) = run_writes-encrypted calls (k + length plain) w.next h ls later in
            let both = first ∙ ap (add_call plain (taken w.result w.passed) w.result) r in
            elim (add_call_cases plain (taken w.result w.passed) ps ws w.result) [
              | inl ended ↦ ([], [], both ∙ ended, unfold encrypted in refl)
              | inr more ↦ (
                plain ++ ps,
                taken w.result w.passed ++ ws,
                both ∙ more,
                rw (t, q) (sym (encrypted-append mask s k plain ps)),
              )
            ]
      ]

  add_nothing : (k : ℕ) → k + 0 ≡ k
  add_nothing k = omega arith

  read_with-encrypted :
      (k : ℕ) (c : CipherStream) (chunk : Bytes)
      → IsSize s
      → IsShort chunk
      → (next : CipherStream) × (read_with mask c (some (state_at s k)) chunk
          ≡ some (encrypted mask s k chunk, next))
        × ReadsFrom s (k + length chunk) next
  unfolding read_with decrypted
  read_with-encrypted k c chunk h l = elim (Bool-cases (will_modify_data (state_at s k))) [
    | inl m ↦ (
      record c { rd_cipher = some (state_at s (k + length chunk)) },
      rw (m, apply-state_at mask s k chunk h l m),
      inl refl,
    )
    | inr m ↦
        let p = not_modify-Past s k m in
        (
          record c { rd_cipher = none },
          rw (m, Past-encrypted mask s k chunk p),
          inr (refl, Past-later s k (length chunk) p),
        )
  ]

  poll_read-encrypted :
      (k : ℕ) (c : CipherStream) (chunk : Bytes)
      → IsSize s
      → IsShort chunk
      → ReadsFrom s k c
      → (next : CipherStream) × (poll_read mask c chunk ≡ some (encrypted mask s k chunk, next))
        × ReadsFrom s (k + length chunk) next
  unfolding poll_read
  poll_read-encrypted k c [] h l i = (c, unfold encrypted in refl, rw (add_nothing k) i)
  poll_read-encrypted k c (b ∷ chunk) h l (inl e) =
      let (next, r, i) = read_with-encrypted k c (b ∷ chunk) h l in
      (next, ap (λ (d : Option StrategyCipher). read_with mask c d (b ∷ chunk)) e ∙ r, i)
  poll_read-encrypted k c (b ∷ chunk) h l (inr (e, p)) = (
    c,
    ap (λ (d : Option StrategyCipher). read_with mask c d (b ∷ chunk)) e
        ∙ unfold read_with in rw (Past-encrypted mask s k (b ∷ chunk) p),
    inr (e, Past-later s k (length (b ∷ chunk)) p),
  )

  -- Reads of a stream behind `k` bytes do not panic, and decrypt what they read from there.
  pub run_reads-encrypted :
      (chunks : List Bytes) (k : ℕ) (c : CipherStream)
      → IsSize s
      → All IsShort chunks
      → ReadsFrom s k c
      → run_reads mask chunks c ≡ some (encrypted mask s k (concat chunks))
  run_reads-encrypted [] k c h l i = unfold run_reads encrypted in refl
  run_reads-encrypted (chunk ∷ chunks) k c h (l, ls) i =
      let (next, r, i') = poll_read-encrypted k c chunk h l i in
      let rest = run_reads-encrypted chunks (k + length chunk) next h ls i' in
      run_reads-cons mask chunk chunks c next _ _ r rest
      ∙ ap some (sym (encrypted-append mask s k chunk (concat chunks)))

  pub encrypted_twice :
      ((p b : ℕ) → mask p (mask p b) ≡ b)
      → (k : ℕ) (bs : Bytes) → encrypted mask s k (encrypted mask s k bs) ≡ bs
  unfolding encrypted
  encrypted_twice h k [] = refl
  encrypted_twice h k (b ∷ bs) = elim (Bool-cases (covers s k)) [
    | inl on ↦ rw (on, h k b, encrypted_twice h (suc k) bs)
    | inr off ↦ rw (off, encrypted_twice h (suc k) bs)
  ]
