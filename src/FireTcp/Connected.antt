-- ===== src/FireTcp/Connected.antt =====
-- A `CipherWrite` and a `CipherRead` at the two ends of a connection, and a write that waits.
use cpxy.Base.{
  ℕ, ◌+◌, ◌-◌, ◌<◌, ◌≡◌, refl, ap, sym, ◌∙◌, ltb, min, max, true, Option, List, ◌∷◌, ◌++◌, Bytes,
  length, take, length-take, arith, lt→ltb, ok,
}
use cpxy.Cipher.{Mask, apply_keystream}
use cpxy.Cipher.Keystream.{apply_keystream-append, apply_keystream_twice, length-apply_keystream}
use cpxy.Cipher.Stream.{pending}
use cpxy.Cipher.Stream.Writes.{busy, room, answer}
use cpxy.FireTcp.{
  init, CipherWrite, CipherRead, new_write, new_read, set_write_cipher, set_read_cipher, poll_write,
  write_in, init_answered,
}
use cpxy.FireTcp.Layout.{layout, layout_twice}
use cpxy.FireTcp.Writes.{write_at}
use cpxy.FireTcp.Runs.{run_writes, run_writes-layout}
use cpxy.FireTcp.Reads.{read_at, run_reads, run_reads-layout}

set_write_cipher-write_at :
    (size : ℕ) (est : Option ℕ)
    → 0 < size
    → set_write_cipher est (new_write size 0) ≡ ok (write_at (max size 512) size est 0)
unfolding set_write_cipher new_write
set_write_cipher-write_at size est h =
    let on : ltb 0 size ≡ true = lt→ltb _ _ h in
    rw on (
      ap
        (λ (l : ℕ).
          ok (record { buf_len = max size 512; establish_cipher = est; state = init l 0 }))
        {x = size} {y = size - 0} (omega arith))

set_read_cipher-read_at :
    (size : ℕ) (est : Option ℕ)
    → 0 < size
    → set_read_cipher est (new_read size 0) ≡ ok (read_at size est 0)
unfolding set_read_cipher new_read
set_read_cipher-read_at size est h =
    let on : ltb 0 size ≡ true = lt→ltb _ _ h in
    rw on (
      ap (λ (l : ℕ). ok (record { establish_cipher = est; state = init l 0 })) {x = size}
        {y = size - 0} (omega arith))

-- What came out is the front of the message, and the rest is as long as what is unread.
abbrev pub Plain : Bytes → Bytes → Bytes → Type 0
Plain plain out unread = (rest : Bytes) × (out ++ rest ≡ plain) × (length rest ≡ length unread)

module _ (initial establish : Mask) where
  run_reads-write_at :
      (buf_len size : ℕ) (est : Option ℕ) (calls : List (Bytes × ℕ)) (reads : List (ℕ × ℕ))
      → ((p b : ℕ) → initial p (initial p b) ≡ b)
      → ((p b : ℕ) → establish p (establish p b) ≡ b)
      → (let (plain, wire) = run_writes initial establish calls (write_at buf_len size est 0) in
          let (out, unread) = run_reads initial establish reads wire (read_at size est 0) in
          Plain plain out unread)
  run_reads-write_at buf_len size est calls reads hi he =
      let (plain, wire) = run_writes initial establish calls (write_at buf_len size est 0) in
      let sent = run_writes-layout initial establish buf_len size est calls 0 in
      let (d, (e, o)) = run_reads-layout initial establish size est reads 0 wire in
      let (out, unread) = run_reads initial establish reads wire (read_at size est 0) in
      let mask = layout initial establish size est in
      (
        apply_keystream mask (0 + length d) unread,
        ap (λ (x : Bytes). x ++ apply_keystream mask (0 + length d) unread) o
            ∙ sym (apply_keystream-append mask 0 d unread)
            ∙ ap (apply_keystream mask 0) (e ∙ sent)
            ∙ apply_keystream_twice mask (layout_twice initial establish size est hi he) 0 plain,
        length-apply_keystream mask (0 + length d) unread,
      )

  -- Two ends with the same sizes, keystreams that undo themselves, and the same second cipher:
  -- after writes that are taken in part or whole, any reads of what was sent give the front of
  -- what the callers were told is written, and only what is unread is missing.
  pub connected_front :
      (size : ℕ) (est : Option ℕ) (c : CipherWrite) (d : CipherRead) (calls : List (Bytes × ℕ))
      (reads : List (ℕ × ℕ))
      → ((p b : ℕ) → initial p (initial p b) ≡ b)
      → ((p b : ℕ) → establish p (establish p b) ≡ b)
      → 0 < size
      → set_write_cipher est (new_write size 0) ≡ ok c
      → set_read_cipher est (new_read size 0) ≡ ok d
      → (let (plain, wire) = run_writes initial establish calls c in
          let (out, unread) = run_reads initial establish reads wire d in Plain plain out unread)
  connected_front size est c d calls reads hi he h ec ed =
      let at_write : c ≡ write_at (max size 512) size est 0 =
        cc (ec, set_write_cipher-write_at size est h) in
      let at_read : d ≡ read_at size est 0 = cc (ed, set_read_cipher-read_at size est h) in
      rw (at_write, at_read) (run_reads-write_at (max size 512) size est calls reads hi he)

  -- In the first state, when the stream under it is pending, the call is pending, and the same
  -- call again encrypts the same bytes from a later position, by as many bytes as were passed
  -- the first time.
  pub poll_write_pending :
      (buf_len bytes_left cipher n b : ℕ) (bs : Bytes) (est : Option ℕ)
      → (let size = min (length (b ∷ bs)) bytes_left in
          let c : CipherWrite = record {
            buf_len = buf_len;
            establish_cipher = est;
            state = init bytes_left cipher;
          } in
          let first = poll_write initial establish c (answer busy) (b ∷ bs) in
          let again = poll_write initial establish first.next (answer (room n)) (b ∷ bs) in
          (first.result ≡ pending)
          × (first.passed ≡ apply_keystream initial cipher (take size (b ∷ bs)))
          × (again.passed ≡ apply_keystream initial (cipher + size) (take size (b ∷ bs))))
  unfolding poll_write write_in init_answered
  poll_write_pending buf_len bytes_left cipher n b bs est =
      let size = min (length (b ∷ bs)) bytes_left in
      let d = take size (b ∷ bs) in
      let passed : length (apply_keystream initial cipher d) ≡ size =
        length-apply_keystream initial cipher d ∙ omega (arith, length-take size (b ∷ bs)) in
      (refl, refl, rw passed refl)
