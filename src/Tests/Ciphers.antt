-- ===== src/Tests/Ciphers.antt =====
-- Runs of the streams that encrypt, under a keystream that takes a byte from 255.
use cpxy.Base.{
  ℕ, ◌-◌, ◌≡◌, refl, ltb, true, inl, none, some, Bytes, List, [], ◌∷◌, if◌then◌else◌, arith, ok,
}
use cpxy.Base.Int.{pos, is_positive, ◌-ℤ◌}
use cpxy.Cipher.{Mask, apply_keystream}
use cpxy.Cipher.Strategy.{first_n, StrategyCipher, first, all_of, none_of, apply, will_modify_data}
use cpxy.Cipher.Strategy.Position.{encrypted, state_at, apply-state_at}
use cpxy.Cipher.Stream.{
  CipherStream, new, pending, ready, WrittenAll, poll_write, poll_write_vectored,
}
use cpxy.Cipher.Stream.Writes.{Offer, busy, room, answer}
use cpxy.Cipher.Stream.Runs.{run_writes, run_reads, run_writes-encrypted}
use cpxy.Cipher.Stream.Slices.{poll_write_vectored_gap}
use cpxy.FireTcp.{
  CipherWrite, CipherRead, init, established, new_write, new_read, set_write_cipher,
  set_read_cipher,
}
use cpxy.FireTcp
use cpxy.FireTcp.Runs
use cpxy.FireTcp.Reads
use cpxy.FireTcp.Connected.{Plain, connected_front, poll_write_pending}

abbrev flip : Mask
flip p b = if ltb b 256 then 255 - b else b

flip_twice : (p b : ℕ) → flip p (flip p b) ≡ b
flip_twice p b = ground arith

-- Two bytes are encrypted; the second call waits.
abbrev calls : List (Bytes × Offer)
calls = (1 ∷ 2 ∷ 3 ∷ [], room 1) ∷ (2 ∷ 3 ∷ [], busy) ∷ (2 ∷ 3 ∷ 4 ∷ [], room 9) ∷ []

abbrev message : Bytes
message = 1 ∷ 2 ∷ 3 ∷ 4 ∷ []

abbrev wire : Bytes
wire = 254 ∷ 253 ∷ 3 ∷ 4 ∷ []

abbrev two : StrategyCipher
two = first (record { inner = 0; n = pos 2 })

run_writes-encrypted_example :
    (plain out : Bytes) × (run_writes flip calls (new none_of two) ≡ some (plain, out))
    × (out ≡ encrypted flip (first_n 2) 0 plain)
unfolding new ◌-ℤ◌
run_writes-encrypted_example =
    run_writes-encrypted flip (first_n 2) calls 0 (new none_of two) (omega arith)
      (omega arith, (omega arith, (omega arith, tt))) (inl refl)

one_modifies : will_modify_data (state_at (first_n 2) 1) ≡ true
unfolding will_modify_data is_positive ◌-ℤ◌
one_modifies = refl

apply-state_at_example :
    apply flip (state_at (first_n 2) 1) (2 ∷ 3 ∷ 4 ∷ [])
    ≡ some (encrypted flip (first_n 2) 1 (2 ∷ 3 ∷ 4 ∷ []), state_at (first_n 2) 4)
apply-state_at_example =
    apply-state_at flip (first_n 2) 1 (2 ∷ 3 ∷ 4 ∷ []) (omega arith) (omega arith) one_modifies

abbrev whole : CipherStream
whole = record { rd_cipher = none; wr_cipher = some (all_of 0); last_written_size = none }

poll_write_vectored_gap_example :
    (w : WrittenAll) × (poll_write_vectored flip
        (ready 0)
        ((1 ∷ 2 ∷ [], λ (passed : Bytes). ready 1) ∷ (3 ∷ [], λ (passed : Bytes). ready 1) ∷ [])
        whole
      ≡ some w)
    × (w.outcome ≡ ready 2)
    × (w.sent ≡ apply_keystream flip 0 (1 ∷ 2 ∷ []) ∷ apply_keystream flip 1 (3 ∷ []) ∷ [])
poll_write_vectored_gap_example =
    poll_write_vectored_gap flip 0 1 1 whole (1 ∷ 2 ∷ []) (3 ∷ []) refl (omega arith) (omega arith)
      (omega arith) (omega arith)

-- Fire TCP: two bytes under one keystream, the others under another.
abbrev sender : CipherWrite
sender = record { buf_len = 512; establish_cipher = some 0; state = init 2 0 }

abbrev receiver : CipherRead
receiver = record { establish_cipher = some 0; state = init 2 0 }

sender-new_write : set_write_cipher (some 0) (new_write 2 0) ≡ ok sender
unfolding set_write_cipher new_write
sender-new_write = refl

receiver-new_read : set_read_cipher (some 0) (new_read 2 0) ≡ ok receiver
unfolding set_read_cipher new_read
receiver-new_read = refl

abbrev offers : List (Bytes × ℕ)
offers = (1 ∷ 2 ∷ 3 ∷ [], 9) ∷ (3 ∷ 4 ∷ [], 9) ∷ []

connected_front_example :
    (let (plain, sent) = FireTcp.Runs.run_writes flip flip offers sender in
      let (out, unread) = FireTcp.Reads.run_reads flip flip ((1, 9) ∷ (5, 9) ∷ []) sent receiver in
      Plain plain out unread)
connected_front_example =
    connected_front flip flip 2 (some 0) sender receiver offers ((1, 9) ∷ (5, 9) ∷ []) flip_twice
      flip_twice (omega arith) sender-new_write receiver-new_read

poll_write_pending_example :
    (let first = FireTcp.poll_write flip flip sender (answer busy) (1 ∷ []) in
      let again = FireTcp.poll_write flip flip first.next (answer (room 9)) (1 ∷ []) in
      (first.result ≡ pending)
      × (first.passed ≡ apply_keystream flip 0 (1 ∷ []))
      × (again.passed ≡ apply_keystream flip 1 (1 ∷ [])))
poll_write_pending_example = poll_write_pending flip flip 512 2 0 9 1 [] (some 0)
