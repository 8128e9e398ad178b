-- ===== src/Cipher/Stream/Slices.antt =====
-- `poll_write_vectored` where the stream under it takes a slice only in part.
use cpxy.Base.{
  ℕ, ◌+◌, ◌-◌, ◌<◌, ◌≤◌, ◌≡◌, refl, ap, ◌∙◌, ltb, Option, some, List, [], ◌∷◌, Bytes, length, take,
  take-length, if◌then◌else◌, arith,
}
use cpxy.Cipher.{Mask, apply_keystream}
use cpxy.Cipher.Keystream.{length-apply_keystream}
use cpxy.Cipher.Strategy.{
  StrategyCipher, all_of, will_modify_data, apply, rewind, seek_back, all_rewound,
}
use cpxy.Cipher.Stream.{
  CipherStream, Poll, ready, Written, desired_write_len, rewound, answered, encrypted_write,
  write_with, poll_write, Slice, written, can_modify, WrittenAll, vectored_rest, add_sent,
  vectored_step, vectored_loop, poll_write_vectored,
}

rewind_part :
    (k n l : ℕ)
    → n ≤ l
    → (if ltb n l then rewind (all_of (k + l)) (l - n) else some (all_of (k + l)))
      ≡ some (all_of (k + n))
unfolding rewind seek_back all_rewound
rewind_part k n l h = ground arith

-- A slice of at most 512 bytes is passed whole, and the cipher stands behind what was taken.
poll_write-short :
    (mask : Mask) (k n : ℕ) (c : CipherStream) (buf : Bytes)
    → c.wr_cipher ≡ some (all_of k)
    → length buf ≤ 512
    → n ≤ length buf
    → poll_write mask c (λ (passed : Bytes). ready n) buf
      ≡ some (record {
        result = ready n;
        passed = apply_keystream mask k buf;
        next = record {
          rd_cipher = c.rd_cipher;
          wr_cipher = some (all_of (k + n));
          last_written_size = some n;
        };
      })
unfolding poll_write write_with encrypted_write answered rewound apply will_modify_data
    desired_write_len
poll_write-short mask k n c buf e short h =
    let whole : take (desired_write_len c buf) buf ≡ buf =
      take-length (desired_write_len c buf) buf (omega arith) in
    ap (write_with mask c (λ (passed : Bytes). ready n) buf) e
    ∙ rw (whole, length-apply_keystream mask k buf, rewind_part k n (length buf) h)

vectored_loop-cons :
    (mask : Mask) (last : Poll) (buf : Bytes) (o : Bytes → Poll) (bufs : List Slice) (total : ℕ)
    (c : CipherStream) (w : Written)
    → poll_write mask c o buf ≡ some w
    → vectored_loop mask last ((buf, o) ∷ bufs) total c
      ≡ vectored_step total w
          (vectored_loop mask last bufs (total + written w.result) w.next)
          (some (vectored_rest (total + written w.result) last bufs w.next))
          w.result
unfolding vectored_loop
vectored_loop-cons mask last buf o bufs total c w h = rw (h, vectored_loop) refl

-- Two slices of at most 512 bytes, of which the stream under it takes only `n` bytes of the
-- first and `m` of the second, under a cipher for the whole stream: `n + m` bytes are reported,
-- and the second slice was sent as if the first had ended after `n` bytes, so that the rest of
-- the first is lost.
pub poll_write_vectored_gap :
    (mask : Mask) (k n m : ℕ) (c : CipherStream) (a b : Bytes)
    → c.wr_cipher ≡ some (all_of k)
    → length a ≤ 512
    → length b ≤ 512
    → n < length a
    → m ≤ length b
    → (w : WrittenAll) × (poll_write_vectored mask
          (ready 0)
          ((a, λ (passed : Bytes). ready n) ∷ (b, λ (passed : Bytes). ready m) ∷ [])
          c
        ≡ some w)
      × (w.outcome ≡ ready (n + m))
      × (w.sent ≡ apply_keystream mask k a ∷ apply_keystream mask (k + n) b ∷ [])
unfolding poll_write_vectored vectored_loop vectored_step vectored_rest add_sent will_modify_data
poll_write_vectored_gap mask k n m c a b e ha hb hn hm =
    let both : List Slice =
      (a, λ (passed : Bytes). ready n) ∷ (b, λ (passed : Bytes). ready m) ∷ [] in
    let c1 : CipherStream = record {
      rd_cipher = c.rd_cipher;
      wr_cipher = some (all_of (k + n));
      last_written_size = some n;
    } in
    let c2 : CipherStream = record {
      rd_cipher = c.rd_cipher;
      wr_cipher = some (all_of ((k + n) + m));
      last_written_size = some m;
    } in
    let first = poll_write-short mask k n c a e ha (omega arith) in
    let second = poll_write-short mask (k + n) m c1 b refl hb hm in
    (
      record {
        outcome = ready ((0 + n) + m);
        sent = apply_keystream mask k a ∷ apply_keystream mask (k + n) b ∷ [];
        after = c2;
      },
      ap
            (λ (w : Option StrategyCipher).
              if can_modify w
              then vectored_loop mask (ready 0) both 0 c
              else some (record { outcome = ready 0; sent = a ∷ b ∷ []; after = c }))
            e
          ∙ vectored_loop-cons mask (ready 0) a _ ((b, λ (passed : Bytes). ready m) ∷ []) 0 c _
              first
          ∙ ap (add_sent (apply_keystream mask k a))
              (vectored_loop-cons mask (ready 0) b _ [] (0 + n) c1 _ second),
      ap ready {x = (0 + n) + m} {y = n + m} (omega arith),
      refl,
    )
