-- ===== src/Cipher/Stream.antt =====
-- src/protocol/tcpman/cipher/stream.rs: `CipherStream`, with the answers of the two streams under it
-- as inputs. `wr_buf` is filled anew in each call, and is no state here.
pub mod Writes
pub mod Runs
pub mod Slices
use cpxy.Base.{
  ℕ, ◌+◌, ◌-◌, ltb, min, max, Bool, true, false, Option, none, some, List, [], ◌∷◌, ◌++◌, Bytes,
  length, take, drop, if◌then◌else◌,
}
use cpxy.Cipher.{Mask}
use cpxy.Cipher.Strategy.{StrategyCipher, will_modify_data, apply, rewind}

pub record CipherStream : Type 0 where
  pub rd_cipher : Option StrategyCipher
  pub wr_cipher : Option StrategyCipher
  pub last_written_size : Option ℕ

unfoldable pub new : StrategyCipher → StrategyCipher → CipherStream
new rd_cipher wr_cipher = record {
  rd_cipher = some rd_cipher;
  wr_cipher = some wr_cipher;
  last_written_size = none;
}

-- `Poll<Result<usize>>`.
pub data Poll : Type 0 where
  pending : Poll
  ready : ℕ → Poll
  failed : Poll

-- What a call of `poll_write` returns, what it passed to the stream under it, and the next state.
pub record Written : Type 0 where
  pub result : Poll
  pub passed : Bytes
  pub next : CipherStream

abbrev pub unwrap_or : Option ℕ → ℕ → ℕ
unwrap_or none d = d
unwrap_or (some a) d = a

unfoldable pub desired_write_len : CipherStream → Bytes → ℕ
desired_write_len s buf = min (length buf) (max (unwrap_or s.last_written_size 4096) 512)

-- The state with the cipher that is left, where `none` is a panic.
unfoldable pub rewound : CipherStream → Poll → Bytes → Option StrategyCipher → Option Written
rewound s result passed none = none
rewound s result passed (some c) =
    some (record { result = result; passed = passed; next = record s { wr_cipher = some c } })

-- Behind the call of the stream under it.
unfoldable pub answered : CipherStream → StrategyCipher → Bytes → Poll → Option Written
answered s c passed pending = rewound s pending passed (rewind c (length passed))
answered s c passed failed = rewound s failed passed (some c)
answered s c passed (ready v) =
    rewound (record s { last_written_size = some v }) (ready v) passed
      (if ltb v (length passed) then rewind c (length passed - v) else some c)

unfoldable pub encrypted_write :
    CipherStream → (Bytes → Poll) → Option (Bytes × StrategyCipher) → Option Written
encrypted_write s w none = none
encrypted_write s w (some (out, c)) = answered s c out (w out)

unfoldable pub plain_write : CipherStream → (Bytes → Poll) → Bytes → Option Written
plain_write s w buf = some (record { result = w buf; passed = buf; next = s })

unfoldable pub write_with :
    Mask → CipherStream → (Bytes → Poll) → Bytes → Option StrategyCipher → Option Written
write_with mask s w buf none = plain_write s w buf
write_with mask s w buf (some c) =
    if will_modify_data c
    then encrypted_write s w (apply mask c (take (desired_write_len s buf) buf))
    else plain_write (record s { wr_cipher = none }) w buf

-- `poll_write`; `w` is the answer of the stream under it to what it is passed.
unfoldable pub poll_write : Mask → CipherStream → (Bytes → Poll) → Bytes → Option Written
poll_write mask s w buf = write_with mask s w buf s.wr_cipher

unfoldable pub decrypted :
    CipherStream → Option (Bytes × StrategyCipher) → Option (Bytes × CipherStream)
decrypted s none = none
decrypted s (some (out, c)) = some (out, record s { rd_cipher = some c })

unfoldable pub read_with :
    Mask → CipherStream → Option StrategyCipher → Bytes → Option (Bytes × CipherStream)
read_with mask s none buf = some (buf, s)
read_with mask s (some c) buf =
    if will_modify_data c
    then decrypted s (apply mask c buf)
    else some (buf, record s { rd_cipher = none })

-- `poll_read` where the stream under it read the bytes `buf`; where it read none, is pending or
-- fails, so does `poll_read`, with no change of its state.
unfoldable pub poll_read : Mask → CipherStream → Bytes → Option (Bytes × CipherStream)
poll_read mask s [] = some ([], s)
poll_read mask s (b ∷ buf) = read_with mask s s.rd_cipher (b ∷ buf)

-- `poll_write_vectored`. A slice stands with the answer of the stream under it to the call of
-- `poll_write` for that slice, and `last` is its answer to the call of `poll_write_vectored` on the
-- slices that are left. `sent` are the slices that it was passed, by either call.
abbrev pub Slice : Type 0
Slice = Bytes × (Bytes → Poll)

pub record WrittenAll : Type 0 where
  pub outcome : Poll
  pub sent : List Bytes
  pub after : CipherStream

abbrev pub slices : List Slice → List Bytes
slices [] = []
slices (buf ∷ bufs) = buf.0 ∷ slices bufs

-- `Poll` of the whole from that of the rest, where `total_len` bytes are written.
unfoldable pub after_total : ℕ → Poll → Poll
after_total total_len (ready v) = ready (total_len + v)
after_total total_len failed = failed
after_total total_len pending = if ltb 0 total_len then ready total_len else pending

abbrev pub can_modify : Option StrategyCipher → Bool
can_modify none = false
can_modify (some c) = will_modify_data c

-- Behind the loop.
unfoldable pub vectored_rest : ℕ → Poll → List Slice → CipherStream → WrittenAll
vectored_rest total_len last [] c = record { outcome = ready total_len; sent = []; after = c }
vectored_rest total_len last (buf ∷ bufs) c = record {
  outcome = after_total total_len last;
  sent = slices (buf ∷ bufs);
  after = c;
}

unfoldable pub add_sent : Bytes → Option WrittenAll → Option WrittenAll
add_sent out none = none
add_sent out (some w) = some (record { outcome = w.outcome; sent = out ∷ w.sent; after = w.after })

-- A slice was polled; `rest` is the loop over the slices behind it.
unfoldable pub vectored_step :
    ℕ → Written → Option WrittenAll → Option WrittenAll → Poll → Option WrittenAll
vectored_step total_len w rest left failed =
    some (record { outcome = failed; sent = w.passed ∷ []; after = w.next })
vectored_step total_len w rest left pending =
    some (record { outcome = after_total total_len pending; sent = w.passed ∷ []; after = w.next })
vectored_step total_len w rest left (ready len) =
    add_sent w.passed (if can_modify w.next.wr_cipher then rest else left)

abbrev pub written : Poll → ℕ
written (ready len) = len
written pending = 0
written failed = 0

-- The loop over the slices, which ends when the cipher has nothing more to modify.
unfoldable pub vectored_loop : Mask → Poll → List Slice → ℕ → CipherStream → Option WrittenAll
vectored_loop mask last [] total_len c = some (vectored_rest total_len last [] c)
vectored_loop mask last ((buf, answer) ∷ bufs) total_len c = elim (poll_write mask c answer buf) [
  | none ↦ none
  | some w ↦
      let total = total_len + written w.result in
      vectored_step total_len w (vectored_loop mask last bufs total w.next)
        (some (vectored_rest total last bufs w.next)) w.result
]

unfoldable pub poll_write_vectored : Mask → Poll → List Slice → CipherStream → Option WrittenAll
poll_write_vectored mask last bufs c =
    if can_modify c.wr_cipher
    then vectored_loop mask last bufs 0 c
    else some (record { outcome = last; sent = slices bufs; after = c })
