-- ===== src/RwBuffer/Room.antt =====
-- `write_buf` and `grow`: there is room behind the write cursor after it.
use cpxy.Base.{
  ℕ, ◌+◌, ◌-◌, ◌*◌, ◌/◌, ◌<◌, ◌≤◌, ◌≡◌, Bytes, refl, length, drop, replicate, arith, ltb, ◌==◌,
  length-append, length-replicate, take-append_le, drop-append_le, length-drop, ==_iff, Bool-cases,
  inl, inr,
}
use cpxy.RwBuffer.{RwBuffer, remaining_write, grow, read_buf, write_buf}
use cpxy.RwBuffer.Moves.{IsValid}

read_buf-grow : (s : RwBuffer) → IsValid s → read_buf (grow s) ≡ read_buf s
unfolding read_buf grow
read_buf-grow s v =
    let more : Bytes = replicate (length s.buf * 15 / 10 - length s.buf) 0 in
    elim (Bool-cases (ltb (length s.buf) (length s.buf * 15 / 10))) [
      | inl grows ↦ rw grows (
          rw (drop-append_le s.read_cursor s.buf more (omega arith)) (
            take-append_le _ (drop s.read_cursor s.buf) more
              (omega (arith, length-drop s.read_cursor s.buf))))
      | inr stays ↦ rw stays
    ]

length-grow : (s : RwBuffer) → length (grow s).buf ≡ length s.buf + (length s.buf / 2)
unfolding grow
length-grow s =
    let n = length s.buf in
    ground (
      arith,
      length-append s.buf (replicate (n * 15 / 10 - n) 0),
      length-replicate {A = ℕ} (n * 15 / 10 - n) 0,
    )

grow_cursors :
    (s : RwBuffer)
    → ((grow s).write_cursor ≡ s.write_cursor) × ((grow s).read_cursor ≡ s.read_cursor)
unfolding grow
grow_cursors s = ground arith

-- After `write_buf` a buffer of at least two bytes, whose cursors are in order, has room for
-- another byte, keeps its cursors in order and the bytes to be read, and is never shorter.
pub write_buf_room :
    (s : RwBuffer)
    → IsValid s
    → 2 ≤ length s.buf
    → (0 < remaining_write (write_buf s))
      × IsValid (write_buf s)
      × (read_buf (write_buf s) ≡ read_buf s)
      × (length s.buf ≤ length (write_buf s).buf)
unfolding write_buf
write_buf_room s v h = elim (Bool-cases (remaining_write s == 0)) [
  | inl full ↦
      let l = length-grow s in
      let (w, r) = grow_cursors s in
      rw full (
        omega (arith, l, w, (==_iff _ _).0 full),
        record { ordered = omega (arith, w, r); within = omega (arith, l, w) },
        read_buf-grow s v,
        omega (arith, l),
      )
  | inr room ↦ rw room (ground arith, v, refl, omega arith)
]
