-- ===== src/RwBuffer/Moves.antt =====
-- What `advance_read`, `compact` and the last part of `write` of src/buf.rs do to the bytes that
-- are to be read.
use cpxy.Base.{
  none, some, ℕ, zero, suc, ◌+◌, ◌-◌, ◌≤◌, ◌≡◌, refl, ap, sym, ◌∙◌, min, some, [], ◌++◌, Bytes,
  length, take, drop, arith, ltb, ◌==◌, if◌then◌else◌, length-take, length-drop, length-append,
  take-append, drop-append_le, append_assoc, append-nil, le_of_ltb-false, Bool-cases, inl, inr,
  drop-drop, drop-take,
}
use cpxy.RwBuffer.{
  RwBuffer, remaining_read, remaining_write, advance_read, read_buf, advance_write, write_buf,
  put_slice, compact, put,
}

pub record IsValid (s : RwBuffer) : Type 0 where
  pub ordered : s.read_cursor ≤ s.write_cursor
  pub within : s.write_cursor ≤ length s.buf

pub length-read_buf : (s : RwBuffer) → IsValid s → length (read_buf s) ≡ remaining_read s
unfolding read_buf
length-read_buf s v = omega (
  arith,
  length-take (s.write_cursor - s.read_cursor) (drop s.read_cursor s.buf),
  length-drop s.read_cursor s.buf,
)

-- The state behind a successful `advance_read`.
abbrev advanced : ℕ → RwBuffer → RwBuffer
advanced cnt s =
    if s.read_cursor + cnt == s.write_cursor
    then record s { read_cursor = 0; write_cursor = 0 }
    else record s { read_cursor = s.read_cursor + cnt }

drop-read_buf :
    (cnt : ℕ) (s : RwBuffer)
    → take (s.write_cursor - (s.read_cursor + cnt)) (drop (s.read_cursor + cnt) s.buf)
      ≡ drop cnt (read_buf s)
unfolding read_buf
drop-read_buf cnt s =
    rw
      (
        drop-take cnt (s.write_cursor - s.read_cursor) (drop s.read_cursor s.buf),
        drop-drop s.read_cursor cnt s.buf,
      )
      (ap (λ (k : ℕ). take k (drop (s.read_cursor + cnt) s.buf))
        (regroup s.write_cursor s.read_cursor))
  where
    regroup : (w r : ℕ) → w - (r + cnt) ≡ w - r - cnt
    regroup w r = omega arith

read_buf-advanced :
    (cnt : ℕ) (s : RwBuffer)
    → IsValid s
    → cnt ≤ remaining_read s
    → read_buf (advanced cnt s) ≡ drop cnt (read_buf s)
unfolding read_buf
read_buf-advanced cnt s v h = elim (Bool-cases (s.read_cursor + cnt == s.write_cursor)) [
  | inl done ↦ rw done (
      (ap (λ (k : ℕ). take k (drop (s.read_cursor + cnt) s.buf)) {x = 0}
        {y = s.write_cursor - (s.read_cursor + cnt)} (ground arith))
      ∙ drop-read_buf cnt s)
  | inr more ↦ rw more (drop-read_buf cnt s)
]

-- Reading `cnt` bytes that are there succeeds, and drops them from the front.
pub advance_read_lem :
    (cnt : ℕ) (s : RwBuffer)
    → IsValid s
    → cnt ≤ remaining_read s
    → (s' : RwBuffer) × (advance_read cnt s ≡ some s')
      × IsValid s'
      × (read_buf s' ≡ drop cnt (read_buf s))
      × (length s'.buf ≡ length s.buf)
unfolding advance_read
advance_read_lem cnt s v h =
    (advanced cnt s, ground arith, ground arith, read_buf-advanced cnt s v h, ground arith)

read_buf-front :
    (buf : Bytes) (w : ℕ)
    → read_buf (record { buf = buf; read_cursor = 0; write_cursor = w }) ≡ take w buf
unfolding read_buf
read_buf-front buf w = ap (λ (k : ℕ). take k buf) {x = w - 0} {y = w} (omega arith)

read_buf-empty : (s : RwBuffer) → s.write_cursor ≤ s.read_cursor → read_buf s ≡ []
unfolding read_buf
read_buf-empty s h =
    ap (λ (k : ℕ). take k (drop s.read_cursor s.buf)) {x = s.write_cursor - s.read_cursor} {y = 0}
      (omega arith)

-- The state behind a `compact` that moves bytes.
abbrev moved : RwBuffer → RwBuffer
moved s = record {
  buf = read_buf s ++ drop (s.write_cursor - s.read_cursor) s.buf;
  read_cursor = 0;
  write_cursor = s.write_cursor - s.read_cursor;
}

length-moved : (s : RwBuffer) → IsValid s → length (moved s).buf ≡ length s.buf
length-moved s v = omega (
  arith,
  length-append (read_buf s) (drop (s.write_cursor - s.read_cursor) s.buf),
  length-read_buf s v,
  length-drop (s.write_cursor - s.read_cursor) s.buf,
)

read_buf-moved : (s : RwBuffer) → IsValid s → read_buf (moved s) ≡ read_buf s
read_buf-moved s v =
    rw read_buf-front (
      take-append _ (read_buf s) (drop (s.write_cursor - s.read_cursor) s.buf)
        (length-read_buf s v))

-- `compact` does not panic, keeps what is to be read, and leaves it at the front.
pub compact_lem :
    (s : RwBuffer)
    → IsValid s
    → (s' : RwBuffer) × (compact s ≡ some s')
      × IsValid s'
      × (read_buf s' ≡ read_buf s)
      × (s'.read_cursor ≡ 0)
      × (length s'.buf ≡ length s.buf)
unfolding compact
compact_lem s v = elim (Bool-cases (ltb s.read_cursor s.write_cursor)) [
  | inl nonempty ↦ elim (Bool-cases (ltb 0 s.read_cursor)) [
    | inl back ↦
        let l = length-moved s v in
        (
          moved s,
          rw (nonempty, back),
          record { ordered = omega arith; within = omega (arith, l) },
          read_buf-moved s v,
          refl,
          l,
        )
    | inr front ↦ (s, rw (nonempty, front), v, refl, ground arith, refl)
  ]
  | inr empty ↦ (
    record s { read_cursor = 0; write_cursor = 0 },
    ground arith,
    omega arith,
    read_buf-front s.buf 0 ∙ sym (read_buf-empty s (ground arith)),
    refl,
    refl,
  )
]

-- The state behind a write of `d`, for which there is room.
abbrev stored : Bytes → RwBuffer → RwBuffer
stored d s = record s {
  buf = take s.write_cursor s.buf ++ (d ++ drop (s.write_cursor + length d) s.buf);
  write_cursor = s.write_cursor + length d;
}

length-stored :
    (d : Bytes) (s : RwBuffer)
    → IsValid s
    → length d ≤ remaining_write s
    → length (stored d s).buf ≡ length s.buf
length-stored d s v h =
    let tail = drop (s.write_cursor + length d) s.buf in
    omega (
      arith,
      length-append (take s.write_cursor s.buf) (d ++ tail),
      length-append d tail,
      length-take s.write_cursor s.buf,
      length-drop (s.write_cursor + length d) s.buf,
    )

read_buf-stored : (d : Bytes) (s : RwBuffer) → IsValid s → read_buf (stored d s) ≡ read_buf s ++ d
unfolding read_buf
read_buf-stored d s v =
    let tail = drop (s.write_cursor + length d) s.buf in
    let old = take (s.write_cursor - s.read_cursor) (drop s.read_cursor s.buf) in
    rw
      (
        drop-append_le s.read_cursor (take s.write_cursor s.buf) (d ++ tail)
            (omega (arith, length-take s.write_cursor s.buf)),
        drop-take s.read_cursor s.write_cursor s.buf,
        ← append_assoc old d tail,
      )
      (take-append _ (old ++ d) tail (
        omega (
          arith,
          length-append old d,
          length-take (s.write_cursor - s.read_cursor) (drop s.read_cursor s.buf),
          length-drop s.read_cursor s.buf,
        )))

append_none : (xs ys : Bytes) (n : ℕ) → n ≤ 0 → xs ≡ xs ++ take n ys
append_none xs ys zero h = sym (append-nil xs)
append_none xs ys (suc n) h = absurd (omega arith)

pub put_lem :
    (bytes : Bytes) (s : RwBuffer)
    → IsValid s
    → (s' : RwBuffer) × (put bytes s ≡ some (min (remaining_write s) (length bytes), s'))
      × IsValid s'
      × (read_buf s' ≡ read_buf s ++ take (min (remaining_write s) (length bytes)) bytes)
      × (length s'.buf ≡ length s.buf)
unfolding put put_slice advance_write write_buf
put_lem bytes s v =
    let n = min (remaining_write s) (length bytes) in
    let d = take n bytes in
    let l = length-take n bytes in
    elim (Bool-cases (ltb 0 n)) [
      | inl some_room ↦
          let fits : length d ≤ remaining_write s = omega (arith, l) in
          let same = length-stored d s v fits in
          (
            stored d s,
            ground (arith, same, l),
            record { ordered = omega arith; within = omega (arith, same) },
            read_buf-stored d s v,
            same,
          )
      | inr no_room ↦
          (s, rw no_room, v, append_none (read_buf s) bytes n (le_of_ltb-false _ _ no_room), refl)
    ]

-- Bytes that are put behind the write cursor, for which there is room.
pub put_slice-advance_write :
    (d : Bytes) (s : RwBuffer)
    → IsValid s
    → length d ≤ remaining_write s
    → (s' : RwBuffer) × (elim (put_slice d s) [
      | none ↦ none
      | some s1 ↦ advance_write (length d) s1
    ]
        ≡ some s')
      × IsValid s'
      × (read_buf s' ≡ read_buf s ++ d)
      × (length s'.buf ≡ length s.buf)
unfolding put_slice advance_write
put_slice-advance_write d s v h =
    let same = length-stored d s v h in
    (
      stored d s,
      ground (arith, same),
      record { ordered = omega arith; within = omega (arith, same) },
      read_buf-stored d s v,
      same,
    )
