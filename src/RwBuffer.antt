-- ===== src/RwBuffer.antt =====
-- src/buf.rs: `RWBuffer`, the buffer between a connection and the parsers. `none` is a panic: a
-- failed `assert!`, `unreachable!()`, or a slice that ends behind the buffer.
pub mod Moves
pub mod Queue
pub mod Fifo
pub mod Room
use cpxy.Base.{
  ℕ, ◌+◌, ◌-◌, ◌*◌, ◌/◌, min, Option, none, some, [], ◌++◌, Bytes, length, take, drop, replicate,
  ltb, leb, ◌==◌, if◌then◌else◌,
}

pub record RwBuffer : Type 0 where
  pub buf : Bytes
  pub read_cursor : ℕ
  pub write_cursor : ℕ

unfoldable pub new : Bytes → RwBuffer
new buf = record { buf = buf; read_cursor = 0; write_cursor = 0 }

-- `grow`: to one and a half times the length, filled up with zeros.
unfoldable pub grow : RwBuffer → RwBuffer
grow s =
    let old_len = length s.buf in
    let new_len = old_len * 15 / 10 in
    if ltb old_len new_len then record s { buf = s.buf ++ replicate (new_len - old_len) 0 } else s

abbrev pub remaining_read : RwBuffer → ℕ
remaining_read s = s.write_cursor - s.read_cursor

abbrev pub remaining_write : RwBuffer → ℕ
remaining_write s = length s.buf - s.write_cursor

unfoldable pub advance_read : ℕ → RwBuffer → Option RwBuffer
advance_read cnt s =
    if leb (s.read_cursor + cnt) s.write_cursor
    then (if s.read_cursor + cnt == s.write_cursor
        then some (record s { read_cursor = 0; write_cursor = 0 })
        else some (record s { read_cursor = s.read_cursor + cnt }))
    else none

-- `&self.buf[self.read_cursor..self.write_cursor]`
unfoldable pub read_buf : RwBuffer → Bytes
read_buf s = take (s.write_cursor - s.read_cursor) (drop s.read_cursor s.buf)

unfoldable pub advance_write : ℕ → RwBuffer → Option RwBuffer
advance_write cnt s =
    if leb (s.write_cursor + cnt) (length s.buf)
    then some (record s { write_cursor = s.write_cursor + cnt })
    else none

-- `write_buf` makes room, and hands out the part of the buffer behind the write cursor.
unfoldable pub write_buf : RwBuffer → RwBuffer
write_buf s = if remaining_write s == 0 then grow s else s

-- `put_slice` into that part, which has to be long enough.
unfoldable pub put_slice : Bytes → RwBuffer → Option RwBuffer
put_slice bytes s =
    if leb (length bytes) (remaining_write s)
    then some (record s {
      buf = take s.write_cursor s.buf ++ (bytes ++ drop (s.write_cursor + length bytes) s.buf);
    })
    else none

-- `compact`, with `copy_within(read_cursor..write_cursor, 0)`.
unfoldable pub compact : RwBuffer → Option RwBuffer
unfolding read_buf
compact s =
    if ltb s.read_cursor s.write_cursor
    then (if ltb 0 s.read_cursor
        then some (record {
          buf = read_buf s ++ drop (s.write_cursor - s.read_cursor) s.buf;
          read_cursor = 0;
          write_cursor = s.write_cursor - s.read_cursor;
        })
        else some s)
    else if s.read_cursor == s.write_cursor
    then some (record s { read_cursor = 0; write_cursor = 0 })
    else none

-- `Write::write`, behind its call of `compact`.
pub put : Bytes → RwBuffer → Option (ℕ × RwBuffer)
put bytes s =
    let len = min (remaining_write s) (length bytes) in
    if ltb 0 len
    then elim (put_slice (take len bytes) (write_buf s)) [
      | none ↦ none
      | some s1 ↦ elim (advance_write len s1) [ none ↦ none | some s2 ↦ some (len, s2) ]
    ]
    else some (len, s)

pub write : Bytes → RwBuffer → Option (ℕ × RwBuffer)
write bytes s =
    if ltb (remaining_write s) (length bytes)
    then elim (compact s) [ none ↦ none | some s1 ↦ put bytes s1 ]
    else put bytes s

-- `Read::read` into a slice of `cap` bytes, with the bytes that it fills in.
pub read : ℕ → RwBuffer → Option (Bytes × RwBuffer)
read cap s =
    let len = min (remaining_read s) cap in
    if ltb 0 len
    then elim (advance_read len s) [ none ↦ none | some s1 ↦ some (take len (read_buf s), s1) ]
    else some ([], s)
