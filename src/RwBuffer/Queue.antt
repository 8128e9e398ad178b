-- ===== src/RwBuffer/Queue.antt =====
-- The buffer as a queue of bytes: what is written comes out in order, and no operation panics
-- while the cursors are in order.
use cpxy.Base.{
  ℕ, zero, suc, ◌-◌, ◌≤◌, ◌≡◌, refl, ap, sym, ◌∙◌, min, some, [], ◌++◌, Bytes, length, take, drop,
  arith, ltb, le_of_ltb-false, Bool-cases, inl, inr, take-min, drop-min,
}
use cpxy.RwBuffer.{RwBuffer, remaining_read, remaining_write, read_buf, write, read}
use cpxy.RwBuffer.Moves.{IsValid, length-read_buf, advance_read_lem, compact_lem, put_lem}

-- With the cursors in order `write` does not panic and keeps them so. It takes as many bytes as
-- the buffer has room for beside what is still to be read, and adds them behind that; the
-- capacity stays.
pub write_lem :
    (bytes : Bytes) (s : RwBuffer)
    → IsValid s
    → (n : ℕ) × (s' : RwBuffer) × (write bytes s ≡ some (n, s'))
      × IsValid s'
      × (n ≡ min (length s.buf - length (read_buf s)) (length bytes))
      × (read_buf s' ≡ read_buf s ++ take n bytes)
      × (length s'.buf ≡ length s.buf)
unfolding write
write_lem bytes s v = elim (Bool-cases (ltb (remaining_write s) (length bytes))) [
  | inl short ↦
      let (s1, c, v1, r1, front, l1) = compact_lem s v in
      let (s2, p, v2, r2, l2) = put_lem bytes s1 v1 in
      let size = length-read_buf s1 v1 in
      (
        min (remaining_write s1) (length bytes),
        s2,
        rw (short, c, p),
        v2,
        omega (arith, size, ap length r1),
        r2 ∙ ap (λ (b : Bytes). b ++ take (min (remaining_write s1) (length bytes)) bytes) r1,
        l2 ∙ l1,
      )
  | inr enough ↦
      let (s2, p, v2, r2, l2) = put_lem bytes s v in
      let size = length-read_buf s v in
      (min (remaining_write s) (length bytes), s2, rw (enough, p), v2, ground (arith, size), r2, l2)
]

take_none : (n : ℕ) (xs : Bytes) → n ≤ 0 → take n xs ≡ []
take_none zero xs h = refl
take_none (suc n) xs h = absurd (omega arith)

drop_none : (n : ℕ) (xs : Bytes) → n ≤ 0 → drop n xs ≡ xs
drop_none zero xs h = refl
drop_none (suc n) xs h = absurd (omega arith)

-- With the cursors in order `read` does not panic and keeps them so. It returns the first `cap`
-- bytes, or all if there are fewer, and drops them; the capacity stays.
pub read_lem :
    (cap : ℕ) (s : RwBuffer)
    → IsValid s
    → (s' : RwBuffer) × (read cap s ≡ some (take cap (read_buf s), s'))
      × IsValid s'
      × (read_buf s' ≡ drop cap (read_buf s))
      × (length s'.buf ≡ length s.buf)
unfolding read
read_lem cap s v =
    let len = min (remaining_read s) cap in
    let size = length-read_buf s v in
    let (s1, a, v1, r1, l1) = advance_read_lem len s v (omega arith) in
    let taken : take len (read_buf s) ≡ take cap (read_buf s) =
      rw (← size) (take-min cap (read_buf s)) in
    let left : drop len (read_buf s) ≡ drop cap (read_buf s) =
      rw (← size) (drop-min cap (read_buf s)) in
    elim (Bool-cases (ltb 0 len)) [
      | inl some_bytes ↦ (s1, rw (some_bytes, a, taken), v1, r1 ∙ left, l1)
      | inr no_bytes ↦
          let zero_len : len ≤ 0 = le_of_ltb-false _ _ no_bytes in
          (
            s,
            rw (no_bytes, ← taken, take_none len (read_buf s) zero_len),
            v,
            sym (drop_none len (read_buf s) zero_len) ∙ left,
            refl,
          )
    ]
