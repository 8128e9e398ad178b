-- ===== src/RwBuffer/Fifo.antt =====
-- Runs of writes and reads of the buffer of src/buf.rs.
use cpxy.Base.{
  ℕ, ◌≡◌, refl, ap, sym, ◌∙◌, Option, none, some, List, [], ◌∷◌, ◌++◌, Bytes, take, arith,
  append_assoc, append-nil, take-append-drop,
}
use cpxy.RwBuffer.{RwBuffer, read_buf, write, read}
use cpxy.RwBuffer.Moves.{IsValid}
use cpxy.RwBuffer.Queue.{write_lem, read_lem}

-- A run of writes and reads, with the bytes that were taken in and the bytes that came out.
pub data Op : Type 0 where
  put_in : Bytes → Op
  take_out : ℕ → Op

abbrev pub step : Op → RwBuffer → Option (Bytes × Bytes × RwBuffer)
step (put_in bytes) s = elim (write bytes s) [
  | none ↦ none
  | some (n, s') ↦ some (take n bytes, [], s')
]
step (take_out n) s = elim (read n s) [ none ↦ none | some (out, s') ↦ some ([], out, s') ]

unfoldable pub run : List Op → RwBuffer → Option (Bytes × Bytes × RwBuffer)
run [] s = some ([], [], s)
run (op ∷ ops) s = elim (step op s) [
  | none ↦ none
  | some (i, o, s1) ↦ elim (run ops s1) [
    | none ↦ none
    | some (is, os, s2) ↦ some (i ++ is, o ++ os, s2)
  ]
]

step_fifo :
    (op : Op) (s : RwBuffer)
    → IsValid s
    → (i o : Bytes) × (s' : RwBuffer) × (step op s ≡ some (i, o, s'))
      × IsValid s'
      × (read_buf s ++ i ≡ o ++ read_buf s')
step_fifo (put_in bytes) s v =
    let (n, s', e, v', size, r, l) = write_lem bytes s v in
    (take n bytes, [], s', ground (arith, e), v', sym r)
step_fifo (take_out n) s v =
    let (s', e, v', r, l) = read_lem n s v in
    (
      [],
      take n (read_buf s),
      s',
      ground (arith, e),
      v',
      append-nil (read_buf s)
          ∙ sym (take-append-drop n (read_buf s))
          ∙ ap (λ (b : Bytes). take n (read_buf s) ++ b) (sym r),
    )

-- The buffer is a queue: a run of writes and reads from cursors in order never panics and leaves
-- them in order, and what was in the buffer and what was taken in is, in this order, what came
-- out and what is still in it.
pub run_fifo :
    (ops : List Op) (s : RwBuffer)
    → IsValid s
    → (i o : Bytes) × (s' : RwBuffer) × (run ops s ≡ some (i, o, s'))
      × IsValid s'
      × (read_buf s ++ i ≡ o ++ read_buf s')
unfolding run
run_fifo [] s v = ([], [], s, refl, v, append-nil (read_buf s))
run_fifo (op ∷ ops) s v =
    let (i, o, s1, e, v1, q) = step_fifo op s v in
    let (is, os, s2, e', v2, q') = run_fifo ops s1 v1 in
    (
      i ++ is,
      o ++ os,
      s2,
      ground (arith, e, e'),
      v2,
      sym (append_assoc (read_buf s) i is)
          ∙ ap (λ (b : Bytes). b ++ is) q
          ∙ append_assoc o (read_buf s1) is
          ∙ ap (λ (b : Bytes). o ++ b) q'
          ∙ sym (append_assoc o os (read_buf s2)),
    )
