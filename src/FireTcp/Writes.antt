-- ===== src/FireTcp/Writes.antt =====
-- Runs of `CipherWrite::poll_write`, and what a pending stream does to it.
use cpxy.Base.{
  ℕ, ◌+◌, ◌-◌, ◌<◌, ◌≤◌, ◌≡◌, refl, ap, sym, ◌∙◌, ltb, min, false, Bool-cases, inl, inr, Option,
  none, some, [], ◌∷◌, Bytes, length, take, if◌then◌else◌, arith, ltb-false, ltb→lt,
  le_of_ltb-false, length-take, take-take,
}
use cpxy.Cipher.{Mask, apply_keystream}
use cpxy.Cipher.Keystream.{length-apply_keystream, take-apply_keystream}
use cpxy.Cipher.Stream.{ready}
use cpxy.Cipher.Stream.Writes.{room, answer}
use cpxy.FireTcp.{
  init, established, CipherWrite, WriteCall, rewound_to, init_written, init_answered,
  established_answered, write_in, poll_write,
}
use cpxy.FireTcp.Layout.{
  later, later_none, layout, layout-first, layout-second, establish_mask-some, establish_mask-none,
}

later_split :
    (p k v t size : ℕ) → size ≤ k → v ≤ t → p + (k + v - size) ≡ rewound_to (p + (k - size) + t) t v
later_split p k v t size hk h = ground arith

-- The state behind `k` bytes.
abbrev pub write_at : ℕ → ℕ → Option ℕ → ℕ → CipherWrite
write_at buf_len size est k =
    if ltb k size
    then record { buf_len = buf_len; establish_cipher = est; state = init (size - k) k }
    else record {
      buf_len = buf_len;
      establish_cipher = none;
      state = established (later est (k - size));
    }

module _ (initial establish : Mask) (buf_len size : ℕ) (est : Option ℕ) where
  -- What a call from position `k` does: the result, the bytes that were taken, and the next state.
  abbrev pub Took : ℕ → Bytes → WriteCall → Type 0
  Took k buf w =
      (v : ℕ) × (w.result ≡ ready v)
      × (v ≤ length buf)
      × (take v w.passed ≡ apply_keystream (layout initial establish size est) k (take v buf))
      × (w.next ≡ write_at buf_len size est (k + v))

  init_written-write_at :
      (k t v : ℕ)
      → k < size
      → v ≤ t
      → t ≤ size - k
      → init_written
          (record { buf_len = buf_len; establish_cipher = est; state = init (size - k) k })
          (size - k - v)
          (rewound_to (k + t) t v)
        ≡ write_at buf_len size est (k + v)
  unfolding init_written
  init_written-write_at k t v h hv ht = ground (arith, later_none est (k + v - size))

  -- Behind the first `size` bytes.
  write_at_behind :
      (k v : ℕ) (q : Option ℕ)
      → size ≤ k
      → later est (k + v - size) ≡ q
      → record { buf_len = buf_len; establish_cipher = none; state = established q }
        ≡ write_at buf_len size est (k + v)
  write_at_behind k v q h e =
      let behind : ltb (k + v) size ≡ false = ltb-false _ _ (omega arith) in rw (behind, e) refl

  init-Took :
      (k n : ℕ) (buf : Bytes)
      → k < size
      → Took k buf (
          write_in initial establish
            (record { buf_len = buf_len; establish_cipher = est; state = init (size - k) k })
            (answer (room n))
            buf
            (init (size - k) k))
  unfolding write_in init_answered
  init-Took k n buf h =
      let t = min (length buf) (size - k) in
      let d = take t buf in
      let size_d : length d ≡ t = omega (arith, length-take t buf) in
      let size_out = length-apply_keystream initial k d ∙ size_d in
      let v = min n t in
      (
        v,
        ap (λ (l : ℕ). ready (min n l)) size_out,
        omega arith,
        take-apply_keystream initial k v d
            ∙ ap (apply_keystream initial k) (take-take v t buf (omega arith))
            ∙ layout-first initial establish size est k (take v buf)
                (omega (arith, length-take v buf)),
        rw size_out (init_written-write_at k t v h (omega arith) (omega arith)),
      )

  established-Took :
      (k n : ℕ) (buf : Bytes) (other : Option ℕ)
      → size ≤ k
      → est ≡ other
      → Took k buf (
          write_in initial establish
            (record {
              buf_len = buf_len;
              establish_cipher = none;
              state = established (later other (k - size));
            })
            (answer (room n))
            buf
            (established (later other (k - size))))
  unfolding write_in established_answered
  established-Took k n buf none h e =
      let v = min n (length buf) in
      (
        v,
        refl,
        omega arith,
        sym (establish_mask-none establish (k - size) (take v buf))
            ∙ rw (← e) (layout-second initial establish size est k (take v buf) h),
        write_at_behind k v none h (rw e refl),
      )
  established-Took k n buf (some p) h e =
      let t = min (length buf) buf_len in
      let d = take t buf in
      let size_d : length d ≡ t = omega (arith, length-take t buf) in
      let size_out = length-apply_keystream establish (p + (k - size)) d ∙ size_d in
      let v = min n t in
      (
        v,
        ap (λ (l : ℕ). ready (min n l)) size_out,
        omega arith,
        take-apply_keystream establish (p + (k - size)) v d
            ∙ ap (apply_keystream establish (p + (k - size))) (take-take v t buf (omega arith))
            ∙ establish_mask-some establish p (k - size) (take v buf)
            ∙ rw (← e) (layout-second initial establish size est k (take v buf) h),
        rw size_out (
            write_at_behind k v (some (rewound_to (p + (k - size) + t) t v)) h
              (rw e (ap (λ (q : ℕ). some q) (later_split p k v t size h (omega arith))))),
      )

  nothing-Took :
      (k n : ℕ)
      → Took k [] (poll_write initial establish (write_at buf_len size est k) (answer (room n)) [])
  unfolding poll_write apply_keystream
  nothing-Took k n =
      (0, refl, omega arith, refl, ap (write_at buf_len size est) {x = k} {y = k + 0} (omega arith))

  pub poll_write-Took :
      (k n : ℕ) (buf : Bytes)
      → Took k buf
          (poll_write initial establish (write_at buf_len size est k) (answer (room n)) buf)
  unfolding poll_write
  poll_write-Took k n [] = nothing-Took k n
  poll_write-Took k n (b ∷ buf) = elim (Bool-cases (ltb k size)) [
    | inl on ↦ rw on (init-Took k n (b ∷ buf) (ltb→lt _ _ on))
    | inr off ↦ rw off (established-Took k n (b ∷ buf) est (le_of_ltb-false _ _ off) refl)
  ]
