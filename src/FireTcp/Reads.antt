-- ===== src/FireTcp/Reads.antt =====
-- Runs of `CipherRead::poll_read`.
use cpxy.Base.{
  ℕ, ◌+◌, ◌-◌, ◌<◌, ◌≤◌, ◌≡◌, refl, ap, sym, ◌∙◌, ltb, ◌==◌, min, true, false, Bool-cases, inl, inr,
  Option, none, some, List, [], ◌∷◌, ◌++◌, Bytes, length, take, drop, if◌then◌else◌, arith,
  ltb-false, ltb→lt, lt→ltb, le_of_ltb-false, length-take, take-append-drop, append_assoc,
}
use cpxy.Cipher.{Mask, apply_keystream}
use cpxy.Cipher.Keystream.{apply_keystream-append}
use cpxy.FireTcp.{init, established, CipherRead, init_read, asked, read_in, poll_read}
use cpxy.FireTcp.Layout.{
  later, later_none, layout, layout-first, layout-second, establish_mask-some, establish_mask-none,
}

-- The state behind `k` bytes.
abbrev pub read_at : ℕ → Option ℕ → ℕ → CipherRead
read_at size est k =
    if ltb k size
    then record { establish_cipher = est; state = init (size - k) k }
    else record { establish_cipher = none; state = established (later est (k - size)) }

pair_eq :
    {xs ys : Bytes}
    → {c d : CipherRead} → xs ≡ ys
    → c ≡ d
    → Path (Bytes × CipherRead) (xs, c) (ys, d)
pair_eq h e = rw (h, e) refl

module _ (initial establish : Mask) where
  -- Reads of `len` bytes each, where the stream under it has some of its input ready each time:
  -- what comes out, and what is left.
  unfoldable pub run_reads : List (ℕ × ℕ) → Bytes → CipherRead → Bytes × Bytes
  run_reads [] input c = ([], input)
  run_reads ((len, size) ∷ reads) input c =
      let (out, left, next) = poll_read initial establish c len size input in
      let (outs, unread) = run_reads reads left next in (out ++ outs, unread)

  module _ (size : ℕ) (est : Option ℕ) where
    read_at_behind :
        (k v : ℕ) (q : Option ℕ)
        → size ≤ k
        → later est (k + v - size) ≡ q
        → record { establish_cipher = none; state = established q } ≡ read_at size est (k + v)
    read_at_behind k v q h e =
        let behind : ltb (k + v) size ≡ false = ltb-false _ _ (omega arith) in rw (behind, e) refl

    init_read-read_at :
        (k v : ℕ)
        → k < size
        → v ≤ size - k
        → init_read
            (record { establish_cipher = est; state = init (size - k) k })
            (size - k - v)
            (k + v)
          ≡ read_at size est (k + v)
    unfolding init_read
    init_read-read_at k v h hv = ground (arith, later_none est (k + v - size))

    read_in-established :
        (k : ℕ) (data_read : Bytes) (other : Option ℕ)
        → size ≤ k
        → est ≡ other
        → read_in initial establish
            (record { establish_cipher = none; state = established (later other (k - size)) })
            data_read
            (established (later other (k - size)))
          ≡ (
            apply_keystream (layout initial establish size est) k data_read,
            read_at size est (k + length data_read),
          )
    unfolding read_in
    read_in-established k d none h e =
        pair_eq
          (sym (establish_mask-none establish (k - size) d)
            ∙ rw (← e) (layout-second initial establish size est k d h))
          (read_at_behind k (length d) none h (rw e refl))
    read_in-established k d (some p) h e =
        pair_eq
          (establish_mask-some establish p (k - size) d
            ∙ rw (← e) (layout-second initial establish size est k d h))
          (read_at_behind k (length d) (some (p + (k - size) + length d)) h (
            rw e (
              ap (λ (q : ℕ). some q) {x = p + (k + length d - size)} {y = p + (k - size) + length d}
                (omega arith))))

    read_in-init :
        (k : ℕ) (d : Bytes)
        → k < size
        → length d ≤ size - k
        → read_in initial establish
            (record { establish_cipher = est; state = init (size - k) k })
            d
            (init (size - k) k)
          ≡ (
            apply_keystream (layout initial establish size est) k d,
            read_at size est (k + length d),
          )
    unfolding read_in
    read_in-init k d h l =
        pair_eq (layout-first initial establish size est k d (omega arith))
          (init_read-read_at k (length d) h l)

    -- `read_in` on bytes that were read within the first part or behind it.
    read_in-read_at :
        (k : ℕ) (d : Bytes)
        → (k < size → length d ≤ size - k)
        → read_in initial establish (read_at size est k) d (read_at size est k).state ≡ (
          apply_keystream (layout initial establish size est) k d,
          read_at size est (k + length d),
        )
    read_in-read_at k d h = elim (Bool-cases (ltb k size)) [
      | inl on ↦ rw on (read_in-init k d (ltb→lt _ _ on) (h (ltb→lt _ _ on)))
      | inr off ↦ rw off (read_in-established k d est (le_of_ltb-false _ _ off) refl)
    ]

    within_asked : (k len : ℕ) → k < size → asked (read_at size est k).state len ≤ size - k
    unfolding asked
    within_asked k len h = let on : ltb k size ≡ true = lt→ltb _ _ h in rw on (omega arith)

    -- A call of `poll_read` takes the front of its input.
    poll_read-read_at :
        (k len room : ℕ) (input : Bytes)
        → (d left : Bytes) × (d ++ left ≡ input)
          × (poll_read initial establish (read_at size est k) len room input ≡ (
            apply_keystream (layout initial establish size est) k d,
            left,
            read_at size est (k + length d),
          ))
    unfolding poll_read
    poll_read-read_at k len room input = elim (Bool-cases (len == 0)) [
      | inl nothing ↦ (
        [],
        input,
        refl,
        rw nothing (
            unfold apply_keystream in
            ap (λ (c : CipherRead). ([], input, c))
              (ap (read_at size est) {x = k} {y = k + 0} (omega arith))),
      )
      | inr something ↦
          let t = min room (asked (read_at size est k).state len) in
          let d = take t input in
          let e =
            read_in-read_at k d (λ h. omega (arith, length-take t input, within_asked k len h)) in
          (d, drop t input, take-append-drop t input, rw (something, e) refl)
    ]

    -- A run of reads decrypts the front of its input, from position `k`, and leaves the rest.
    pub run_reads-layout :
        (reads : List (ℕ × ℕ)) (k : ℕ) (input : Bytes)
        → (d : Bytes) × (let (out, unread) = run_reads reads input (read_at size est k) in
            (d ++ unread ≡ input) × (out ≡ apply_keystream (layout initial establish size est) k d))
    unfolding run_reads
    run_reads-layout [] k input = ([], (refl, unfold apply_keystream in refl))
    run_reads-layout ((len, room) ∷ reads) k input =
        let (d, left, e, r) = poll_read-read_at k len room input in
        let (ds, (es, rs)) = run_reads-layout reads (k + length d) left in
        (
          d ++ ds,
          (
            rw r (append_assoc d ds _ ∙ rw (es, e) refl),
            rw (r, rs) (sym (apply_keystream-append (layout initial establish size est) k d ds)),
          ),
        )
