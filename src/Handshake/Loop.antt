-- ===== src/Handshake/Loop.antt =====
-- The loop that reads until its parser has enough, on a client that sends enough.
use cpxy.Base.{
  ℕ, ◌+◌, ◌<◌, ◌≤◌, ◌≡◌, refl, ap, sym, ◌∙◌, ltb, ◌==◌, min, false, Bool-cases, inl, inr, Option,
  some, List, [], ◌∷◌, ◌++◌, Bytes, length, take, drop, arith, All, length-take, length-drop,
  length-append, take-append-drop, le_of_ltb-false, ltb→lt, take-append, drop-append_le,
  append_assoc,
}
use cpxy.RwBuffer.{RwBuffer, remaining_write, read_buf, write_buf, advance_read}
use cpxy.RwBuffer.Moves.{IsValid, length-read_buf, advance_read_lem, put_slice-advance_write}
use cpxy.RwBuffer.Room.{write_buf_room}
use cpxy.Handshake.{Turn, done, again, Outcome, success, filled, advanced, read_until}

-- The buffer is in order and has room for two bytes.
abbrev pub IsUsable : RwBuffer → Type 0
IsUsable s = IsValid s × (2 ≤ length s.buf)

module _ {S A : Type 0} (turn : S → Bytes → Turn S A) (Open : S → Type 0) (text : Bytes) (size : ℕ)
    (a : A) where
  -- The loop goes on in front of `size` bytes of `text`, and ends behind them.
  pub record Decides : Type 0 where
    pub before :
        (p : S) (n : ℕ) → Open p → n < size → (q : S) × (turn p (take n text) ≡ again q) × Open q
    pub behind : (p : S) (n : ℕ) → Open p → size ≤ n → turn p (take n text) ≡ done size a

  -- The loop ended in order, with the bytes behind `size` still to be read, one way or another;
  -- `reads` is how many bytes can be read with the reads that are left.
  abbrev pub Ends : ℕ → Option (Outcome A) → Type 0
  Ends reads o =
      (s : RwBuffer) × (input : Bytes) × (sizes : List ℕ) × (o
        ≡ some (success a (record { buf = s; input = input; sizes = sizes })))
      × IsUsable s
      × (read_buf s ++ input ≡ drop size text)
      × All (λ (n : ℕ). 0 < n) sizes
      × (reads ≤ size + (length (read_buf s) + length sizes))

  front :
      (s : RwBuffer) (input : Bytes)
      → read_buf s ++ input ≡ text
      → read_buf s ≡ take (length (read_buf s)) text
  front s input e =
      sym (ap (take (length (read_buf s))) (sym e) ∙ take-append _ (read_buf s) input refl)

  here-Ends :
      (s : RwBuffer) (input : Bytes) (sizes : List ℕ)
      → IsUsable s
      → read_buf s ++ input ≡ text
      → All (λ (n : ℕ). 0 < n) sizes
      → size ≤ length (read_buf s)
      → Ends (length (read_buf s) + length sizes) (advanced a input sizes (advance_read size s))
  unfolding advanced
  here-Ends s input sizes (v, c) e l h =
      let (s', r, v', b, c') = advance_read_lem size s v (omega (arith, length-read_buf s v)) in
      let kept = length-drop size (read_buf s) in
      (
        s',
        input,
        sizes,
        rw r refl,
        (v', omega (arith, c')),
        rw b (sym (drop-append_le size (read_buf s) input h)) ∙ ap (drop size) e,
        l,
        omega (arith, ap length b, kept),
      )

  pub more_read :
      (n : ℕ) (s : RwBuffer) (input : Bytes)
      → IsUsable s
      → 0 < n
      → 0 < length input
      → (s2 : RwBuffer) × (let s1 = write_buf s in
          let k = min n (remaining_write s1) in
          (0 < length (take k input))
          × (filled (take k input) s1 ≡ some s2)
          × IsUsable s2
          × (read_buf s2 ≡ read_buf s ++ take k input)
          × (read_buf s2 ++ drop k input ≡ read_buf s ++ input))
  unfolding filled
  more_read n s input (v, c) hn hi =
      let s1 = write_buf s in
      let k = min n (remaining_write s1) in
      let (room, v1, b1, c1) = write_buf_room s v c in
      let small = length-take k input in
      let (s2, f, v2, b2, c2) =
        put_slice-advance_write (take k input) s1 v1 (omega (arith, small)) in
      let front_of = ap (λ (x : Bytes). x ++ take k input) b1 in
      (
        s2,
        (
          omega (arith, small),
          f,
          (v2, omega (arith, c1, c2)),
          b2 ∙ front_of,
          ap (λ (x : Bytes). x ++ drop k input) (b2 ∙ front_of)
              ∙ append_assoc (read_buf s) (take k input) (drop k input)
              ∙ ap (λ (x : Bytes). read_buf s ++ x) (take-append-drop k input),
        ),
      )

  read_until-done :
      (sizes : List ℕ) (p : S) (s : RwBuffer) (input : Bytes)
      → turn p (read_buf s) ≡ done size a
      → read_until turn sizes p s input ≡ advanced a input sizes (advance_read size s)
  unfolding read_until
  read_until-done [] p s input h = rw (h, read_until) refl
  read_until-done (n ∷ sizes) p s input h = rw (h, read_until) refl

  pub read_until-again :
      (n : ℕ) (sizes : List ℕ) (p q : S) (s s2 : RwBuffer) (input : Bytes)
      → turn p (read_buf s) ≡ again q
      → 0 < length (take (min n (remaining_write (write_buf s))) input)
      → filled (take (min n (remaining_write (write_buf s))) input) (write_buf s) ≡ some s2
      → read_until turn (n ∷ sizes) p s input
        ≡ read_until turn sizes q s2 (drop (min n (remaining_write (write_buf s))) input)
  unfolding read_until
  read_until-again n sizes p q s s2 input h l f =
      let some_read : (length (take (min n (remaining_write (write_buf s))) input) == 0) ≡ false =
        ground arith in
      rw (h, some_read, f, read_until) refl

  pub read_until_lem :
      Decides
      → (sizes : List ℕ) (p : S) (s : RwBuffer) (input : Bytes) → Open p
      → IsUsable s
      → read_buf s ++ input ≡ text
      → size ≤ length text
      → All (λ (n : ℕ). 0 < n) sizes
      → size ≤ length (read_buf s) + length sizes
      → Ends (length (read_buf s) + length sizes) (read_until turn sizes p s input)
  read_until_lem d [] p s input o u e h l r =
      rw
        (read_until-done [] p s input
          (ap (turn p) (front s input e) ∙ d.behind p _ o (omega arith)))
        (here-Ends s input [] u e l (omega arith))
  read_until_lem d (n ∷ sizes) p s input o u e h (hn, l) r =
      elim (Bool-cases (ltb (length (read_buf s)) size)) [
        | inr enough ↦
            rw
              (read_until-done (n ∷ sizes) p s input
                (ap (turn p) (front s input e) ∙ d.behind p _ o (le_of_ltb-false _ _ enough)))
              (here-Ends s input (n ∷ sizes) u e (hn, l) (le_of_ltb-false _ _ enough))
        | inl less ↦
            let (q, t, o') = d.before p (length (read_buf s)) o (ltb→lt _ _ less) in
            let left = length-append (read_buf s) input in
            let (s2, (some_read, f, u2, b2, e2)) =
              more_read n s input u hn (omega (arith, ltb→lt _ _ less, left, ap length e)) in
            let grown =
              length-append (read_buf s) (take (min n (remaining_write (write_buf s))) input) in
            let (s', input', sizes', ends, u', e', l', r') =
              read_until_lem d sizes q s2 _ o' u2 (e2 ∙ e) h l
                (omega (arith, ap length b2, grown)) in
            (
              s',
              input',
              sizes',
              read_until-again n sizes p q s s2 input (ap (turn p) (front s input e) ∙ t) some_read
                    f
                  ∙ ends,
              u',
              e',
              l',
              omega (arith, r', ap length b2, grown),
            )
      ]
