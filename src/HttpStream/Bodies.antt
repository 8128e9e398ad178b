-- ===== src/HttpStream/Bodies.antt =====
-- Reads from an `AsyncHttpStream` give the bytes behind the request, in order.
use cpxy.Base.{
  ℕ, zero, suc, ◌+◌, ◌-◌, ◌≤◌, ◌<◌, ◌≡◌, refl, ap, sym, ◌∙◌, false, ◌==◌, Option, none, some, List,
  [], ◌∷◌, ◌++◌, Bytes, length, take, drop, All, arith, ok, Result, if◌then◌else◌, length-append,
  length-take, min, Bool-cases, inl, inr, take-append-drop, append_assoc, drop-drop, length-drop,
}
use cpxy.Http.{Httparse, Parsed}
use cpxy.RwBuffer.{RwBuffer, read_buf, remaining_read}
use cpxy.RwBuffer.Moves.{IsValid, length-read_buf, advance_read_lem}
use cpxy.Handshake.Loop.{IsUsable}
use cpxy.HttpStream.{
  AsyncHttpStream, owned, parse_request, read_existing, poll_read_from, poll_read, keep_reading,
  read_exact,
}
use cpxy.HttpStream.Requests.{kept, held, IsKept, Finds, parse_request-Finds}

empty : (bs : Bytes) → length bs ≡ 0 → [] ≡ bs
empty [] h = refl
empty (b ∷ bs) h = absurd (omega arith)

kept_unread :
    (s : RwBuffer)
    → IsValid s
    → (kept (if remaining_read s == 0 then none else some s) ≡ read_buf s)
      × IsKept (if remaining_read s == 0 then none else some s)
unfolding kept
kept_unread s v = elim (Bool-cases (remaining_read s == 0)) [
  | inl e ↦ rw e (empty (read_buf s) (ground (arith, length-read_buf s v)), tt)
  | inr e ↦ rw e (refl, (v, ground arith))
]

-- What one read gives: some bytes, from the front.
Reads : ℕ → Bytes → Option (Bytes × AsyncHttpStream) → Type 0
Reads m all r =
    (out : Bytes) × (t : AsyncHttpStream) × (r ≡ some (out, t))
    × (all ≡ out ++ held t)
    × (0 < length out)
    × (length out ≤ m)
    × IsKept t.body_buf

poll_read-Reads :
    (m size : ℕ) (b : Option RwBuffer) (s : AsyncHttpStream)
    → s.body_buf ≡ b
    → IsKept b
    → 0 < m
    → 0 < size
    → 0 < length (kept b ++ s.body)
    → Reads m (kept b ++ s.body) (poll_read_from m size b s)
unfolding poll_read_from Reads kept
poll_read-Reads m size none s e k hm hs h = (
  take (min m size) s.body,
  record s { body = drop (min m size) s.body },
  refl,
  rw (e, kept) (sym (take-append-drop (min m size) s.body)),
  omega (arith, length-take (min m size) s.body),
  omega (arith, length-take (min m size) s.body),
  rw e tt,
)
poll_read-Reads m size (some existing) s e (v, more) hm hs h =
    let len = min m (remaining_read existing) in
    let (next, a, v', b, c) = advance_read_lem len existing v (omega arith) in
    let (same, still) = kept_unread next v' in
    let size_of = length-read_buf existing v in
    (
      take len (read_buf existing),
      record s { body_buf = if remaining_read next == 0 then none else some next },
      ap (λ (o : Option RwBuffer). read_existing o (take len (read_buf existing)) s) a,
      ap (λ (x : Bytes). x ++ s.body) (sym (take-append-drop len (read_buf existing)))
          ∙ append_assoc (take len (read_buf existing)) (drop len (read_buf existing)) s.body
          ∙ ap (λ (x : Bytes). take len (read_buf existing) ++ (x ++ s.body)) (sym (same ∙ b)),
      omega (arith, length-take len (read_buf existing), size_of),
      omega (arith, length-take len (read_buf existing), size_of),
      still,
    )

-- The next read, and the reads behind it.
keep_reading-eq :
    (out more : Bytes) (s t : AsyncHttpStream) (n : ℕ)
    (rest : ℕ → AsyncHttpStream → Option (Result Bytes × AsyncHttpStream))
    → 0 < length out
    → Path (Option (Result Bytes × AsyncHttpStream)) (rest (n - length out) s) (some (ok more, t))
    → keep_reading (some (out, s)) rest n ≡ some (ok (out ++ more), t)
unfolding keep_reading
keep_reading-eq [] more s t n rest h e = absurd (omega arith)
keep_reading-eq (x ∷ out) more s t n rest h e =
    let some_read : (suc (length out) == 0) ≡ false = ground arith in rw (some_read, e) refl

split_front :
    (n : ℕ) (out back : Bytes)
    → length out ≤ n
    → (out ++ take (n - length out) back ≡ take n (out ++ back))
      × (drop (n - length out) back ≡ drop n (out ++ back))
split_front n [] back h = (
  ap (λ (k : ℕ). take k back) {x = n - 0} {y = n} (omega arith),
  ap (λ (k : ℕ). drop k back) {x = n - 0} {y = n} (omega arith),
)
split_front zero (x ∷ out) back h = absurd (omega arith)
split_front (suc n) (x ∷ out) back h =
    let (t, d) = split_front n out back (omega arith) in
    let less : suc n - suc (length out) ≡ n - length out = omega arith in
    (
      ap (λ (k : ℕ). x ∷ (out ++ take k back)) less ∙ ap (◌∷◌ x) t,
      ap (λ (k : ℕ). drop k back) less ∙ d,
    )

pub read_exact-held :
    (sizes : List ℕ) (n : ℕ) (s : AsyncHttpStream)
    → IsKept s.body_buf
    → All (λ (k : ℕ). 0 < k) sizes
    → n ≤ length sizes
    → n ≤ length (held s)
    → (t : AsyncHttpStream) × (read_exact sizes n s ≡ some (ok (take n (held s)), t))
      × (held t ≡ drop n (held s))
      × IsKept t.body_buf
unfolding read_exact Reads poll_read
read_exact-held sizes zero s k h e f = (s, refl, refl, k)
read_exact-held [] (suc n) s k h e f = absurd (omega arith)
read_exact-held (size ∷ sizes) (suc n) s k (h, hs) e f =
    let (out, t, r, all, pos, le, kt) =
      poll_read-Reads (suc n) size s.body_buf s refl k (omega arith) h (omega arith) in
    let front = split_front (suc n) out (held t) le in
    let long = length-append out (held t) in
    let (u, q, left, ku) =
      read_exact-held sizes (suc n - length out) t kt hs (omega arith)
        (omega (arith, long, ap length all)) in
    (
      u,
      ap (λ (o : Option (Bytes × AsyncHttpStream)). keep_reading o (read_exact sizes) (suc n)) r
          ∙ keep_reading-eq out (take (suc n - length out) (held t)) t u (suc n) (read_exact sizes)
              pos q
          ∙ ap (λ (x : Bytes). some (ok x, u)) (front.0 ∙ ap (take (suc n)) (sym all)),
      left ∙ front.1 ∙ ap (drop (suc n)) (sym all),
      ku,
    )

-- Where httparse asks for more on each text that ends before the n-th byte, and finds the same
-- request on each longer one, parse_request, from an empty buffer of at least two bytes, with
-- one read and n more of at least one byte, returns that request; and reading len bytes from the
-- stream, in at most len reads of at least one byte, gives exactly the len bytes behind the
-- request, whether they came with it or later, and leaves those that follow.
pub read_exact-parse_request :
    (httparse : Httparse) (text : Bytes) (n len : ℕ) (req : Parsed) (s : RwBuffer) (size : ℕ)
    (sizes body_sizes : List ℕ)
    → Finds httparse text n req
    → IsUsable s
    → read_buf s ≡ []
    → All (λ (k : ℕ). 0 < k) (size ∷ sizes)
    → All (λ (k : ℕ). 0 < k) body_sizes
    → 0 < n
    → n + len ≤ length text
    → n ≤ length sizes
    → len ≤ length body_sizes
    → (stream t : AsyncHttpStream) × (parse_request httparse (size ∷ sizes) s text
        ≡ some (ok stream))
      × (stream.init ≡ owned req)
      × (read_exact body_sizes len stream ≡ some (ok (take len (drop n text)), t))
      × (held t ≡ drop (n + len) text)
read_exact-parse_request httparse text n len req s size sizes body_sizes finds u e l bl pos fits h
      k =
    let (stream, r, i, rest, keeps) =
      parse_request-Finds httparse text n req finds size sizes s u e l pos (omega arith) h in
    let (t, q, left, kt) =
      read_exact-held body_sizes len stream keeps bl k
        (omega (arith, ap length rest, length-drop n text)) in
    (
      stream,
      t,
      r,
      i,
      q ∙ ap (λ (x : Bytes). some (ok (take len x), t)) rest,
      left ∙ ap (drop len) rest ∙ drop-drop n len text,
    )
