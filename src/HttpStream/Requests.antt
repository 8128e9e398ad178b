-- ===== src/HttpStream/Requests.antt =====
-- `parse_request` of src/http.rs finds the request, and leaves all that follows it.
use cpxy.Base.{
  ℕ, ◌≤◌, ◌<◌, ◌≡◌, refl, ap, ◌∙◌, Bool, true, false, Option, none, some, List, [], ◌∷◌, ◌++◌,
  Bytes, length, take, drop, All, arith, ok, ltb, if◌then◌else◌, Bool-cases, ltb→lt, inl, inr,
}
use cpxy.Http.{Httparse, complete, partial, Parsed}
use cpxy.RwBuffer.{RwBuffer, read_buf, remaining_read}
use cpxy.RwBuffer.Moves.{IsValid, length-read_buf}
use cpxy.Handshake.Loop.{IsUsable, Decides, read_until_lem, read_until-again, more_read}
use cpxy.HttpStream.{AsyncHttpStream, owned, request_status, request_turn, streamed, parse_request}

-- The bytes behind the request, in the order in which they arrived.
unfoldable pub kept : Option RwBuffer → Bytes
kept none = []
kept (some existing) = read_buf existing

abbrev pub held : AsyncHttpStream → Bytes
held s = kept s.body_buf ++ s.body

kept_rest :
    (s : RwBuffer)
    → IsValid s
    → kept (if ltb 0 (remaining_read s) then some s else none) ≡ read_buf s
unfolding kept
kept_rest s v = elim (Bool-cases (ltb 0 (remaining_read s))) [
  | inl e ↦ rw e refl
  | inr e ↦ rw e (empty (read_buf s) (ground (arith, length-read_buf s v)))
]
  where
    empty : (bs : Bytes) → length bs ≡ 0 → [] ≡ bs
    empty [] h = refl
    empty (b ∷ bs) h = absurd (omega arith)

-- A buffer that was kept is in order and not empty.
abbrev pub IsKept : Option RwBuffer → Type 0
IsKept none = Unit
IsKept (some s) = IsValid s × (0 < remaining_read s)

IsKept-rest :
    (s : RwBuffer) → IsValid s → IsKept (if ltb 0 (remaining_read s) then some s else none)
IsKept-rest s v = elim (Bool-cases (ltb 0 (remaining_read s))) [
  | inl e ↦ rw e (v, ltb→lt _ _ e)
  | inr e ↦ rw e tt
]

-- `httparse` on a growing text: it asks for more in front of the end of the request, and finds the
-- same request from there.
pub record Finds (httparse : Httparse) (text : Bytes) (n : ℕ) (req : Parsed) : Type 0 where
  pub early : (k : ℕ) → k < n → httparse (take k text) ≡ ok partial
  pub late : (k : ℕ) → n ≤ k → httparse (take k text) ≡ ok (complete n req)

module _ (httparse : Httparse) (text : Bytes) (n : ℕ) (req : Parsed)
    (finds : Finds httparse text n req) where
  turn-finds : Decides (request_turn httparse) (λ (p : Bool). p ≡ true) text n (owned req)
  unfolding request_turn
  turn-finds = record {
    before = λ p k o h. (
      true,
      ap (λ (q : Bool). request_turn httparse q (take k text)) o
          ∙ ap request_status (finds.early k h),
      refl,
    );
    behind = λ p k o h.
        ap (λ (q : Bool). request_turn httparse q (take k text)) o
        ∙ ap request_status (finds.late k h);
  }

  -- The request is found, and the stream holds what follows it.
  pub parse_request-Finds :
      (size : ℕ) (sizes : List ℕ) (s : RwBuffer)
      → IsUsable s
      → read_buf s ≡ []
      → All (λ (k : ℕ). 0 < k) (size ∷ sizes)
      → 0 < n
      → n ≤ length text
      → n ≤ length sizes
      → (stream : AsyncHttpStream) × (parse_request httparse (size ∷ sizes) s text
          ≡ some (ok stream))
        × (stream.init ≡ owned req)
        × (held stream ≡ drop n text)
        × IsKept stream.body_buf
  unfolding parse_request request_turn streamed
  parse_request-Finds size sizes s u e (hs, l) pos fits enough =
      let (s2, (some_read, f, u2, b2, e2)) =
        more_read (request_turn httparse) (λ (p : Bool). p ≡ true) text n (owned req) size s text u
          hs (omega arith) in
      let whole = ap (λ (x : Bytes). x ++ text) e in
      let (s3, input, sizes3, ends, u3, rest, l3, r3) =
        read_until_lem _ (λ (p : Bool). p ≡ true) text n (owned req) turn-finds sizes true s2 _ refl
          u2 (e2 ∙ whole) fits l (omega arith) in
      (
        record {
          init = owned req;
          body_buf = if ltb 0 (remaining_read s3) then some s3 else none;
          body = input;
        },
        ap streamed (
            read_until-again (request_turn httparse) (λ (p : Bool). p ≡ true) text n (owned req)
              size sizes false true s s2 text refl some_read f
            ∙ ends),
        refl,
        ap (λ (x : Bytes). x ++ input) (kept_rest s3 u3.0) ∙ rest,
        IsKept-rest s3 u3.0,
      )
