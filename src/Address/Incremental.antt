-- ===== src/Address/Incremental.antt =====
-- `Address::parse` on a buffer that still grows.
use cpxy.Base.{
  ℕ, zero, suc, ◌+◌, ◌≤◌, ◌≡◌, refl, ◌∙◌, Option, none, some, [], ◌∷◌, ◌++◌, Bytes, length, take,
  drop, ltb, Result, ok, err, Error, be_value, arith, append-nil, length-append, length-take,
  length-drop, take-take, take-drop-take, take-append_le, drop-append_le, sym, ap, Bool-cases, inl,
  inr, le_of_ltb-false, ltb-false,
}
use cpxy.Net.{SocketAddr, Text, TextLaws}
use cpxy.Address.{Address, ip, write_len, parse, parse_v4, parse_v6, parse_name}
use cpxy.Address.Encoding.{encode, IsWire, parse-encode, length-encode}

-- The fields that `parse` reads lie in the part of the buffer that is already there.
two_fields-append :
    (m : ℕ) (buf more : Bytes)
    → m + 2 ≤ length buf
    → (take m (buf ++ more) ≡ take m buf)
      × (take 2 (drop m (buf ++ more)) ≡ take 2 (drop m buf))
      × (length (buf ++ more) ≡ length buf + length more)
two_fields-append m buf more h = (
  take-append_le m buf more (omega arith),
  ap (take 2) (drop-append_le m buf more (omega arith))
      ∙ take-append_le 2 (drop m buf) more (omega (arith, length-drop m buf)),
  length-append buf more,
)

abbrev Extends : Bytes → Bytes → (Bytes → Option (ℕ × Address)) → Type 0
Extends buf more p =
    (n : ℕ) (a : Address)
    → p buf ≡ some (n, a)
    → (n ≤ suc (length buf)) × (p (buf ++ more) ≡ some (n, a))

parse_v4-append : (buf more : Bytes) → Extends buf more parse_v4
unfolding parse_v4
parse_v4-append buf more n a e = ground (arith, two_fields-append 4 buf more)

parse_v6-append : (buf more : Bytes) → Extends buf more parse_v6
unfolding parse_v6
parse_v6-append buf more n a e = ground (arith, two_fields-append 16 buf more)

parse_name-append : (text : Text) (buf more : Bytes) → Extends buf more (parse_name text)
unfolding parse_name
parse_name-append text [] more n a e = cc
parse_name-append text (k ∷ buf) more n a e = ground (arith, two_fields-append k buf more)

-- A parser that looks at no byte behind the position that it returns.
abbrev StopsAt : Bytes → (Bytes → Option (ℕ × Address)) → Type 0
StopsAt buf p = (n : ℕ) (a : Address) → p buf ≡ some (suc n, a) → p (take n buf) ≡ some (suc n, a)

parse_v4-take : (buf : Bytes) → StopsAt buf parse_v4
unfolding parse_v4
parse_v4-take buf n a e =
    ground (arith, take-take 4 n buf, take-drop-take 4 2 n buf, length-take n buf)

parse_v6_ok :
    (buf : Bytes)
    → 18 ≤ length buf
    → parse_v6 buf
      ≡ some (19, ip (SocketAddr.v6 (be_value (take 16 buf)) (be_value (take 2 (drop 16 buf))) 0 0))
unfolding parse_v6
parse_v6_ok buf h = rw (ltb-false (length buf) 18 h)

parse_v6-take : (buf : Bytes) → StopsAt buf parse_v6
parse_v6-take buf n a e = elim (Bool-cases (ltb (length buf) 18)) [
  | inl short ↦ unfold parse_v6 in cc (rw short at e)
  | inr enough ↦
      let h : 18 ≤ length buf = le_of_ltb-false _ _ enough in
      let at_18 : n ≡ 18 = ground (arith, parse_v6_ok buf h) in
      rw at_18 (
        parse_v6_ok (take 18 buf) (omega (arith, length-take 18 buf))
        ∙ rw (take-take 16 18 buf (omega arith), take-drop-take 16 2 18 buf (omega arith))
            (rw at_18 at (sym (parse_v6_ok buf h) ∙ e)))
]

parse_name-take : (text : Text) (buf : Bytes) → StopsAt buf (parse_name text)
unfolding parse_name
parse_name-take text [] n a e = cc
parse_name-take text (k ∷ buf) zero a e = ground arith
parse_name-take text (k ∷ buf) (suc n) a e =
    ground (arith, take-take k n buf, take-drop-take k 2 n buf, length-take n buf)

module _ (text : Text) where
  -- An address that `parse` finds lies within the buffer, and `parse` finds the same address at
  -- the same position when bytes follow.
  pub parse-append :
      (buf more : Bytes) (n : ℕ) (a : Address)
      → parse text buf ≡ ok (some (n, a))
      → (n ≤ length buf) × (parse text (buf ++ more) ≡ ok (some (n, a)))
  unfolding parse
  parse-append [] more n a e = cc
  parse-append (v ∷ buf) more n a e = ground (
    arith,
    parse_v4-append buf more n a,
    parse_v6-append buf more n a,
    parse_name-append text buf more n a,
  )

  -- An error stays the same error when bytes follow.
  pub parse-append_err :
      (buf more : Bytes) (e : Error) → parse text buf ≡ err e → parse text (buf ++ more) ≡ err e
  unfolding parse
  parse-append_err [] more e h = cc
  parse-append_err (v ∷ buf) more e h = ground arith

  -- The position that `parse` returns is the end of what it looked at: the bytes up to there
  -- parse to the same address.
  pub parse-take :
      (buf : Bytes) (n : ℕ) (a : Address)
      → parse text buf ≡ ok (some (n, a))
      → parse text (take n buf) ≡ ok (some (n, a))
  unfolding parse
  parse-take [] n a e = cc
  parse-take (v ∷ buf) zero a e = ground arith
  parse-take (v ∷ buf) (suc n) a e =
      ground (arith, parse_v4-take buf n a, parse_v6-take buf n a, parse_name-take text buf n a)

  module _ (laws : TextLaws text) where
    -- On every proper prefix of the wire form of an address parse asks for more bytes.
    pub parse_truncated :
        (a : Address) (front back : Bytes) (x : ℕ)
        → IsWire text a
        → encode a ≡ front ++ (x ∷ back)
        → parse text front ≡ ok none
    parse_truncated a front back x h e = go (parse text front) refl
      where
        whole : parse text (front ++ (x ∷ back)) ≡ ok (some (write_len a, a))
        whole = rw (append-nil, e) at (parse-encode text laws a [] h)

        go : (r : Result (Option (ℕ × Address))) → parse text front ≡ r → parse text front ≡ ok none
        go (ok none) p = p
        go (ok (some (n, b))) p = ground (
          arith,
          whole,
          parse-append front (x ∷ back) n b p,
          length-encode a,
          ap length e,
          length-append front (x ∷ back),
        )
        go (err y) p = cc (whole, parse-append_err front (x ∷ back) y p)
