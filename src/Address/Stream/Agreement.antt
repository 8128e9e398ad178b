-- ===== src/Address/Stream/Agreement.antt =====
-- `parse_async` against `parse`: the same bytes, read from a connection and from a buffer.
use cpxy.Base.{
  ℕ, suc, ◌+◌, ◌≤◌, ◌≡◌, refl, ◌==◌, Bytes, Option, none, some, [], ◌∷◌, length, take, drop,
  be_value, Result, ok, err, Error, arith, Bool-cases, inl, inr, ◌≢◌, drop-drop, length-drop,
  Option-cases,
}
use cpxy.Base.Reader.{Reader, read_exact, read_exact_ok, read_exact_short}
use cpxy.Net.{Text, TextLaws}
use cpxy.Address.{Address, ip, name, parse, parse_v4, parse_v6, parse_name, from_host}
use cpxy.Address.Stream.{read_v4, read_v6, read_name, read_body, parse_async}

-- What `parse` makes of an address: a name that reads as an IP address becomes one.
abbrev pub with_ip : Text → Address → Address
with_ip text (ip addr) = ip addr
with_ip text (name host port) = from_host text host port

-- The reader and the buffer parser find the same address, behind the type byte.
abbrev Agrees : Text → Reader Address → (Bytes → Option (ℕ × Address)) → Bytes → Type 0
Agrees text r p input =
    (a : Address) (rest : Bytes)
    → r input ≡ ok (a, rest)
    → (n : ℕ) × (p input ≡ some (suc n, with_ip text a)) × (rest ≡ drop n input)

read_v4-parse_v4 : (text : Text) (input : Bytes) → Agrees text read_v4 parse_v4 input
unfolding read_v4 parse_v4 read_exact
read_v4-parse_v4 text input a rest e = (6, ground arith, ground arith)

read_v6-parse_v6 : (text : Text) (input : Bytes) → Agrees text read_v6 parse_v6 input
unfolding read_v6 parse_v6 read_exact
read_v6-parse_v6 text input a rest e = (18, ground arith, ground arith)

-- A name that was read: enough bytes, valid UTF-8, and what is left.
read_name_inv :
    (text : Text) (k : ℕ) (input : Bytes) (a : Address) (rest s : Bytes)
    → text.from_utf8 (take k input) ≡ some s
    → read_name text (k ∷ input) ≡ ok (a, rest)
    → (k + 2 ≤ length input)
      × (a ≡ name s (be_value (take 2 (drop k input))))
      × (rest ≡ drop (k + 2) input)
unfolding read_name
read_name_inv text k input a rest s v e = ground (
  arith,
  read_exact_ok 1 (k ∷ input),
  read_exact_ok k input,
  read_exact_short k input,
  read_exact_ok 2 (drop k input),
  read_exact_short 2 (drop k input),
  drop-drop k 2 input,
  length-drop k input,
)

read_name_invalid :
    (text : Text) (k : ℕ) (input : Bytes) (a : Address) (rest : Bytes)
    → text.from_utf8 (take k input) ≡ none
    → read_name text (k ∷ input) ≢ ok (a, rest)
unfolding read_name
read_name_invalid text k input a rest v e = ground (
  arith,
  read_exact_ok 1 (k ∷ input),
  read_exact_ok k input,
  read_exact_short k input,
  read_exact_ok 2 (drop k input),
  read_exact_short 2 (drop k input),
)

pub parse_async-cons :
    (text : Text) (v : ℕ) (input : Bytes) → parse_async text (v ∷ input) ≡ read_body text v input
unfolding parse_async
parse_async-cons text v input = ground (arith, read_exact_ok 1 (v ∷ input))

module _ (text : Text) (laws : TextLaws text) where
  read_name-parse_name : (input : Bytes) → Agrees text (read_name text) (parse_name text) input
  unfolding read_name parse_name read_exact
  read_name-parse_name [] a rest e = cc
  read_name-parse_name (k ∷ input) a rest e = elim (Option-cases (text.from_utf8 (take k input))) [
    | inl v ↦ absurd (read_name_invalid text k input a rest v e)
    | inr (s, v) ↦
        let (enough, address, left) = read_name_inv text k input a rest s v e in
        let same : s ≡ take k input = laws.from_utf8_same (take k input) s v in
        let kept : text.from_utf8_lossy (take k input) ≡ take k input =
          laws.lossy_valid (take k input) (rw same at v) in
        (suc (k + 2), ground (arith, kept, address), left)
  ]

  agree :
      (v : ℕ) (input : Bytes) (a : Address) (rest : Bytes)
      → read_body text v input ≡ ok (a, rest)
      → (n : ℕ) × (parse text (v ∷ input) ≡ ok (some (suc n, with_ip text a)))
        × (rest ≡ drop n input)
  unfolding read_body parse
  agree v input a rest e = elim (Bool-cases (v == 0x1)) [
    | inl is1 ↦
        let (n, p, q) = read_v4-parse_v4 text input a rest (rw is1 at e) in
        (n, ground (arith, p), q)
    | inr not1 ↦ elim (Bool-cases (v == 0x4)) [
      | inl is4 ↦
          let (n, p, q) = read_v6-parse_v6 text input a rest (rw (not1, is4) at e) in
          (n, ground (arith, p), q)
      | inr not4 ↦ elim (Bool-cases (v == 0x3)) [
        | inl is3 ↦
            let (n, p, q) = read_name-parse_name input a rest (rw (not1, not4, is3) at e) in
            (n, ground (arith, p), q)
        | inr not3 ↦ cc (rw (not1, not4, not3) at e)
      ]
    ]
  ]

  -- Where the asynchronous parser reads an address, `parse` finds the same one on the same
  -- bytes, but for a name that reads as an IP address, which `parse` turns into that address;
  -- and the reader stops at the position that `parse` returns.
  pub parse_async-parse :
      (input : Bytes) (a : Address) (rest : Bytes)
      → parse_async text input ≡ ok (a, rest)
      → (n : ℕ) × (parse text input ≡ ok (some (n, with_ip text a))) × (rest ≡ drop n input)
  unfolding parse_async
  parse_async-parse [] a rest e = cc (read_exact_short 1 [] (omega arith), e)
  parse_async-parse (v ∷ input) a rest e =
      let (n, p, q) = agree v input a rest (rw (parse_async-cons text v input) at e) in
      (suc n, p, q)

  -- Where `parse` asks for more bytes, the asynchronous parser fails.
  pub parse_async_short :
      (input : Bytes) → parse text input ≡ ok none → (e : Error) × (parse_async text input ≡ err e)
  parse_async_short input e = go (parse_async text input) refl
    where
      go :
          (r : Result (Address × Bytes))
          → parse_async text input ≡ r
          → (e : Error) × (parse_async text input ≡ err e)
      go (ok (a, rest)) q = absurd (cc ((parse_async-parse input a rest q).1, e))
      go (err x) q = (x, q)
