-- ===== src/Address/Stream/RoundTrip.antt =====
-- What the writers of src/socks5/addr.rs send, `parse_async` reads back.
use cpxy.Base.{
  ℕ, ◌<◌, ◌^◌, ◌≡◌, refl, ◌∙◌, Bytes, some, ◌∷◌, ◌++◌, length, be_bytes, ok, arith, take-append,
  drop-append, length-append, length-be_bytes, be_value-be_bytes, append_assoc, take-length,
}
use cpxy.Base.Reader.{read_exact, read_exact_ok}
use cpxy.Net.{SocketAddr, Text, IsPlain, IsU16}
use cpxy.Address.{Address, ip, name}
use cpxy.Address.Encoding.{encode, Fits}
use cpxy.Address.Stream.{read_v4, read_v6, read_name, read_body, parse_async}
use cpxy.Address.Stream.Agreement.{parse_async-cons}

-- Addresses that the asynchronous reader can return from their wire form; a name may read as an
-- IP address.
abbrev pub IsSent : Text → Address → Type 0
IsSent text (ip addr) = IsPlain addr
IsSent text (name host port) = (text.from_utf8 host ≡ some host) × (length host < 256) × IsU16 port

pub sent-Fits : (text : Text) (a : Address) → IsSent text a → Fits a
sent-Fits text (ip addr) h = tt
sent-Fits text (name host port) h = h.1

-- A field that is read whole.
pub read_exact-append :
    (n : ℕ) (xs rest : Bytes) → length xs ≡ n → read_exact n (xs ++ rest) ≡ ok (xs, rest)
read_exact-append n xs rest h = rw (
  read_exact_ok n (xs ++ rest) (omega (arith, length-append xs rest)),
  take-append n xs rest h,
  drop-append n xs rest h,
)

read_v4-encode :
    (addr port : ℕ) (rest : Bytes)
    → addr < 2 ^ 32
    → IsU16 port
    → read_v4 ((be_bytes 4 addr ++ be_bytes 2 port) ++ rest)
      ≡ ok (ip (SocketAddr.v4 addr port), rest)
unfolding read_v4
read_v4-encode addr port rest ha hp =
    let both = be_bytes 4 addr ++ be_bytes 2 port in
    let l = length-append (be_bytes 4 addr) (be_bytes 2 port) in
    ground (
      arith,
      read_exact-append 6 both rest (omega (arith, l, length-be_bytes)),
      take-append 4 (be_bytes 4 addr) (be_bytes 2 port) (length-be_bytes 4 addr),
      drop-append 4 (be_bytes 4 addr) (be_bytes 2 port) (length-be_bytes 4 addr),
      take-length 2 (be_bytes 2 port) (length-be_bytes 2 port),
      be_value-be_bytes 4 addr,
      be_value-be_bytes 2 port,
    )

read_v6-encode :
    (addr port : ℕ) (rest : Bytes)
    → addr < 2 ^ 128
    → IsU16 port
    → read_v6 ((be_bytes 16 addr ++ be_bytes 2 port) ++ rest)
      ≡ ok (ip (SocketAddr.v6 addr port 0 0), rest)
unfolding read_v6
read_v6-encode addr port rest ha hp =
    let both = be_bytes 16 addr ++ be_bytes 2 port in
    let l = length-append (be_bytes 16 addr) (be_bytes 2 port) in
    ground (
      arith,
      read_exact-append 18 both rest (omega (arith, l, length-be_bytes)),
      take-append 16 (be_bytes 16 addr) (be_bytes 2 port) (length-be_bytes 16 addr),
      drop-append 16 (be_bytes 16 addr) (be_bytes 2 port) (length-be_bytes 16 addr),
      take-length 2 (be_bytes 2 port) (length-be_bytes 2 port),
      be_value-be_bytes 16 addr,
      be_value-be_bytes 2 port,
    )

read_name-encode :
    (text : Text) (host : Bytes) (port : ℕ) (rest : Bytes)
    → IsSent text (name host port)
    → read_name text (length host ∷ ((host ++ be_bytes 2 port) ++ rest)) ≡ ok (name host port, rest)
unfolding read_name
read_name-encode text host port rest (valid, hl, hp) = ground (
  arith,
  read_exact_ok 1 (length host ∷ ((host ++ be_bytes 2 port) ++ rest)),
  append_assoc host (be_bytes 2 port) rest,
  read_exact-append (length host) host (be_bytes 2 port ++ rest) refl,
  read_exact-append 2 (be_bytes 2 port) rest (length-be_bytes 2 port),
  be_value-be_bytes 2 port,
)

-- The asynchronous parser reads back the wire form of every address that can be sent, a name
-- that reads as an IP address too, and leaves what follows it.
pub parse_async-encode :
    (text : Text) (a : Address) (rest : Bytes)
    → IsSent text a
    → parse_async text (encode a ++ rest) ≡ ok (a, rest)
unfolding read_body
parse_async-encode text (ip (SocketAddr.v4 addr port)) rest (ha, hp) =
    parse_async-cons text 0x1 _ ∙ read_v4-encode addr port rest ha hp
parse_async-encode text (ip (SocketAddr.v6 addr port flow scope)) rest (ha, hp, hf, hs) =
    rw (hf, hs) (parse_async-cons text 0x4 _ ∙ read_v6-encode addr port rest ha hp)
parse_async-encode text (name host port) rest h =
    parse_async-cons text 0x3 _ ∙ read_name-encode text host port rest h
