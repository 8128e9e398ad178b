-- ===== src/Address/Encoding.antt =====
-- The wire form of an address: what the writers of src/socks5/addr.rs append, and that `parse`
-- reads it back.
use cpxy.Base.{
  ℕ, ◌+◌, ◌^◌, ◌<◌, ◌≡◌, ◌↔◌, refl, ◌∙◌, none, some, [], ◌∷◌, ◌++◌, Bytes, length, ltb, lt→ltb,
  ltb-false, ap, Bool-cases, false, inl, inr, ok, be_bytes, arith, append_assoc, length-append,
  length-be_bytes, be_value-be_bytes, two_fields,
}
use cpxy.Net.{SocketAddr, Text, TextLaws, IsPlain, IsU16}
use cpxy.Address.{
  Address, ip, name, write_len, write_to, write, parse, parse_v4, parse_v6, parse_name, from_host,
}

-- The bytes of an address, with no limit on the length of a name.
abbrev pub encode : Address → Bytes
encode (ip (SocketAddr.v4 addr port)) = 0x1 ∷ (be_bytes 4 addr ++ be_bytes 2 port)
encode (ip (SocketAddr.v6 addr port flow scope)) = 0x4 ∷ (be_bytes 16 addr ++ be_bytes 2 port)
encode (name host port) = 0x3 ∷ length host ∷ (host ++ be_bytes 2 port)

-- A name is a `String` that does not read as an IP address.
abbrev pub IsHost : Text → Bytes → Type 0
IsHost text host = (text.from_utf8 host ≡ some host) × (text.parse_ip host ≡ none)

-- Addresses that have a wire form.
abbrev pub IsWire : Text → Address → Type 0
IsWire text (ip addr) = IsPlain addr
IsWire text (name host port) = IsHost text host × (length host < 256) × IsU16 port

abbrev pub Fits : Address → Type 0
Fits (ip addr) = Unit
Fits (name host port) = length host < 256

pub write_to-encode : (a : Address) (buf : Bytes) → Fits a → write_to a buf ≡ ok (buf ++ encode a)
unfolding write_to
write_to-encode (ip (SocketAddr.v4 addr port)) buf h = simp append_assoc
write_to-encode (ip (SocketAddr.v6 addr port flow scope)) buf h = simp append_assoc
write_to-encode (name host port) buf h = rw (lt→ltb _ _ h) (simp append_assoc)

pub write-write_to : (a : Address) (buf : Bytes) → write a buf ≡ write_to a buf
unfolding write_to write
write-write_to (ip (SocketAddr.v4 addr port)) buf = refl
write-write_to (ip (SocketAddr.v6 addr port flow scope)) buf = refl
write-write_to (name host port) buf = elim (Bool-cases (ltb (length host) 256)) [
  | inl fits ↦ rw fits (simp append_assoc)
  | inr long ↦ rw long
]

pub length-encode : (a : Address) → length (encode a) ≡ write_len a
unfolding write_len
length-encode (ip (SocketAddr.v4 addr port)) =
    omega (arith, length-append (be_bytes 4 addr) (be_bytes 2 port), length-be_bytes)
length-encode (ip (SocketAddr.v6 addr port flow scope)) =
    omega (arith, length-append (be_bytes 16 addr) (be_bytes 2 port), length-be_bytes)
length-encode (name host port) =
    omega (arith, length-append host (be_bytes 2 port), length-be_bytes)

parse_v4-encode :
    (addr port : ℕ) (rest : Bytes)
    → addr < 2 ^ 32
    → IsU16 port
    → parse_v4 ((be_bytes 4 addr ++ be_bytes 2 port) ++ rest)
      ≡ some (7, ip (SocketAddr.v4 addr port))
unfolding parse_v4
parse_v4-encode addr port rest ha hp =
    let (t, d, l) =
      two_fields 4 2 (be_bytes 4 addr) (be_bytes 2 port) rest (length-be_bytes 4 addr)
        (length-be_bytes 2 port) in
    ground (arith, t, d, l, be_value-be_bytes 4 addr, be_value-be_bytes 2 port)

parse_v6-encode :
    (addr port : ℕ) (rest : Bytes)
    → addr < 2 ^ 128
    → IsU16 port
    → parse_v6 ((be_bytes 16 addr ++ be_bytes 2 port) ++ rest)
      ≡ some (19, ip (SocketAddr.v6 addr port 0 0))
unfolding parse_v6
parse_v6-encode addr port rest ha hp =
    let (t, d, l) =
      two_fields 16 2 (be_bytes 16 addr) (be_bytes 2 port) rest (length-be_bytes 16 addr)
        (length-be_bytes 2 port) in
    ground (arith, t, d, l, be_value-be_bytes 16 addr, be_value-be_bytes 2 port)

pub from_host-name :
    (text : Text) (host : Bytes) (port : ℕ)
    → text.parse_ip host ≡ none
    → from_host text host port ≡ name host port
unfolding from_host
from_host-name text host port e = rw (e, from_host)

module _ (text : Text) (laws : TextLaws text) where
  parse_name-encode :
      (host : Bytes) (port : ℕ) (rest : Bytes)
      → IsWire text (name host port)
      → parse_name text (length host ∷ ((host ++ be_bytes 2 port) ++ rest))
        ≡ some (1 + 1 + (length host + 2), name host port)
  unfolding parse_name
  parse_name-encode host port rest ((valid, not_ip), hl, hp) =
      let (t, d, l) =
        two_fields (length host) 2 host (be_bytes 2 port) rest refl (length-be_bytes 2 port) in
      let enough : ltb (length ((host ++ be_bytes 2 port) ++ rest)) (length host + 2) ≡ false =
        ltb-false _ _ (omega (arith, l)) in
      rw (
        enough,
        t,
        d,
        laws.lossy_valid host valid,
        be_value-be_bytes 2 port hp,
        from_host-name text host port not_ip,
      )

  pub parse-encode :
      (a : Address) (rest : Bytes)
      → IsWire text a
      → parse text (encode a ++ rest) ≡ ok (some (write_len a, a))
  unfolding parse write_len
  parse-encode (ip (SocketAddr.v4 addr port)) rest (ha, hp) =
      ap ok (parse_v4-encode addr port rest ha hp)
  parse-encode (ip (SocketAddr.v6 addr port flow scope)) rest (ha, hp, hf, hs) =
      rw (hf, hs) (ap ok (parse_v6-encode addr port rest ha hp))
  parse-encode (name host port) rest h = ap ok (parse_name-encode host port rest h ∙ ground arith)

  pub wire-Fits : (a : Address) → IsWire text a → Fits a
  wire-Fits (ip addr) h = tt
  wire-Fits (name host port) h = h.1

  -- An address that has a wire form is written in write_len bytes, and whatever follows them,
  -- parse reads the same address back and its position is where they end.
  pub parse-write_to :
      (a : Address) (rest : Bytes)
      → IsWire text a
      → (out : Bytes) × (write_to a [] ≡ ok out)
        × (length out ≡ write_len a)
        × (parse text (out ++ rest) ≡ ok (some (write_len a, a)))
  parse-write_to a rest h =
      (encode a, write_to-encode a [] (wire-Fits a h), length-encode a, parse-encode a rest h)

-- `write_to` adds `write_len` bytes to what its buffer held exactly if the address is no name of
-- more than 255 bytes.
pub write_to_iff :
    (a : Address) (buf : Bytes)
    → ((out : Bytes) × (write_to a buf ≡ ok (buf ++ out)) × (length out ≡ write_len a)) ↔ Fits a
unfolding write_to
write_to_iff a buf = (λ w. only a w.1, λ h. (encode a, write_to-encode a buf h, length-encode a))
  where
    only : (a : Address) {out : Bytes} → write_to a buf ≡ ok out → Fits a
    only (ip addr) e = tt
    only (name host port) e = ground arith

pub write-encode : (a : Address) (buf : Bytes) → Fits a → write a buf ≡ ok (buf ++ encode a)
write-encode a buf h = write-write_to a buf ∙ write_to-encode a buf h
