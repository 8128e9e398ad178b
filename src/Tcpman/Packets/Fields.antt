-- ===== src/Tcpman/Packets/Fields.antt =====
-- The parts of a packet of src/protocol/tcpman/udp_stream.rs, one at a time.
use cpxy.Base.{
  ℕ, ◌+◌, ◌^◌, ◌<◌, ◌≡◌, refl, ap, ◌∙◌, true, ==_iff, eq_bytes_iff, Bytes, some, ◌∷◌, ◌++◌, length,
  ok, arith, be_bytes, length-be_bytes, be_value-be_bytes, append_assoc, length-append, drop-append,
  two_fields, lt→ltb,
}
use cpxy.Net.{SocketAddr, Text, IsPlain, IsU16}
use cpxy.Address.{Address, ip, name}
use cpxy.Address.Stream.RoundTrip.{read_exact-append}
use cpxy.Tcpman.Packets.{
  same_socket_addr, same_addr, PacketType, payload_only, with_v4_addr, with_v6_addr,
  with_domain_name, packet_type, Last, last_or_error, name_or_error, read_packet, read, header,
}

-- Addresses that a packet can carry; the name has a length of two bytes here.
abbrev pub IsCarried : Text → Address → Type 0
IsCarried text (ip addr) = IsPlain addr
IsCarried text (name host port) =
    (text.from_utf8 host ≡ some host) × (length host < 2 ^ 16) × IsU16 port

same_socket_addr-eq : (a b : SocketAddr) → same_socket_addr a b ≡ true → a ≡ b
unfolding same_socket_addr
same_socket_addr-eq (SocketAddr.v4 a p) (SocketAddr.v4 b q) h =
    ground (arith, ==_iff a b, ==_iff p q)
same_socket_addr-eq (SocketAddr.v6 a p f s) (SocketAddr.v6 b q g t) h =
    ground (arith, ==_iff a b, ==_iff p q, ==_iff f g, ==_iff s t)
same_socket_addr-eq (SocketAddr.v4 a p) (SocketAddr.v6 b q g t) h = cc
same_socket_addr-eq (SocketAddr.v6 a p f s) (SocketAddr.v4 b q) h = cc

pub same_addr-eq : (a b : Address) → same_addr a b ≡ true → a ≡ b
unfolding same_addr
same_addr-eq (ip a) (ip b) h = ap ip (same_socket_addr-eq a b h)
same_addr-eq (name s p) (name t q) h = ground (arith, (eq_bytes_iff s t).0, ==_iff p q)
same_addr-eq (ip a) (name t q) h = cc
same_addr-eq (name s p) (ip b) h = cc

-- The type byte and the fields of an address in a packet.
abbrev pub number : Address → ℕ
number (ip (SocketAddr.v4 a p)) = 2
number (ip (SocketAddr.v6 a p f s)) = 3
number (name host p) = 4

abbrev pub fields : Address → Bytes
fields (ip (SocketAddr.v4 a p)) = be_bytes 4 a ++ be_bytes 2 p
fields (ip (SocketAddr.v6 a p f s)) = be_bytes 16 a ++ be_bytes 2 p
fields (name host p) = be_bytes 2 (length host) ++ (host ++ be_bytes 2 p)

pub header-fields :
    (text : Text) (n : ℕ) (addr : Address)
    → IsCarried text addr
    → header n (some addr) ≡ ok (number addr ∷ (be_bytes 2 n ++ fields addr))
unfolding header
header-fields text n (ip (SocketAddr.v4 a p)) h = refl
header-fields text n (ip (SocketAddr.v6 a p f s)) h = refl
header-fields text n (name host p) h = rw (lt→ltb _ _ h.1)

pub read-header :
    (text : Text) (last : Last) (t n : ℕ) (type : PacketType) (tail : Bytes)
    → n < 2 ^ 16
    → packet_type t ≡ ok type
    → read text last ((t ∷ be_bytes 2 n) ++ tail) ≡ read_packet text last type n tail
unfolding read
read-header text last t n type tail h e = ground (
  arith,
  read_exact-append 3 (t ∷ be_bytes 2 n) tail (omega (arith, length-be_bytes 2 n)),
  be_value-be_bytes 2 n h,
  e,
)

pub read_packet-payload_only :
    (text : Text) (addr : Address) (payload rest : Bytes)
    → read_packet text (some addr) payload_only (length payload) (payload ++ rest)
      ≡ ok (((payload, addr), some addr), rest)
unfolding read_packet last_or_error
read_packet-payload_only text addr payload rest =
    ground (arith, read_exact-append (length payload) payload rest refl)

read_packet-v4 :
    (text : Text) (last : Last) (a p : ℕ) (payload rest : Bytes)
    → a < 2 ^ 32
    → IsU16 p
    → read_packet text last with_v4_addr
        (length payload)
        (((be_bytes 4 a ++ be_bytes 2 p) ++ payload) ++ rest)
      ≡ ok (((payload, ip (SocketAddr.v4 a p)), some (ip (SocketAddr.v4 a p))), rest)
unfolding read_packet
read_packet-v4 text last a p payload rest ha hp =
    let (t, d, l) =
      two_fields 4 2 (be_bytes 4 a) (be_bytes 2 p) payload (length-be_bytes 4 a)
        (length-be_bytes 2 p) in
    let six : length (be_bytes 4 a ++ be_bytes 2 p) ≡ 6 =
      omega (arith, length-append (be_bytes 4 a) (be_bytes 2 p), length-be_bytes) in
    ground (
      arith,
      t,
      d,
      drop-append 6 (be_bytes 4 a ++ be_bytes 2 p) payload six,
      read_exact-append (length payload + 6) ((be_bytes 4 a ++ be_bytes 2 p) ++ payload) rest
          (omega (arith, l)),
      be_value-be_bytes 4 a ha,
      be_value-be_bytes 2 p hp,
    )

read_packet-v6 :
    (text : Text) (last : Last) (a p : ℕ) (payload rest : Bytes)
    → a < 2 ^ 128
    → IsU16 p
    → read_packet text last with_v6_addr
        (length payload)
        (((be_bytes 16 a ++ be_bytes 2 p) ++ payload) ++ rest)
      ≡ ok (((payload, ip (SocketAddr.v6 a p 0 0)), some (ip (SocketAddr.v6 a p 0 0))), rest)
unfolding read_packet
read_packet-v6 text last a p payload rest ha hp =
    let (t, d, l) =
      two_fields 16 2 (be_bytes 16 a) (be_bytes 2 p) payload (length-be_bytes 16 a)
        (length-be_bytes 2 p) in
    let both : length (be_bytes 16 a ++ be_bytes 2 p) ≡ 18 =
      omega (arith, length-append (be_bytes 16 a) (be_bytes 2 p), length-be_bytes) in
    ground (
      arith,
      t,
      d,
      drop-append 18 (be_bytes 16 a ++ be_bytes 2 p) payload both,
      read_exact-append (length payload + 18) ((be_bytes 16 a ++ be_bytes 2 p) ++ payload) rest
          (omega (arith, l)),
      be_value-be_bytes 16 a ha,
      be_value-be_bytes 2 p hp,
    )

pub regroup :
    (x y payload rest : Bytes) → ((x ++ y) ++ payload) ++ rest ≡ x ++ ((y ++ payload) ++ rest)
regroup x y payload rest = simp append_assoc

read_packet-name :
    (text : Text) (last : Last) (host : Bytes) (p : ℕ) (payload rest : Bytes)
    → IsCarried text (name host p)
    → read_packet text last with_domain_name
        (length payload)
        (be_bytes 2 (length host) ++ (((host ++ be_bytes 2 p) ++ payload) ++ rest))
      ≡ ok (((payload, name host p), some (name host p)), rest)
unfolding read_packet name_or_error
read_packet-name text last host p payload rest (valid, hl, hp) =
    let (t, d, l) =
      two_fields (length host) 2 host (be_bytes 2 p) payload refl (length-be_bytes 2 p) in
    let both : length (host ++ be_bytes 2 p) ≡ length host + 2 =
      omega (arith, length-append host (be_bytes 2 p), length-be_bytes 2 p) in
    ground (
      arith,
      t,
      d,
      valid,
      drop-append (length host + 2) (host ++ be_bytes 2 p) payload both,
      read_exact-append 2 (be_bytes 2 (length host)) (((host ++ be_bytes 2 p) ++ payload) ++ rest)
          (length-be_bytes 2 (length host)),
      read_exact-append (length host + 2 + length payload) ((host ++ be_bytes 2 p) ++ payload) rest
          (omega (arith, l)),
      be_value-be_bytes 2 (length host) hl,
      be_value-be_bytes 2 p hp,
    )

-- A packet with an address is read whole, whatever the last address was.
pub read-fields :
    (text : Text) (last : Last) (addr : Address) (payload rest : Bytes)
    → IsCarried text addr
    → length payload < 2 ^ 16
    → read text last
        (((number addr ∷ (be_bytes 2 (length payload) ++ fields addr)) ++ payload) ++ rest)
      ≡ ok (((payload, addr), some addr), rest)
unfolding packet_type
read-fields text last (ip (SocketAddr.v4 a p)) payload rest (ha, hp) h =
    ap (λ (b : Bytes). read text last (2 ∷ b))
      (regroup (be_bytes 2 (length payload)) (be_bytes 4 a ++ be_bytes 2 p) payload rest)
    ∙ read-header text last 2 (length payload) with_v4_addr _ h refl
    ∙ read_packet-v4 text last a p payload rest ha hp
read-fields text last (ip (SocketAddr.v6 a p f s)) payload rest (ha, hp, hf, hs) h =
    ap (λ (b : Bytes). read text last (3 ∷ b))
      (regroup (be_bytes 2 (length payload)) (be_bytes 16 a ++ be_bytes 2 p) payload rest)
    ∙ read-header text last 3 (length payload) with_v6_addr _ h refl
    ∙ rw (hf, hs) (read_packet-v6 text last a p payload rest ha hp)
read-fields text last (name host p) payload rest c h =
    ap (λ (b : Bytes). read text last (4 ∷ b))
      (regroup (be_bytes 2 (length payload)) (be_bytes 2 (length host) ++ (host ++ be_bytes 2 p))
        payload rest)
    ∙ read-header text last 4 (length payload) with_domain_name _ h refl
    ∙ ap (read_packet text last with_domain_name (length payload))
        (regroup (be_bytes 2 (length host)) (host ++ be_bytes 2 p) payload rest)
    ∙ read_packet-name text last host p payload rest c
