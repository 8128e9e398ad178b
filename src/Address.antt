-- ===== src/Address.antt =====
-- src/socks5/addr.rs: `Address`, its length on the wire, its writers and its parsers. A host is
-- the bytes of its `str`. `parse` is the parser over a buffer, which may hold too little;
-- `parse_async` in Stream reads from a connection.
pub mod Stream
pub mod Encoding
pub mod Incremental
use cpxy.Base.{
  ℕ, ◌+◌, ◌≡◌, Bool, ◌||◌, Option, none, some, [], ◌∷◌, ◌++◌, Bytes, length, take, drop, ltb, ◌==◌,
  if◌then◌else◌, Result, ok, err, ◌>>=◌, unexpected, be_bytes, be_value, u8_try_from, codes,
  eq_ignore_ascii_case,
}
use cpxy.Net.{IpAddr, SocketAddr, socket_addr, port_of, Text}

pub data Address : Type 0 where
  ip : SocketAddr → Address
  name : Bytes → ℕ → Address

-- `Default`: 0.0.0.0:0.
abbrev pub unspecified : Address
unspecified = ip (SocketAddr.v4 0 0)

unfoldable pub get_port : Address → ℕ
get_port (ip addr) = port_of addr
get_port (name host port) = port

-- `From<(Cow<str>, u16)>`: a host that reads as an IP address becomes one.
unfoldable pub from_host : Text → Bytes → ℕ → Address
from_host text host port = elim (text.parse_ip host) [
  | some addr ↦ ip (socket_addr addr port)
  | none ↦ name host port
]

unfoldable pub is_unspecified : Address → Bool
is_unspecified (ip (SocketAddr.v4 addr port)) = addr == 0
is_unspecified (ip (SocketAddr.v6 addr port flow scope)) = addr == 0
is_unspecified (name host port) =
    eq_ignore_ascii_case host (codes "0.0.0.0") || eq_ignore_ascii_case host (codes "::/128")

unfoldable pub write_len : Address → ℕ
write_len (ip (SocketAddr.v4 addr port)) = 1 + 4 + 2
write_len (ip (SocketAddr.v6 addr port flow scope)) = 1 + 16 + 2
write_len (name host port) = 1 + (1 + length host) + 2

-- The writers append to `buf`. The length of a name is checked before anything is written.
unfoldable pub write_to : Address → Bytes → Result Bytes
write_to (ip (SocketAddr.v4 addr port)) buf =
    ok (((buf ++ (0x1 ∷ [])) ++ be_bytes 4 addr) ++ be_bytes 2 port)
write_to (ip (SocketAddr.v6 addr port flow scope)) buf =
    ok (((buf ++ (0x4 ∷ [])) ++ be_bytes 16 addr) ++ be_bytes 2 port)
write_to (name host port) buf = do
  host_len ← u8_try_from (length host)
  ok ((((buf ++ (0x3 ∷ [])) ++ (host_len ∷ [])) ++ host) ++ be_bytes 2 port)

-- The asynchronous writer, which sends type and length of a name in one piece.
unfoldable pub write : Address → Bytes → Result Bytes
write (ip (SocketAddr.v4 addr port)) buf =
    ok (((buf ++ (0x1 ∷ [])) ++ be_bytes 4 addr) ++ be_bytes 2 port)
write (ip (SocketAddr.v6 addr port flow scope)) buf =
    ok (((buf ++ (0x4 ∷ [])) ++ be_bytes 16 addr) ++ be_bytes 2 port)
write (name host port) buf = do
  host_len ← u8_try_from (length host)
  ok (((buf ++ (0x3 ∷ host_len ∷ [])) ++ host) ++ be_bytes 2 port)

-- The branches of `parse` behind the type byte. The number is the position after the address.
parse_v4 : Bytes → Option (ℕ × Address)
parse_v4 buf =
    if ltb (length buf) 6
    then none
    else some (1 + 6, ip (SocketAddr.v4 (be_value (take 4 buf)) (be_value (take 2 (drop 4 buf)))))

parse_v6 : Bytes → Option (ℕ × Address)
parse_v6 buf =
    if ltb (length buf) 18
    then none
    else some (
      1 + (16 + 2),
      ip (SocketAddr.v6 (be_value (take 16 buf)) (be_value (take 2 (drop 16 buf))) 0 0),
    )

unfoldable pub parse_name : Text → Bytes → Option (ℕ × Address)
parse_name text [] = none
parse_name text (name_len ∷ buf) =
    if ltb (length buf) (name_len + 2)
    then none
    else some (
      1 + 1 + (name_len + 2),
      from_host text (text.from_utf8_lossy (take name_len buf))
          (be_value (take 2 (drop name_len buf))),
    )

-- `none` asks for more bytes.
unfoldable pub parse : Text → Bytes → Result (Option (ℕ × Address))
unfolding parse_v4 parse_v6 parse_name
parse text [] = ok none
parse text (v ∷ buf) =
    if v == 0x1
    then ok (parse_v4 buf)
    else if v == 0x3
    then ok (parse_name text buf)
    else if v == 0x4
    then ok (parse_v6 buf)
    else err (unexpected "IP address type" v "1, 3 or 4")
