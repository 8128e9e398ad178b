-- ===== src/Net.antt =====
-- Socket addresses of the standard library (`std::net`), as the program uses them: an IPv4
-- address is its 32-bit value, an IPv6 address its 128-bit value.
use cpxy.Base.{ℕ, ◌<◌, ◌^◌, Bytes, Option, ◌≡◌}

pub data IpAddr : Type 0 where
  v4 : ℕ → IpAddr
  v6 : ℕ → IpAddr

-- `v6 ip port flowinfo scope_id`.
pub data SocketAddr : Type 0 where
  v4 : ℕ → ℕ → SocketAddr
  v6 : ℕ → ℕ → ℕ → ℕ → SocketAddr

-- `SocketAddr::new`.
abbrev pub socket_addr : IpAddr → ℕ → SocketAddr
socket_addr (IpAddr.v4 ip) port = SocketAddr.v4 ip port
socket_addr (IpAddr.v6 ip) port = SocketAddr.v6 ip port 0 0

abbrev pub port_of : SocketAddr → ℕ
port_of (SocketAddr.v4 ip port) = port
port_of (SocketAddr.v6 ip port flow scope) = port

abbrev pub ip_of : SocketAddr → IpAddr
ip_of (SocketAddr.v4 ip port) = IpAddr.v4 ip
ip_of (SocketAddr.v6 ip port flow scope) = IpAddr.v6 ip

abbrev pub IsU16 : ℕ → Type 0
IsU16 n = n < 2 ^ 16

-- What six or eighteen bytes can carry: fields in range, and no flow or scope.
abbrev pub IsPlain : SocketAddr → Type 0
IsPlain (SocketAddr.v4 ip port) = (ip < 2 ^ 32) × IsU16 port
IsPlain (SocketAddr.v6 ip port flow scope) = (ip < 2 ^ 128) × IsU16 port × (flow ≡ 0) × (scope ≡ 0)

-- The text functions of the standard library that the program calls, over the bytes of a `str`.
pub record Text : Type 0 where
  -- `String::from_utf8`, `String::from_utf8_lossy` and `<IpAddr as FromStr>::from_str`
  pub from_utf8 : Bytes → Option Bytes
  pub from_utf8_lossy : Bytes → Bytes
  pub parse_ip : Bytes → Option IpAddr

-- What their documentation says: valid UTF-8 is kept as it is, by both conversions.
pub record TextLaws (text : Text) : Type 0 where
  pub from_utf8_same : (bytes s : Bytes) → text.from_utf8 bytes ≡ Option.some s → s ≡ bytes
  pub lossy_valid :
      (bytes : Bytes)
      → text.from_utf8 bytes ≡ Option.some bytes
      → text.from_utf8_lossy bytes ≡ bytes
