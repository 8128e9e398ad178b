-- ===== src/Tests.antt =====
-- Concrete runs of the models. Text is ASCII here: the conversions keep it, and "::" is the one IP
-- address.
mod Addresses
mod Messages
mod Datagrams
mod Connections
mod Buffers
mod Tables
mod Streams
mod Ciphers
mod Handshakes
mod Servers
mod Paths
mod Texts
mod Names
mod Sockets
mod Choices
mod Openings
mod Bodies
use cpxy.Base.{
  ℕ, Bytes, Bool, true, false, Option, none, some, List, [], ◌∷◌, if◌then◌else◌, ltb, ◌&&◌, ◌≡◌,
  codes, eq_bytes, Bool-cases, inl, inr, arith,
}
use cpxy.Net.{IpAddr, SocketAddr, Text, TextLaws}
use cpxy.Address.{Address, name, ip}

unfoldable is_ascii : Bytes → Bool
is_ascii [] = true
is_ascii (x ∷ xs) = ltb x 128 && is_ascii xs

abbrev plain : Text
plain = record {
  from_utf8 = λ s. if is_ascii s then some s else none;
  from_utf8_lossy = λ s. if is_ascii s then s else 0xEF ∷ 0xBF ∷ 0xBD ∷ [];
  parse_ip = λ s. if eq_bytes s (codes "::") then some (IpAddr.v6 0) else none;
}

plain-TextLaws : TextLaws plain
plain-TextLaws = record { from_utf8_same = same; lossy_valid = valid }
  where
    same : (bytes s : Bytes) → plain.from_utf8 bytes ≡ some s → s ≡ bytes
    same bytes s h = ground arith

    valid :
        (bytes : Bytes) → plain.from_utf8 bytes ≡ some bytes → plain.from_utf8_lossy bytes ≡ bytes
    valid bytes h = ground arith

-- ab:80 and 10.0.0.1:53
abbrev site : Address
site = name (97 ∷ 98 ∷ []) 80

abbrev resolver : Address
resolver = ip (SocketAddr.v4 167772161 53)
