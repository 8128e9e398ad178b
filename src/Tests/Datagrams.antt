-- ===== src/Tests/Datagrams.antt =====
-- Runs of the two datagram formats.
use cpxy.Base.{eq_bytes, be_value, ◌≤◌, ◌≡◌, refl, Bytes, some, [], ◌∷◌, ◌++◌, length, ok, arith}
use cpxy.Net.{SocketAddr}
use cpxy.Address.{Address, parse, parse_name, from_host}
use cpxy.UdpPacket.{UdpPacket, checked, new_checked, addr_of, UdpRepr}
use cpxy.UdpPacket.Packets.{new_checked_safe}
use cpxy.Udpman.Proto
use cpxy.Udpman.Proto.{Message, connect_message, to_writer}
use cpxy.Udpman.Proto.RoundTrip.{parse-to_writer}
use cpxy.Tests.{plain, site, is_ascii}

abbrev datagram_bytes : Bytes
datagram_bytes = 0 ∷ 0 ∷ 1 ∷ 3 ∷ 2 ∷ 97 ∷ 98 ∷ 0 ∷ 80 ∷ 42 ∷ []

abbrev datagram : UdpPacket
datagram = record { buf = datagram_bytes; data_offset = 9 }

datagram-new_checked : new_checked plain datagram_bytes ≡ ok datagram
unfolding new_checked checked parse parse_name from_host is_ascii eq_bytes be_value
datagram-new_checked = refl

new_checked_safe_example :
    (datagram.buf ≡ datagram_bytes)
    × (datagram.data_offset ≤ length datagram_bytes)
    × ((a : Address) × (addr_of plain datagram ≡ some a))
new_checked_safe_example = new_checked_safe plain datagram_bytes datagram datagram-new_checked

abbrev parts : UdpRepr
parts = record { addr = site; payload = 42 ∷ []; frag_no = 1 }

abbrev hello : Message
hello = connect_message (1 ∷ 2 ∷ []) (3 ∷ []) (some 7) (SocketAddr.v4 167772161 53)

parse-to_writer_example :
    (out : Bytes) × (to_writer hello (9 ∷ []) ≡ ok ((9 ∷ []) ++ out)) × (Proto.parse out ≡ ok hello)
parse-to_writer_example =
    parse-to_writer hello (9 ∷ []) (omega arith, omega arith, (omega arith, omega arith))
