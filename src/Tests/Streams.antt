-- ===== src/Tests/Streams.antt =====
-- Runs of the requests and packets of a TCP connection, and of the text of actions.
use cpxy.Base.{◌≡◌, refl, Bytes, some, List, [], ◌∷◌, ok, eq_bytes, arith}
use cpxy.Tcpman.Request
use cpxy.Tcpman.Request.{to_vec, tcp_to, parse_request-to_vec}
use cpxy.Tcpman.Packets.{Packet, create_udp_sink, create_udp_stream}
use cpxy.Tcpman.Packets.Session.{delivered, create_udp_stream-create_udp_sink}
use cpxy.Tests.{plain, plain-TextLaws, site, resolver, is_ascii}

abbrev opening : Request.Request
opening = tcp_to site (1 ∷ 2 ∷ [])

parse_request-to_vec_example :
    (out : Bytes) × (to_vec opening ≡ ok out) × (Request.parse_request plain out ≡ ok opening)
unfolding is_ascii eq_bytes
parse_request-to_vec_example =
    parse_request-to_vec plain plain-TextLaws opening ((refl, refl), omega arith, omega arith)

abbrev packets : List Packet
packets = (1 ∷ [], site) ∷ (2 ∷ [], site) ∷ (3 ∷ [], resolver) ∷ []

create_udp_stream-create_udp_sink_example :
    create_udp_stream plain (some resolver) (create_udp_sink packets) ≡ delivered packets
unfolding is_ascii
create_udp_stream-create_udp_sink_example =
    create_udp_stream-create_udp_sink plain (some resolver) packets (
      (omega arith, (refl, omega arith, omega arith)),
      (
        (omega arith, (refl, omega arith, omega arith)),
        ((omega arith, (omega arith, omega arith)), tt),
      ),
    )
