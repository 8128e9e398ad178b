-- ===== src/Tcpman/Packets.antt =====
-- src/protocol/tcpman/udp_stream.rs: `PacketReader` and `PacketWriter`, which leave out an address
-- that is the last one, and the stream and the sink of src/protocol/tcpman/dgram.rs over them.
pub mod Fields
pub mod Session
use cpxy.Base.{
  ℕ, zero, suc, ◌+◌, ◌^◌, Bool, true, false, ◌&&◌, ◌==◌, ltb, if◌then◌else◌, Bytes, Option, none,
  some, List, [], ◌∷◌, ◌++◌, length, take, drop, eq_bytes, get_or, Result, ok, err, Error, message,
  within, be_value, be_bytes, u16_try_from,
}
use cpxy.Base.Reader.{Reader, ◌>>=◌, pure, fail, from_result, context, read_exact}
use cpxy.Net.{SocketAddr, Text}
use cpxy.Address.{Address, ip, name}

-- `==` of addresses, which is derived.
unfoldable pub same_socket_addr : SocketAddr → SocketAddr → Bool
same_socket_addr (SocketAddr.v4 a p) (SocketAddr.v4 b q) = (a == b) && (p == q)
same_socket_addr (SocketAddr.v6 a p f s) (SocketAddr.v6 b q g t) =
    ((a == b) && (p == q)) && ((f == g) && (s == t))
same_socket_addr _ _ = false

unfoldable pub same_addr : Address → Address → Bool
same_addr (ip a) (ip b) = same_socket_addr a b
same_addr (name h p) (name k q) = eq_bytes h k && (p == q)
same_addr _ _ = false

abbrev pub is_last : Option Address → Address → Bool
is_last none addr = false
is_last (some last) addr = same_addr last addr

pub data PacketType : Type 0 where
  payload_only with_v4_addr with_v6_addr with_domain_name : PacketType

unfoldable pub packet_type : ℕ → Result PacketType
packet_type t =
    if t == 1
    then ok payload_only
    else if t == 2
    then ok with_v4_addr
    else if t == 3
    then ok with_v6_addr
    else if t == 4
    then ok with_domain_name
    else err (message "Convert payload type")

-- `PacketReader` and `PacketWriter`: the last address that was received or sent.
abbrev pub Last : Type 0
Last = Option Address

abbrev pub Packet : Type 0
Packet = Bytes × Address

-- `self.last_received.as_ref().context(…)`
unfoldable pub last_or_error : Last → Result Address
last_or_error none = err (message "Getting last address")
last_or_error (some addr) = ok addr

unfoldable pub name_or_error : Option Bytes → Result Bytes
name_or_error none = err (within "Converting host name" (message "invalid utf-8"))
name_or_error (some s) = ok s

unfoldable pub read_packet : Text → Last → PacketType → ℕ → Reader (Packet × Last)
read_packet text last payload_only payload_len = do
  payload ← context "Reading payload" (read_exact payload_len)
  addr ← from_result (last_or_error last)
  pure ((payload, addr), last)
read_packet text last with_v4_addr payload_len = do
  data_read ← context "Reading payload" (read_exact (payload_len + 6))
  let addr = ip (SocketAddr.v4 (be_value (take 4 data_read)) (be_value (take 2 (drop 4 data_read))))
  pure ((drop 6 data_read, addr), some addr)
read_packet text last with_v6_addr payload_len = do
  data_read ← context "Reading payload" (read_exact (payload_len + 18))
  let addr =
      ip (SocketAddr.v6 (be_value (take 16 data_read)) (be_value (take 2 (drop 16 data_read))) 0 0)
  pure ((drop 18 data_read, addr), some addr)
read_packet text last with_domain_name payload_len = do
  len_bytes ← context "Read host len" (read_exact 2)
  let host_name_len = be_value len_bytes
  data_read ← context "Reading payload" (read_exact (host_name_len + 2 + payload_len))
  host ← from_result (name_or_error (text.from_utf8 (take host_name_len data_read)))
  let received = name host (be_value (take 2 (drop host_name_len data_read)))
  pure ((drop (host_name_len + 2) data_read, received), some received)

-- `PacketReader::read`, with the reader's next state. An error leaves the state as it was.
unfoldable pub read : Text → Last → Reader (Packet × Last)
read text last = do
  hdrs ← context "Read headers" (read_exact 3)
  type ← from_result (packet_type (get_or hdrs 0 0))
  read_packet text last type (be_value (drop 1 hdrs))

-- The header of `PacketWriter::write`, `none` for the address that was sent last.
unfoldable pub header : ℕ → Option Address → Result Bytes
header payload_len none = ok (1 ∷ be_bytes 2 payload_len)
header payload_len (some (ip (SocketAddr.v4 a p))) =
    ok (2 ∷ (be_bytes 2 payload_len ++ (be_bytes 4 a ++ be_bytes 2 p)))
header payload_len (some (ip (SocketAddr.v6 a p f s))) =
    ok (3 ∷ (be_bytes 2 payload_len ++ (be_bytes 16 a ++ be_bytes 2 p)))
header payload_len (some (name host p)) =
    if ltb (length host) (2 ^ 16)
    then ok (4 ∷ (be_bytes 2 payload_len ++ (be_bytes 2 (length host) ++ (host ++ be_bytes 2 p))))
    else err (
        within "Converting name len to u16 int"
          (message "out of range integral type conversion attempted"))

unfoldable pub with_payload : Bytes → Result Bytes → Result Bytes
with_payload payload (ok h) = ok (h ++ payload)
with_payload payload (err e) = err e

-- `PacketWriter::write`: what is written, whose length is returned, and the writer's next state,
-- which is the new address as soon as the payload is short enough, also where the name is too long.
unfoldable pub write : Last → Address → Bytes → Result Bytes × Last
write last addr payload =
    if ltb (length payload) (2 ^ 16)
    then (if is_last last addr
        then (with_payload payload (header (length payload) none), last)
        else (with_payload payload (header (length payload) (some addr)), some addr))
    else (
      err (
          within "Converting payload len to u16 int"
            (message "out of range integral type conversion attempted")),
      last,
    )

-- The task of `create_udp_sink`: it writes the packets that it is sent, up to the first error.
unfoldable pub sink_packets : Last → List Packet → Bytes
sink_packets last [] = []
sink_packets last ((payload, addr) ∷ packets) =
    let (written, next) = write last addr payload in
    elim written [ ok out ↦ out ++ sink_packets next packets | err e ↦ [] ]

unfoldable pub create_udp_sink : List Packet → Bytes
create_udp_sink packets = sink_packets none packets

-- The stream of `create_udp_stream` ends behind the first error. A packet takes at least three
-- bytes, so that there are no more packets than bytes.
unfoldable pub stream_packets : Text → ℕ → Last → Bytes → List (Result Packet)
stream_packets text zero last input = []
stream_packets text (suc fuel) last input = elim (read text last input) [
  | ok ((packet, next), rest) ↦ ok packet ∷ stream_packets text fuel next rest
  | err e ↦ err e ∷ []
]

unfoldable pub create_udp_stream : Text → Option Address → Bytes → List (Result Packet)
create_udp_stream text initial_address input =
    stream_packets text (suc (length input)) initial_address input
