-- ===== src/Udpman/Proto.antt =====
-- src/protocol/udpman/proto.rs: `Message`, its parser and its writer. A `Bytes` that is parsed is
-- read from the front; what is left at the end is the payload.
pub mod RoundTrip
use cpxy.Base.{
  ℕ, ◌+◌, ◌≡◌, Bool, true, false, not, ◌&&◌, Option, none, some, [], ◌∷◌, ◌++◌, Bytes, length, take,
  drop, ltb, get_or, if◌then◌else◌, Result, ok, err, message, within, be_value, be_bytes,
  u8_try_from,
}
use cpxy.Base
use cpxy.Base.Reader.{Reader, ◌>>=◌, pure, from_result, context}
use cpxy.Net.{IpAddr, SocketAddr, socket_addr, ip_of, port_of}
use cpxy.Udpman.Flags.{Flags, connect, establish, datagram, flags_of_byte, byte_of_flags}

pub data Message : Type 0 where
  connect_message :
      (uuid initial_data : Bytes) (initial_data_nonce : Option ℕ) (dst : SocketAddr) → Message
  establish_message :
      (uuid : Bytes) (conn_id : ℕ) (initial_reply : Option (Bytes × SocketAddr)) → Message
  data_message :
      (conn_id : Option ℕ) (addr : Option SocketAddr) (payload : Bytes) (enc_nonce : Option ℕ)
      → Message

-- `check_remaining!(b, n, ctx)` and the read of `n` bytes that follows it.
read_checked : Base.String → ℕ → Reader Bytes
read_checked ctx n b = if ltb (length b) n then err (message ctx) else ok (take n b, drop n b)

-- All that is left.
read_rest : Reader Bytes
read_rest b = ok (b, [])

parse_uuid : Reader Bytes
parse_uuid = do uuid_len ← read_checked "UUID len" 1; read_checked "UUID" (get_or uuid_len 0 0)

parse_ip : Bool → Reader IpAddr
parse_ip true = do b ← read_checked "IPv4 address" 4; pure (IpAddr.v4 (be_value b))
parse_ip false = do b ← read_checked "IPv6 address" 16; pure (IpAddr.v6 (be_value b))

parse_u16 : Base.String → Reader ℕ
parse_u16 ctx = do b ← read_checked ctx 2; pure (be_value b)

parse_socket_addr : Bool → Reader SocketAddr
parse_socket_addr v4 = do ip ← parse_ip v4; port ← parse_u16 "Port"; pure (socket_addr ip port)

-- `if present { Some(p?) } else { None }`
optional : {A : Type 0} → Bool → Reader A → Reader (Option A)
optional false p = pure none
optional true p = do a ← p; pure (some a)

parse_reply : Bool → Bool → Reader (Option (Bytes × SocketAddr))
parse_reply false v4 = pure none
parse_reply true v4 = do from ← parse_socket_addr v4; b ← read_rest; pure (some (b, from))

parse_body : Flags → Reader Message
parse_body (connect is_ipv6 has_nonce) = do
  uuid ← parse_uuid
  dst ← parse_socket_addr (not is_ipv6)
  initial_data_nonce ← optional has_nonce (parse_u16 "Nonce")
  b ← read_rest
  pure (connect_message uuid b initial_data_nonce dst)
parse_body (establish has_reply reply_in_ipv6) = do
  uuid ← parse_uuid
  conn_id ← parse_u16 "Conn ID"
  initial_reply ← parse_reply has_reply (not reply_in_ipv6)
  pure (establish_message uuid conn_id initial_reply)
parse_body (datagram has_conn_id has_addr addr_in_ipv6 has_nonce) = do
  conn_id ← optional has_conn_id (parse_u16 "Conn ID")
  addr ← optional has_addr (parse_socket_addr (not addr_in_ipv6))
  nonce ← optional has_nonce (parse_u16 "Enc nonce")
  b ← read_rest
  pure (data_message conn_id addr b nonce)

read_message : Reader Message
read_message = do
  flags_byte ← read_checked "MessageType" 1
  flags ← context "Unknown message type" (from_result (flags_of_byte (get_or flags_byte 0 0)))
  parse_body flags

-- `Message::parse`. What an `Establish` with no reply leaves is dropped.
unfoldable pub parse : Bytes → Result Message
unfolding read_checked read_rest parse_uuid parse_ip parse_u16 parse_socket_addr optional
    parse_reply parse_body read_message
parse b = elim (read_message b) [ ok (m, rest) ↦ ok m | err e ↦ err e ]

is_v6 : SocketAddr → Bool
is_v6 (SocketAddr.v4 ip port) = false
is_v6 (SocketAddr.v6 ip port flow scope) = true

is_some : {A : Type 0} → Option A → Bool
is_some none = false
is_some (some a) = true

option_is_v6 : Option SocketAddr → Bool
option_is_v6 none = false
option_is_v6 (some addr) = is_v6 addr

reply_is_v6 : Option (Bytes × SocketAddr) → Bool
reply_is_v6 none = false
reply_is_v6 (some (b, addr)) = is_v6 addr

write_uuid : Bytes → Bytes → Result Bytes
write_uuid id w =
    Base.◌>>=◌ (Base.context "Writing UUID len" (u8_try_from (length id)))
      (λ len. ok ((w ++ (len ∷ [])) ++ id))

write_ip : IpAddr → Bytes → Bytes
write_ip (IpAddr.v4 ip) w = w ++ be_bytes 4 ip
write_ip (IpAddr.v6 ip) w = w ++ be_bytes 16 ip

write_socket_addr : SocketAddr → Bytes → Bytes
write_socket_addr addr w = write_ip (ip_of addr) w ++ be_bytes 2 (port_of addr)

write_u16_opt : Option ℕ → Bytes → Bytes
write_u16_opt none w = w
write_u16_opt (some n) w = w ++ be_bytes 2 n

write_addr_opt : Option SocketAddr → Bytes → Bytes
write_addr_opt none w = w
write_addr_opt (some addr) w = write_socket_addr addr w

write_reply : Option (Bytes × SocketAddr) → Bytes → Bytes
write_reply none w = w
write_reply (some (reply, addr)) w = write_socket_addr addr w ++ reply

-- `Message::to_writer`, appending to `w`; `to_bytes` starts from the empty buffer.
pub to_writer : Message → Bytes → Result Bytes
unfolding write_uuid
to_writer (connect_message uuid initial_data nonce dst) w =
    let flags = byte_of_flags (connect (is_v6 dst) (is_some nonce)) in
    Base.◌>>=◌ (write_uuid uuid (w ++ (flags ∷ [])))
      (λ w1. ok (write_u16_opt nonce (write_socket_addr dst w1) ++ initial_data))
to_writer (establish_message uuid conn_id initial_reply) w =
    let flags = byte_of_flags (establish (is_some initial_reply) (reply_is_v6 initial_reply)) in
    Base.◌>>=◌ (write_uuid uuid (w ++ (flags ∷ [])))
      (λ w1. ok (write_reply initial_reply (w1 ++ be_bytes 2 conn_id)))
to_writer (data_message conn_id addr payload enc_nonce) w =
    let flags =
      byte_of_flags
        (datagram (is_some conn_id) (is_some addr) (option_is_v6 addr) (is_some enc_nonce)) in
    ok (
      write_u16_opt enc_nonce (write_addr_opt addr (write_u16_opt conn_id (w ++ (flags ∷ []))))
      ++ payload)
