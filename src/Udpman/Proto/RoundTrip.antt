-- ===== src/Udpman/Proto/RoundTrip.antt =====
-- A message that is written is parsed to the same message.
use cpxy.Base.{
  ℕ, ◌<◌, ◌≡◌, refl, sym, not, Bytes, Option, none, some, [], ◌∷◌, ◌++◌, length, ok, arith,
  take-append, drop-append, length-append, append_assoc, append-nil, be_bytes, length-be_bytes,
  be_value-be_bytes, String, ltb, lt→ltb, ltb-false, false,
}
use cpxy.Net.{SocketAddr, IsPlain, IsU16}
use cpxy.Udpman.Flags.{
  Flags, connect, establish, datagram, byte_of_flags, flags_of_byte-byte_of_flags,
}
use cpxy.Udpman.Proto.{
  Message, connect_message, establish_message, data_message, read_checked, read_rest, parse_uuid,
  parse_ip, parse_u16, parse_socket_addr, optional, parse_reply, parse_body, read_message, parse,
  is_v6, is_some, option_is_v6, reply_is_v6, write_ip, write_socket_addr, write_u16_opt,
  write_addr_opt, write_reply, to_writer,
}

-- What the pieces of a message are on the wire.
abbrev addr_bytes : SocketAddr → Bytes
addr_bytes (SocketAddr.v4 ip port) = be_bytes 4 ip ++ be_bytes 2 port
addr_bytes (SocketAddr.v6 ip port flow scope) = be_bytes 16 ip ++ be_bytes 2 port

abbrev u16_opt_bytes : Option ℕ → Bytes
u16_opt_bytes none = []
u16_opt_bytes (some n) = be_bytes 2 n

abbrev addr_opt_bytes : Option SocketAddr → Bytes
addr_opt_bytes none = []
addr_opt_bytes (some a) = addr_bytes a

abbrev reply_bytes : Option (Bytes × SocketAddr) → Bytes
reply_bytes none = []
reply_bytes (some (reply, a)) = addr_bytes a ++ reply

abbrev OptU16 : Option ℕ → Type 0
OptU16 none = Unit
OptU16 (some n) = IsU16 n

abbrev OptPlain : Option SocketAddr → Type 0
OptPlain none = Unit
OptPlain (some a) = IsPlain a

abbrev ReplyPlain : Option (Bytes × SocketAddr) → Type 0
ReplyPlain none = Unit
ReplyPlain (some (reply, a)) = IsPlain a

-- Messages whose fields are in the range of their types, with a UUID that one byte can measure.
abbrev pub IsWire : Message → Type 0
IsWire (connect_message uuid initial_data nonce dst) =
    (length uuid < 256) × OptU16 nonce × IsPlain dst
IsWire (establish_message uuid conn_id reply) =
    (length uuid < 256) × IsU16 conn_id × ReplyPlain reply
IsWire (data_message conn_id addr payload nonce) = OptU16 conn_id × OptPlain addr × OptU16 nonce

read_checked-append :
    (ctx : String) (n : ℕ) (xs rest : Bytes)
    → length xs ≡ n
    → read_checked ctx n (xs ++ rest) ≡ ok (xs, rest)
unfolding read_checked
read_checked-append ctx n xs rest h =
    let enough : ltb (length (xs ++ rest)) n ≡ false =
      ltb-false _ _ (omega (arith, length-append xs rest)) in
    rw (enough, take-append n xs rest h, drop-append n xs rest h)

parse_u16-bytes :
    (ctx : String) (n : ℕ) (rest : Bytes)
    → IsU16 n
    → parse_u16 ctx (be_bytes 2 n ++ rest) ≡ ok (n, rest)
unfolding parse_u16
parse_u16-bytes ctx n rest h = ground (
  arith,
  read_checked-append ctx 2 (be_bytes 2 n) rest (length-be_bytes 2 n),
  be_value-be_bytes 2 n h,
)

parse_uuid-bytes : (uuid rest : Bytes) → parse_uuid (length uuid ∷ (uuid ++ rest)) ≡ ok (uuid, rest)
unfolding parse_uuid
parse_uuid-bytes uuid rest = ground (
  arith,
  read_checked-append "UUID len" 1 (length uuid ∷ []) (uuid ++ rest) refl,
  read_checked-append "UUID" (length uuid) uuid rest refl,
)

parse_socket_addr-bytes :
    (a : SocketAddr) (rest : Bytes)
    → IsPlain a
    → parse_socket_addr (not (is_v6 a)) (addr_bytes a ++ rest) ≡ ok (a, rest)
unfolding parse_socket_addr parse_ip is_v6
parse_socket_addr-bytes (SocketAddr.v4 ip port) rest (ha, hp) = ground (
  arith,
  append_assoc (be_bytes 4 ip) (be_bytes 2 port) rest,
  read_checked-append "IPv4 address" 4 (be_bytes 4 ip) (be_bytes 2 port ++ rest)
      (length-be_bytes 4 ip),
  be_value-be_bytes 4 ip ha,
  parse_u16-bytes "Port" port rest hp,
)
parse_socket_addr-bytes (SocketAddr.v6 ip port flow scope) rest (ha, hp, hf, hs) = ground (
  arith,
  append_assoc (be_bytes 16 ip) (be_bytes 2 port) rest,
  read_checked-append "IPv6 address" 16 (be_bytes 16 ip) (be_bytes 2 port ++ rest)
      (length-be_bytes 16 ip),
  be_value-be_bytes 16 ip ha,
  parse_u16-bytes "Port" port rest hp,
)

optional-u16 :
    (ctx : String) (o : Option ℕ) (rest : Bytes)
    → OptU16 o
    → optional (is_some o) (parse_u16 ctx) (u16_opt_bytes o ++ rest) ≡ ok (o, rest)
unfolding optional is_some
optional-u16 ctx none rest h = refl
optional-u16 ctx (some n) rest h = ground (arith, parse_u16-bytes ctx n rest h)

optional-addr :
    (o : Option SocketAddr) (rest : Bytes)
    → OptPlain o
    → optional (is_some o) (parse_socket_addr (not (option_is_v6 o))) (addr_opt_bytes o ++ rest)
      ≡ ok (o, rest)
unfolding optional is_some option_is_v6
optional-addr none rest h = refl
optional-addr (some a) rest h = ground (arith, parse_socket_addr-bytes a rest h)

-- The whole message. What follows an `Establish` with no reply would be dropped, so nothing does.
abbrev encode : Message → Bytes
encode (connect_message uuid initial_data nonce dst) =
    byte_of_flags (connect (is_v6 dst) (is_some nonce))
    ∷ length uuid
    ∷ (uuid ++ (addr_bytes dst ++ (u16_opt_bytes nonce ++ initial_data)))
encode (establish_message uuid conn_id reply) =
    byte_of_flags (establish (is_some reply) (reply_is_v6 reply))
    ∷ length uuid
    ∷ (uuid ++ (be_bytes 2 conn_id ++ reply_bytes reply))
encode (data_message conn_id addr payload nonce) =
    byte_of_flags (datagram (is_some conn_id) (is_some addr) (option_is_v6 addr) (is_some nonce))
    ∷ (u16_opt_bytes conn_id ++ (addr_opt_bytes addr ++ (u16_opt_bytes nonce ++ payload)))

read_message-flags :
    (f : Flags) (rest : Bytes) → read_message (byte_of_flags f ∷ rest) ≡ parse_body f rest
unfolding read_message
read_message-flags f rest = ground (
  arith,
  read_checked-append "MessageType" 1 (byte_of_flags f ∷ []) rest refl,
  flags_of_byte-byte_of_flags f,
)

-- Each kind of message, read from its wire form.
abbrev Reads : Message → Type 0
Reads m = IsWire m → read_message (encode m) ≡ ok (m, [])

connect-Reads :
    (uuid initial_data : Bytes) (nonce : Option ℕ) (dst : SocketAddr)
    → Reads (connect_message uuid initial_data nonce dst)
unfolding parse_body read_rest
connect-Reads uuid initial_data nonce dst (hl, hn, hd) =
    let tail = u16_opt_bytes nonce ++ initial_data in
    let body = length uuid ∷ (uuid ++ (addr_bytes dst ++ tail)) in
    ground (
      arith,
      read_message-flags (connect (is_v6 dst) (is_some nonce)) body,
      parse_uuid-bytes uuid (addr_bytes dst ++ tail),
      parse_socket_addr-bytes dst tail hd,
      optional-u16 "Nonce" nonce initial_data hn,
    )

parse_reply-bytes :
    (reply : Option (Bytes × SocketAddr))
    → ReplyPlain reply
    → parse_reply (is_some reply) (not (reply_is_v6 reply)) (reply_bytes reply) ≡ ok (reply, [])
unfolding parse_reply is_some reply_is_v6 read_rest
parse_reply-bytes none h = refl
parse_reply-bytes (some (reply, a)) h = ground (arith, parse_socket_addr-bytes a reply h)

establish-Reads :
    (uuid : Bytes) (conn_id : ℕ) (reply : Option (Bytes × SocketAddr))
    → Reads (establish_message uuid conn_id reply)
unfolding parse_body
establish-Reads uuid conn_id reply (hl, hc, hr) =
    let tail = be_bytes 2 conn_id ++ reply_bytes reply in
    ground (
      arith,
      read_message-flags (establish (is_some reply) (reply_is_v6 reply))
          (length uuid ∷ (uuid ++ tail)),
      parse_uuid-bytes uuid tail,
      parse_u16-bytes "Conn ID" conn_id (reply_bytes reply) hc,
      parse_reply-bytes reply hr,
    )

data-Reads :
    (conn_id : Option ℕ) (addr : Option SocketAddr) (payload : Bytes) (nonce : Option ℕ)
    → Reads (data_message conn_id addr payload nonce)
unfolding parse_body read_rest
data-Reads conn_id addr payload nonce (hc, ha, hn) =
    let last = u16_opt_bytes nonce ++ payload in
    let tail = addr_opt_bytes addr ++ last in
    let flags = datagram (is_some conn_id) (is_some addr) (option_is_v6 addr) (is_some nonce) in
    ground (
      arith,
      read_message-flags flags (u16_opt_bytes conn_id ++ tail),
      optional-u16 "Conn ID" conn_id tail hc,
      optional-addr addr last ha,
      optional-u16 "Enc nonce" nonce payload hn,
    )

parse-encode : (m : Message) → IsWire m → parse (encode m) ≡ ok m
parse-encode (connect_message uuid initial_data nonce dst) h =
    unfold parse in ground (arith, connect-Reads uuid initial_data nonce dst h)
parse-encode (establish_message uuid conn_id reply) h =
    unfold parse in ground (arith, establish-Reads uuid conn_id reply h)
parse-encode (data_message conn_id addr payload nonce) h =
    unfold parse in ground (arith, data-Reads conn_id addr payload nonce h)

write_socket_addr-bytes : (a : SocketAddr) (w : Bytes) → write_socket_addr a w ≡ w ++ addr_bytes a
unfolding write_socket_addr write_ip
write_socket_addr-bytes (SocketAddr.v4 ip port) w = append_assoc w (be_bytes 4 ip) (be_bytes 2 port)
write_socket_addr-bytes (SocketAddr.v6 ip port flow scope) w =
    append_assoc w (be_bytes 16 ip) (be_bytes 2 port)

write_u16_opt-bytes : (o : Option ℕ) (w : Bytes) → write_u16_opt o w ≡ w ++ u16_opt_bytes o
unfolding write_u16_opt
write_u16_opt-bytes none w = sym (append-nil w)
write_u16_opt-bytes (some n) w = refl

write_addr_opt-bytes :
    (o : Option SocketAddr) (w : Bytes) → write_addr_opt o w ≡ w ++ addr_opt_bytes o
unfolding write_addr_opt
write_addr_opt-bytes none w = sym (append-nil w)
write_addr_opt-bytes (some a) w = write_socket_addr-bytes a w

write_reply-bytes :
    (r : Option (Bytes × SocketAddr)) (w : Bytes) → write_reply r w ≡ w ++ reply_bytes r
unfolding write_reply
write_reply-bytes none w = sym (append-nil w)
write_reply-bytes (some (reply, a)) w =
    rw write_socket_addr-bytes (append_assoc w (addr_bytes a) reply)

ruleset pieces = (
  write_socket_addr-bytes, write_u16_opt-bytes, write_addr_opt-bytes, write_reply-bytes,
  append_assoc,
)

to_writer-encode : (m : Message) (w : Bytes) → IsWire m → to_writer m w ≡ ok (w ++ encode m)
unfolding to_writer
to_writer-encode (connect_message uuid initial_data _ dst) w h = rw (lt→ltb _ _ h.0) (simp pieces)
to_writer-encode (establish_message uuid conn_id reply) w h = rw (lt→ltb _ _ h.0) (simp pieces)
to_writer-encode (data_message conn_id addr payload _) w h = simp pieces

-- A message whose fields are in range, with a UUID of at most 255 bytes, is written behind
-- whatever the buffer holds, and what is written is parsed to the same message.
pub parse-to_writer :
    (m : Message) (w : Bytes)
    → IsWire m
    → (out : Bytes) × (to_writer m w ≡ ok (w ++ out)) × (parse out ≡ ok m)
parse-to_writer m w h = (encode m, to_writer-encode m w h, parse-encode m h)
