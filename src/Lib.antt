-- ===== src/Lib.antt =====
-- cpxy: a proxy with SOCKS and HTTP front ends, several protocols towards its servers, and rules
-- that choose among them. The library models the byte formats that the parts exchange, the
-- buffer and the connection table that they keep, the streams that encrypt, the handshake with a
-- client, and the rules.
--
-- Base holds the shared helpers: lists and bytes over the native numbers, `Result` with the
-- errors of `anyhow` (Base/Outcome), `isize` (Base/Int), big-endian fields (Base/BigEndian),
-- ASCII text (Base/Ascii), and `Reader`, an `AsyncRead` on the bytes that will arrive until the
-- end of the file (Base/Reader). A byte is a number, and a writer takes what is written and
-- returns all of it.
--
-- src/socks5/addr.rs: Address has `Address`, `parse`, `write`, `write_to`, `write_len`,
--   `get_port`, `is_unspecified` and the conversion from a host and a port; Address/Stream has
--   `parse_async`. Address/Encoding, Address/Incremental and Address/Stream/* prove about them.
-- src/socks5/req.rs and src/socks5/greeting.rs: Socks5 and Socks5/Replies, proofs in
--   Socks5/Messages. `ClientConnRequest::parse` is `parse_request`, `to_async_writer` is
--   `write_request` and `write_greeting`, `parse_response` is `read_response`.
-- src/socks4.rs: Socks4, proofs in Socks4/Requests.
-- src/socks5/udp.rs: UdpPacket, proofs in UdpPacket/Packets. `UdpRepr::write_len` is `repr_len`.
-- src/protocol/udpman/proto.rs: Udpman/Flags has the flags byte, Udpman/Proto the messages.
-- src/protocol/udpman/server.rs: Udpman/ConnMap has `ConnMap`, Udpman/Server `serve`, the
--   channels of its connections and what their tasks do to it, as `step` on an event. A task that
--   is cancelled, because its connection is dropped, ends later. Udpman/Server/Runs and
--   Udpman/Server/Running prove about any order of events, with the lemmas of Udpman/Server/Tasks
--   and Udpman/Server/Live, Udpman/Server/Isolation about payloads. The initial data, which a
--   task sends to its destination, is left out.
-- src/buf.rs: RwBuffer has `RWBuffer`; an operation that panics has no result.
-- src/protocol/tcpman/proto.rs: Tcpman/Request. src/protocol/tcpman/udp_stream.rs and
--   src/protocol/tcpman/dgram.rs: Tcpman/Packets, where `read` is `PacketReader::read` and
--   `write` is `PacketWriter::write`; Tcpman/Packets/Fields and Tcpman/Packets/Session prove
--   about them.
-- src/protocol/tcpman/cipher/partial.rs and strategy.rs: Cipher/Strategy, where
--   `try_apply_keystream_inout` is `apply`. src/protocol/tcpman/cipher/stream.rs: Cipher/Stream,
--   where the answers of the streams under a `CipherStream` are inputs; `none` is a panic.
-- src/protocol/firetcp/cipher/write.rs and read.rs: FireTcp, where `CipherWrite::new` is
--   `new_write`, `CipherRead::new` is `new_read`, and `set_establish_cipher` is
--   `set_write_cipher` and `set_read_cipher`. The output fits the buffer, which has at least
--   `bytes_left` bytes.
-- src/handshake.rs: Handshake, with `Handshaker::start` as `start_handshake`, and its two loops
--   as `read_until`; a stream is the bytes that are still to come and the most bytes that each
--   read returns. Handshake/Loop has the lemma on the loops, Handshake/Detection and
--   Handshake/Clients prove about a client, Handshake/Narrowing about the states of the
--   detection.
-- src/http.rs: Http, the parser of requests, Http/Builder, `HttpRequestBuilder` and the headers,
--   and HttpStream, `parse_request` and the reads of `AsyncHttpStream`, with `body` in
--   HttpStream/Body. src/ws.rs: WebSocket.
-- src/url.rs: Url, with `TryFrom<&str>` of
--   src/socks5/addr.rs as `address_from_str`; Url/Parts proves about URLs.
-- src/protocol/tcpman/cipher/client.rs, server.rs and suite.rs: Cipher/Opening, with the texts of
--   the parameters, and Cipher/Opening/Connect, with `connect`, `check_request` and
--   `accept_client`; `connect` ends where the server has agreed. Cipher/Opening/Asked has the
--   request that is meant, Cipher/Opening/Accept puts client and server together.
-- src/protocol/socks5/mod.rs: Socks5/Upstream, `request_socks5`, against the handshake in
--   Handshake/Upstreams.
-- src/config.rs, src/client/stats.rs and the `supports` of src/protocol: Upstreams.
--   src/client/common.rs: Upstreams/Connect. Upstreams/Order is about the sort, Upstreams/Choice
--   about what is chosen, Upstreams/Attempts about who is asked; no other connection changes the
--   statistics meanwhile.
-- src/sni.rs: Sni, the scan for a host header; Sni/Scan and Sni/Search prove about it.
-- src/geoip/mod.rs: Geoip, proofs in Geoip/Tables and Geoip/Ranges. src/dns.rs: Dns, proofs in
--   Dns/Cache. src/io/udp.rs: UdpSocket, the sink of packets, proofs in
--   UdpSocket/Runs and UdpSocket/Wakes.
-- src/http_path.rs: HttpPath, with `HttpPath::from_str` as `path_from_str`; the decoder of the
--   urlencoding library is the parameter `decode`, with its laws in `Encoding` of
--   HttpPath/Queries.
-- src/rule.rs: Rules has the data, Rules/Match what a rule matches, Rules/Execute the tables.
--   Rules/Execute/Decision has the relation that says what the rules mean, and
--   Rules/Execute/Refinement compares the execution with it. Rules/Text has the `FromStr` of
--   actions, host matches and destinations, and that of `CountryCode` of
--   src/geoip/country_code.rs; Rules/Lines has `parse_rules`, with `trim` and the parser of a
--   rule by the clap library as parameters.
--
-- A request, a reply and a datagram carry an `Address`, and their parsers call its parser: a
-- parser that is given too few bytes asks for more (`none`), and the callers try again when the
-- buffer has grown.
--
-- The parts meet in these places: a client of a SOCKS5 upstream talks to the handshake of another
-- proxy (Handshake/Upstreams); the client and the server of the TCP manager open a connection
-- over an HTTP request and then use the same ciphers, which the streams of Cipher/Stream go on
-- with; the choice of an upstream executes the rules, on what the country table and the DNS cache
-- know of the target.
--
-- Bounds: ports and IDs are below 2 ^ 16, and the addition on IDs is checked, as in the source.
-- `execute_table` takes the number of levels that are left, 11 at the start, since the source
-- gives up when its level, which starts at 0, is above 10; `create_udp_stream` has one more step
-- than its input has bytes, and each packet takes at least three. There is no other fuel.
-- Lengths of buffers are not bounded by the address space.
--
-- A cipher of the `cipher` library is a position in a keystream without end: `Mask` (Cipher) is
-- the parameter that says what the keystream does to a byte at a position, and a theorem on two
-- ends has the hypothesis that doing it twice changes nothing.
--
-- Parameters: `Text` (Net) stands for `String::from_utf8`, `String::from_utf8_lossy` and the
-- parsing of IP addresses, `Engines` (Rules) for regular expressions, host lists, networks and
-- the looks into the first bytes of a connection, `Parsers` (Rules/Text) for the texts of
-- networks, ports and regular expressions. `Numbers` (Url) stands for the texts of ports and
-- socket addresses, and `Httparse` (Http) for the parser of the httparse library. What is used
-- of them is in `TextLaws`, and in `HttparseLaws` and `HttparseStays` below Handshake.
--
-- `Codec` (Cipher/Opening) stands for base64 and the texts of numbers, with `CodecLaws`, and
-- `ChaCha20` for the making of a stream cipher. `SearchLaws` (Geoip/Ranges) is what a binary
-- search promises, `Finds` (HttpStream/Requests) and `Reads` (Cipher/Opening/Asked) are what
-- httparse makes of a request. `Known` (Upstreams) is what is known of a target. The call of a
-- protocol, `dial`, and the answers of a socket are parameters too.
--
-- Not modelled: sockets, tasks and timers; the dialogues of the other protocols but SOCKS5; the
-- responses of HTTP; the TLS server name; host lists; control, platform bindings; logging.
pub mod Base
pub mod Net
pub mod Address
pub mod Socks5
pub mod Socks4
pub mod UdpPacket
pub mod Udpman
pub mod RwBuffer
pub mod Rules
pub mod Tcpman
pub mod Cipher
pub mod FireTcp
pub mod Http
pub mod Url
pub mod HttpPath
pub mod Handshake
mod Tests
pub mod Sni
pub mod Upstreams
pub mod Geoip
pub mod WebSocket
pub mod UdpSocket
pub mod Dns
pub mod HttpStream
