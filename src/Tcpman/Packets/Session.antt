-- ===== src/Tcpman/Packets/Session.antt =====
-- What goes into the sink of src/protocol/tcpman/dgram.rs comes out of the stream.
use cpxy.Base.{
  ℕ, zero, suc, ◌^◌, ◌<◌, ◌≤◌, ◌≡◌, refl, ap, sym, ◌∙◌, ◌⊎◌, inl, inr, true, Bool-cases, Bytes,
  Option, none, some, List, [], ◌∷◌, ◌++◌, length, All, Result, ok, err, Error, within, arith,
  be_bytes, length-be_bytes, append_assoc, length-append, lt→ltb,
}
use cpxy.Base.Reader.{end_of_file, read_exact_short}
use cpxy.Net.{Text}
use cpxy.Address.{Address}
use cpxy.Tcpman.Packets.{
  is_last, payload_only, packet_type, Last, Packet, read, header, with_payload, write, sink_packets,
  create_udp_sink, stream_packets, create_udp_stream,
}
use cpxy.Tcpman.Packets.Fields.{
  IsCarried, same_addr-eq, number, fields, header-fields, read-header, read_packet-payload_only,
  read-fields,
}

-- A payload whose length fits in two bytes, for an address that a packet can carry.
abbrev pub IsSendable : Text → Packet → Type 0
IsSendable text (payload, addr) = (length payload < 2 ^ 16) × IsCarried text addr

-- The reader knows the last address that the writer sent, if there is one.
abbrev pub Agree : Last → Last → Type 0
Agree sent received = (sent ≡ none) ⊎ (sent ≡ received)

is_last-eq :
    (sent received : Last) (addr : Address)
    → Agree sent received
    → is_last sent addr ≡ true
    → (sent ≡ some addr) × (received ≡ some addr)
is_last-eq none received addr a h = cc
is_last-eq (some last) received addr (inl a) h = cc
is_last-eq (some last) received addr (inr a) h =
    let same = ap some (same_addr-eq last addr h) in (same, sym a ∙ same)

-- A packet is written, and a reader that agrees with the writer reads it and agrees again.
pub read-write :
    (text : Text) (sent received : Last) (payload : Bytes) (addr : Address) (rest : Bytes)
    → Agree sent received
    → IsSendable text (payload, addr)
    → (out : Bytes) × (write sent addr payload ≡ (ok out, some addr))
      × (read text received (out ++ rest) ≡ ok (((payload, addr), some addr), rest))
      × (3 ≤ length out)
unfolding write with_payload packet_type header
read-write text sent received payload addr rest agree (hl, hc) =
    elim (Bool-cases (is_last sent addr)) [
      | inl same ↦
          let (s, r) = is_last-eq sent received addr agree same in
          (
            (1 ∷ be_bytes 2 (length payload)) ++ payload,
            rw (lt→ltb _ _ hl, same, s) refl,
            rw r (
                ap (read text (some addr))
                  (append_assoc (1 ∷ be_bytes 2 (length payload)) payload rest)
                ∙ read-header text (some addr) 1 (length payload) payload_only (payload ++ rest) hl
                    refl
                ∙ read_packet-payload_only text addr payload rest),
            omega (
              arith,
              length-append (1 ∷ be_bytes 2 (length payload)) payload,
              length-be_bytes 2 (length payload),
            ),
          )
      | inr fresh ↦ (
        (number addr ∷ (be_bytes 2 (length payload) ++ fields addr)) ++ payload,
        rw (lt→ltb _ _ hl, fresh, header-fields text (length payload) addr hc),
        read-fields text received addr payload rest hc hl,
        omega (
          arith,
          length-append (number addr ∷ (be_bytes 2 (length payload) ++ fields addr)) payload,
          length-append (be_bytes 2 (length payload)) (fields addr),
          length-be_bytes 2 (length payload),
        ),
      )
    ]

-- What the stream yields for packets: each of them, and the end of the file.
abbrev pub delivered : List Packet → List (Result Packet)
delivered [] = err (within "Read headers" end_of_file) ∷ []
delivered (p ∷ packets) = ok p ∷ delivered packets

read-end : (text : Text) (last : Last) → read text last [] ≡ err (within "Read headers" end_of_file)
unfolding read
read-end text last = ground (arith, read_exact_short 3 [])

sink_packets-cons :
    (sent next : Last) (payload : Bytes) (addr : Address) (packets : List Packet) (out : Bytes)
    → write sent addr payload ≡ (ok out, next)
    → sink_packets sent ((payload, addr) ∷ packets) ≡ out ++ sink_packets next packets
unfolding sink_packets
sink_packets-cons sent next payload addr packets out h =
    ap (λ (w : Result Bytes × Last). elim w.0 [ ok o ↦ o ++ sink_packets w.1 packets | err e ↦ [] ])
      h

stream_packets-ok :
    (text : Text) (fuel : ℕ) (last next : Last) (packet : Packet) (input rest : Bytes)
    → read text last input ≡ ok ((packet, next), rest)
    → stream_packets text (suc fuel) last input ≡ ok packet ∷ stream_packets text fuel next rest
unfolding stream_packets
stream_packets-ok text fuel last next packet input rest h = rw (h, stream_packets) refl

stream_packets-err :
    (text : Text) (fuel : ℕ) (last : Last) (input : Bytes) (e : Error)
    → read text last input ≡ err e
    → stream_packets text (suc fuel) last input ≡ err e ∷ []
unfolding stream_packets
stream_packets-err text fuel last input e h = rw (h, stream_packets) refl

stream-sink_packets :
    (text : Text) (fuel : ℕ) (sent received : Last) (packets : List Packet)
    → Agree sent received
    → All (IsSendable text) packets
    → length packets < fuel
    → stream_packets text fuel received (sink_packets sent packets) ≡ delivered packets
stream-sink_packets text zero sent received packets a h f = absurd (omega arith)
stream-sink_packets text (suc fuel) sent received [] a h f =
    unfold sink_packets in stream_packets-err text fuel received [] _ (read-end text received)
stream-sink_packets text (suc fuel) sent received ((payload, addr) ∷ packets) a (h, hs) f =
    let rest = sink_packets (some addr) packets in
    let (out, w, r, l) = read-write text sent received payload addr rest a h in
    ap (stream_packets text (suc fuel) received)
      (sink_packets-cons sent (some addr) payload addr packets out w)
    ∙ stream_packets-ok text fuel received (some addr) (payload, addr) (out ++ rest) rest r
    ∙ ap (λ (s : List (Result Packet)). ok (payload, addr) ∷ s)
        (stream-sink_packets text fuel (some addr) (some addr) packets (inr refl) hs (omega arith))

sink_packets_long :
    (text : Text) (sent received : Last) (packets : List Packet)
    → Agree sent received
    → All (IsSendable text) packets
    → length packets ≤ length (sink_packets sent packets)
sink_packets_long text sent received [] a h = omega arith
sink_packets_long text sent received ((payload, addr) ∷ packets) a (h, hs) =
    let rest = sink_packets (some addr) packets in
    let (out, w, r, l) = read-write text sent received payload addr rest a h in
    let more = sink_packets_long text (some addr) (some addr) packets (inr refl) hs in
    omega (
      arith,
      length-append out rest,
      ap length (sink_packets-cons sent (some addr) payload addr packets out w),
    )

-- The stream, with any initial address, yields exactly the packets that were put into the sink,
-- each with its address, and then the end of the file, if payloads and names have fewer than
-- 65536 bytes and the other fields are in range: leaving out repeated addresses loses nothing.
pub create_udp_stream-create_udp_sink :
    (text : Text) (initial_address : Option Address) (packets : List Packet)
    → All (IsSendable text) packets
    → create_udp_stream text initial_address (create_udp_sink packets) ≡ delivered packets
unfolding create_udp_stream create_udp_sink
create_udp_stream-create_udp_sink text initial_address packets h =
    stream-sink_packets text (suc (length (sink_packets none packets))) none initial_address packets
      (inl refl) h (omega (arith, sink_packets_long text none none packets (inl refl) h))
