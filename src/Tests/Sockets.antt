-- ===== src/Tests/Sockets.antt =====
-- Runs of the packet queue, and of a request that arrives with a part of its body.
use cpxy.Base.{
  ℕ, false, ◌+◌, ◌≤◌, ◌≡◌, refl, some, List, [], ◌∷◌, ◌++◌, Bytes, length, take, drop,
  if◌then◌else◌, arith, codes, ok, ltb, length-take, replicate,
}
use cpxy.Net.{SocketAddr}
use cpxy.Http.{Httparse, complete, partial, Parsed}
use cpxy.RwBuffer.{RwBuffer, read_buf}
use cpxy.Handshake.Loop.{IsUsable}
use cpxy.HttpStream.{AsyncHttpStream, owned, parse_request, read_exact}
use cpxy.HttpStream.Requests.{Finds, held}
use cpxy.HttpStream.Bodies.{read_exact-parse_request}
use cpxy.UdpSocket.{
  UdpSocketSinkStream, poll_ready, pending, Packet, ready, sent, would_block, new, max_buffer_size,
}
use cpxy.UdpSocket.Wakes.{WokenOrWaits, run_wakes}
use cpxy.UdpSocket.Runs.{Use, offer, flush, run, run_sends}

abbrev packet : ℕ → Packet
packet k = (k ∷ [], SocketAddr.v4 k 53)

-- Two packets, of which the first is sent, and a third.
abbrev uses : List Use
uses =
    offer (packet 1)
    ∷ offer (packet 2)
    ∷ flush ready (λ k. if ltb k 1 then sent else would_block)
    ∷ offer (packet 3)
    ∷ []

run_sends_example :
    ((run uses new).taken ≡ (run uses new).out ++ (run uses new).end_.buffers)
    × (length (run uses new).end_.buffers ≤ max_buffer_size)
run_sends_example = run_sends uses

-- A packet finds no room; then the socket takes four packets.
abbrev full : UdpSocketSinkStream
full = record { buffers = replicate 10 (packet 0); buffer_waker = false }

full-pending : (poll_ready full).0 ≡ pending
unfolding poll_ready
full-pending = refl

abbrev flushes : List Use
flushes = flush pending (λ k. sent) ∷ flush ready (λ k. if ltb k 4 then sent else would_block) ∷ []

run_wakes_example :
    WokenOrWaits (run flushes (poll_ready full).1).woken (run flushes (poll_ready full).1).end_
run_wakes_example = run_wakes flushes full full-pending

-- A request is the first three bytes.
abbrev got : Parsed
got = record { method = some (codes "GET"); path = some (codes "/"); headers = [] }

unfoldable three : Httparse
three buf = if ltb (length buf) 3 then ok partial else ok (complete 3 got)

abbrev arrived : Bytes
arrived = 1 ∷ 2 ∷ 3 ∷ 4 ∷ 5 ∷ []

arrived-Finds : Finds three arrived 3 got
unfolding three
arrived-Finds = record {
  early = λ k h. ground (arith, length-take k arrived);
  late = λ k h. ground (arith, length-take k arrived);
}

abbrev room : RwBuffer
room = record { buf = replicate 4 0; read_cursor = 0; write_cursor = 0 }

room-IsUsable : IsUsable room
room-IsUsable = (record { ordered = omega arith; within = omega arith }, omega arith)

room_empty : read_buf room ≡ []
unfolding read_buf
room_empty = refl

read_exact-parse_request_example :
    (stream : AsyncHttpStream) × (t : AsyncHttpStream) × (parse_request three
        (4 ∷ 4 ∷ 4 ∷ 4 ∷ [])
        room
        arrived
      ≡ some (ok stream))
    × (stream.init ≡ owned got)
    × (read_exact (1 ∷ 1 ∷ []) 2 stream ≡ some (ok (take 2 (drop 3 arrived)), t))
    × (held t ≡ drop (3 + 2) arrived)
read_exact-parse_request_example =
    read_exact-parse_request three arrived 3 2 got room 4 (4 ∷ 4 ∷ 4 ∷ []) (1 ∷ 1 ∷ [])
      arrived-Finds room-IsUsable room_empty
      (omega arith, (omega arith, (omega arith, (omega arith, tt))))
      (omega arith, (omega arith, tt)) (omega arith) (omega arith) (omega arith) (omega arith)
