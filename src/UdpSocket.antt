-- ===== src/UdpSocket.antt =====
-- src/io/udp.rs, the sink of `UdpSocketSinkStream`: packets wait in a queue until the socket takes
-- them. The socket is what it answers: `poll_writable`, and `send_to` at each call of it. `buffer_waker`
-- is whether a waker is kept.
pub mod Runs
pub mod Wakes
use cpxy.Base.{
  ℕ, suc, ◌+◌, ◌≤◌, Bool, true, false, Option, none, some, List, [], ◌∷◌, ◌++◌, Bytes, length, leb,
  if◌then◌else◌, Error,
}
use cpxy.Net.{SocketAddr}

abbrev pub Packet : Type 0
Packet = Bytes × SocketAddr

pub record UdpSocketSinkStream : Type 0 where
  pub buffers : List Packet
  pub buffer_waker : Bool

pub data Poll : Type 0 where
  pending ready : Poll
  failed : Error → Poll

pub data Sent : Type 0 where
  sent would_block : Sent
  refused : Error → Sent

abbrev pub max_buffer_size : ℕ
max_buffer_size = 10

-- `to_sink_stream`.
unfoldable pub new : UdpSocketSinkStream
new = record { buffers = []; buffer_waker = false }

unfoldable pub poll_ready : UdpSocketSinkStream → Poll × UdpSocketSinkStream
poll_ready s =
    if leb max_buffer_size (length s.buffers)
    then (pending, record s { buffer_waker = true })
    else (ready, s)

unfoldable pub start_send : Packet → UdpSocketSinkStream → UdpSocketSinkStream
start_send item s = record s { buffers = s.buffers ++ (item ∷ []) }

-- What a call of `poll_flush` does: its result, the packets it sent, the state behind it, and
-- whether it wakes who waits in `poll_ready`.
pub record Flushed : Type 0 where
  pub result : Poll
  pub out : List Packet
  pub next : UdpSocketSinkStream
  pub woken : Bool

unfoldable pub send_first : Packet → Sent → List Packet → Bool → Flushed → Flushed
send_first p would_block queue waker rest = record {
  result = pending;
  out = [];
  next = record { buffers = p ∷ queue; buffer_waker = waker };
  woken = false;
}
send_first p (refused e) queue waker rest = record {
  result = failed e;
  out = [];
  next = record { buffers = p ∷ queue; buffer_waker = waker };
  woken = false;
}
send_first p sent queue waker rest = record rest { out = p ∷ rest.out }

-- The loop over the queue; `send_to k` is the answer to the call `k`.
unfoldable pub send_queue : (ℕ → Sent) → ℕ → List Packet → Bool → Flushed
unfolding send_first
send_queue send_to k [] waker = record {
  result = ready;
  out = [];
  next = record { buffers = []; buffer_waker = false };
  woken = waker;
}
send_queue send_to k (p ∷ queue) waker =
    send_first p (send_to k) queue waker (send_queue send_to (suc k) queue waker)

unfoldable pub poll_flush : Poll → (ℕ → Sent) → UdpSocketSinkStream → Flushed
unfolding send_queue
poll_flush pending send_to s = record { result = pending; out = []; next = s; woken = false }
poll_flush (failed e) send_to s = record { result = failed e; out = []; next = s; woken = false }
poll_flush ready send_to s = send_queue send_to 0 s.buffers s.buffer_waker
