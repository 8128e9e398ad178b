-- ===== src/UdpSocket/Runs.antt =====
-- Runs of the sink: its packets, and who waits for room.
use cpxy.Base.{
  ℕ, suc, ◌≤◌, ◌<◌, ◌≡◌, refl, ap, sym, ◌∙◌, Bool, List, [], ◌∷◌, ◌++◌, length, leb, append-nil,
  append_assoc, arith, length-append, Bool-cases, inl, inr, ◌||◌, false,
}
use mathlib.Core.Path.{subst}
use cpxy.UdpSocket.{
  Packet, UdpSocketSinkStream, Poll, pending, ready, failed, Sent, sent, would_block, refused,
  max_buffer_size, new, poll_ready, start_send, Flushed, send_first, send_queue, poll_flush,
}

-- A user of the sink asks before each packet and sends it only if the sink is ready; else it
-- keeps the packet. Between that it flushes, with what the socket answers.
pub data Use : Type 0 where
  offer : Packet → Use
  flush : Poll → (ℕ → Sent) → Use

-- The packets that were taken, the packets that were sent, whether a flush woke who waits, and the
-- state at the end.
pub record Ran : Type 0 where
  pub taken : List Packet
  pub out : List Packet
  pub woken : Bool
  pub end_ : UdpSocketSinkStream

unfoldable pub offered : Packet → Poll × UdpSocketSinkStream → (UdpSocketSinkStream → Ran) → Ran
unfolding start_send
offered p (ready, s) rest = let r = rest (start_send p s) in record r { taken = p ∷ r.taken }
offered p (pending, s) rest = rest s
offered p (failed e, s) rest = rest s

unfoldable pub flushed : Flushed → (UdpSocketSinkStream → Ran) → Ran
flushed f rest =
    let r = rest f.next in record r { out = f.out ++ r.out; woken = f.woken || r.woken }

unfoldable pub run : List Use → UdpSocketSinkStream → Ran
unfolding offered flushed poll_ready poll_flush
run [] s = record { taken = []; out = []; woken = false; end_ = s }
run (offer p ∷ uses) s = offered p (poll_ready s) (run uses)
run (flush writable send_to ∷ uses) s = flushed (poll_flush writable send_to s) (run uses)

first_parts :
    (p : Packet) (answer : Sent) (queue : List Packet) (waker : Bool) (rest : Flushed)
    → rest.out ++ rest.next.buffers ≡ queue
    → (send_first p answer queue waker rest).out
        ++ (send_first p answer queue waker rest).next.buffers
      ≡ p ∷ queue
unfolding send_first
first_parts p sent queue waker rest h = ap (◌∷◌ p) h
first_parts p would_block queue waker rest h = refl
first_parts p (refused e) queue waker rest h = refl

-- A flush sends a front of the queue and keeps the rest.
send_queue_parts :
    (send_to : ℕ → Sent) (k : ℕ) (queue : List Packet) (waker : Bool)
    → (send_queue send_to k queue waker).out ++ (send_queue send_to k queue waker).next.buffers
      ≡ queue
unfolding send_queue
send_queue_parts send_to k [] waker = refl
send_queue_parts send_to k (p ∷ queue) waker =
    first_parts p (send_to k) queue waker (send_queue send_to (suc k) queue waker)
      (send_queue_parts send_to (suc k) queue waker)

poll_flush_parts :
    (writable : Poll) (send_to : ℕ → Sent) (s : UdpSocketSinkStream)
    → (poll_flush writable send_to s).out ++ (poll_flush writable send_to s).next.buffers
      ≡ s.buffers
unfolding poll_flush
poll_flush_parts pending send_to s = refl
poll_flush_parts (failed e) send_to s = refl
poll_flush_parts ready send_to s = send_queue_parts send_to 0 s.buffers s.buffer_waker

-- What is in the queue and what is taken is sent or still in the queue, in order; the queue stays
-- short.
abbrev pub Keeps : List Packet → Ran → Type 0
Keeps queue r =
    (queue ++ r.taken ≡ r.out ++ r.end_.buffers)
    × (length queue ≤ max_buffer_size → length r.end_.buffers ≤ max_buffer_size)

-- The sink is ready only if the queue has room, and asking changes no packet.
ready_room :
    (s : UdpSocketSinkStream)
    → ((poll_ready s).0 ≡ ready → length s.buffers < max_buffer_size)
      × ((poll_ready s).1.buffers ≡ s.buffers)
unfolding poll_ready
ready_room s = elim (Bool-cases (leb max_buffer_size (length s.buffers))) [
  | inl e ↦ rw e (λ h. cc, refl)
  | inr e ↦ rw e (λ h. ground arith, refl)
]

offered-Keeps :
    (p : Packet) (asked : Poll × UdpSocketSinkStream) (rest : UdpSocketSinkStream → Ran)
    → (asked.0 ≡ ready → length asked.1.buffers < max_buffer_size)
    → ((s : UdpSocketSinkStream) → Keeps s.buffers (rest s))
    → Keeps asked.1.buffers (offered p asked rest)
unfolding offered start_send
offered-Keeps p (ready, s) rest room h =
    let (e, l) = h (start_send p s) in
    (
      sym (append_assoc s.buffers (p ∷ []) (rest (start_send p s)).taken) ∙ e,
      λ _. l (omega (arith, room refl, length-append s.buffers (p ∷ []))),
    )
offered-Keeps p (pending, s) rest room h = h s
offered-Keeps p (failed e, s) rest room h = h s

flushed-Keeps :
    (f : Flushed) (queue : List Packet) (rest : UdpSocketSinkStream → Ran)
    → f.out ++ f.next.buffers ≡ queue
    → Keeps f.next.buffers (rest f.next)
    → Keeps queue (flushed f rest)
unfolding flushed
flushed-Keeps f queue rest parts (e, l) = (
  ap (λ (q : List Packet). q ++ (rest f.next).taken) (sym parts)
      ∙ append_assoc f.out f.next.buffers (rest f.next).taken
      ∙ ap (◌++◌ f.out) e
      ∙ sym (append_assoc f.out (rest f.next).out (rest f.next).end_.buffers),
  λ h. l (omega (arith, ap length parts, length-append f.out f.next.buffers)),
)

run-Keeps : (uses : List Use) (s : UdpSocketSinkStream) → Keeps s.buffers (run uses s)
unfolding run
run-Keeps [] s = (append-nil s.buffers, λ h. h)
run-Keeps (offer p ∷ uses) s =
    let (room, same) = ready_room s in
    subst (λ (q : List Packet). Keeps q (offered p (poll_ready s) (run uses))) same
      (offered-Keeps p (poll_ready s) (run uses)
        (λ e. subst (λ (q : List Packet). length q < max_buffer_size) (sym same) (room e))
        (run-Keeps uses))
run-Keeps (flush writable send_to ∷ uses) s =
    let f = poll_flush writable send_to s in
    flushed-Keeps f s.buffers (run uses) (poll_flush_parts writable send_to s)
      (run-Keeps uses f.next)

-- Over any run of offers, which are taken only when poll_ready is ready, and of flushes,
-- whatever the socket answers: what was taken is, in this order, what was sent and what is still
-- queued, and at most ten packets are queued.
pub run_sends :
    (uses : List Use)
    → ((run uses new).taken ≡ (run uses new).out ++ (run uses new).end_.buffers)
      × (length (run uses new).end_.buffers ≤ max_buffer_size)
unfolding new
run_sends uses = let (e, l) = run-Keeps uses new in (e, l (omega arith))
