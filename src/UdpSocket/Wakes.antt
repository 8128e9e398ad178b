-- ===== src/UdpSocket/Wakes.antt =====
-- Who waits for room in the sink of src/io/udp.rs.
use cpxy.Base.{
  ℕ, suc, ◌<◌, ◌≡◌, refl, sym, ◌∙◌, Bool, List, [], ◌∷◌, length, leb, arith, length-append,
  Bool-cases, inl, inr, ◌⊎◌, true,
}
use cpxy.UdpSocket.{
  Packet, UdpSocketSinkStream, Poll, pending, ready, failed, Sent, sent, would_block, refused,
  max_buffer_size, poll_ready, start_send, Flushed, send_first, send_queue, poll_flush,
}
use cpxy.UdpSocket.Runs.{Use, offer, flush, Ran, offered, flushed, run}

-- Someone waits for room, and there is something to send.
abbrev pub Waits : UdpSocketSinkStream → Type 0
Waits s = (s.buffer_waker ≡ true) × (0 < length s.buffers)

abbrev pub WokenOrWaits : Bool → UdpSocketSinkStream → Type 0
WokenOrWaits woken s = (woken ≡ true) ⊎ Waits s

asked-Waits : (s : UdpSocketSinkStream) → Waits s → Waits (poll_ready s).1
unfolding poll_ready
asked-Waits s (w, h) = elim (Bool-cases (leb max_buffer_size (length s.buffers))) [
  | inl e ↦ rw e (refl, h)
  | inr e ↦ rw e (w, h)
]

pending-Waits : (s : UdpSocketSinkStream) → (poll_ready s).0 ≡ pending → Waits (poll_ready s).1
unfolding poll_ready
pending-Waits s h = elim (Bool-cases (leb max_buffer_size (length s.buffers))) [
  | inl e ↦ rw e (refl, ground arith)
  | inr e ↦ let at_once : ready ≡ pending = sym (rw e refl) ∙ h in absurd cc
]

first_wakes :
    (p : Packet) (answer : Sent) (queue : List Packet) (rest : Flushed)
    → WokenOrWaits rest.woken rest.next
    → WokenOrWaits
        (send_first p answer queue true rest).woken
        (send_first p answer queue true rest).next
unfolding send_first
first_wakes p sent queue rest h = h
first_wakes p would_block queue rest h = inr (refl, omega arith)
first_wakes p (refused e) queue rest h = inr (refl, omega arith)

send_queue_wakes :
    (send_to : ℕ → Sent) (k : ℕ) (queue : List Packet)
    → WokenOrWaits (send_queue send_to k queue true).woken (send_queue send_to k queue true).next
unfolding send_queue
send_queue_wakes send_to k [] = inl refl
send_queue_wakes send_to k (p ∷ queue) =
    first_wakes p (send_to k) queue (send_queue send_to (suc k) queue true)
      (send_queue_wakes send_to (suc k) queue)

poll_flush_wakes :
    (writable : Poll) (send_to : ℕ → Sent) (s : UdpSocketSinkStream)
    → Waits s
    → WokenOrWaits (poll_flush writable send_to s).woken (poll_flush writable send_to s).next
unfolding poll_flush
poll_flush_wakes pending send_to s h = inr h
poll_flush_wakes (failed e) send_to s h = inr h
poll_flush_wakes ready send_to s (w, h) = rw w (send_queue_wakes send_to 0 s.buffers)

offered-Waits :
    (p : Packet) (asked : Poll × UdpSocketSinkStream) (rest : UdpSocketSinkStream → Ran)
    → Waits asked.1
    → ((s : UdpSocketSinkStream) → Waits s → WokenOrWaits (rest s).woken (rest s).end_)
    → WokenOrWaits (offered p asked rest).woken (offered p asked rest).end_
unfolding offered start_send
offered-Waits p (ready, s) rest (w, h) behind =
    behind (start_send p s) (w, omega (arith, h, length-append s.buffers (p ∷ [])))
offered-Waits p (pending, s) rest h behind = behind s h
offered-Waits p (failed e, s) rest h behind = behind s h

flushed-Waits :
    (f : Flushed) (rest : UdpSocketSinkStream → Ran)
    → WokenOrWaits f.woken f.next
    → (Waits f.next → WokenOrWaits (rest f.next).woken (rest f.next).end_)
    → WokenOrWaits (flushed f rest).woken (flushed f rest).end_
unfolding flushed
flushed-Waits f rest (inl w) behind = inl (rw w refl)
flushed-Waits f rest (inr h) behind = elim (behind h) [
  | inl w ↦ inl (rw w (ground arith))
  | inr g ↦ inr g
]

run-Waits :
    (uses : List Use) (s : UdpSocketSinkStream)
    → Waits s
    → WokenOrWaits (run uses s).woken (run uses s).end_
unfolding run
run-Waits [] s h = inr h
run-Waits (offer p ∷ uses) s h =
    offered-Waits p (poll_ready s) (run uses) (asked-Waits s h) (run-Waits uses)
run-Waits (flush writable send_to ∷ uses) s h =
    flushed-Waits (poll_flush writable send_to s) (run uses) (poll_flush_wakes writable send_to s h)
      (run-Waits uses (poll_flush writable send_to s).next)

-- Behind a pending poll_ready, after any offers and flushes, whatever the socket answers, either
-- a flush has woken whoever waits, or the waker is kept and a packet is still queued.
pub run_wakes :
    (uses : List Use) (s : UdpSocketSinkStream)
    → (poll_ready s).0 ≡ pending
    → WokenOrWaits (run uses (poll_ready s).1).woken (run uses (poll_ready s).1).end_
run_wakes uses s h = run-Waits uses (poll_ready s).1 (pending-Waits s h)
