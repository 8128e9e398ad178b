-- ===== src/Udpman/Server/Runs.antt =====
-- The connections of the server over any order of events.
use cpxy.Base.{
  ℕ, ◌<◌, ◌≤◌, ◌≡◌, refl, ap, ◌∙◌, ◌==◌, false, Bool-cases, ==_iff, inl, inr, Option, none, some,
  List, [], ◌∷◌, Bytes, arith,
}
use cpxy.Net.{SocketAddr}
use cpxy.Udpman.Proto.{Message, connect_message, establish_message, data_message}
use cpxy.Udpman.ConnMap.{Conn, insert, get, remove, find_available_id}
use cpxy.Udpman.ConnMap.Sorted.{IsSorted, insert-IsSorted, remove-IsSorted, get-insert, get-remove}
use cpxy.Udpman.ConnMap.Ids.{find_available_id_free}
use cpxy.Udpman.Server.{
  Task, Server, empty, Event, received, took, closed, established, downloaded, ended, SendResult,
  sent, full, disconnected, dropped, find_task, connected, send_result, data_for, handle_message,
  task_established, task_downloaded, task_ended, step, run,
}

-- The map is sorted, and its IDs fit in a u16.
pub record IsOrdered (cs : List (Conn ℕ)) : Type 0 where
  pub sorted : IsSorted cs
  pub bounded : (id : ℕ) → 65536 ≤ id → get id cs ≡ none

pub insert-IsOrdered :
    (id body : ℕ) (cs : List (Conn ℕ))
    → id < 65536
    → IsOrdered cs
    → IsOrdered (insert (record { id = id; body = body }) cs)
insert-IsOrdered id body cs h o = record {
  sorted = insert-IsSorted (record { id = id; body = body }) cs o.sorted;
  bounded = λ other b.
      let differs : (id == other) ≡ false = ground arith in
      get-insert other (record { id = id; body = body }) cs o.sorted
      ∙ rw differs (o.bounded other b);
}

remove-IsOrdered : (id : ℕ) (cs : List (Conn ℕ)) → IsOrdered cs → IsOrdered (remove id cs).1
remove-IsOrdered id cs o = record {
  sorted = remove-IsSorted id cs o.sorted;
  bounded = λ other b.
      let (returned, left) = get-remove id other cs o.sorted in
      left ∙ ground (arith, o.bounded other b);
}

connected-IsOrdered :
    (uuid : Bytes) (dst from : SocketAddr) (s : Server) (found : Option ℕ)
    → find_available_id s.conns ≡ found
    → IsOrdered s.conns
    → IsOrdered (connected uuid dst from s found).conns
unfolding connected
connected-IsOrdered uuid dst from s none e o = o
connected-IsOrdered uuid dst from s (some id) e o =
    insert-IsOrdered id s.started s.conns (find_available_id_free s.conns id o.sorted e).0 o

pub dropped-conns : (r : Option (Conn ℕ) × List (Conn ℕ)) (s : Server) → (dropped r s).conns ≡ r.1
unfolding dropped
dropped-conns (none, conns) s = refl
dropped-conns (some c, conns) s = refl

dropped-IsOrdered :
    (id : ℕ) (s : Server) → IsOrdered s.conns → IsOrdered (dropped (remove id s.conns) s).conns
dropped-IsOrdered id s o = rw (dropped-conns (remove id s.conns) s) (remove-IsOrdered id s.conns o)

send_result-IsOrdered :
    (id task : ℕ) (payload : Bytes) (s : Server) (r : SendResult)
    → IsOrdered s.conns
    → IsOrdered (send_result id task payload s r).conns
unfolding send_result
send_result-IsOrdered id task payload s sent o = o
send_result-IsOrdered id task payload s full o = o
send_result-IsOrdered id task payload s disconnected o = dropped-IsOrdered id s o

data_for-IsOrdered :
    (id : ℕ) (payload : Bytes) (s : Server) (c : Option (Conn ℕ))
    → IsOrdered s.conns
    → IsOrdered (data_for id payload s c).conns
unfolding data_for
data_for-IsOrdered id payload s none o = o
data_for-IsOrdered id payload s (some c) o = send_result-IsOrdered id c.body payload s _ o

handle_message-IsOrdered :
    (msg : Message) (from : SocketAddr) (s : Server)
    → IsOrdered s.conns
    → IsOrdered (handle_message msg from s).conns
unfolding handle_message
handle_message-IsOrdered (connect_message uuid d none dst) from s o =
    connected-IsOrdered uuid dst from s _ refl o
handle_message-IsOrdered (connect_message uuid d (some n) dst) from s o = o
handle_message-IsOrdered (establish_message uuid id reply) from s o = o
handle_message-IsOrdered (data_message none addr payload n) from s o = o
handle_message-IsOrdered (data_message (some id) addr payload n) from s o =
    data_for-IsOrdered id payload s _ o

task_ended-IsOrdered :
    (s : Server) (t : Option Task) → IsOrdered s.conns → IsOrdered (task_ended s t).conns
unfolding task_ended
task_ended-IsOrdered s none o = o
task_ended-IsOrdered s (some t) o = dropped-IsOrdered t.conn_id s o

task_established-conns :
    (reply : Option (Bytes × SocketAddr)) (s : Server) (t : Option Task)
    → (task_established reply s t).conns ≡ s.conns
unfolding task_established
task_established-conns reply s none = refl
task_established-conns reply s (some t) = ground arith

task_downloaded-conns :
    (payload : Bytes) (addr : SocketAddr) (s : Server) (t : Option Task)
    → (task_downloaded payload addr s t).conns ≡ s.conns
unfolding task_downloaded
task_downloaded-conns payload addr s none = refl
task_downloaded-conns payload addr s (some t) = refl

pub step-IsOrdered : (e : Event) (s : Server) → IsOrdered s.conns → IsOrdered (step e s).conns
unfolding step
step-IsOrdered (received msg from) s o = handle_message-IsOrdered msg from s o
step-IsOrdered (took n) s o = o
step-IsOrdered (closed n) s o = o
step-IsOrdered (established n reply) s o =
    rw (task_established-conns reply s (find_task n s.tasks)) o
step-IsOrdered (downloaded n payload addr) s o =
    rw (task_downloaded-conns payload addr s (find_task n s.tasks)) o
step-IsOrdered (ended n) s o = task_ended-IsOrdered s (find_task n s.tasks) o

pub run-IsOrdered : (es : List Event) (s : Server) → IsOrdered s.conns → IsOrdered (run es s).conns
unfolding run
run-IsOrdered [] s o = o
run-IsOrdered (e ∷ es) s o = run-IsOrdered es (step e s) (step-IsOrdered e s o)

pub empty-IsOrdered : IsOrdered []
empty-IsOrdered = record { sorted = tt; bounded = λ id h. unfold get in refl }

-- After any events in any order the connections of the server are sorted by their IDs, and no ID
-- is above the u16 range.
pub run_ordered :
    (es : List Event) (id : ℕ)
    → 65536 ≤ id
    → IsSorted (run es empty).conns × (get id (run es empty).conns ≡ none)
run_ordered es id h = let o = run-IsOrdered es empty empty-IsOrdered in (o.sorted, o.bounded id h)

pub not_taken :
    (i id : ℕ) (cs : List (Conn ℕ)) (c : Conn ℕ)
    → get i cs ≡ none
    → get id cs ≡ some c
    → (i == id) ≡ false
not_taken i id cs c free h = elim (Bool-cases (i == id)) [
  | inl same ↦
      let at_id : get i cs ≡ get id cs = ap (λ (j : ℕ). get j cs) ((==_iff _ _).0 same) in
      cc (free, h, at_id)
  | inr differs ↦ differs
]

-- After any events a client that connects takes the place of no other connection: each one that
-- was there is still found under its ID.
pub handle_message_keeps :
    (es : List Event) (uuid initial_data : Bytes) (dst from : SocketAddr) (id : ℕ) (c : Conn ℕ)
    → get id (run es empty).conns ≡ some c
    → get id (handle_message (connect_message uuid initial_data none dst) from (run es empty)).conns
      ≡ some c
unfolding handle_message
handle_message_keeps es uuid initial_data dst from id c h =
    go (find_available_id (run es empty).conns) refl
  where
    go :
        (found : Option ℕ)
        → find_available_id (run es empty).conns ≡ found
        → get id (connected uuid dst from (run es empty) found).conns ≡ some c
    go none e = unfold connected in h
    go (some i) e =
        let o = run-IsOrdered es empty empty-IsOrdered in
        let free = find_available_id_free (run es empty).conns i o.sorted e in
        let differs : (i == id) ≡ false = not_taken i id (run es empty).conns c free.1 h in
        unfold connected in
        (get-insert id (record { id = i; body = (run es empty).started }) (run es empty).conns
            o.sorted
          ∙ rw differs h)
