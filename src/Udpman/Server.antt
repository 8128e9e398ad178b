-- ===== src/Udpman/Server.antt =====
-- src/protocol/udpman/server.rs: `serve` and the tasks of its connections. A task is known by its
-- number, in the order in which tasks are started. The runtime chooses the order of the events.
pub mod Runs
pub mod Tasks
pub mod Live
pub mod Running
pub mod Isolation
use cpxy.Base.{
  ℕ, suc, ◌+◌, ltb, ◌==◌, Bool, true, false, not, Option, none, some, List, [], ◌∷◌, ◌++◌, Bytes,
  length, if◌then◌else◌,
}
use cpxy.Net.{SocketAddr}
use cpxy.Tcpman.Packets.{same_socket_addr}
use cpxy.Udpman.Proto.{Message, connect_message, establish_message, data_message}
use cpxy.Udpman.ConnMap.{Conn, insert, get, remove, find_available_id}

-- The task of a connection, and its end of the channel from `incoming_tx`.
pub record Task : Type 0 where
  pub number : ℕ
  pub conn_id : ℕ
  pub uuid : Bytes
  pub src : SocketAddr
  pub dst : SocketAddr
  pub inbox : List Bytes
  pub is_open : Bool
  -- `_task` of its connection was dropped: the future is dropped with the task's end, and takes no
  -- step of its own before; what it started runs until then.
  pub is_cancelled : Bool

-- `connections`, which holds the number of the task of a connection, the tasks that did not end,
-- how many were started, and what went to `sink_tx`.
pub record Server : Type 0 where
  pub conns : List (Conn ℕ)
  pub tasks : List Task
  pub started : ℕ
  pub outgoing : List (Message × SocketAddr)

abbrev pub empty : Server
empty = record { conns = []; tasks = []; started = 0; outgoing = [] }

pub data Event : Type 0 where
  -- `stream` yields a message.
  received : Message → SocketAddr → Event
  -- A task takes a payload from its channel, or drops its end of it.
  took closed : ℕ → Event
  -- A task sends what it got from the destination.
  established : ℕ → Option (Bytes × SocketAddr) → Event
  downloaded : ℕ → Bytes → SocketAddr → Event
  -- A task ends, or its future is dropped some time after the task was cancelled.
  ended : ℕ → Event

unfoldable pub find_task : ℕ → List Task → Option Task
find_task n [] = none
find_task n (t ∷ ts) = if t.number == n then some t else find_task n ts

unfoldable pub change_task : (Task → Task) → ℕ → List Task → List Task
change_task f n [] = []
change_task f n (t ∷ ts) = (if t.number == n then f t else t) ∷ change_task f n ts

unfoldable pub drop_task : ℕ → List Task → List Task
drop_task n [] = []
drop_task n (t ∷ ts) = if t.number == n then drop_task n ts else t ∷ drop_task n ts

-- `try_send` on a channel for ten payloads, which has one more place for its one sender.
pub data SendResult : Type 0 where
  sent full disconnected : SendResult

unfoldable pub try_send : Option Task → SendResult
try_send none = disconnected
try_send (some t) =
    if not t.is_open then disconnected else if ltb (length t.inbox) 11 then sent else full

abbrev pub push : Bytes → Task → Task
push payload t = record t { inbox = t.inbox ++ (payload ∷ []) }

abbrev pub pop : Task → Task
pop t = record t { inbox = elim t.inbox [ [] ↦ [] | x ∷ xs ↦ xs ] }

abbrev pub close : Task → Task
close t = record t { is_open = false }

abbrev pub cancel : Task → Task
cancel t = record t { is_cancelled = true }

-- A connection that is removed is dropped, and its task with it.
unfoldable pub dropped : Option (Conn ℕ) × List (Conn ℕ) → Server → Server
dropped (none, conns) s = record s { conns = conns }
dropped (some c, conns) s = record s { conns = conns; tasks = change_task cancel c.body s.tasks }

-- `Message::Connect`, with the ID that was found.
unfoldable pub connected : Bytes → SocketAddr → SocketAddr → Server → Option ℕ → Server
connected uuid dst from s none = s
connected uuid dst from s (some conn_id) = record {
  conns = insert (record { id = conn_id; body = s.started }) s.conns;
  tasks =
      record {
        number = s.started;
        conn_id = conn_id;
        uuid = uuid;
        src = from;
        dst = dst;
        inbox = [];
        is_open = true;
        is_cancelled = false;
      }
      ∷ s.tasks;
  started = suc s.started;
  outgoing = s.outgoing;
}

unfoldable pub send_result : ℕ → ℕ → Bytes → Server → SendResult → Server
unfolding dropped
send_result conn_id task payload s disconnected = dropped (remove conn_id s.conns) s
send_result conn_id task payload s full = s
send_result conn_id task payload s sent = record s {
  tasks = change_task (push payload) task s.tasks;
}

-- `Message::Data`, with the connection that was found.
unfoldable pub data_for : ℕ → Bytes → Server → Option (Conn ℕ) → Server
data_for conn_id payload s none = s
data_for conn_id payload s (some c) =
    send_result conn_id c.body payload s (try_send (find_task c.body s.tasks))

unfoldable pub handle_message : Message → SocketAddr → Server → Server
handle_message (connect_message uuid initial_data none dst) from s =
    connected uuid dst from s (find_available_id s.conns)
handle_message (data_message (some conn_id) addr payload enc_nonce) from s =
    data_for conn_id payload s (get conn_id s.conns)
handle_message _ from s = s

unfoldable pub task_established : Option (Bytes × SocketAddr) → Server → Option Task → Server
task_established reply s none = s
task_established reply s (some t) = if t.is_cancelled then s else record s {
  outgoing = s.outgoing ++ ((establish_message t.uuid t.conn_id reply, t.src) ∷ []);
}

unfoldable pub task_downloaded : Bytes → SocketAddr → Server → Option Task → Server
task_downloaded payload addr s none = s
task_downloaded payload addr s (some t) = record s {
  outgoing =
      s.outgoing
      ++ ((
        data_message none (if same_socket_addr addr t.dst then none else some addr) payload none,
        t.src,
      )
          ∷ []);
}

-- `defer!`: the ID of the task is removed, whose connection it may be.
unfoldable pub task_ended : Server → Option Task → Server
unfolding dropped
task_ended s none = s
task_ended s (some t) =
    let r = dropped (remove t.conn_id s.conns) s in record r { tasks = drop_task t.number r.tasks }

unfoldable pub step : Event → Server → Server
step (received msg from) s = handle_message msg from s
step (took n) s = record s { tasks = change_task pop n s.tasks }
step (closed n) s = record s { tasks = change_task close n s.tasks }
step (established n reply) s = task_established reply s (find_task n s.tasks)
step (downloaded n payload addr) s = task_downloaded payload addr s (find_task n s.tasks)
step (ended n) s = task_ended s (find_task n s.tasks)

unfoldable pub run : List Event → Server → Server
run [] s = s
run (e ∷ es) s = run es (step e s)
