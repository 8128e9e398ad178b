-- ===== src/Udpman/Server/Live.antt =====
-- The connections of the server against its tasks.
use cpxy.Base.{
  ℕ, ◌≤◌, ◌≡◌, refl, ap, sym, ◌∙◌, ◌==◌, ==_iff, true, false, Bool-cases, inl, inr, Option, none,
  some, List, ◌∷◌, Bytes, if◌then◌else◌, arith,
}
use cpxy.Net.{SocketAddr}
use cpxy.Udpman.Proto.{Message, connect_message, establish_message, data_message}
use cpxy.Udpman.ConnMap.{Conn, get, remove}
use cpxy.Udpman.ConnMap.Sorted.{get-insert, get-remove}
use cpxy.Udpman.Server.{
  Task, Server, SendResult, sent, full, disconnected, dropped, find_task, change_task, push, pop,
  close, cancel, connected, send_result, data_for, handle_message,
}
use cpxy.Udpman.Server.Runs.{IsOrdered, dropped-conns}
use cpxy.Udpman.Server.Tasks.{
  changed, KeepsNumber, find_task-change_task, Runs, IsSteady, change_task-Runs, change_other-Runs,
  other_task,
}

-- The next number is free, and each connection of the map has a task that runs.
pub record IsLive (s : Server) : Type 0 where
  pub ordered : IsOrdered s.conns
  pub fresh : (n : ℕ) → s.started ≤ n → find_task n s.tasks ≡ none
  pub live : (id : ℕ) (c : Conn ℕ) → get id s.conns ≡ some c → Runs s.tasks id c.body

-- A connection that is left behind the removal of `id`.
pub left_over :
    (id other : ℕ) (m : Option (Conn ℕ)) (c : Conn ℕ)
    → (if id == other then none else m) ≡ some c
    → ((id == other) ≡ false) × (m ≡ some c)
left_over id other m c h = elim (Bool-cases (id == other)) [
  | inl e ↦ let no : none ≡ some c = sym (rw e refl) ∙ h in cc
  | inr e ↦ (e, sym (rw e refl) ∙ h)
]

pub cancel_number : KeepsNumber cancel
cancel_number t = refl

change_task-fresh :
    (f : Task → Task) (m n : ℕ) (ts : List Task)
    → KeepsNumber f
    → find_task n ts ≡ none
    → find_task n (change_task f m ts) ≡ none
change_task-fresh f m n ts k h =
    find_task-change_task f m n ts k
    ∙ elim (Bool-cases (m == n)) [ inl e ↦ rw e (ap (changed f) h) | inr e ↦ rw e h ]

-- Behind a removal.
module _ (id : ℕ) (s : Server) (l : IsLive s) where
  dropped-live :
      (old : Option (Conn ℕ)) (left : List (Conn ℕ))
      → old ≡ get id s.conns
      → ((other : ℕ) → get other left ≡ (if id == other then none else get other s.conns))
      → (other : ℕ) (c : Conn ℕ) → get other left ≡ some c
      → Runs (dropped (old, left) s).tasks other c.body
  unfolding dropped
  dropped-live none left o h other c g =
      let (differs, was) = left_over id other (get other s.conns) c (sym (h other) ∙ g) in
      l.live other c was
  dropped-live (some d) left o h other c g =
      let (differs, was) = left_over id other (get other s.conns) c (sym (h other) ∙ g) in
      let (t, e, i, a) = l.live id d (sym o) in
      change_other-Runs cancel d.body other c.body s.tasks cancel_number
        (other_task s.tasks t d.body other c.body e (rw i differs) (l.live other c was))
        (l.live other c was)

  dropped-fresh :
      (r : Option (Conn ℕ) × List (Conn ℕ)) (n : ℕ)
      → s.started ≤ n
      → find_task n (dropped r s).tasks ≡ none
  unfolding dropped
  dropped-fresh (none, left) n h = l.fresh n h
  dropped-fresh (some d, left) n h =
      change_task-fresh cancel d.body n s.tasks cancel_number (l.fresh n h)

  pub removed-live :
      (other : ℕ) (c : Conn ℕ)
      → get other (remove id s.conns).1 ≡ some c
      → Runs (dropped (remove id s.conns) s).tasks other c.body
  removed-live =
      dropped-live (remove id s.conns).0 (remove id s.conns).1
        (get-remove id id s.conns l.ordered.sorted).0
        (λ other. (get-remove id other s.conns l.ordered.sorted).1)

  removed-fresh : (n : ℕ) → s.started ≤ n → find_task n (dropped (remove id s.conns) s).tasks ≡ none
  removed-fresh = dropped-fresh (remove id s.conns)

  removed-started : (r : Option (Conn ℕ) × List (Conn ℕ)) → (dropped r s).started ≡ s.started
  unfolding dropped
  removed-started (none, left) = refl
  removed-started (some d, left) = refl

  pub removed-IsLive :
      IsOrdered (dropped (remove id s.conns) s).conns → IsLive (dropped (remove id s.conns) s)
  removed-IsLive o = record {
    ordered = o;
    fresh = λ n h. removed-fresh n (omega (arith, removed-started (remove id s.conns), h));
    live = λ other c g.
        removed-live other c (sym (ap (get other) (dropped-conns (remove id s.conns) s)) ∙ g);
  }

pub steady-IsLive :
    (f : Task → Task) (m : ℕ) (s : Server)
    → IsSteady f
    → IsLive s
    → IsLive (record s { tasks = change_task f m s.tasks })
steady-IsLive f m s k l = record {
  ordered = l.ordered;
  fresh = λ n h. change_task-fresh f m n s.tasks k.number (l.fresh n h);
  live = λ id c g. change_task-Runs f m id c.body s.tasks k (l.live id c g);
}

pub push-IsSteady : (payload : Bytes) → IsSteady (push payload)
push-IsSteady payload = record { number = λ t. refl; conn_id = λ t. refl; is_cancelled = λ t. refl }

pub pop-IsSteady : IsSteady pop
pop-IsSteady = record { number = λ t. refl; conn_id = λ t. refl; is_cancelled = λ t. refl }

pub close-IsSteady : IsSteady close
close-IsSteady = record { number = λ t. refl; conn_id = λ t. refl; is_cancelled = λ t. refl }

-- A task that was started for the ID `id`, in front of the others.
started_others :
    (s : Server) (t : Task) (id n : ℕ)
    → IsLive s
    → t.number ≡ s.started
    → Runs s.tasks id n
    → Runs (t ∷ s.tasks) id n
unfolding find_task
started_others s t id n l e (u, f, i, a) = elim (Bool-cases (t.number == n)) [
  | inl same ↦
      let absent : find_task n s.tasks ≡ none = l.fresh n (omega (arith, (==_iff _ _).0 same, e)) in
      cc
  | inr differs ↦ (u, rw differs f, i, a)
]

started_own : (t : Task) (ts : List Task) (n : ℕ) → t.number ≡ n → find_task n (t ∷ ts) ≡ some t
unfolding find_task
started_own t ts n h = let here : (t.number == n) ≡ true = ground arith in rw here refl

connected-IsLive :
    (uuid : Bytes) (dst from : SocketAddr) (s : Server) (found : Option ℕ)
    → IsLive s
    → IsOrdered (connected uuid dst from s found).conns
    → IsLive (connected uuid dst from s found)
unfolding connected
connected-IsLive uuid dst from s none l o = l
connected-IsLive uuid dst from s (some i) l o = record {
  ordered = o;
  fresh = λ n h.
      unfold find_task in
      (let other : (s.started == n) ≡ false = ground arith in rw other (l.fresh n (omega arith)));
  live = λ id c g.
      let new : Conn ℕ = record { id = i; body = s.started } in
      let whole = sym (get-insert id new s.conns l.ordered.sorted) ∙ g in
      elim (Bool-cases (i == id)) [
        | inl same ↦
            let here : Path (Option (Conn ℕ)) (some new) (some c) = sym (rw same refl) ∙ whole in
            let body : s.started ≡ c.body = cc in
            (_, started_own _ s.tasks c.body body, (==_iff _ _).0 same, refl)
        | inr differs ↦
            started_others s _ id c.body l refl (l.live id c (sym (rw differs refl) ∙ whole))
      ];
}

send_result-IsLive :
    (id task : ℕ) (payload : Bytes) (s : Server) (r : SendResult)
    → IsLive s
    → IsOrdered (send_result id task payload s r).conns
    → IsLive (send_result id task payload s r)
unfolding send_result
send_result-IsLive id task payload s sent l o =
    steady-IsLive (push payload) task s (push-IsSteady payload) l
send_result-IsLive id task payload s full l o = l
send_result-IsLive id task payload s disconnected l o = removed-IsLive id s l o

data_for-IsLive :
    (id : ℕ) (payload : Bytes) (s : Server) (c : Option (Conn ℕ))
    → IsLive s
    → IsOrdered (data_for id payload s c).conns
    → IsLive (data_for id payload s c)
unfolding data_for
data_for-IsLive id payload s none l o = l
data_for-IsLive id payload s (some c) l o = send_result-IsLive id c.body payload s _ l o

pub handle_message-IsLive :
    (msg : Message) (from : SocketAddr) (s : Server)
    → IsLive s
    → IsOrdered (handle_message msg from s).conns
    → IsLive (handle_message msg from s)
unfolding handle_message
handle_message-IsLive (connect_message uuid d none dst) from s l o =
    connected-IsLive uuid dst from s _ l o
handle_message-IsLive (connect_message uuid d (some n) dst) from s l o = l
handle_message-IsLive (establish_message uuid id reply) from s l o = l
handle_message-IsLive (data_message none addr payload n) from s l o = l
handle_message-IsLive (data_message (some id) addr payload n) from s l o =
    data_for-IsLive id payload s _ l o
