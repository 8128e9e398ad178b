-- ===== src/Udpman/Server/Running.antt =====
-- The tasks of the server over any order of events.
use cpxy.Base.{
  ℕ, ◌≡◌, ◌≢◌, refl, ap, sym, ◌∙◌, ◌==◌, ==_iff, true, false, Bool, Bool-cases, inl, inr, Option,
  none, some, List, [], ◌∷◌, Bytes, if◌then◌else◌,
}
use cpxy.Net.{SocketAddr}
use cpxy.Udpman.Proto.{Message}
use cpxy.Udpman.ConnMap.{Conn, get, remove}
use cpxy.Udpman.ConnMap.Sorted.{get-remove}
use cpxy.Udpman.Server.{
  Task, Server, empty, Event, received, took, closed, established, downloaded, ended, dropped,
  find_task, cancel, task_established, task_downloaded, task_ended, step, run,
}
use cpxy.Udpman.Server.Runs.{IsOrdered, step-IsOrdered, empty-IsOrdered, dropped-conns}
use cpxy.Udpman.Server.Tasks.{
  changed, find_task-change_task, find_task-drop_task, find_task-number, Runs, drop_other-Runs,
  other_task,
}
use cpxy.Udpman.Server.Live.{
  IsLive, left_over, cancel_number, removed-IsLive, steady-IsLive, pop-IsSteady, close-IsSteady,
  handle_message-IsLive,
}

outgoing-IsLive :
    (s : Server) (out : List (Message × SocketAddr))
    → IsLive s
    → IsLive (record s { outgoing = out })
outgoing-IsLive s out l = record { ordered = l.ordered; fresh = l.fresh; live = l.live }

if-IsLive : (b : Bool) (s r : Server) → IsLive s → IsLive r → IsLive (if b then s else r)
if-IsLive true s r h k = h
if-IsLive false s r h k = k

task_established-IsLive :
    (reply : Option (Bytes × SocketAddr)) (s : Server) (t : Option Task)
    → IsLive s
    → IsLive (task_established reply s t)
unfolding task_established
task_established-IsLive reply s none l = l
task_established-IsLive reply s (some t) l = if-IsLive t.is_cancelled s _ l (outgoing-IsLive s _ l)

task_downloaded-IsLive :
    (payload : Bytes) (addr : SocketAddr) (s : Server) (t : Option Task)
    → IsLive s
    → IsLive (task_downloaded payload addr s t)
unfolding task_downloaded
task_downloaded-IsLive payload addr s none l = l
task_downloaded-IsLive payload addr s (some t) l = outgoing-IsLive s _ l

own_number :
    (n : ℕ) (ts : List Task) (t : Task) → find_task n ts ≡ some t → find_task t.number ts ≡ some t
own_number n ts t e = ap (λ (k : ℕ). find_task k ts) (find_task-number n ts t e) ∙ e

task_ended-IsLive :
    (n : ℕ) (s : Server) (found : Option Task)
    → find_task n s.tasks ≡ found
    → IsLive s
    → IsOrdered (task_ended s found).conns
    → IsLive (task_ended s found)
unfolding task_ended
task_ended-IsLive n s none e l o = l
task_ended-IsLive n s (some t) e l o =
    let r = removed-IsLive t.conn_id s l o in
    record {
      ordered = o;
      fresh = λ m h. find_task-drop_task t.number m _ ∙ elim (Bool-cases (t.number == m)) [
        | inl same ↦ rw same refl
        | inr differs ↦ rw differs (r.fresh m h)
      ];
      live = λ id c g.
          let g' = sym (ap (get id) (dropped-conns (remove t.conn_id s.conns) s)) ∙ g in
          let (differs, was) =
            left_over t.conn_id id (get id s.conns) c
              (sym (get-remove t.conn_id id s.conns l.ordered.sorted).1 ∙ g') in
          drop_other-Runs t.number id c.body _
            (other_task s.tasks t t.number id c.body (own_number n s.tasks t e) differs
              (l.live id c was))
            (r.live id c g);
    }

pub step-IsLive : (e : Event) (s : Server) → IsLive s → IsLive (step e s)
unfolding step
step-IsLive e s l = go e (step-IsOrdered e s l.ordered)
  where
    go : (e : Event) → IsOrdered (step e s).conns → IsLive (step e s)
    go (received msg from) o = handle_message-IsLive msg from s l o
    go (took n) o = steady-IsLive _ n s pop-IsSteady l
    go (closed n) o = steady-IsLive _ n s close-IsSteady l
    go (established n reply) o = task_established-IsLive reply s (find_task n s.tasks) l
    go (downloaded n payload addr) o = task_downloaded-IsLive payload addr s (find_task n s.tasks) l
    go (ended n) o = task_ended-IsLive n s (find_task n s.tasks) refl l o

pub run-IsLive : (es : List Event) (s : Server) → IsLive s → IsLive (run es s)
unfolding run
run-IsLive [] s l = l
run-IsLive (e ∷ es) s l = run-IsLive es (step e s) (step-IsLive e s l)

pub empty-IsLive : IsLive empty
unfolding get find_task
empty-IsLive = record { ordered = empty-IsOrdered; fresh = λ n h. refl; live = λ id c g. absurd cc }

-- After any events in any order, each connection that the server still finds under an ID has a
-- task that did not end and was not cancelled, and that task was started for that ID.
pub run-Runs :
    (es : List Event) (id : ℕ) (c : Conn ℕ)
    → get id (run es empty).conns ≡ some c
    → Runs (run es empty).tasks id c.body
run-Runs es id c h = (run-IsLive es empty empty-IsLive).live id c h

removed_own :
    (s : Server) (c : Conn ℕ) (u : Task) (r : Option (Conn ℕ) × List (Conn ℕ))
    → r.0 ≡ some c
    → find_task c.body s.tasks ≡ some u
    → find_task c.body (dropped r s).tasks ≡ some (cancel u)
unfolding dropped
removed_own s c u (none, left) o f = cc
removed_own s c u (some d, left) o f =
    let same : d ≡ c = cc in
    let body : (d.body == c.body) ≡ true = (==_iff _ _).1 (ap (λ (x : Conn ℕ). x.body) same) in
    find_task-change_task cancel d.body c.body s.tasks cancel_number
    ∙ rw body (ap (changed cancel) f)

task_ended-removes :
    (s : Server) (t : Task) → IsOrdered s.conns → get t.conn_id (task_ended s (some t)).conns ≡ none
unfolding task_ended
task_ended-removes s t o =
    let same : (t.conn_id == t.conn_id) ≡ true = (==_iff _ _).1 refl in
    ap (get t.conn_id) (dropped-conns (remove t.conn_id s.conns) s)
    ∙ (get-remove t.conn_id t.conn_id s.conns o.sorted).1
    ∙ rw same refl

task_ended-cancels :
    (s : Server) (t u : Task) (c : Conn ℕ)
    → IsOrdered s.conns
    → get t.conn_id s.conns ≡ some c
    → (t.number == c.body) ≡ false
    → find_task c.body s.tasks ≡ some u
    → find_task c.body (task_ended s (some t)).tasks ≡ some (cancel u)
unfolding task_ended
task_ended-cancels s t u c o g differs f =
    let old = (get-remove t.conn_id t.conn_id s.conns o.sorted).0 ∙ g in
    find_task-drop_task t.number c.body _
    ∙ rw differs (removed_own s c u (remove t.conn_id s.conns) old f)

-- After any events, when a task ends whose ID a connection with another task has by then, that
-- connection is removed from the map, and its task, which was not cancelled, is cancelled.
pub ended_cuts :
    (es : List Event) (id n : ℕ) (c : Conn ℕ) (t : Task)
    → get id (run es empty).conns ≡ some c
    → find_task n (run es empty).tasks ≡ some t
    → t.conn_id ≡ id
    → n ≢ c.body
    → (get id (step (ended n) (run es empty)).conns ≡ none)
      × (u : Task) × (find_task c.body (run es empty).tasks ≡ some u)
      × (u.is_cancelled ≡ false)
      × (find_task c.body (step (ended n) (run es empty)).tasks ≡ some (cancel u))
unfolding step
ended_cuts es id n c t g f i differs =
    let s = run es empty in
    let l = run-IsLive es empty empty-IsLive in
    let (u, found, own, alive) = l.live id c g in
    let number = find_task-number n s.tasks t f in
    let other : (t.number == c.body) ≡ false = elim (Bool-cases (t.number == c.body)) [
      | inl same ↦ absurd (differs (sym number ∙ (==_iff _ _).0 same))
      | inr apart ↦ apart
    ] in
    (
      ap (λ (found : Option Task). get id (task_ended s found).conns) f
          ∙ ap (λ (k : ℕ). get k (task_ended s (some t)).conns) (sym i)
          ∙ task_ended-removes s t l.ordered,
      u,
      found,
      alive,
      ap (λ (found : Option Task). find_task c.body (task_ended s found).tasks) f
          ∙ task_ended-cancels s t u c l.ordered (ap (λ (k : ℕ). get k s.conns) i ∙ g) other found,
    )
