-- ===== src/Udpman/Server/Isolation.antt =====
-- Whose payloads the tasks of the server get.
use cpxy.Base.{
  ℕ, ◌≡◌, refl, ap, sym, ◌∙◌, ◌==◌, ==_iff, Bool-cases, inl, inr, Option, none, some, List, [], ◌∷◌,
  Bytes, All, All-append, arith,
}
use mathlib.Core.Path.{subst}
use cpxy.Net.{SocketAddr}
use cpxy.Udpman.Proto.{Message, connect_message, establish_message, data_message}
use cpxy.Udpman.ConnMap.{Conn, get, remove}
use cpxy.Udpman.Server.{
  Task, Server, empty, Event, received, took, closed, established, downloaded, ended, SendResult,
  sent, full, disconnected, dropped, find_task, change_task, drop_task, push, pop, close, cancel,
  connected, send_result, data_for, handle_message, task_established, task_downloaded, task_ended,
  step, run,
}
use cpxy.Udpman.Server.Tasks.{
  changed, KeepsNumber, find_task-change_task, find_task-drop_task, Runs,
}
use cpxy.Udpman.Server.Live.{IsLive}
use cpxy.Udpman.Server.Running.{step-IsLive, empty-IsLive}

module _ (Q : ℕ → Bytes → Type 0) where
  -- A data message that comes in has a payload of its ID.
  abbrev pub Brings : Event → Type 0
  Brings (received (data_message (some id) addr payload n) from) = Q id payload
  Brings _ = Unit

  abbrev Fine : Task → Type 0
  Fine t = All (Q t.conn_id) t.inbox

  abbrev AllFine : List Task → Type 0
  AllFine ts = (n : ℕ) (t : Task) → find_task n ts ≡ some t → Fine t

  change_task-AllFine :
      (f : Task → Task) (m : ℕ) (ts : List Task)
      → KeepsNumber f
      → ((u : Task) → find_task m ts ≡ some u → Fine u → Fine (f u))
      → AllFine ts
      → AllFine (change_task f m ts)
  change_task-AllFine f m ts k keeps fine n t h =
      let whole = sym (find_task-change_task f m n ts k) ∙ h in
      elim (Bool-cases (m == n)) [
        | inl e ↦ at_task (find_task n ts) refl (sym (rw e refl) ∙ whole) ((==_iff _ _).0 e)
        | inr e ↦ fine n t (sym (rw e refl) ∙ whole)
      ]
    where
      at_task :
          (found : Option Task) → find_task n ts ≡ found → changed f found ≡ some t → m ≡ n → Fine t
      at_task none e g same = let never : Path (Option Task) none (some t) = g in cc
      at_task (some u) e g same =
          let new : f u ≡ t = cc in
          subst Fine new (keeps u (ap (λ (j : ℕ). find_task j ts) same ∙ e) (fine n u e))

  drop_task-AllFine : (m : ℕ) (ts : List Task) → AllFine ts → AllFine (drop_task m ts)
  drop_task-AllFine m ts fine n t h =
      let whole = sym (find_task-drop_task m n ts) ∙ h in
      elim (Bool-cases (m == n)) [
        | inl e ↦ let never : Path (Option Task) none (some t) = sym (rw e refl) ∙ whole in cc
        | inr e ↦ fine n t (sym (rw e refl) ∙ whole)
      ]

  dropped-AllFine :
      (r : Option (Conn ℕ) × List (Conn ℕ)) (s : Server)
      → AllFine s.tasks
      → AllFine (dropped r s).tasks
  unfolding dropped
  dropped-AllFine (none, left) s fine = fine
  dropped-AllFine (some c, left) s fine =
      change_task-AllFine cancel c.body s.tasks (λ t. refl) (λ u e h. h) fine

  new-AllFine : (t : Task) (ts : List Task) → t.inbox ≡ [] → AllFine ts → AllFine (t ∷ ts)
  unfolding find_task
  new-AllFine t ts blank fine n u h = elim (Bool-cases (t.number == n)) [
    | inl e ↦
        let same : t ≡ u =
          (let here : Path (Option Task) (some t) (some u) = sym (rw e refl) ∙ h in cc) in
        subst Fine same (subst (All (Q t.conn_id)) (sym blank) tt)
    | inr e ↦ fine n u (sym (rw e refl) ∙ h)
  ]

  connected-AllFine :
      (uuid : Bytes) (dst from : SocketAddr) (s : Server) (found : Option ℕ)
      → AllFine s.tasks
      → AllFine (connected uuid dst from s found).tasks
  unfolding connected
  connected-AllFine uuid dst from s none fine = fine
  connected-AllFine uuid dst from s (some id) fine = new-AllFine _ s.tasks refl fine

  push-Fine : (payload : Bytes) (u : Task) → Q u.conn_id payload → Fine u → Fine (push payload u)
  push-Fine payload u q h = All-append (Q u.conn_id) u.inbox (payload ∷ []) h (q, tt)

  send_result-AllFine :
      (id task : ℕ) (payload : Bytes) (s : Server) (r : SendResult)
      → Q id payload
      → Runs s.tasks id task
      → AllFine s.tasks
      → AllFine (send_result id task payload s r).tasks
  unfolding send_result
  send_result-AllFine id task payload s sent q (t, e, i, a) fine =
      change_task-AllFine (push payload) task s.tasks (λ u. refl)
        (λ u f h.
          let same : t ≡ u = cc in
          let own : id ≡ u.conn_id = sym i ∙ ap (λ (v : Task). v.conn_id) same in
          push-Fine payload u (subst (λ (j : ℕ). Q j payload) own q) h)
        fine
  send_result-AllFine id task payload s full q runs fine = fine
  send_result-AllFine id task payload s disconnected q runs fine =
      dropped-AllFine (remove id s.conns) s fine

  data_for-AllFine :
      (id : ℕ) (payload : Bytes) (s : Server) (found : Option (Conn ℕ))
      → get id s.conns ≡ found
      → Q id payload
      → IsLive s
      → AllFine s.tasks
      → AllFine (data_for id payload s found).tasks
  unfolding data_for
  data_for-AllFine id payload s none e q l fine = fine
  data_for-AllFine id payload s (some c) e q l fine =
      send_result-AllFine id c.body payload s _ q (l.live id c e) fine

  handle_message-AllFine :
      (msg : Message) (from : SocketAddr) (s : Server)
      → Brings (received msg from)
      → IsLive s
      → AllFine s.tasks
      → AllFine (handle_message msg from s).tasks
  unfolding handle_message
  handle_message-AllFine (connect_message uuid d none dst) from s b l fine =
      connected-AllFine uuid dst from s _ fine
  handle_message-AllFine (connect_message uuid d (some n) dst) from s b l fine = fine
  handle_message-AllFine (establish_message uuid id reply) from s b l fine = fine
  handle_message-AllFine (data_message none addr payload n) from s b l fine = fine
  handle_message-AllFine (data_message (some id) addr payload n) from s b l fine =
      data_for-AllFine id payload s _ refl b l fine

  task_established-tasks :
      (reply : Option (Bytes × SocketAddr)) (s : Server) (t : Option Task)
      → (task_established reply s t).tasks ≡ s.tasks
  unfolding task_established
  task_established-tasks reply s none = refl
  task_established-tasks reply s (some t) = ground arith

  task_downloaded-tasks :
      (payload : Bytes) (addr : SocketAddr) (s : Server) (t : Option Task)
      → (task_downloaded payload addr s t).tasks ≡ s.tasks
  unfolding task_downloaded
  task_downloaded-tasks payload addr s none = refl
  task_downloaded-tasks payload addr s (some t) = refl

  task_ended-AllFine :
      (s : Server) (found : Option Task) → AllFine s.tasks → AllFine (task_ended s found).tasks
  unfolding task_ended
  task_ended-AllFine s none fine = fine
  task_ended-AllFine s (some t) fine =
      drop_task-AllFine t.number _ (dropped-AllFine (remove t.conn_id s.conns) s fine)

  pop-Fine : (u : Task) → Fine u → Fine (pop u)
  pop-Fine u h = rest u.inbox h
    where
      rest :
          (xs : List Bytes)
          → All (Q u.conn_id) xs
          → All (Q u.conn_id) (elim xs [ [] ↦ [] | x ∷ ys ↦ ys ])
      rest [] g = tt
      rest (x ∷ ys) g = g.1

  step-AllFine :
      (e : Event) (s : Server) → Brings e → IsLive s → AllFine s.tasks → AllFine (step e s).tasks
  unfolding step
  step-AllFine (received msg from) s b l fine = handle_message-AllFine msg from s b l fine
  step-AllFine (took n) s b l fine =
      change_task-AllFine pop n s.tasks (λ t. refl) (λ u e h. pop-Fine u h) fine
  step-AllFine (closed n) s b l fine =
      change_task-AllFine close n s.tasks (λ t. refl) (λ u e h. h) fine
  step-AllFine (established n reply) s b l fine =
      subst AllFine (sym (task_established-tasks reply s (find_task n s.tasks))) fine
  step-AllFine (downloaded n payload addr) s b l fine =
      subst AllFine (sym (task_downloaded-tasks payload addr s (find_task n s.tasks))) fine
  step-AllFine (ended n) s b l fine = task_ended-AllFine s (find_task n s.tasks) fine

  run-AllFine :
      (es : List Event) (s : Server)
      → All Brings es
      → IsLive s
      → AllFine s.tasks
      → AllFine (run es s).tasks
  unfolding run
  run-AllFine [] s b l fine = fine
  run-AllFine (e ∷ es) s (b, bs) l fine =
      run-AllFine es (step e s) bs (step-IsLive e s l) (step-AllFine e s b l fine)

  empty-AllFine : AllFine empty.tasks
  unfolding find_task
  empty-AllFine n t h = cc

  -- After any events a task finds in its channel only payloads of data messages for the ID that
  -- it was started for: what holds of the ID and the payload of every data message that came in
  -- holds of the ID of a task and each payload in its channel.
  pub run-isolated :
      (es : List Event) (n : ℕ) (t : Task)
      → All Brings es
      → find_task n (run es empty).tasks ≡ some t
      → All (Q t.conn_id) t.inbox
  run-isolated es n t b h = run-AllFine es empty b empty-IsLive empty-AllFine n t h
