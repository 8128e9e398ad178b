-- ===== src/Tests/Servers.antt =====
-- Runs of the server of the UDP manager.
use cpxy.Base.{
  ℕ, ◌≡◌, refl, true, false, none, some, List, [], ◌∷◌, Bytes, ◌⊎◌, inl, inr, All, arith,
}
use cpxy.Net.{SocketAddr}
use cpxy.Udpman.Proto.{connect_message, data_message}
use cpxy.Udpman.ConnMap.{get, insert, remove, find_available_id}
use cpxy.Udpman.ConnMap.Sorted.{IsSorted}
use cpxy.Udpman.Server.{
  Task, empty, Event, received, closed, ended, find_task, change_task, try_send, cancel, dropped,
  send_result, data_for, connected, handle_message, step, run,
}
use cpxy.Udpman.Server.Runs.{run_ordered, handle_message_keeps}
use cpxy.Udpman.Server.Tasks.{Runs}
use cpxy.Udpman.Server.Running.{run-Runs, ended_cuts}
use cpxy.Udpman.Server.Isolation.{run-isolated}

abbrev client : SocketAddr
client = SocketAddr.v4 1 1000

abbrev target : SocketAddr
target = SocketAddr.v4 2 53

abbrev one : List Event
one = received (connect_message (7 ∷ []) [] none target) client ∷ []

abbrev first_task : Task
first_task = record {
  number = 0;
  conn_id = 1;
  uuid = 7 ∷ [];
  src = client;
  dst = target;
  inbox = [];
  is_open = true;
  is_cancelled = false;
}

run_ordered_example : IsSorted (run one empty).conns × (get 70000 (run one empty).conns ≡ none)
run_ordered_example = run_ordered one 70000 (omega arith)

one-get : get 1 (run one empty).conns ≡ some (record { id = 1; body = 0 })
unfolding run step handle_message connected find_available_id insert get
one-get = refl

handle_message_keeps_example :
    get 1 (handle_message (connect_message (8 ∷ []) [] none target) client (run one empty)).conns
    ≡ some (record { id = 1; body = 0 })
handle_message_keeps_example =
    handle_message_keeps one (8 ∷ []) [] target client 1 (record { id = 1; body = 0 }) one-get

abbrev stale : List Event
stale =
    received (connect_message (7 ∷ []) [] none target) client
    ∷ closed 0
    ∷ received (data_message (some 1) none (9 ∷ []) none) client
    ∷ received (connect_message (8 ∷ []) [] none target) client
    ∷ []

abbrev second_task : Task
second_task = record first_task { number = 1; uuid = 8 ∷ [] }

stale-get : get 1 (run stale empty).conns ≡ some (record { id = 1; body = 1 })
unfolding run step handle_message connected data_for send_result dropped try_send find_task
    change_task find_available_id insert get remove
stale-get = refl

-- The task of the first connection was cancelled, and did not end.
abbrev old_task : Task
old_task = record first_task { is_open = false; is_cancelled = true }

stale-find_task : find_task 0 (run stale empty).tasks ≡ some old_task
unfolding run step handle_message connected data_for send_result dropped try_send find_task
    change_task find_available_id insert get remove
stale-find_task = refl

run-Runs_example : Runs (run stale empty).tasks 1 1
run-Runs_example = run-Runs stale 1 (record { id = 1; body = 1 }) stale-get

ended_cuts_example :
    (get 1 (step (ended 0) (run stale empty)).conns ≡ none)
    × (u : Task) × (find_task 1 (run stale empty).tasks ≡ some u)
    × (u.is_cancelled ≡ false)
    × (find_task 1 (step (ended 0) (run stale empty)).tasks ≡ some (cancel u))
ended_cuts_example =
    ended_cuts stale 1 0 (record { id = 1; body = 1 }) old_task stale-get stale-find_task refl
      (omega arith)

abbrev busy : List Event
busy =
    received (connect_message (7 ∷ []) [] none target) client
    ∷ received (connect_message (8 ∷ []) [] none target) client
    ∷ received (data_message (some 2) none (9 ∷ []) none) client
    ∷ received (data_message (some 1) none (5 ∷ []) none) client
    ∷ []

-- The payload of each connection.
abbrev Expected : ℕ → Bytes → Type 0
Expected id payload = (id ≡ 1 × payload ≡ 5 ∷ []) ⊎ (id ≡ 2 × payload ≡ 9 ∷ [])

busy-find_task :
    find_task 1 (run busy empty).tasks
    ≡ some (record second_task { conn_id = 2; inbox = (9 ∷ []) ∷ [] })
unfolding run step handle_message connected data_for send_result try_send find_task change_task
    find_available_id insert get
busy-find_task = refl

run-isolated_example : All (Expected 2) ((9 ∷ []) ∷ [])
run-isolated_example =
    run-isolated Expected busy 1 (record second_task { conn_id = 2; inbox = (9 ∷ []) ∷ [] })
      (tt, (tt, (inr (refl, refl), (inl (refl, refl), tt)))) busy-find_task
