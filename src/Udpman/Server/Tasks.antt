-- ===== src/Udpman/Server/Tasks.antt =====
-- The tasks of the connections behind a change: which task a number finds.
use cpxy.Base.{
  ℕ, ◌≡◌, refl, ap, sym, ◌∙◌, ◌==◌, ==_iff, false, Bool-cases, inl, inr, Option, none, some, List,
  [], ◌∷◌, if◌then◌else◌, arith,
}
use cpxy.Udpman.Server.{Task, find_task, change_task, drop_task}

abbrev pub changed : (Task → Task) → Option Task → Option Task
changed f none = none
changed f (some t) = some (f t)

-- A change keeps what a task is known by.
abbrev pub KeepsNumber : (Task → Task) → Type 0
KeepsNumber f = (t : Task) → (f t).number ≡ t.number

pub find_task-change_task :
    (f : Task → Task) (m n : ℕ) (ts : List Task)
    → KeepsNumber f
    → find_task n (change_task f m ts)
      ≡ (if m == n then changed f (find_task n ts) else find_task n ts)
unfolding find_task change_task
find_task-change_task f m n [] k = ground arith
find_task-change_task f m n (t ∷ ts) k =
    let rest = find_task-change_task f m n ts k in
    let same : (f t).number ≡ t.number = k t in ground arith

pub find_task-drop_task :
    (m n : ℕ) (ts : List Task)
    → find_task n (drop_task m ts) ≡ (if m == n then none else find_task n ts)
unfolding find_task drop_task
find_task-drop_task m n [] = ground arith
find_task-drop_task m n (t ∷ ts) = let rest = find_task-drop_task m n ts in ground arith

pub find_task-number : (n : ℕ) (ts : List Task) (t : Task) → find_task n ts ≡ some t → t.number ≡ n
unfolding find_task
find_task-number n [] t h = cc
find_task-number n (u ∷ ts) t h = elim (Bool-cases (u.number == n)) [
  | inl e ↦
      let here : Path (Option Task) (some u) (some t) = sym (rw e refl) ∙ h in
      let same : u ≡ t = cc in ap (λ (v : Task). v.number) (sym same) ∙ (==_iff _ _).0 e
  | inr e ↦ find_task-number n ts t (sym (rw e refl) ∙ h)
]

-- The task of a connection with this ID runs, and was not cancelled.
abbrev pub Runs : List Task → ℕ → ℕ → Type 0
Runs ts id n = (t : Task) × (find_task n ts ≡ some t) × (t.conn_id ≡ id) × (t.is_cancelled ≡ false)

-- A change that keeps what `Runs` asks.
pub record IsSteady (f : Task → Task) : Type 0 where
  pub number : KeepsNumber f
  pub conn_id : (t : Task) → (f t).conn_id ≡ t.conn_id
  pub is_cancelled : (t : Task) → (f t).is_cancelled ≡ t.is_cancelled

pub change_task-Runs :
    (f : Task → Task) (m id n : ℕ) (ts : List Task)
    → IsSteady f
    → Runs ts id n
    → Runs (change_task f m ts) id n
change_task-Runs f m id n ts k (t, e, i, a) =
    let found = find_task-change_task f m n ts k.number in
    elim (Bool-cases (m == n)) [
      | inl same ↦
          let here : find_task n (change_task f m ts) ≡ some (f t) =
            found ∙ rw same (ap (changed f) e) in
          (f t, here, k.conn_id t ∙ i, k.is_cancelled t ∙ a)
      | inr differs ↦ (t, found ∙ rw differs e, i, a)
    ]

-- What another task is changed to does not matter.
pub change_other-Runs :
    (f : Task → Task) (m id n : ℕ) (ts : List Task)
    → KeepsNumber f
    → (m == n) ≡ false
    → Runs ts id n
    → Runs (change_task f m ts) id n
change_other-Runs f m id n ts k differs (t, e, i, a) =
    (t, find_task-change_task f m n ts k ∙ rw differs e, i, a)

pub drop_other-Runs :
    (m id n : ℕ) (ts : List Task) → (m == n) ≡ false → Runs ts id n → Runs (drop_task m ts) id n
drop_other-Runs m id n ts differs (t, e, i, a) =
    (t, find_task-drop_task m n ts ∙ rw differs e, i, a)

-- One task has one ID.
pub other_task :
    (ts : List Task) (t : Task) (m id n : ℕ)
    → find_task m ts ≡ some t
    → (t.conn_id == id) ≡ false
    → Runs ts id n
    → (m == n) ≡ false
other_task ts t m id n e differs (u, f, i, a) = elim (Bool-cases (m == n)) [
  | inl same ↦
      let at_n : find_task m ts ≡ find_task n ts =
        ap (λ (k : ℕ). find_task k ts) ((==_iff _ _).0 same) in
      let task : t ≡ u = cc in
      let conn : t.conn_id ≡ id = ap (λ (v : Task). v.conn_id) task ∙ i in ground arith
  | inr other ↦ other
]
