-- ===== src/Udpman/ConnMap/Sorted.antt =====
-- The connection map as a finite map: it stays sorted, and `insert`, `get` and `remove` act on
-- one ID each.
use cpxy.Base.{
  ℕ, suc, ◌<◌, ◌≤◌, ◌≡◌, refl, none, some, List, [], ◌∷◌, ltb, ◌==◌, if◌then◌else◌, arith,
}
use cpxy.Udpman.ConnMap.{Conn, insert, get, remove}

module _ {C : Type 0} where
  -- The IDs rise, and all are at least `low`.
  abbrev pub Above : ℕ → List (Conn C) → Type 0
  Above low [] = Unit
  Above low (c ∷ cs) = (low ≤ c.id) × Above (suc c.id) cs

  abbrev pub IsSorted : List (Conn C) → Type 0
  IsSorted = Above 0

  -- The operations, one connection at a time.
  pub get-cons :
      (id : ℕ) (c : Conn C) (cs : List (Conn C))
      → get id (c ∷ cs) ≡ (if ltb c.id id then get id cs else if c.id == id then some c else none)
  unfolding get
  get-cons id c cs = ground arith

  insert-cons :
      (c d : Conn C) (cs : List (Conn C))
      → insert c (d ∷ cs)
        ≡ (if ltb d.id c.id then d ∷ insert c cs else if d.id == c.id then c ∷ cs else c ∷ d ∷ cs)
  unfolding insert
  insert-cons c d cs = ground arith

  remove-cons :
      (id : ℕ) (c : Conn C) (cs : List (Conn C))
      → (remove id (c ∷ cs)).1
        ≡ (if ltb c.id id then c ∷ (remove id cs).1 else if c.id == id then cs else c ∷ cs)
  unfolding remove
  remove-cons id c cs = ground arith

  insert-Above :
      (low : ℕ) (c : Conn C) (cs : List (Conn C))
      → low ≤ c.id
      → Above low cs
      → Above low (insert c cs)
  insert-Above low c [] h s = unfold insert in (h, tt)
  insert-Above low c (d ∷ cs) h s = rw insert-cons (ground (arith, insert-Above (suc d.id) c cs))

  -- `insert` keeps a sorted map sorted.
  pub insert-IsSorted : (c : Conn C) (cs : List (Conn C)) → IsSorted cs → IsSorted (insert c cs)
  insert-IsSorted c cs = insert-Above 0 c cs (omega arith)

  pub Above-le : (low lower : ℕ) (cs : List (Conn C)) → lower ≤ low → Above low cs → Above lower cs
  Above-le low lower [] h s = tt
  Above-le low lower (c ∷ cs) h s = (omega arith, s.1)

  remove-Above : (low id : ℕ) (cs : List (Conn C)) → Above low cs → Above low (remove id cs).1
  remove-Above low id [] s = unfold remove in tt
  remove-Above low id (d ∷ cs) s =
      rw remove-cons (ground (arith, remove-Above (suc d.id) id cs, Above-le (suc d.id) low cs))

  -- `remove` keeps a sorted map sorted.
  pub remove-IsSorted : (id : ℕ) (cs : List (Conn C)) → IsSorted cs → IsSorted (remove id cs).1
  remove-IsSorted = remove-Above 0

  pub get-below : (id low : ℕ) (cs : List (Conn C)) → id < low → Above low cs → get id cs ≡ none
  get-below id low [] h s = unfold get in refl
  get-below id low (c ∷ cs) h s = rw get-cons (ground arith)

  get-insert_from :
      (low id : ℕ) (c : Conn C) (cs : List (Conn C))
      → Above low cs
      → get id (insert c cs) ≡ (if c.id == id then some c else get id cs)
  get-insert_from low id c [] s = unfold get insert in ground arith
  get-insert_from low id c (d ∷ cs) s = ground (
    arith,
    insert-cons c d cs,
    get-cons id d (insert c cs),
    get-cons id c cs,
    get-cons id c (d ∷ cs),
    get-cons id d cs,
    get-insert_from (suc d.id) id c cs,
    get-below id (suc d.id) cs,
  )

  get-remove_from :
      (low id other : ℕ) (cs : List (Conn C))
      → Above low cs
      → get other (remove id cs).1 ≡ (if id == other then none else get other cs)
  get-remove_from low id other [] s = unfold get remove in ground arith
  get-remove_from low id other (d ∷ cs) s = ground (
    arith,
    remove-cons id d cs,
    get-cons other d (remove id cs).1,
    get-cons other d cs,
    get-remove_from (suc d.id) id other cs,
    get-below other (suc d.id) cs,
  )

  -- In a sorted map `insert` sets the connection of one ID and leaves the others.
  pub get-insert :
      (id : ℕ) (c : Conn C) (cs : List (Conn C))
      → IsSorted cs
      → get id (insert c cs) ≡ (if c.id == id then some c else get id cs)
  get-insert = get-insert_from 0

  -- In a sorted map `remove` returns the connection of one ID, if there is one, and takes out
  -- that one and no other.
  pub get-remove :
      (id other : ℕ) (cs : List (Conn C))
      → IsSorted cs
      → ((remove id cs).0 ≡ get id cs)
        × (get other (remove id cs).1 ≡ (if id == other then none else get other cs))
  get-remove id other cs s = (returned, get-remove_from 0 id other cs s)
    where
      returned : (remove id cs).0 ≡ get id cs
      returned = unfold remove get in ground arith
