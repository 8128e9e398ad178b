-- ===== src/Udpman/ConnMap.antt =====
-- src/protocol/udpman/server.rs: `ConnMap`, the server's connections, sorted by their IDs. What
-- a connection holds beside its ID is the type `C`. `binary_search_by_key`, of the standard
-- library, is the search for the place of a key in a sorted list.
pub mod Sorted
pub mod Ids
use cpxy.Base.{
  ℕ, zero, suc, ◌+◌, ◌<◌, Bool, Option, none, some, List, [], ◌∷◌, length, get_elem?, ltb, ◌==◌,
  if◌then◌else◌,
}

pub record Conn (C : Type 0) : Type 0 where
  pub id : ℕ
  pub body : C

-- `Ok(position)` or `Err(position)`: where the key is, or where it belongs.
pub data Search : Type 0 where
  found : ℕ → Search
  missing : ℕ → Search

shift : Search → Search
shift (found i) = found (suc i)
shift (missing i) = missing (suc i)

-- `u16::checked_add(1)`.
abbrev next_u16 : ℕ → Option ℕ
next_u16 n = if ltb (n + 1) 65536 then some (n + 1) else none

module _ {C : Type 0} where
  -- On a list sorted by ID it has one possible result.
  pub binary_search : ℕ → List (Conn C) → Search
  binary_search key [] = missing 0
  binary_search key (c ∷ cs) =
      if ltb c.id key
      then shift (binary_search key cs)
      else if c.id == key
      then found 0
      else missing 0

  -- `VecDeque`: `self.0[p] = c`, `insert(index, c)` and `remove(i)`.
  replace_at : ℕ → Conn C → List (Conn C) → List (Conn C)
  replace_at i c [] = []
  replace_at zero c (d ∷ ds) = c ∷ ds
  replace_at (suc i) c (d ∷ ds) = d ∷ replace_at i c ds

  insert_at : ℕ → Conn C → List (Conn C) → List (Conn C)
  insert_at zero c ds = c ∷ ds
  insert_at (suc i) c [] = []
  insert_at (suc i) c (d ∷ ds) = d ∷ insert_at i c ds

  remove_at : ℕ → List (Conn C) → List (Conn C)
  remove_at i [] = []
  remove_at zero (d ∷ ds) = ds
  remove_at (suc i) (d ∷ ds) = d ∷ remove_at i ds

  unfoldable pub insert : Conn C → List (Conn C) → List (Conn C)
  unfolding binary_search shift replace_at insert_at
  insert c cs = elim (binary_search c.id cs) [
    | found p ↦ replace_at p c cs
    | missing index ↦ insert_at index c cs
  ]

  unfoldable pub get : ℕ → List (Conn C) → Option (Conn C)
  unfolding binary_search shift
  get id cs = elim (binary_search id cs) [ found i ↦ get_elem? cs i | missing i ↦ none ]

  -- `remove` returns the connection too.
  unfoldable pub remove : ℕ → List (Conn C) → Option (Conn C) × List (Conn C)
  unfolding binary_search shift remove_at
  remove id cs = elim (binary_search id cs) [
    | found i ↦ (get_elem? cs i, remove_at i cs)
    | missing i ↦ (none, cs)
  ]

  -- `self.0.back().map(|v| v.id).unwrap_or_default()`
  last_id : List (Conn C) → ℕ
  last_id [] = 0
  last_id (c ∷ []) = c.id
  last_id (c ∷ d ∷ cs) = last_id (d ∷ cs)

  -- The loop from the beginning: the first ID that is not the expected one.
  first_gap : ℕ → List (Conn C) → Option ℕ
  first_gap expecting [] = none
  first_gap expecting (c ∷ cs) =
      if expecting == c.id
      then elim (next_u16 expecting) [ none ↦ none | some e ↦ first_gap e cs ]
      else some expecting

  unfoldable pub find_available_id : List (Conn C) → Option ℕ
  unfolding last_id first_gap
  find_available_id cs = elim (next_u16 (last_id cs)) [
    | some next_key ↦ some next_key
    | none ↦ first_gap 0 cs
  ]
