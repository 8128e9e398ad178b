-- ===== src/Udpman/ConnMap/Ids.antt =====
-- `find_available_id`: the ID is free, and there is one unless all 65536 are taken.
use cpxy.Base.{
  ℕ, suc, ◌+◌, ◌<◌, ◌≤◌, ◌≡◌, ◌≢◌, refl, none, some, List, [], ◌∷◌, arith, inl, inr, Option-cases,
}
use cpxy.Udpman.ConnMap.{Conn, get, find_available_id, last_id, first_gap}
use cpxy.Udpman.ConnMap.Sorted.{IsSorted, Above, Above-le, get-cons, get-below}

module _ {C : Type 0} where
  last_id-ge :
      (low : ℕ) (c : Conn C) (cs : List (Conn C)) → Above low (c ∷ cs) → low ≤ last_id (c ∷ cs)
  unfolding last_id
  last_id-ge low c [] s = omega arith
  last_id-ge low c (d ∷ cs) s = omega (arith, last_id-ge (suc c.id) d cs s.1)

  last_id_bound :
      (low : ℕ) (cs : List (Conn C)) (id : ℕ) → Above low cs → last_id cs < id → get id cs ≡ none
  unfolding last_id
  last_id_bound low [] id s h = unfold get in refl
  last_id_bound low (c ∷ []) id s h = unfold get in ground arith
  last_id_bound low (c ∷ d ∷ cs) id s h = ground (
    arith,
    last_id_bound (suc c.id) (d ∷ cs) id,
    get-cons id c (d ∷ cs),
    last_id-ge (suc c.id) d cs,
  )

  first_gap_free :
      (e id : ℕ) (cs : List (Conn C))
      → Above e cs
      → e < 65536
      → first_gap e cs ≡ some id
      → (get id cs ≡ none) × (e ≤ id) × (id < 65536)
  unfolding first_gap
  first_gap_free e id [] s b h = cc
  first_gap_free e id (c ∷ cs) s b h = ground (
    arith,
    first_gap_free (e + 1) id cs,
    get-cons id c cs,
    get-below id (suc c.id) cs,
    Above-le (suc c.id) (e + 1) cs,
  )

  first_gap_full :
      (e id : ℕ) (cs : List (Conn C))
      → Above e cs
      → 65535 ≤ last_id cs
      → first_gap e cs ≡ none
      → e ≤ id
      → id < 65536
      → get id cs ≢ none
  unfolding first_gap last_id
  first_gap_full e id [] s l h le b = absurd (omega arith)
  first_gap_full e id (c ∷ []) s l h le b = ground (arith, get-cons id c [])
  first_gap_full e id (c ∷ d ∷ cs) s l h le b = ground (
    arith,
    get-cons id c (d ∷ cs),
    Above-le (suc c.id) (e + 1) (d ∷ cs),
    first_gap_full (e + 1) id (d ∷ cs),
  )

  find_available_id_full :
      (cs : List (Conn C)) (id : ℕ)
      → IsSorted cs
      → find_available_id cs ≡ none
      → id < 65536
      → get id cs ≢ none
  unfolding find_available_id
  find_available_id_full cs id s h b = ground (arith, first_gap_full 0 id cs s)

  -- The ID that is found in a sorted map is a u16 that no connection has.
  pub find_available_id_free :
      (cs : List (Conn C)) (id : ℕ)
      → IsSorted cs
      → find_available_id cs ≡ some id
      → (id < 65536) × (get id cs ≡ none)
  unfolding find_available_id
  find_available_id_free cs id s h =
      ground (arith, last_id_bound 0 cs id s, first_gap_free 0 id cs s)

  -- As long as some u16 is not the ID of a connection of a sorted map, an ID is found.
  pub find_available_id-some :
      (cs : List (Conn C)) (id : ℕ)
      → IsSorted cs
      → id < 65536
      → get id cs ≡ none
      → (i : ℕ) × (find_available_id cs ≡ some i)
  find_available_id-some cs id s b free = elim (Option-cases (find_available_id cs)) [
    | inl full ↦ absurd (find_available_id_full cs id s full b free)
    | inr found ↦ found
  ]
