-- ===== src/Geoip/Ranges.antt =====
-- `find_geoip` is the search for the range that holds the address.
use cpxy.Base.{
  ℕ, zero, suc, ◌<◌, ◌≤◌, ◌≡◌, refl, ap, sym, ◌∙◌, some, List, [], ◌∷◌, ◌++◌, length, All, arith,
  append_assoc,
}
use cpxy.Net.{IpAddr}
use cpxy.Geoip.{
  Record, Search, at, missing, starts, country_at, country_in, country_near, find_geoip,
}
use mathlib.Core.Path.{subst}
use cpxy.Geoip.Tables.{
  first_of, last_of, IsTable, country_of, Rising, starts-split, length-starts, starts-Rising,
  held_by, country_of-above, country_of-between, get_elem?-here, last_split, holds_last,
}

-- What a binary search of numbers that rise promises: where the number is, or where it belongs.
pub record SearchLaws (binary_search : List ℕ → ℕ → Search) : Type 0 where
  pub at_lem :
      (keys : List ℕ) (needle i : ℕ)
      → Rising keys
      → binary_search keys needle ≡ at i
      → (front : List ℕ) × (back : List ℕ) × (keys ≡ front ++ (needle ∷ back)) × (length front ≡ i)
  pub missing_lem :
      (keys : List ℕ) (needle i : ℕ)
      → Rising keys
      → binary_search keys needle ≡ missing i
      → (front : List ℕ) × (back : List ℕ) × (keys ≡ front ++ back)
        × (length front ≡ i)
        × All (λ (k : ℕ). k < needle) front
        × All (λ (k : ℕ). needle < k) back

heads : (a b : ℕ) (xs ys : List ℕ) → Path (List ℕ) (a ∷ xs) (b ∷ ys) → a ≡ b
heads a b xs ys h = cc

held_by-in :
    (needle : ℕ) (r : Record)
    → first_of r ≤ needle
    → held_by needle (some r) ≡ country_in needle (some r)
unfolding held_by country_in
held_by-in needle r h = ground arith

held_by-first :
    (needle : ℕ) (r : Record)
    → first_of r ≡ needle
    → first_of r ≤ last_of r
    → held_by needle (some r) ≡ some r.c
unfolding held_by
held_by-first needle r e h = ground arith

starts-last :
    {needle : ℕ} (front : List Record) (r : Record)
    → All (λ (k : ℕ). k < needle) (starts (front ++ (r ∷ [])))
    → first_of r < needle
unfolding starts
starts-last [] r h = h.0
starts-last (x ∷ xs) r h = starts-last xs r h.1

module _ (needle : ℕ) where
  -- The number is the start of a range.
  near-at :
      (xs ys : List Record) (i : ℕ) (back : List ℕ)
      → IsTable (xs ++ ys)
      → starts ys ≡ needle ∷ back
      → length xs ≡ i
      → country_near needle (xs ++ ys) (at i) ≡ country_of needle (xs ++ ys)
  unfolding country_near country_at starts
  near-at xs [] i back t e l = cc
  near-at xs (r ∷ ys) i back t e l =
      let same : first_of r ≡ needle = heads (first_of r) needle (starts ys) back e in
      let (full, above) = holds_last xs r ys t in
      ap country_at (get_elem?-here xs r ys i l)
      ∙ sym (
          country_of-between needle xs r ys (omega arith)
            (subst (λ (k : ℕ). All (λ (m : ℕ). k < m) (starts ys)) same above)
          ∙ held_by-first needle r same full)

  near-behind :
      (front : List Record) (r : Record) (ys : List Record) (n : ℕ)
      → IsTable (front ++ (r ∷ ys))
      → length front ≡ n
      → first_of r < needle
      → All (λ (k : ℕ). needle < k) (starts ys)
      → country_near needle (front ++ (r ∷ ys)) (missing (suc n))
        ≡ country_of needle (front ++ (r ∷ ys))
  unfolding country_near
  near-behind front r ys n t l h k =
      ap (country_in needle) (get_elem?-here front r ys n l)
      ∙ sym
          (country_of-between needle front r ys (omega arith) k ∙ held_by-in needle r (omega arith))

  -- It belongs behind the ranges `xs`.
  near-missing :
      (xs ys : List Record) (i : ℕ)
      → IsTable (xs ++ ys)
      → length xs ≡ i
      → All (λ (k : ℕ). k < needle) (starts xs)
      → All (λ (k : ℕ). needle < k) (starts ys)
      → country_near needle (xs ++ ys) (missing i) ≡ country_of needle (xs ++ ys)
  unfolding country_near starts
  near-missing [] ys zero t l h k = sym (country_of-above needle ys k)
  near-missing [] ys (suc n) t l h k = absurd (omega arith)
  near-missing (x ∷ xs) ys zero t l h k = absurd (omega arith)
  near-missing (x ∷ xs) ys (suc n) t l h k =
      let (front, r, e, len) = last_split (x ∷ xs) n l in
      let whole : (x ∷ xs) ++ ys ≡ front ++ (r ∷ ys) =
        ap (λ (zs : List Record). zs ++ ys) e ∙ append_assoc front (r ∷ []) ys in
      subst (λ (zs : List Record). country_near needle zs (missing (suc n)) ≡ country_of needle zs)
        (sym whole)
        (near-behind front r ys n (subst IsTable whole t) len
          (starts-last front r
            (subst (λ (zs : List Record). All (λ (k : ℕ). k < needle) (starts zs)) e h))
          k)

-- For a table whose ranges are not empty and start one above the other, overlapping or not, and
-- any binary search of rising numbers that finds a number or the place where it belongs,
-- find_geoip of an IPv4 address is the country of the last range that starts at or below the
-- address, when that range holds the address, and none when it does not or there is none.
pub find_geoip-country_of :
    (binary_search : List ℕ → ℕ → Search) (laws : SearchLaws binary_search) (records : List Record)
    (needle : ℕ)
    → IsTable records
    → find_geoip binary_search records (IpAddr.v4 needle) ≡ country_of needle records
unfolding find_geoip
find_geoip-country_of binary_search laws records needle t =
    near_found (binary_search (starts records) needle) refl
  where
    near_found :
        (s : Search)
        → binary_search (starts records) needle ≡ s
        → country_near needle records s ≡ country_of needle records
    near_found (at i) e =
        let (front, back, keys, l) =
          laws.at_lem (starts records) needle i (starts-Rising records t) e in
        let (xs, ys, whole, f, g) = starts-split records front (needle ∷ back) keys in
        subst (λ (zs : List Record). country_near needle zs (at i) ≡ country_of needle zs)
          (sym whole)
          (near-at needle xs ys i back (subst IsTable whole t) g
            (sym (length-starts xs) ∙ ap length f ∙ l))
    near_found (missing i) e =
        let (front, back, keys, l, h, k) =
          laws.missing_lem (starts records) needle i (starts-Rising records t) e in
        let (xs, ys, whole, f, g) = starts-split records front back keys in
        subst (λ (zs : List Record). country_near needle zs (missing i) ≡ country_of needle zs)
          (sym whole)
          (near-missing needle xs ys i (subst IsTable whole t)
            (sym (length-starts xs) ∙ ap length f ∙ l)
            (subst (All (λ (m : ℕ). m < needle)) (sym f) h)
            (subst (All (λ (m : ℕ). needle < m)) (sym g) k))
