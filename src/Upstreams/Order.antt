-- ===== src/Upstreams/Order.antt =====
-- The sort of src/config.rs keeps the candidates and puts them in the order of their scores.
use cpxy.Base.{
  ℕ, ◌≤◌, ◌≡◌, ◌↔◌, ◌⊎◌, inl, inr, ap, true, List, [], ◌∷◌, Bytes, leb, arith, Bool-cases, All,
}
use cpxy.Upstreams.{UpstreamConfig, Candidate, insert_by_key, sort_by_key, unscored}

abbrev pub In : {A : Type 0} → A → List A → Type 0
In x [] = ⊥
In x (y ∷ ys) = (x ≡ y) ⊎ In x ys

leb-le : (a b : ℕ) → leb a b ≡ true → a ≤ b
leb-le a b h = ground arith

-- The second of three alternatives comes first.
to_front : {A B C : Type 0} → (A ⊎ (B ⊎ C)) → (B ⊎ (A ⊎ C))
to_front (inl a) = inr (inl a)
to_front (inr (inl b)) = inl b
to_front (inr (inr c)) = inr (inr c)

at_back : {A B C : Type 0} → (B → C) → (A ⊎ B) → (A ⊎ C)
at_back f (inl a) = inl a
at_back f (inr b) = inr (f b)

module _ {P : Type 0} where
  -- The scores do not fall.
  abbrev pub IsSorted : List (Candidate P) → Type 0
  IsSorted [] = Unit
  IsSorted (x ∷ xs) = All (λ (y : Candidate P). x.2 ≤ y.2) xs × IsSorted xs

  le_All :
      (x y : Candidate P) (ys : List (Candidate P))
      → x.2 ≤ y.2
      → All (λ (z : Candidate P). y.2 ≤ z.2) ys
      → All (λ (z : Candidate P). x.2 ≤ z.2) ys
  le_All x y [] h k = tt
  le_All x y (z ∷ zs) h (k, t) = (omega arith, le_All x y zs h t)

  pub insert_by_key-All :
      (Q : Candidate P → Type 0) (x : Candidate P) (ys : List (Candidate P))
      → Q x
      → All Q ys
      → All Q (insert_by_key x ys)
  unfolding insert_by_key
  insert_by_key-All Q x [] h k = (h, tt)
  insert_by_key-All Q x (y ∷ ys) h k = elim (Bool-cases (leb x.2 y.2)) [
    | inl e ↦ rw e (h, k)
    | inr e ↦ rw e (k.0, insert_by_key-All Q x ys h k.1)
  ]

  insert_by_key-IsSorted :
      (x : Candidate P) (ys : List (Candidate P)) → IsSorted ys → IsSorted (insert_by_key x ys)
  unfolding insert_by_key
  insert_by_key-IsSorted x [] h = (tt, tt)
  insert_by_key-IsSorted x (y ∷ ys) (h, t) = elim (Bool-cases (leb x.2 y.2)) [
    | inl e ↦ rw e ((leb-le _ _ e, le_All x y ys (leb-le _ _ e) h), (h, t))
    | inr e ↦ rw e (
      insert_by_key-All (λ (z : Candidate P). y.2 ≤ z.2) x ys (ground arith) h,
      insert_by_key-IsSorted x ys t,
    )
  ]

  pub sort_by_key-IsSorted : (xs : List (Candidate P)) → IsSorted (sort_by_key xs)
  unfolding sort_by_key
  sort_by_key-IsSorted [] = tt
  sort_by_key-IsSorted (x ∷ xs) =
      insert_by_key-IsSorted x (sort_by_key xs) (sort_by_key-IsSorted xs)

  In-insert_by_key :
      (z x : Candidate P) (ys : List (Candidate P))
      → In z (insert_by_key x ys) ↔ ((z ≡ x) ⊎ In z ys)
  unfolding insert_by_key
  In-insert_by_key z x [] = (λ h. h, λ h. h)
  In-insert_by_key z x (y ∷ ys) = elim (Bool-cases (leb x.2 y.2)) [
    | inl e ↦ rw e (λ h. h, λ h. h)
    | inr e ↦ rw e (
      λ h. to_front (at_back (In-insert_by_key z x ys).0 h),
      λ h. at_back (In-insert_by_key z x ys).1 (to_front h),
    )
  ]

  pub In-sort_by_key : (z : Candidate P) (xs : List (Candidate P)) → In z (sort_by_key xs) ↔ In z xs
  unfolding sort_by_key
  In-sort_by_key z [] = (λ h. h, λ h. h)
  In-sort_by_key z (x ∷ xs) =
      let both = In-insert_by_key z x (sort_by_key xs) in
      (
        λ h. at_back (In-sort_by_key z xs).0 (both.0 h),
        λ h. both.1 (at_back (In-sort_by_key z xs).1 h),
      )

  pub In-unscored :
      (n : Bytes) (c : UpstreamConfig P) (xs : List (Candidate P))
      → In (n, c) (unscored xs) ↔ ((score : ℕ) × In (n, c, score) xs)
  unfolding unscored
  In-unscored n c [] = (λ h. absurd h, λ h. h.1)
  In-unscored n c ((m, d, s) ∷ xs) =
      let rest = In-unscored n c xs in
      (
        λ h. elim h [
          | inl e ↦ (s, inl (ap (λ (p : Bytes × UpstreamConfig P). (p.0, p.1, s)) e))
          | inr k ↦ ((rest.0 k).0, inr ((rest.0 k).1))
        ],
        λ h. elim (h.1) [
          | inl e ↦ inl (ap (λ (p : Candidate P). (p.0, p.1)) e)
          | inr k ↦ inr (rest.1 (h.0, k))
        ],
      )

  sort_by_key-All :
      (Q : Candidate P → Type 0) (xs : List (Candidate P)) → All Q xs → All Q (sort_by_key xs)
  unfolding sort_by_key
  sort_by_key-All Q [] h = tt
  sort_by_key-All Q (x ∷ xs) (h, t) =
      insert_by_key-All Q x (sort_by_key xs) h (sort_by_key-All Q xs t)

  -- The scores of the names do not fall.
  abbrev pub IsOrdered : (Bytes → ℕ) → List (Bytes × UpstreamConfig P) → Type 0
  IsOrdered score [] = Unit
  IsOrdered score (x ∷ xs) =
      All (λ (y : Bytes × UpstreamConfig P). score (x.0) ≤ score (y.0)) xs × IsOrdered score xs

  unscored-All :
      (score : Bytes → ℕ) (x : Candidate P) (xs : List (Candidate P))
      → x.2 ≡ score (x.0)
      → All (λ (y : Candidate P). x.2 ≤ y.2) xs
      → All (λ (y : Candidate P). y.2 ≡ score (y.0)) xs
      → All (λ (y : Bytes × UpstreamConfig P). score (x.0) ≤ score (y.0)) (unscored xs)
  unfolding unscored
  unscored-All score x [] e h k = tt
  unscored-All score x ((n, c, s) ∷ xs) e (h, t) (k, u) =
      (omega arith, unscored-All score x xs e t u)

  unscored-IsOrdered :
      (score : Bytes → ℕ) (xs : List (Candidate P))
      → IsSorted xs
      → All (λ (x : Candidate P). x.2 ≡ score (x.0)) xs
      → IsOrdered score (unscored xs)
  unfolding unscored
  unscored-IsOrdered score [] h k = tt
  unscored-IsOrdered score ((n, c, s) ∷ xs) (h, t) (k, u) =
      (unscored-All score (n, c, s) xs k h u, unscored-IsOrdered score xs t u)

  pub sorted-IsOrdered :
      (score : Bytes → ℕ) (xs : List (Candidate P))
      → All (λ (x : Candidate P). x.2 ≡ score (x.0)) xs
      → IsOrdered score (unscored (sort_by_key xs))
  sorted-IsOrdered score xs h =
      unscored-IsOrdered score (sort_by_key xs) (sort_by_key-IsSorted xs)
        (sort_by_key-All (λ (x : Candidate P). x.2 ≡ score (x.0)) xs h)
