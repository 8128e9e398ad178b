-- ===== src/FireTcp/Layout.antt =====
-- Which keystream stands at which byte of a connection.
use cpxy.Base.{
  ℕ, suc, ◌+◌, ◌-◌, ◌≤◌, ◌≡◌, refl, ap, ltb, true, false, Bool-cases, inl, inr, Option, none, some,
  Bytes, [], ◌∷◌, length, if◌then◌else◌, arith, ltb-false, lt→ltb,
}
use cpxy.Cipher.{Mask, apply_keystream}
use cpxy.Cipher.Keystream.{apply_keystream-agree}

-- The second cipher, `d` bytes on.
abbrev pub later : Option ℕ → ℕ → Option ℕ
later none d = none
later (some p) d = some (p + d)

pub later_none : (est : Option ℕ) (d : ℕ) → d ≡ 0 → later est d ≡ est
later_none none d h = refl
later_none (some p) d h = ap (λ (q : ℕ). some q) {x = p + d} {y = p} (omega arith)

-- The keystream behind the first bytes: none, or the second one from a position.
abbrev pub establish_mask : Mask → Option ℕ → Mask
establish_mask establish none d b = b
establish_mask establish (some p) d b = establish (p + d) b

-- The first `size` bytes under the first keystream, the others under the second.
abbrev pub layout : Mask → Mask → ℕ → Option ℕ → Mask
layout initial establish size est k b =
    if ltb k size then initial k b else establish_mask establish est (k - size) b

establish_mask_twice :
    (establish : Mask) (est : Option ℕ)
    → ((p b : ℕ) → establish p (establish p b) ≡ b)
    → (d b : ℕ) → establish_mask establish est d (establish_mask establish est d b) ≡ b
establish_mask_twice establish none he d b = refl
establish_mask_twice establish (some p) he d b = he (p + d) b

module _ (initial establish : Mask) (size : ℕ) (est : Option ℕ) where
  pub layout-first :
      (k : ℕ) (bs : Bytes)
      → k + length bs ≤ size
      → apply_keystream initial k bs ≡ apply_keystream (layout initial establish size est) k bs
  layout-first k bs h =
      apply_keystream-agree initial (layout initial establish size est) k k bs
        (λ i b l. let within : ltb (k + i) size ≡ true = lt→ltb _ _ (omega arith) in rw within)

  pub layout-second :
      (k : ℕ) (bs : Bytes)
      → size ≤ k
      → apply_keystream (establish_mask establish est) (k - size) bs
        ≡ apply_keystream (layout initial establish size est) k bs
  layout-second k bs h =
      apply_keystream-agree (establish_mask establish est) (layout initial establish size est)
        (k - size) k bs
        (λ i b l.
          let behind : ltb (k + i) size ≡ false = ltb-false _ _ (omega arith) in
          rw behind (
            ap (λ (d : ℕ). establish_mask establish est d b) {x = k - size + i} {y = k + i - size}
              (omega arith)))

  -- The keystream of a connection undoes itself where its two parts do.
  pub layout_twice :
      ((p b : ℕ) → initial p (initial p b) ≡ b)
      → ((p b : ℕ) → establish p (establish p b) ≡ b)
      → (p b : ℕ) → layout initial establish size est p (layout initial establish size est p b) ≡ b
  layout_twice hi he p b = elim (Bool-cases (ltb p size)) [
    | inl on ↦ rw on (hi p b)
    | inr off ↦ rw off (establish_mask_twice establish est he (p - size) b)
  ]

pub establish_mask-some :
    (establish : Mask) (p d : ℕ) (bs : Bytes)
    → apply_keystream establish (p + d) bs
      ≡ apply_keystream (establish_mask establish (some p)) d bs
establish_mask-some establish p d bs =
    apply_keystream-agree establish (establish_mask establish (some p)) (p + d) d bs
      (λ i b l. ap (λ (q : ℕ). establish q b) {x = p + d + i} {y = p + (d + i)} (omega arith))

pub establish_mask-none :
    (establish : Mask) (d : ℕ) (bs : Bytes)
    → apply_keystream (establish_mask establish none) d bs ≡ bs
unfolding apply_keystream
establish_mask-none establish d [] = refl
establish_mask-none establish d (b ∷ bs) =
    ap (λ (x : Bytes). b ∷ x) (establish_mask-none establish (suc d) bs)
