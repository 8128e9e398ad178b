-- ===== src/Geoip/Tables.antt =====
-- Tables of ranges in order, split at an index.
use cpxy.Base.{
  ℕ, zero, suc, ◌<◌, ◌≤◌, ◌≡◌, refl, ap, ◌∙◌, true, false, Option, none, some, List, [], ◌∷◌, ◌++◌,
  Bytes, length, get_elem?, leb, if◌then◌else◌, be_value, All, arith,
}
use cpxy.Geoip.{Record, starts}

abbrev pub first_of : Record → ℕ
first_of r = be_value r.start

abbrev pub last_of : Record → ℕ
last_of r = be_value r.end_

-- The ranges are not empty, and each starts before the later ones do; they may overlap,
-- as 17 ranges of src/geoip/ipv4.dat do.
abbrev pub IsTable : List Record → Type 0
IsTable [] = Unit
IsTable (r ∷ rs) =
    (first_of r ≤ last_of r) × All (λ (s : Record). first_of r < first_of s) rs × IsTable rs

-- The last range of the table that starts at or below the number; `best` is that of the ranges before.
unfoldable pub nearest : ℕ → Option Record → List Record → Option Record
nearest needle best [] = best
nearest needle best (r ∷ rs) = nearest needle (if leb (first_of r) needle then some r else best) rs

unfoldable pub held_by : ℕ → Option Record → Option Bytes
held_by needle none = none
held_by needle (some r) = if leb needle (last_of r) then some r.c else none

-- The country of that range, if the range holds the number.
unfoldable pub country_of : ℕ → List Record → Option Bytes
unfolding nearest held_by
country_of needle records = held_by needle (nearest needle none records)

abbrev pub Rising : List ℕ → Type 0
Rising [] = Unit
Rising (k ∷ ks) = All (λ (m : ℕ). k < m) ks × Rising ks

tails : (a b : ℕ) (xs ys : List ℕ) → Path (List ℕ) (a ∷ xs) (b ∷ ys) → xs ≡ ys
tails a b xs ys h = cc

heads_tails :
    (r : Record) (k : ℕ) (xs ys us front : List ℕ)
    → Path (List ℕ) (first_of r ∷ xs) (k ∷ ys)
    → us ≡ front
    → Path (List ℕ) (first_of r ∷ us) (k ∷ front)
heads_tails r k xs ys us front h e = cc

-- Where the first numbers are split, the records are.
pub starts-split :
    (rs : List Record) (front back : List ℕ)
    → starts rs ≡ front ++ back
    → (xs : List Record) × (ys : List Record) × (rs ≡ xs ++ ys)
      × (starts xs ≡ front)
      × (starts ys ≡ back)
unfolding starts
starts-split rs [] back h = ([], rs, refl, refl, h)
starts-split [] (k ∷ front) back h = cc
starts-split (r ∷ rs) (k ∷ front) back h =
    let (xs, ys, e, f, g) =
      starts-split rs front back (tails (first_of r) k (starts rs) (front ++ back) h) in
    (r ∷ xs, ys, ap (◌∷◌ r) e, heads_tails r k (starts rs) (front ++ back) (starts xs) front h f, g)

pub length-starts : (rs : List Record) → length (starts rs) ≡ length rs
unfolding starts
length-starts [] = refl
length-starts (r ∷ rs) = ap suc (length-starts rs)

starts-All :
    (needle : ℕ) (rs : List Record)
    → All (λ (s : Record). needle < first_of s) rs
    → All (λ (m : ℕ). needle < m) (starts rs)
unfolding starts
starts-All needle [] h = tt
starts-All needle (r ∷ rs) (h, t) = (h, starts-All needle rs t)

pub starts-Rising : (rs : List Record) → IsTable rs → Rising (starts rs)
unfolding starts
starts-Rising [] h = tt
starts-Rising (r ∷ rs) (h, k, t) = (starts-All (first_of r) rs k, starts-Rising rs t)

-- A range that starts at or below the number takes the place of those before it.
nearest-before :
    (needle : ℕ) (best : Option Record) (xs : List Record) (r : Record) (ys : List Record)
    → first_of r ≤ needle
    → nearest needle best (xs ++ (r ∷ ys)) ≡ nearest needle (some r) ys
unfolding nearest
nearest-before needle best [] r ys h =
    let reached : leb (first_of r) needle ≡ true = ground arith in rw (reached, nearest) refl
nearest-before needle best (x ∷ xs) r ys h =
    nearest-before needle (if leb (first_of x) needle then some x else best) xs r ys h

-- Ranges that start above the number do not.
nearest-above :
    (needle : ℕ) (best : Option Record) (ys : List Record)
    → All (λ (m : ℕ). needle < m) (starts ys)
    → nearest needle best ys ≡ best
unfolding nearest starts
nearest-above needle best [] h = refl
nearest-above needle best (y ∷ ys) (h, t) =
    let above : leb (first_of y) needle ≡ false = ground arith in
    rw above (nearest-above needle best ys t)

pub country_of-above :
    (needle : ℕ) (ys : List Record)
    → All (λ (m : ℕ). needle < m) (starts ys)
    → country_of needle ys ≡ none
unfolding country_of held_by
country_of-above needle ys h = ap (held_by needle) (nearest-above needle none ys h)

-- Between a range that starts at or below the number and ranges that start above it.
pub country_of-between :
    (needle : ℕ) (xs : List Record) (r : Record) (ys : List Record)
    → first_of r ≤ needle
    → All (λ (m : ℕ). needle < m) (starts ys)
    → country_of needle (xs ++ (r ∷ ys)) ≡ held_by needle (some r)
unfolding country_of
country_of-between needle xs r ys h k =
    ap (held_by needle) (nearest-before needle none xs r ys h ∙ nearest-above needle (some r) ys k)

pub get_elem?-here :
    (xs : List Record) (r : Record) (ys : List Record) (i : ℕ)
    → length xs ≡ i
    → get_elem? (xs ++ (r ∷ ys)) i ≡ some r
get_elem?-here [] r ys zero h = refl
get_elem?-here [] r ys (suc i) h = absurd (omega arith)
get_elem?-here (x ∷ xs) r ys zero h = absurd (omega arith)
get_elem?-here (x ∷ xs) r ys (suc i) h = get_elem?-here xs r ys i (omega arith)

-- A list that is not empty has a last record.
pub last_split :
    (xs : List Record) (n : ℕ)
    → length xs ≡ suc n
    → (front : List Record) × (r : Record) × (xs ≡ front ++ (r ∷ [])) × (length front ≡ n)
last_split [] n h = absurd (omega arith)
last_split (x ∷ []) n h = ([], x, refl, omega arith)
last_split (x ∷ y ∷ xs) zero h = absurd (omega arith)
last_split (x ∷ y ∷ xs) (suc n) h =
    let (front, r, e, l) = last_split (y ∷ xs) n (omega arith) in
    (x ∷ front, r, ap (◌∷◌ x) e, ap suc l)

-- What a table says of one of its ranges.
pub holds_last :
    (xs : List Record) (r : Record) (ys : List Record)
    → IsTable (xs ++ (r ∷ ys))
    → (first_of r ≤ last_of r) × All (λ (m : ℕ). first_of r < m) (starts ys)
holds_last [] r ys h = (h.0, starts-All (first_of r) ys h.1)
holds_last (x ∷ xs) r ys h = holds_last xs r ys h.2
