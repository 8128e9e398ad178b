-- ===== src/Base/BigEndian.antt =====
-- Unsigned numbers as bytes, most significant first: `to_be_bytes` and `from_be_bytes`, and the
-- accessors `get_u16`, `get_u32` and `get_u128` that read them.
use Prim.Native.Nat.{ℕ, zero, suc, ◌+◌, ◌*◌, ◌/◌, ◌%◌, ◌^◌, ◌≤◌, ◌<◌}
use mathlib.Core.Path.{◌≡◌, refl, ◌∙◌}
use mathlib.Core.List.{[], ◌∷◌, ◌++◌, append-nil, append_assoc}
use native.Mathlib.Omega.{arith}
use native.Mathlib.Nat.{add-zero, zero-add, pow-suc, le_trans}
use cpxy.Base.Outcome.{Result, ok, err, message}
use cpxy.Base.Tests.{ltb, if◌then◌else◌}
use cpxy.Base.Lists.{Bytes, IsByte, All, All-append, length, length-append}

-- The low `w` bytes of a number.
unfoldable pub be_bytes : ℕ → ℕ → Bytes
be_bytes zero n = []
be_bytes (suc w) n = be_bytes w (n / 256) ++ (n % 256 ∷ [])

-- The number whose leading bytes are already read into `acc`.
be_from : ℕ → Bytes → ℕ
be_from acc [] = acc
be_from acc (b ∷ bs) = be_from (acc * 256 + b) bs

unfoldable pub be_value : Bytes → ℕ
unfolding be_from
be_value bs = be_from 0 bs

pub length-be_bytes : (w n : ℕ) → length (be_bytes w n) ≡ w
unfolding be_bytes
length-be_bytes zero n = refl
length-be_bytes (suc w) n =
    omega (arith, length-append (be_bytes w (n / 256)) (n % 256 ∷ []), length-be_bytes w (n / 256))

pub be_bytes-IsByte : (w n : ℕ) → All IsByte (be_bytes w n)
unfolding be_bytes
be_bytes-IsByte zero n = tt
be_bytes-IsByte (suc w) n = All-append IsByte _ _ (be_bytes-IsByte w (n / 256)) (omega arith, tt)

be_from-concat : (acc b : ℕ) (xs : Bytes) → be_from acc (xs ++ (b ∷ [])) ≡ be_from acc xs * 256 + b
unfolding be_from
be_from-concat acc b [] = refl
be_from-concat acc b (x ∷ xs) = be_from-concat (acc * 256 + x) b xs

pub be_value-be_bytes : (w n : ℕ) → n < 256 ^ w → be_value (be_bytes w n) ≡ n
unfolding be_bytes be_value
be_value-be_bytes zero n h = omega arith
be_value-be_bytes (suc w) n h = omega (
  arith,
  be_from-concat 0 (n % 256) (be_bytes w (n / 256)),
  be_value-be_bytes w (n / 256) (omega arith),
)

add_swap : (a b : ℕ) → suc a + b ≡ a + suc b
add_swap a b = omega arith

shifted : (a b : ℕ) → b < 256 → (a * 256 + b) / 256 ≡ a
shifted a b h = omega arith

last_byte : (a b : ℕ) → b < 256 → (a * 256 + b) % 256 ≡ b
last_byte a b h = omega arith

be_bytes-be_from :
    (j acc : ℕ) (xs : Bytes)
    → All IsByte xs
    → be_bytes (length xs + j) (be_from acc xs) ≡ be_bytes j acc ++ xs
unfolding be_bytes be_from
be_bytes-be_from j acc [] h = rw (append-nil, zero-add)
be_bytes-be_from j acc (x ∷ xs) h = rw (add_swap (length xs) j) (
    be_bytes-be_from (suc j) (acc * 256 + x) xs h.1
    ∙ rw (shifted acc x h.0, last_byte acc x h.0, append_assoc))

pub be_bytes-be_value :
    (w : ℕ) (xs : Bytes) → All IsByte xs → length xs ≡ w → be_bytes w (be_value xs) ≡ xs
unfolding be_value be_bytes
be_bytes-be_value w xs h e = rw (← e) (rw add-zero at (be_bytes-be_from 0 0 xs h))

grow : (a b p : ℕ) → b < 256 → (a * 256 + b + 1) * p ≤ (a + 1) * (p * 256)
grow a b p h = grind arith

be_from-lt : (acc : ℕ) (xs : Bytes) → All IsByte xs → be_from acc xs < (acc + 1) * 256 ^ length xs
unfolding be_from
be_from-lt acc [] h = omega arith
be_from-lt acc (x ∷ xs) h =
    let ih = be_from-lt (acc * 256 + x) xs h.1 in
    rw pow-suc (le_trans ih (grow acc x (256 ^ length xs) h.0))

pub be_value-lt : (w : ℕ) (xs : Bytes) → All IsByte xs → length xs ≡ w → be_value xs < 256 ^ w
unfolding be_value
be_value-lt w xs h e = rw (← e) (omega (arith, be_from-lt 0 xs h))

-- `u8::try_from` and `u16::try_from` of a length.
abbrev pub u8_try_from : ℕ → Result ℕ
u8_try_from n =
    if ltb n 256 then ok n else err (message "out of range integral type conversion attempted")

abbrev pub u16_try_from : ℕ → Result ℕ
u16_try_from n =
    if ltb n 65536 then ok n else err (message "out of range integral type conversion attempted")
