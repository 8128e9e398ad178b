-- ===== src/Base/Int.antt =====
-- Signed integers over the native numbers, and the checked operations of `isize` with 64 bits.
use Prim.Native.Nat.{ℕ, ◌+◌, ◌-◌, ◌^◌}
use mathlib.Core.Bool.{Bool, false}
use mathlib.Core.Option.{Option, none, some}
use cpxy.Base.Tests.{ltb, if◌then◌else◌}

-- `negsuc a` is -(a + 1).
pub data ℤ : Type 0 where
  pos : ℕ → ℤ
  negsuc : ℕ → ℤ

-- `n > 0`, and `max(n, 0)`.
unfoldable pub is_positive : ℤ → Bool
is_positive (pos a) = ltb 0 a
is_positive (negsuc a) = false

unfoldable pub positive_part : ℤ → ℕ
positive_part (pos a) = a
positive_part (negsuc a) = 0

infixl 20 ◌-ℤ◌ ◌+ℤ◌
unfoldable pub ◌-ℤ◌ : ℤ → ℕ → ℤ
pos a -ℤ b = if ltb a b then negsuc (b - a - 1) else pos (a - b)
negsuc a -ℤ b = negsuc (a + b)

unfoldable pub ◌+ℤ◌ : ℤ → ℕ → ℤ
pos a +ℤ b = pos (a + b)
negsuc a +ℤ b = if ltb a b then pos (b - a - 1) else negsuc (a - b)

unfoldable pub in_isize : ℤ → Bool
in_isize (pos a) = ltb a (2 ^ 63)
in_isize (negsuc a) = ltb a (2 ^ 63)

-- `n.checked_sub(b.try_into().unwrap())` and `n.checked_add(b.try_into().unwrap())`, where `none`
-- is a panic of either `unwrap`.
unfoldable pub checked_sub : ℤ → ℕ → Option ℤ
checked_sub n b =
    if ltb b (2 ^ 63) then (if in_isize (n -ℤ b) then some (n -ℤ b) else none) else none

unfoldable pub checked_add : ℤ → ℕ → Option ℤ
checked_add n b =
    if ltb b (2 ^ 63) then (if in_isize (n +ℤ b) then some (n +ℤ b) else none) else none
