-- ===== src/Base/Outcome.antt =====
-- What a fallible function returns: `Result` of Rust, with the errors of `anyhow` and of
-- src/parse.rs.
use Prim.Native.Nat.{ℕ}
use Prim.Native.String.{String}
use mathlib.Core.Option.{Option, none, some}

-- `unexpected` is `ParseError::Unexpected`, `message` an error made by `bail!` or `anyhow!` or by
-- the standard library, and `within` an error under a `context`.
pub data Error : Type 0 where
  unexpected : String → ℕ → String → Error
  message : String → Error
  within : String → Error → Error

pub data Result {ℓ} (V : Type ℓ) : Type ℓ where
  err : Error → Result V
  ok : V → Result V

-- The `?` operator: an error ends the function.
infixl 5 ◌>>=◌
abbrev pub ◌>>=◌ {ℓ κ} : {V : Type ℓ} {W : Type κ} → Result V → (V → Result W) → Result W
err e >>= rest = err e
ok v >>= rest = rest v

-- `r.context(s)` on a result, and on an option.
abbrev pub context {ℓ} : {A : Type ℓ} → String → Result A → Result A
context s (ok a) = ok a
context s (err e) = err (within s e)

abbrev pub some_or {ℓ} : {A : Type ℓ} → String → Option A → Result A
some_or s none = err (message s)
some_or s (some a) = ok a
