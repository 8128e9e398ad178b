-- ===== src/Base/Reader.antt =====
-- An asynchronous reader as the bytes that it has still to deliver before its end, and
-- `AsyncReadExt::read_exact` over it. How the bytes are split into packets is not visible.
use Prim.Native.Nat.{ℕ, ◌≤◌, ◌<◌}
use mathlib.Core.Path.{◌≡◌}
use native.Mathlib.Omega.{arith}
use Prim.Native.String.{String}
use cpxy.Base.Lists.{Bytes, length, take, drop}
use cpxy.Base.Outcome.{Result, ok, err, Error, message, within}
use cpxy.Base.Tests.{ltb, if◌then◌else◌}

abbrev pub Reader {ℓ} : Type ℓ → Type ℓ
Reader A = Bytes → Result (A × Bytes)

infixl 5 ◌>>=◌
abbrev pub ◌>>=◌ {ℓ κ} : {A : Type ℓ} {B : Type κ} → Reader A → (A → Reader B) → Reader B
◌>>=◌ m f input = elim (m input) [ ok (a, rest) ↦ f a rest | err e ↦ err e ]

abbrev pub pure {ℓ} : {A : Type ℓ} → A → Reader A
pure a input = ok (a, input)

abbrev pub fail {ℓ} : {A : Type ℓ} → Error → Reader A
fail e input = err e

-- A result computed with no more input.
abbrev pub from_result {ℓ} : {A : Type ℓ} → Result A → Reader A
from_result (ok a) input = ok (a, input)
from_result (err e) input = err e

-- `m.await.context(s)`.
abbrev pub context {ℓ} : {A : Type ℓ} → String → Reader A → Reader A
context s m input = elim (m input) [ ok p ↦ ok p | err e ↦ err (within s e) ]

abbrev pub end_of_file : Error
end_of_file = message "unexpected end of file"

unfoldable pub read_exact : ℕ → Reader Bytes
read_exact n input =
    if ltb (length input) n then err end_of_file else ok (take n input, drop n input)

-- Enough input is split, and too little is the end of the file.
pub read_exact_ok :
    (n : ℕ) (input : Bytes)
    → n ≤ length input
    → read_exact n input ≡ ok (take n input, drop n input)
unfolding read_exact
read_exact_ok n input h = ground arith

pub read_exact_short :
    (n : ℕ) (input : Bytes) → length input < n → read_exact n input ≡ err end_of_file
unfolding read_exact
read_exact_short n input h = ground arith
