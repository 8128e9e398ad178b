-- ===== src/Sni.antt =====
-- src/sni.rs, `extract_http_host_header`: the name of the host that a plain HTTP request asks for,
-- found by one pass over the bytes. `str::trim` is a parameter, and so is `str::from_utf8`.
pub mod Scan
pub mod Search
use cpxy.Base.{
  ℕ, zero, suc, ◌+◌, Bool, true, false, ◌&&◌, ◌||◌, Option, none, some, [], ◌∷◌, Bytes, take, drop,
  ◌==◌, lower, if◌then◌else◌,
}
use cpxy.Net.{Text}
use cpxy.Url.{find}

-- `matches n`: the last `n` bytes start the name `Host`.
pub data ParseState : Type 0 where
  idle : ParseState
  matches : ℕ → ParseState
  first_new_line : ParseState

-- `u8::eq_ignore_ascii_case`.
abbrev pub same_letter : ℕ → ℕ → Bool
same_letter c d = lower c == lower d

-- The last two arms of the closure, which every state reaches.
unfoldable pub scan_rest : ℕ → ParseState
scan_rest c = if c == b'\n' then first_new_line else idle

unfoldable pub scan_name : ℕ → ℕ → ParseState
unfolding scan_rest
scan_name (suc zero) c = if same_letter c b'o' then matches 2 else scan_rest c
scan_name (suc (suc zero)) c = if same_letter c b's' then matches 3 else scan_rest c
scan_name (suc (suc (suc zero))) c = if same_letter c b't' then matches 4 else scan_rest c
scan_name _ c = scan_rest c

-- What the closure of `scan` makes of one byte: the end of the scan, the index behind the colon of
-- `Host:`, or a state and no index (-1 in the source).
pub data Scanned : Type 0 where
  stop : Scanned
  found : Scanned
  on : ParseState → Scanned

unfoldable pub scan_byte : ParseState → ℕ → Scanned
unfolding scan_name scan_rest
scan_byte idle c = if same_letter c b'H' then on (matches 1) else on (scan_rest c)
scan_byte first_new_line c =
    if same_letter c b'H' then on (matches 1) else if c == b'\n' then stop else on (scan_rest c)
scan_byte (matches n) c = if n == 4 && c == b':' then found else on (scan_name n c)

-- The first index that is not negative.
unfoldable pub value_start : ParseState → ℕ → Bytes → Option ℕ
unfolding scan_byte
value_start s i [] = none
value_start s i (c ∷ cs) = elim (scan_byte s c) [
  | stop ↦ none
  | found ↦ some (i + 1)
  | on t ↦ value_start t (i + 1) cs
]

-- The value runs to the end of its line.
unfoldable pub host_value : Text → (Bytes → Bytes) → Bytes → Option Bytes
host_value text trim rest = elim (find b'\n' rest) [
  | none ↦ none
  | some value_length ↦ elim (text.from_utf8 (take value_length rest)) [
    | none ↦ none
    | some s ↦ some (trim s)
  ]
]

unfoldable pub extract_http_host_header : Text → (Bytes → Bytes) → Bytes → Option Bytes
unfolding value_start host_value
extract_http_host_header text trim input = elim (value_start idle 0 input) [
  | none ↦ none
  | some value_start_index ↦ host_value text trim (drop value_start_index input)
]
