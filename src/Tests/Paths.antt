-- ===== src/Tests/Paths.antt =====
-- Runs of the paths. A byte is encoded as two letters here, one for each half.
use cpxy.Base.{
  ℕ, ◌<◌, ◌+◌, ◌-◌, ◌*◌, ◌/◌, ◌%◌, ◌≡◌, refl, Bytes, [], ◌∷◌, ◌++◌, arith, codes, Result, ok, err,
  message, ◌>>=◌,
}
use cpxy.Url.Parts.{Lacks}
use cpxy.HttpPath.{path_from_str}
use cpxy.HttpPath.Queries.{Encoding, query_text, more_text, path_from_str-text}

unfoldable letters : Bytes → Bytes
letters [] = []
letters (x ∷ xs) = (97 + x / 16) ∷ (97 + x % 16) ∷ letters xs

unfoldable from_letters : Bytes → Result Bytes
from_letters [] = ok []
from_letters (a ∷ []) = err (message "half a byte")
from_letters (a ∷ b ∷ rest) = do xs ← from_letters rest; ok (((a - 97) * 16 + (b - 97)) ∷ xs)

from_letters-letters : (s : Bytes) → from_letters (letters s) ≡ ok s
unfolding letters from_letters
from_letters-letters [] = refl
from_letters-letters (x ∷ s) =
    let byte : (97 + x / 16 - 97) * 16 + (97 + x % 16 - 97) ≡ x = omega arith in
    rw (from_letters-letters s, byte) refl

letters-Lacks : (c : ℕ) (s : Bytes) → c < 97 → Lacks c (letters s)
unfolding letters
letters-Lacks c [] h = tt
letters-Lacks c (x ∷ s) h = (ground arith, (ground arith, letters-Lacks c s h))

letters-Encoding : Encoding letters from_letters
letters-Encoding = record {
  decode-encode = from_letters-letters;
  no_amp = λ s. letters-Lacks b'&' s (omega arith);
  no_equals = λ s. letters-Lacks b'=' s (omega arith);
}

path_from_str-text_example :
    path_from_str from_letters (
      codes "/a"
      ++ (b'?'
          ∷ (query_text letters (codes "x", codes "=")
              ++ more_text letters ((codes "y", []) ∷ []))))
    ≡ ok (record { path = codes "/a"; queries = (codes "x", codes "=") ∷ (codes "y", []) ∷ [] })
path_from_str-text_example =
    path_from_str-text letters from_letters letters-Encoding (codes "/a") (codes "x", codes "=")
      ((codes "y", []) ∷ []) (refl, (refl, tt))
