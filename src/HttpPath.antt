-- ===== src/HttpPath.antt =====
-- src/http_path.rs: the path of a request and its queries. `decode` is `urlencoding::decode`.
pub mod Queries
use cpxy.Base.{
  ℕ, ◌+◌, ◌==◌, Option, none, some, List, [], ◌∷◌, Bytes, take, drop, if◌then◌else◌, eq_bytes,
  Result, ok, err, message, ◌>>=◌, context,
}
use cpxy.Url.{find}

pub record HttpPath : Type 0 where
  pub path : Bytes
  pub queries : List (Bytes × Bytes)

-- `str::split_once` and `str::split` on a character.
unfoldable pub cut_at : Bytes → Option ℕ → Option (Bytes × Bytes)
cut_at s none = none
cut_at s (some v) = some (take v s, drop (v + 1) s)

abbrev pub split_once : ℕ → Bytes → Option (Bytes × Bytes)
split_once c s = cut_at s (find c s)

unfoldable pub onto_first : ℕ → List Bytes → List Bytes
onto_first x [] = (x ∷ []) ∷ []
onto_first x (p ∷ ps) = (x ∷ p) ∷ ps

unfoldable pub split : ℕ → Bytes → List Bytes
split c [] = [] ∷ []
split c (x ∷ xs) = let rest = split c xs in if x == c then [] ∷ rest else onto_first x rest

unfoldable pub first_query : Bytes → List (Bytes × Bytes) → Option Bytes
first_query name [] = none
first_query name ((n, v) ∷ qs) = if eq_bytes n name then some v else first_query name qs

unfoldable pub get_query : Bytes → HttpPath → Option Bytes
get_query name p = first_query name p.queries

module _ (decode : Bytes → Result Bytes) where
  unfoldable pub query_of : Bytes → Option (Bytes × Bytes) → Result (Bytes × Bytes)
  query_of query none = do name ← context "Parsing query parameter" (decode query); ok (name, [])
  query_of query (some (name, value)) = do
    n ← context "Parsing query parameter" (decode name)
    v ← context "Parsing query parameter" (decode value)
    ok (n, v)

  unfoldable pub queries_of : List Bytes → Result (List (Bytes × Bytes))
  queries_of [] = ok []
  queries_of (query ∷ rest) = do
    q ← query_of query (split_once b'=' query)
    qs ← queries_of rest
    ok (q ∷ qs)

  unfoldable pub path_of : Bytes → Option (Bytes × Bytes) → Result HttpPath
  path_of value none = ok (record { path = value; queries = [] })
  path_of value (some (path, text)) = do
    qs ← queries_of (split b'&' text)
    ok (record { path = path; queries = qs })

  -- `HttpPath::from_str`.
  unfoldable pub path_from_str : Bytes → Result HttpPath
  path_from_str value = path_of value (split_once b'?' value)
