-- ===== src/HttpPath/Queries.antt =====
-- A path with queries is read back.
use cpxy.Base.{
  ℕ, ◌≡◌, refl, ◌==◌, true, some, List, [], ◌∷◌, ◌++◌, Bytes, length, arith, take-append,
  append-nil, Result, ok,
}
use cpxy.Url.Parts.{Lacks, find-here, drop_behind, Lacks-append}
use cpxy.HttpPath.{
  cut_at, split_once, onto_first, split, query_of, queries_of, path_of, path_from_str,
}

-- What the program reads of percent-encoding: encoded text is decoded, and has none of the
-- characters that part a path.
pub record Encoding (encode : Bytes → Bytes) (decode : Bytes → Result Bytes) : Type 0 where
  pub decode-encode : (s : Bytes) → decode (encode s) ≡ ok s
  pub no_amp : (s : Bytes) → Lacks b'&' (encode s)
  pub no_equals : (s : Bytes) → Lacks b'=' (encode s)

split_once-here :
    (c : ℕ) (front more : Bytes)
    → Lacks c front
    → split_once c (front ++ (c ∷ more)) ≡ some (front, more)
unfolding cut_at
split_once-here c front more h =
    rw
      (
        find-here c front more h,
        take-append (length front) front (c ∷ more) refl,
        drop_behind front (c ∷ []) more 1 refl,
      )
      refl

pub split-Lacks : (c : ℕ) (s : Bytes) → Lacks c s → split c s ≡ s ∷ []
unfolding split onto_first
split-Lacks c [] h = refl
split-Lacks c (x ∷ s) (h, t) = rw (h, split-Lacks c s t) refl

pub split-here :
    (c : ℕ) (front more : Bytes)
    → Lacks c front
    → split c (front ++ (c ∷ more)) ≡ front ∷ split c more
unfolding split onto_first
split-here c [] more h = let same : (c == c) ≡ true = ground arith in rw same refl
split-here c (x ∷ front) more (h, t) = rw (h, split-here c front more t) refl

-- How a query and the queries behind a first one are written.
abbrev pub query_text : (Bytes → Bytes) → Bytes × Bytes → Bytes
query_text encode q = encode q.0 ++ (b'=' ∷ encode q.1)

abbrev pub more_text : (Bytes → Bytes) → List (Bytes × Bytes) → Bytes
more_text encode [] = []
more_text encode (q ∷ qs) = b'&' ∷ (query_text encode q ++ more_text encode qs)

module _ (encode : Bytes → Bytes) (decode : Bytes → Result Bytes)
    (laws : Encoding encode decode) where
  query_of-text :
      (q : Bytes × Bytes)
      → query_of decode (query_text encode q) (split_once b'=' (query_text encode q)) ≡ ok q
  unfolding query_of
  query_of-text q =
      rw
        (
          split_once-here b'=' (encode q.0) (encode q.1) (laws.no_equals q.0),
          laws.decode-encode q.0,
          laws.decode-encode q.1,
        )
        refl

  query_text-Lacks : (q : Bytes × Bytes) → Lacks b'&' (query_text encode q)
  query_text-Lacks q =
      Lacks-append b'&' (encode q.0) (b'=' ∷ encode q.1) (laws.no_amp q.0) (refl, laws.no_amp q.1)

  queries_of-text :
      (q : Bytes × Bytes) (qs : List (Bytes × Bytes))
      → queries_of decode (split b'&' (query_text encode q ++ more_text encode qs)) ≡ ok (q ∷ qs)
  unfolding queries_of
  queries_of-text q [] =
      rw (append-nil, split-Lacks b'&' (query_text encode q) (query_text-Lacks q), query_of-text q)
        refl
  queries_of-text q (r ∷ qs) =
      let rest = queries_of-text r qs in
      rw
        (
          split-here b'&' (query_text encode q) (query_text encode r ++ more_text encode qs)
              (query_text-Lacks q),
          query_of-text q,
          rest,
        )
        refl

  -- A path without a question mark and at least one query, each written as its encoded name, an
  -- equals sign and its encoded value, is parsed to that path and those queries in their order,
  -- if encoded text is decoded and has neither of the characters "&" and "=".
  pub path_from_str-text :
      (path : Bytes) (q : Bytes × Bytes) (qs : List (Bytes × Bytes))
      → Lacks b'?' path
      → path_from_str decode (path ++ (b'?' ∷ (query_text encode q ++ more_text encode qs)))
        ≡ ok (record { path = path; queries = q ∷ qs })
  unfolding path_from_str path_of
  path_from_str-text path q qs h =
      rw
        (
          split_once-here b'?' path (query_text encode q ++ more_text encode qs) h,
          queries_of-text q qs,
        )
        refl
