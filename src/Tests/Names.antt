-- ===== src/Tests/Names.antt =====
-- Runs of the searches for a host name, for a country and for the name behind an address.
use cpxy.Base.{
  some, ℕ, suc, ◌<◌, ◌≡◌, refl, ap, sym, ◌∙◌, true, false, ltb, ◌==◌, none, List, [], ◌∷◌, ◌++◌,
  Bytes, length, All, if◌then◌else◌, arith, codes, ltb→lt, Bool-cases, inl, inr,
  eq_ignore_ascii_case, be_value,
}
use cpxy.Net.{IpAddr}
use cpxy.Sni.{extract_http_host_header}
use cpxy.Sni.Scan.{names_host, blank_line, starts}
use cpxy.Sni.Search.{behind, trimmed, extract_http_host_header-name, extract_http_host_header-blank}
use cpxy.Geoip.{Record, Search, at, missing, find_geoip}
use cpxy.Geoip.Tables.{IsTable, Rising, country_of}
use cpxy.Geoip.Ranges.{SearchLaws, find_geoip-country_of}
use cpxy.Dns.{Answer, a, other, get, cache_answers}
use cpxy.Dns.Cache.{or_else, name_of, leading, get-cache_answers}
use cpxy.Tests.{plain}

abbrev request_front : Bytes
request_front = codes "GET /\nX-Forwarded-"

front_quiet : names_host request_front ≡ false
unfolding names_host starts
front_quiet = refl

front_line : blank_line request_front ≡ false
unfolding blank_line starts
front_line = refl

host_in_case : eq_ignore_ascii_case (codes "hOST") (codes "Host") ≡ true
unfolding eq_ignore_ascii_case
host_in_case = refl

extract_http_host_header-name_example :
    extract_http_host_header plain
      (λ s. s)
      (request_front ++ (codes "hOST" ++ (b':' ∷ (codes "ab" ++ (b'\n' ∷ [])))))
    ≡ trimmed plain (λ s. s) (codes "ab")
extract_http_host_header-name_example =
    extract_http_host_header-name plain (λ s. s) request_front (codes "hOST") (codes "ab") []
      (behind (codes "GET /\nX-Forwarded") b'-' (refl, refl, refl, refl)) front_quiet front_line
      host_in_case (refl, (refl, tt))

line_quiet : names_host (codes "GET /" ++ codes "\n") ≡ false
unfolding names_host starts
line_quiet = refl

line_only : blank_line (codes "GET /" ++ codes "\n") ≡ false
unfolding blank_line starts
line_only = refl

extract_http_host_header-blank_example :
    extract_http_host_header plain (λ s. s) (codes "GET /" ++ (codes "\n\n" ++ codes "Host:ab\n"))
    ≡ none
extract_http_host_header-blank_example =
    extract_http_host_header-blank plain (λ s. s) (codes "GET /") (codes "Host:ab\n") line_quiet
      line_only

-- A search from the front.
abbrev later : Search → Search
later (at i) = at (suc i)
later (missing i) = missing (suc i)

unfoldable scan : List ℕ → ℕ → Search
scan [] needle = missing 0
scan (k ∷ ks) needle =
    if ltb k needle then later (scan ks needle) else if k == needle then at 0 else missing 0

above_All :
    (k needle : ℕ) (ks : List ℕ)
    → needle < k
    → All (λ (m : ℕ). k < m) ks
    → All (λ (m : ℕ). needle < m) ks
above_All k needle [] h t = tt
above_All k needle (m ∷ ks) h (g, t) = (omega arith, above_All k needle ks h t)

later_at : (s : Search) (i : ℕ) → later s ≡ at i → (j : ℕ) × (s ≡ at j) × (suc j ≡ i)
later_at (at j) i h = (j, refl, cc)
later_at (missing j) i h = cc

later_missing : (s : Search) (i : ℕ) → later s ≡ missing i → (j : ℕ) × (s ≡ missing j) × (suc j ≡ i)
later_missing (at j) i h = cc
later_missing (missing j) i h = (j, refl, cc)

scan_found :
    (keys : List ℕ) (needle i : ℕ)
    → Rising keys
    → scan keys needle ≡ at i
    → (front : List ℕ) × (back : List ℕ) × (keys ≡ front ++ (needle ∷ back)) × (length front ≡ i)
unfolding scan
scan_found [] needle i r h = cc
scan_found (k ∷ ks) needle i r h = elim (Bool-cases (ltb k needle)) [
  | inl e ↦
      let (j, f, g) = later_at (scan ks needle) i (sym (rw (e, scan) refl) ∙ h) in
      let (front, back, whole, l) = scan_found ks needle j r.1 f in
      (k ∷ front, back, ap (◌∷◌ k) whole, ap suc l ∙ g)
  | inr e ↦ elim (Bool-cases (k == needle)) [
    | inl f ↦
        let zero_at : at 0 ≡ at i = sym (rw (e, f, scan) refl) ∙ h in ([], ks, ground arith, cc)
    | inr f ↦ let no_at : missing 0 ≡ at i = sym (rw (e, f, scan) refl) ∙ h in cc
  ]
]

scan_missing :
    (keys : List ℕ) (needle i : ℕ)
    → Rising keys
    → scan keys needle ≡ missing i
    → (front : List ℕ) × (back : List ℕ) × (keys ≡ front ++ back)
      × (length front ≡ i)
      × All (λ (k : ℕ). k < needle) front
      × All (λ (k : ℕ). needle < k) back
unfolding scan
scan_missing [] needle i r h = ([], [], refl, cc, tt, tt)
scan_missing (k ∷ ks) needle i r h = elim (Bool-cases (ltb k needle)) [
  | inl e ↦
      let (j, f, g) = later_missing (scan ks needle) i (sym (rw (e, scan) refl) ∙ h) in
      let (front, back, whole, l, low, high) = scan_missing ks needle j r.1 f in
      (k ∷ front, back, ap (◌∷◌ k) whole, ap suc l ∙ g, (ltb→lt _ _ e, low), high)
  | inr e ↦ elim (Bool-cases (k == needle)) [
    | inl f ↦ let no_at : at 0 ≡ missing i = sym (rw (e, f, scan) refl) ∙ h in cc
    | inr f ↦
        let here : missing 0 ≡ missing i = sym (rw (e, f, scan) refl) ∙ h in
        let above : needle < k = ground arith in
        ([], k ∷ ks, refl, cc, tt, (above, above_All k needle ks above r.0))
  ]
]

scan-SearchLaws : SearchLaws scan
scan-SearchLaws = record { at_lem = scan_found; missing_lem = scan_missing }

-- The second range lies within the first, and the third starts within it.
abbrev ranges : List Record
ranges =
    record { start = 1 ∷ 0 ∷ 0 ∷ 0 ∷ []; end_ = 1 ∷ 0 ∷ 0 ∷ 99 ∷ []; c = codes "FR" }
    ∷ record { start = 1 ∷ 0 ∷ 0 ∷ 50 ∷ []; end_ = 1 ∷ 0 ∷ 0 ∷ 59 ∷ []; c = codes "CH" }
    ∷ record { start = 1 ∷ 0 ∷ 0 ∷ 60 ∷ []; end_ = 1 ∷ 0 ∷ 0 ∷ 200 ∷ []; c = codes "NO" }
    ∷ []

ranges-IsTable : IsTable ranges
unfolding be_value
ranges-IsTable = (
  omega arith,
  (omega arith, (omega arith, tt)),
  (omega arith, (omega arith, tt), (omega arith, tt, tt)),
)

country_of-ranges : country_of 16777271 ranges ≡ some (codes "CH")
unfolding country_of be_value
country_of-ranges = refl

find_geoip-country_of_example :
    find_geoip scan ranges (IpAddr.v4 16777271) ≡ country_of 16777271 ranges
find_geoip-country_of_example =
    find_geoip-country_of scan scan-SearchLaws ranges 16777271 ranges-IsTable

-- The second answer has no address.
abbrev answers : List Answer
answers =
    record { name = codes "a"; rdata = a 5 }
    ∷ record { name = codes "b"; rdata = other }
    ∷ record { name = codes "c"; rdata = a 6 }
    ∷ []

get-cache_answers_example :
    get (IpAddr.v4 5) (cache_answers 7 answers [])
    ≡ or_else (name_of (IpAddr.v4 5) (leading answers)) (get (IpAddr.v4 5) [])
get-cache_answers_example = get-cache_answers (IpAddr.v4 5) 7 answers []
