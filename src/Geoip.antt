-- ===== src/Geoip.antt =====
-- src/geoip/mod.rs: the table of address ranges, and the country of an
-- address. The bytes of the table come from a file beside the code, and `binary_search_by_key` from
-- the standard library: both are parameters.
pub mod Tables
pub mod Ranges
use cpxy.Base.{
  ℕ, zero, suc, ◌+◌, ◌-◌, ◌*◌, ◌/◌, Bool, not, ◌&&◌, ◌||◌, Option, none, some, List, [], ◌∷◌, Bytes,
  length, take, drop, get_elem?, get_or, ◌==◌, ltb, leb, if◌then◌else◌, be_value, Result, ok, err,
  message, eq_ignore_ascii_case,
}
use cpxy.Net.{IpAddr}

-- `Record<4>`, ten bytes in the file; a country code is its two letters.
pub record Record : Type 0 where
  pub start : Bytes
  pub end_ : Bytes
  pub c : Bytes

-- `from_raw_parts(raw, n)` over the records.
unfoldable pub records_of : ℕ → Bytes → List Record
records_of zero raw = []
records_of (suc n) raw =
    record { start = take 4 raw; end_ = take 4 (drop 4 raw); c = take 2 (drop 8 raw) }
    ∷ records_of n (drop 10 raw)

unfoldable pub load_ip_dat : Bytes → List Record
unfolding records_of
load_ip_dat raw = records_of (length raw / 10) raw

-- `Ok(index)` and `Err(index)` of a binary search.
pub data Search : Type 0 where
  at : ℕ → Search
  missing : ℕ → Search

unfoldable pub starts : List Record → List ℕ
starts [] = []
starts (r ∷ records) = be_value r.start ∷ starts records

-- `Some(RECORDS[index].c)`
unfoldable pub country_at : Option Record → Option Bytes
country_at none = none
country_at (some r) = some r.c

-- The guard of `Err(index)`, for an index above 0.
unfoldable pub country_in : ℕ → Option Record → Option Bytes
country_in needle none = none
country_in needle (some r) =
    if leb (be_value r.start) needle && leb needle (be_value r.end_) then some r.c else none

unfoldable pub country_near : ℕ → List Record → Search → Option Bytes
unfolding country_at country_in
country_near needle records (at index) = country_at (get_elem? records index)
country_near needle records (missing zero) = none
country_near needle records (missing (suc index)) = country_in needle (get_elem? records index)

unfoldable pub find_geoip : (List ℕ → ℕ → Search) → List Record → IpAddr → Option Bytes
unfolding starts country_near
find_geoip binary_search records (IpAddr.v4 needle) =
    country_near needle records (binary_search (starts records) needle)
find_geoip binary_search records (IpAddr.v6 addr) = none
