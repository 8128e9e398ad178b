-- ===== src/Dns.antt =====
-- src/dns.rs: the cache of the names behind addresses, and the names that a query asks for. `Parse`
-- stands for `dns_parser::Packet::parse`; times are nanoseconds.
pub mod Cache
use cpxy.Base.{
  ℕ, ◌-◌, ◌*◌, ◌==◌, ltb, not, Bool, true, false, Option, none, some, List, [], ◌∷◌, Bytes,
  if◌then◌else◌, Result, ok, err, within, ◌>>=◌, context,
}
use cpxy.Net.{IpAddr}

pub data RecordData : Type 0 where
  a aaaa : ℕ → RecordData
  other : RecordData

pub record Answer : Type 0 where
  pub name : Bytes
  pub rdata : RecordData

-- Whether the class of a question is IN, and its name.
pub record Question : Type 0 where
  pub is_in : Bool
  pub qname : Bytes

pub record Packet : Type 0 where
  pub questions : List Question
  pub answers : List Answer

abbrev pub Parse : Type 0
Parse = Bytes → Result Packet

pub record Entry : Type 0 where
  pub host : Bytes
  pub created : ℕ

abbrev pub AddressMap : Type 0
AddressMap = List (IpAddr × Entry)

unfoldable pub same_ip : IpAddr → IpAddr → Bool
same_ip (IpAddr.v4 x) (IpAddr.v4 y) = x == y
same_ip (IpAddr.v6 x) (IpAddr.v6 y) = x == y
same_ip _ _ = false

-- `HashMap::insert` and `HashMap::get`.
unfoldable pub insert : IpAddr → Entry → AddressMap → AddressMap
insert ip entry [] = (ip, entry) ∷ []
insert ip entry ((k, v) ∷ map) =
    if same_ip k ip then (k, entry) ∷ map else (k, v) ∷ insert ip entry map

unfoldable pub get : IpAddr → AddressMap → Option Bytes
get ip [] = none
get ip ((k, v) ∷ map) = if same_ip k ip then some v.host else get ip map

abbrev pub entry_timeout : ℕ
entry_timeout = 120 * 1000000000

unfoldable pub clean_up : ℕ → AddressMap → AddressMap
clean_up now [] = []
clean_up now ((ip, entry) ∷ map) =
    let rest = clean_up now map in
    if ltb entry_timeout (now - entry.created) then rest else (ip, entry) ∷ rest

unfoldable pub address_of : RecordData → Option IpAddr
address_of (a addr) = some (IpAddr.v4 addr)
address_of (aaaa addr) = some (IpAddr.v6 addr)
address_of other = none

-- The loop over the answers, which any other kind of answer ends.
unfoldable pub cache_answers : ℕ → List Answer → AddressMap → AddressMap
cache_answers now [] map = map
cache_answers now (answer ∷ answers) map = elim (address_of answer.rdata) [
  | none ↦ map
  | some addr ↦
      cache_answers now answers (insert addr (record { host = answer.name; created = now }) map)
]

unfoldable pub cache : Parse → ℕ → Bytes → AddressMap → Result AddressMap
unfolding cache_answers
cache parse now dns_response map = do
  pkt ← context "Error parsing DNS packet" (parse dns_response)
  ok (cache_answers now pkt.answers map)

-- `map_while` over the questions.
unfoldable pub names_while : List Question → List Bytes
names_while [] = []
names_while (q ∷ questions) =
    let rest = names_while questions in if q.is_in then q.qname ∷ rest else []

unfoldable pub names_of : Result Packet → Option (List Bytes)
names_of (err e) = none
names_of (ok pkt) = some (names_while pkt.questions)

unfoldable pub dns_get_host_names : Parse → Bytes → Option (List Bytes)
unfolding names_of names_while
dns_get_host_names parse pkt = names_of (parse pkt)
