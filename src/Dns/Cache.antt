-- ===== src/Dns/Cache.antt =====
-- What the cache of src/dns.rs knows behind an answer.
use cpxy.Base.{
  ℕ, ◌≡◌, refl, ap, sym, ◌∙◌, Bool, true, false, Option, none, some, List, [], ◌∷◌, Bytes,
  if◌then◌else◌, Bool-cases, Option-cases, inl, inr, arith,
}
use cpxy.Net.{IpAddr}
use cpxy.Dns.{Answer, Entry, AddressMap, same_ip, insert, get, address_of, cache_answers}

same_ip_eq : (x y : IpAddr) → same_ip x y ≡ true → x ≡ y
unfolding same_ip
same_ip_eq (IpAddr.v4 x) (IpAddr.v4 y) h = ground arith
same_ip_eq (IpAddr.v6 x) (IpAddr.v6 y) h = ground arith
same_ip_eq (IpAddr.v4 x) (IpAddr.v6 y) h = cc
same_ip_eq (IpAddr.v6 x) (IpAddr.v4 y) h = cc

same_ip_refl : (x : IpAddr) → same_ip x x ≡ true
unfolding same_ip
same_ip_refl (IpAddr.v4 x) = ground arith
same_ip_refl (IpAddr.v6 x) = ground arith

if_twice :
    (b : Bool) (x y z : Option Bytes) → (if b then x else z) ≡ (if b then x else if b then y else z)
if_twice true x y z = refl
if_twice false x y z = refl

get-insert :
    (ip key : IpAddr) (entry : Entry) (map : AddressMap)
    → get ip (insert key entry map) ≡ (if same_ip key ip then some entry.host else get ip map)
unfolding get insert
get-insert ip key entry [] = refl
get-insert ip key entry ((k, v) ∷ map) = elim (Bool-cases (same_ip k key)) [
  | inl e ↦
      let same = same_ip_eq k key e in
      rw (e, sym same) (if_twice (same_ip k ip) (some entry.host) (some v.host) (get ip map))
  | inr e ↦ elim (Bool-cases (same_ip key ip)) [
    | inl h ↦
        let not_k : same_ip k ip ≡ false = ap (same_ip k) (sym (same_ip_eq key ip h)) ∙ e in
        rw (e, not_k, get) (get-insert ip key entry map ∙ rw h refl)
    | inr h ↦
        rw (e, h, get)
          (ap (λ (o : Option Bytes). if same_ip k ip then some v.host else o)
            (get-insert ip key entry map ∙ rw h refl))
  ]
]

abbrev pub or_else : Option Bytes → Option Bytes → Option Bytes
or_else none o = o
or_else (some x) o = some x

unfoldable pub named_by : IpAddr → Bytes → Option IpAddr → Option Bytes
named_by ip name none = none
named_by ip name (some addr) = if same_ip addr ip then some name else none

-- The name that the last answer for the address gives.
unfoldable pub name_of : IpAddr → List Answer → Option Bytes
unfolding named_by
name_of ip [] = none
name_of ip (answer ∷ answers) =
    or_else (name_of ip answers) (named_by ip answer.name (address_of answer.rdata))

-- The answers before the first that has no address.
unfoldable pub leading : List Answer → List Answer
leading [] = []
leading (answer ∷ answers) = elim (address_of answer.rdata) [
  | none ↦ []
  | some addr ↦ answer ∷ leading answers
]

or_else_if :
    (b : Bool) (o : Option Bytes) (x : Bytes) (y : Option Bytes)
    → or_else o (if b then some x else y) ≡ or_else (or_else o (if b then some x else none)) y
or_else_if true none x y = refl
or_else_if false none x y = refl
or_else_if b (some z) x y = refl

-- Behind the answers of a packet the cache gives for an address the name of the last answer for
-- it among those before the first answer that is no address, and else what it gave before.
pub get-cache_answers :
    (ip : IpAddr) (now : ℕ) (answers : List Answer) (map : AddressMap)
    → get ip (cache_answers now answers map) ≡ or_else (name_of ip (leading answers)) (get ip map)
unfolding cache_answers leading name_of named_by
get-cache_answers ip now [] map = refl
get-cache_answers ip now (answer ∷ answers) map = elim (Option-cases (address_of answer.rdata)) [
  | inl e ↦ rw (e, cache_answers, leading) refl
  | inr (addr, e) ↦
      let entry : Entry = record { host = answer.name; created = now } in
      rw (e, cache_answers, leading, name_of, e)
        (get-cache_answers ip now answers (insert addr entry map)
          ∙ ap (or_else (name_of ip (leading answers))) (get-insert ip addr entry map)
          ∙ or_else_if (same_ip addr ip) (name_of ip (leading answers)) answer.name (get ip map))
]
