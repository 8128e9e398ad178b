-- ===== src/Rules/Text.antt =====
-- src/rule.rs: the text form of actions, host matches and destinations.
use cpxy.Base.{
  ℕ, ◌==◌, ◌||◌, ◌≡◌, ◌≢◌, refl, ap, Bytes, Option, none, some, [], ◌∷◌, ◌++◌, All, if◌then◌else◌,
  codes, eq_bytes, eq_ignore_ascii_case, arith,
}
use cpxy.Rules.{
  gfw, adblock, HostMatch, pattern_of, host_list, RuleDestination, geoip, network, port, domain,
  dns_host, RuleAction, proxy, proxy_group, reject, jump, return_back,
}

-- The `FromStr` of `IpNetwork`, `u16` and `regex::Regex`.
pub record Parsers : Type 0 where
  pub parse_network : Bytes → Option Bytes
  pub parse_port : Bytes → Option ℕ
  pub parse_pattern : Bytes → Option Bytes

-- `CountryCode::from_str` of src/geoip/country_code.rs: two bytes, neither of them zero.
unfoldable pub country_from_str : Bytes → Option Bytes
country_from_str (a ∷ b ∷ []) = if (a == 0) || (b == 0) then none else some (a ∷ b ∷ [])
country_from_str _ = none

-- The text in front of the first colon, and the text behind it.
unfoldable pub first_piece : Bytes → Bytes
first_piece [] = []
first_piece (c ∷ s) = if c == 58 then [] else c ∷ first_piece s

unfoldable pub behind_colon : Bytes → Option Bytes
behind_colon [] = none
behind_colon (c ∷ s) = if c == 58 then some s else behind_colon s

-- The second text of `split(':')`, which ends at the second colon.
unfoldable pub second_piece : Bytes → Option Bytes
second_piece s = elim (behind_colon s) [ none ↦ none | some t ↦ some (first_piece t) ]

unfoldable pub action_of : Bytes → Option Bytes → Option RuleAction
action_of n (some v) =
    if eq_ignore_ascii_case n (codes "proxy")
    then some (proxy v)
    else if eq_ignore_ascii_case n (codes "proxygroup")
    then some (proxy_group v)
    else if eq_ignore_ascii_case n (codes "jump")
    then some (jump v)
    else none
action_of n none =
    if eq_ignore_ascii_case n (codes "reject")
    then some reject
    else if eq_ignore_ascii_case n (codes "return")
    then some return_back
    else none

-- `from_str`, with no result for an error.
unfoldable pub action_from_str : Bytes → Option RuleAction
action_from_str s = action_of (first_piece s) (second_piece s)

unfoldable pub host_of : Parsers → Bytes → Option Bytes → Option HostMatch
host_of p kind none = none
host_of p kind (some v) =
    if eq_bytes kind (codes "list")
    then (if eq_bytes v (codes "gfw")
        then some (host_list gfw)
        else if eq_bytes v (codes "adblock")
        then some (host_list adblock)
        else none)
    else if eq_bytes kind (codes "matches")
    then elim (p.parse_pattern v) [ none ↦ none | some q ↦ some (pattern_of q) ]
    else none

unfoldable pub host_from_str : Parsers → Bytes → Option HostMatch
host_from_str p s = host_of p (first_piece s) (second_piece s)

abbrev pub map_some {ℓ κ} : {A : Type ℓ} {B : Type κ} → (A → B) → Option A → Option B
map_some f none = none
map_some f (some a) = some (f a)

-- `unwrap_or((s, ""))`
unfoldable pub args_of : Option Bytes → Bytes
args_of none = []
args_of (some args) = args

unfoldable pub destination_of : Parsers → Bytes → Bytes → Option RuleDestination
destination_of p kind args =
    if eq_bytes kind (codes "geoip")
    then map_some geoip (country_from_str args)
    else if eq_bytes kind (codes "network")
    then map_some network (p.parse_network args)
    else if eq_bytes kind (codes "port")
    then map_some port (p.parse_port args)
    else if eq_bytes kind (codes "domain")
    then map_some domain (host_from_str p args)
    else if eq_bytes kind (codes "dnshost")
    then map_some dns_host (host_from_str p args)
    else none

unfoldable pub destination_from_str : Parsers → Bytes → Option RuleDestination
destination_from_str p s = destination_of p (first_piece s) (args_of (behind_colon s))

-- How an action is written.
abbrev pub action_text : RuleAction → Bytes
action_text (proxy v) = codes "proxy:" ++ v
action_text (proxy_group v) = codes "proxygroup:" ++ v
action_text (jump v) = codes "jump:" ++ v
action_text reject = codes "reject"
action_text return_back = codes "return"

abbrev pub HasNoColon : Bytes → Type 0
HasNoColon = All (λ c. c ≢ 58)

abbrev pub IsNamed : RuleAction → Type 0
IsNamed (proxy v) = HasNoColon v
IsNamed (proxy_group v) = HasNoColon v
IsNamed (jump v) = HasNoColon v
IsNamed reject = Unit
IsNamed return_back = Unit

first_piece-HasNoColon : (v : Bytes) → HasNoColon v → first_piece v ≡ v
unfolding first_piece
first_piece-HasNoColon [] h = refl
first_piece-HasNoColon (c ∷ v) (h, hs) = ground (arith, first_piece-HasNoColon v hs, h)

-- The text of an action is parsed to that action, if the name in it has no colon.
pub action_from_str-action_text :
    (a : RuleAction) → IsNamed a → action_from_str (action_text a) ≡ some a
unfolding action_from_str action_of second_piece behind_colon first_piece eq_ignore_ascii_case
action_from_str-action_text (proxy v) h =
    ap (λ (k : Bytes). some (proxy k)) (first_piece-HasNoColon v h)
action_from_str-action_text (proxy_group v) h =
    ap (λ (k : Bytes). some (proxy_group k)) (first_piece-HasNoColon v h)
action_from_str-action_text (jump v) h =
    ap (λ (k : Bytes). some (jump k)) (first_piece-HasNoColon v h)
action_from_str-action_text reject h = refl
action_from_str-action_text return_back h = refl

-- The text of a host match and of a destination.
abbrev pub host_text : HostMatch → Bytes
host_text (pattern_of q) = codes "matches:" ++ q
host_text (host_list gfw) = codes "list:gfw"
host_text (host_list adblock) = codes "list:adblock"

abbrev pub destination_text : (ℕ → Bytes) → RuleDestination → Bytes
destination_text port_text (geoip c) = codes "geoip:" ++ c
destination_text port_text (network n) = codes "network:" ++ n
destination_text port_text (port k) = codes "port:" ++ port_text k
destination_text port_text (domain h) = codes "domain:" ++ host_text h
destination_text port_text (dns_host h) = codes "dnshost:" ++ host_text h

-- What the library's parsers accept, and patterns that a colon does not cut.
abbrev pub IsHostText : Parsers → HostMatch → Type 0
IsHostText p (pattern_of q) = HasNoColon q × (p.parse_pattern q ≡ some q)
IsHostText p (host_list l) = Unit

abbrev pub IsText : Parsers → (ℕ → Bytes) → RuleDestination → Type 0
IsText p port_text (geoip c) = country_from_str c ≡ some c
IsText p port_text (network n) = p.parse_network n ≡ some n
IsText p port_text (port k) = p.parse_port (port_text k) ≡ some k
IsText p port_text (domain h) = IsHostText p h
IsText p port_text (dns_host h) = IsHostText p h

host_from_str-host_text :
    (p : Parsers) (h : HostMatch) → IsHostText p h → host_from_str p (host_text h) ≡ some h
unfolding host_from_str host_of second_piece behind_colon first_piece eq_bytes
host_from_str-host_text p (pattern_of q) (c, e) = rw (first_piece-HasNoColon q c, e) refl
host_from_str-host_text p (host_list gfw) h = refl
host_from_str-host_text p (host_list adblock) h = refl

-- The text of a destination is parsed to that destination, if the parsers of its parts accept
-- their texts and a pattern has no colon.
pub destination_from_str-destination_text :
    (p : Parsers) (port_text : ℕ → Bytes) (d : RuleDestination)
    → IsText p port_text d
    → destination_from_str p (destination_text port_text d) ≡ some d
unfolding destination_from_str destination_of args_of behind_colon first_piece eq_bytes
destination_from_str-destination_text p port_text (geoip c) h = ap (map_some geoip) h
destination_from_str-destination_text p port_text (network n) h = ap (map_some network) h
destination_from_str-destination_text p port_text (port k) h = ap (map_some port) h
destination_from_str-destination_text p port_text (domain m) h =
    ap (map_some domain) (host_from_str-host_text p m h)
destination_from_str-destination_text p port_text (dns_host m) h =
    ap (map_some dns_host) (host_from_str-host_text p m h)
