-- ===== src/Rules/Match.antt =====
-- src/rule.rs: `HostMatch::matches`, `RuleDestination::matches` and `domain_matches`.
use cpxy.Base.{
  ℕ, ◌==◌, ◌&&◌, ◌||◌, Bytes, Bool, true, false, Option, none, some, List, [], ◌∷◌,
  eq_ignore_ascii_case,
}
use cpxy.Net.{port_of, ip_of}
use cpxy.Rules.{
  HostMatch, pattern_of, host_list, RuleDestination, geoip, network, port, domain, dns_host,
  RuleProtocol, tcp, udp, Rule, PacketDestination, ip_packet, domain_packet, Engines,
}

abbrev pub dest_port : PacketDestination → ℕ
dest_port (ip_packet addr country_code resolved_host) = port_of addr
dest_port (domain_packet hostname p resolved_ips) = p

-- `iter().find(p).is_some()`
abbrev pub any {ℓ} : {A : Type ℓ} → (A → Bool) → List A → Bool
any p [] = false
any p (x ∷ xs) = p x || any p xs

-- `code.as_ref() == Some(c)`
abbrev pub is_country : Bytes → Option Bytes → Bool
is_country c none = false
is_country c (some code) = eq_ignore_ascii_case code c

abbrev pub same_proto : RuleProtocol → RuleProtocol → Bool
same_proto tcp tcp = true
same_proto udp udp = true
same_proto _ _ = false

module _ (e : Engines) where
  unfoldable pub host_matches : HostMatch → Bytes → Bool
  host_matches (pattern_of p) s = e.regex_matches p s
  host_matches (host_list engine) s = e.list_matches engine s

  -- An HTTP host header counts before a TLS server name.
  host_in : Bytes → Option Bytes
  host_in initial_data = elim (e.http_host initial_data) [
    | some host ↦ some host
    | none ↦ e.sni_host initial_data
  ]

  data_host : Option Bytes → Option Bytes
  data_host none = none
  data_host (some initial_data) = host_in initial_data

  unfoldable pub domain_matches : HostMatch → PacketDestination → Option Bytes → Bool
  unfolding data_host host_in
  domain_matches m (domain_packet hostname p resolved_ips) initial_data = host_matches m hostname
  domain_matches m (ip_packet addr country_code resolved_host) initial_data =
      elim (data_host initial_data) [
        | some host ↦ host_matches m host
        | none ↦ any (host_matches m) resolved_host
      ]

  dns_names_of : Option Bytes → Option (List Bytes)
  dns_names_of none = none
  dns_names_of (some initial_data) = e.dns_names initial_data

  dns_matches : HostMatch → PacketDestination → Option Bytes → Bool
  dns_matches m pd initial_data = dest_port pd == 53 && elim (dns_names_of initial_data) [
    | none ↦ false
    | some host_names ↦ any (host_matches m) host_names
  ]

  -- `RuleDestination::matches`.
  unfoldable pub matches : RuleDestination → PacketDestination → Option Bytes → Bool
  unfolding dns_matches dns_names_of
  matches (geoip c) (ip_packet addr country_code resolved_host) initial_data =
      is_country c country_code
  matches (geoip c) (domain_packet hostname p resolved_ips) initial_data =
      any (λ r. is_country c r.0) resolved_ips
  matches (network n) (ip_packet addr country_code resolved_host) initial_data =
      e.network_contains n (ip_of addr)
  matches (network n) (domain_packet hostname p resolved_ips) initial_data =
      any (λ r. e.network_contains n r.1) resolved_ips
  matches (domain p) dst initial_data = domain_matches p dst initial_data
  matches (port p) pd initial_data = p == dest_port pd
  matches (dns_host p) pd initial_data = dns_matches p pd initial_data

  -- The loop over `rule.dest`, which stops at the first destination that does not match.
  matches_all : List RuleDestination → PacketDestination → Option Bytes → Bool
  matches_all [] target initial_data = true
  matches_all (dest ∷ dests) target initial_data =
      matches dest target initial_data && matches_all dests target initial_data

  -- Neither of the two `continue`s is taken.
  unfoldable pub rule_applies : Rule → PacketDestination → RuleProtocol → Option Bytes → Bool
  unfolding matches_all
  rule_applies rule target proto initial_data =
      matches_all rule.dest target initial_data
      && elim rule.proto [ none ↦ true | some p ↦ same_proto p proto ]
