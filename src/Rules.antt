-- ===== src/Rules.antt =====
-- src/rule.rs: rules, what they match, and how the tables of rules are executed. Host patterns,
-- host lists, networks and the looks into the first bytes of a connection are the operations of
-- `Engines`. A table name is the bytes of its `str`.
pub mod Match
pub mod Execute
pub mod Text
pub mod Lines
use cpxy.Base.{ℕ, Bytes, Bool, Option, List}
use cpxy.Net.{IpAddr, SocketAddr}

-- `HostMatch::HostList` holds one of the two engines that src/abp loads.
pub data HostList : Type 0 where
  gfw adblock : HostList

pub data HostMatch : Type 0 where
  pattern_of : Bytes → HostMatch
  host_list : HostList → HostMatch

-- A country code is its two letters, which compare without case; a network is the text that `ipnetwork` parses.
pub data RuleDestination : Type 0 where
  geoip : Bytes → RuleDestination
  network : Bytes → RuleDestination
  port : ℕ → RuleDestination
  domain : HostMatch → RuleDestination
  dns_host : HostMatch → RuleDestination

pub data RuleProtocol : Type 0 where
  tcp udp : RuleProtocol

pub data RuleAction : Type 0 where
  proxy : Bytes → RuleAction
  proxy_group : Bytes → RuleAction
  reject : RuleAction
  jump : Bytes → RuleAction
  return_back : RuleAction

pub record Rule : Type 0 where
  pub dest : List RuleDestination
  pub proto : Option RuleProtocol
  pub action : RuleAction

pub data PacketDestination : Type 0 where
  ip_packet :
      (addr : SocketAddr) (country_code : Option Bytes) (resolved_host : List Bytes)
      → PacketDestination
  domain_packet :
      (hostname : Bytes) (port : ℕ) (resolved_ips : List (Option Bytes × IpAddr))
      → PacketDestination

-- `regex::Regex::is_match` on a pattern and a text, `ABPEngine::matches` on port 80,
-- `IpNetwork::contains`, and of src/sni.rs and src/dns.rs `extract_http_host_header`,
-- `extract_ssl_sni_host` and `dns_get_host_names`.
pub record Engines : Type 0 where
  pub regex_matches : Bytes → Bytes → Bool
  pub list_matches : HostList → Bytes → Bool
  pub network_contains : Bytes → IpAddr → Bool
  pub http_host : Bytes → Option Bytes
  pub sni_host : Bytes → Option Bytes
  pub dns_names : Bytes → Option (List Bytes)
