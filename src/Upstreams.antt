-- ===== src/Upstreams.antt =====
-- src/config.rs, src/protocol/mod.rs and src/client/stats.rs: the upstreams of the client's
-- configuration, what is counted of them, and which of them serve a connection. `P` is what else a
-- protocol is configured with. A hash map is the list of its entries in the order in which it
-- iterates.
pub mod Connect
pub mod Order
pub mod Choice
pub mod Attempts
use cpxy.Base.{
  ℕ, ◌+◌, ◌-◌, Bool, true, false, not, ◌&&◌, ◌||◌, Option, none, some, List, [], ◌∷◌, Bytes, ltb,
  leb, if◌then◌else◌, eq_bytes,
}
use cpxy.Net.{IpAddr, ip_of}
use cpxy.Address.{Address}
use cpxy.Rules.{RuleProtocol, PacketDestination, ip_packet, domain_packet, Engines}
use cpxy.Rules.Execute.{RuleMap, RuleExecutionResult, execute_rules}

pub data TrafficType : Type 0 where
  stream datagram : TrafficType

pub data UpstreamProtocol (P : Type 0) : Type 0 where
  udp_man : P → UpstreamProtocol P
  -- `allows_udp`
  tcp_man : Bool → P → UpstreamProtocol P
  -- `supports_udp`
  socks5 : Bool → P → UpstreamProtocol P
  direct : P → UpstreamProtocol P
  fire_tcp : P → UpstreamProtocol P
  http : P → UpstreamProtocol P

pub record UpstreamConfig (P : Type 0) : Type 0 where
  pub protocol : UpstreamProtocol P
  pub groups : Option (List Bytes)
  pub enabled : Bool

pub record UpstreamStatistics : Type 0 where
  pub tx : ℕ
  pub rx : ℕ
  pub last_activity : ℕ
  pub last_latency : ℕ

abbrev pub ClientStatistics : Type 0
ClientStatistics = List (Bytes × UpstreamStatistics)

pub record ClientConfig (P : Type 0) : Type 0 where
  pub upstreams : List (Bytes × UpstreamConfig P)
  pub fwmark : Option ℕ
  pub traffic_rules : RuleMap

-- `HashMap::get`.
unfoldable pub get {ℓ} : {V : Type ℓ} → List (Bytes × V) → Bytes → Option V
get [] key = none
get ((k, v) ∷ entries) key = if eq_bytes k key then some v else get entries key

-- `HashSet::contains`.
unfoldable pub contains : List Bytes → Bytes → Bool
contains [] key = false
contains (k ∷ keys) key = eq_bytes k key || contains keys key

-- The scores as the source computes them in `u16`.
unfoldable pub score_of : ℕ → Option UpstreamStatistics → ℕ
score_of now none = 65535
score_of now (some stat) =
    let idle = if leb stat.last_activity now then now - stat.last_activity else 0 in
    if ltb idle 65536 then idle else 65535

unfoldable pub calc_last_visit_score : ℕ → ClientStatistics → Bytes → ℕ
unfolding score_of
calc_last_visit_score now stats upstream_name = score_of now (get stats upstream_name)

-- The score of each upstream, which reads the clock for itself.
abbrev pub last_visit_scores : (Bytes → ℕ) → ClientStatistics → Bytes → ℕ
last_visit_scores now stats upstream_name =
    calc_last_visit_score (now upstream_name) stats upstream_name

-- `update_upstream`, with the seconds of the clock and the milliseconds of the latency.
unfoldable pub update_upstream : ℕ → ℕ → Bytes → ClientStatistics → ClientStatistics
update_upstream now latency name [] = []
update_upstream now latency name ((n, s) ∷ stats) =
    if eq_bytes n name
    then (n, record s { last_activity = now; last_latency = latency }) ∷ stats
    else (n, s) ∷ update_upstream now latency name stats

-- No groups are all groups.
unfoldable pub in_group : Option (List Bytes) → Bytes → Bool
in_group none name = true
in_group (some groups) name = contains groups name

module _ {P : Type 0} where
  -- `Protocol::supports` of the six protocols.
  unfoldable pub supports : UpstreamProtocol P → TrafficType → Bool
  supports (udp_man p) TrafficType.datagram = true
  supports (udp_man p) TrafficType.stream = false
  supports (tcp_man allows_udp p) TrafficType.datagram = allows_udp
  supports (tcp_man allows_udp p) TrafficType.stream = true
  supports (socks5 supports_udp p) TrafficType.stream = true
  supports (socks5 supports_udp p) TrafficType.datagram = supports_udp
  supports (direct p) t = true
  supports (fire_tcp p) TrafficType.stream = true
  supports (fire_tcp p) TrafficType.datagram = false
  supports (http p) TrafficType.stream = true
  supports (http p) TrafficType.datagram = false

-- `ClientStatistics::new`: an entry of zeros for each upstream.
unfoldable pub new : {P : Type 0} → List (Bytes × UpstreamConfig P) → ClientStatistics
new [] = []
new ((n, c) ∷ upstreams) =
    (n, record { tx = 0; rx = 0; last_activity = 0; last_latency = 0 }) ∷ new upstreams

-- A name, its configuration and its score.
abbrev pub Candidate : Type 0 → Type 0
Candidate P = Bytes × UpstreamConfig P × ℕ

-- `sort_by_key` is stable: a candidate stays before the later ones of its score.
unfoldable pub insert_by_key : {P : Type 0} → Candidate P → List (Candidate P) → List (Candidate P)
insert_by_key x [] = x ∷ []
insert_by_key x (y ∷ ys) = if leb x.2 y.2 then x ∷ (y ∷ ys) else y ∷ insert_by_key x ys

unfoldable pub sort_by_key : {P : Type 0} → List (Candidate P) → List (Candidate P)
unfolding insert_by_key
sort_by_key [] = []
sort_by_key (x ∷ xs) = insert_by_key x (sort_by_key xs)

unfoldable pub unscored : {P : Type 0} → List (Candidate P) → List (Bytes × UpstreamConfig P)
unscored [] = []
unscored ((n, c, score) ∷ more) = (n, c) ∷ unscored more

-- What is known of a target: `find_geoip`, and the name that the cache of DNS answers has.
pub record Known : Type 0 where
  pub country : IpAddr → Option Bytes
  pub resolved_host : IpAddr → List Bytes

unfoldable pub packet_destination : Known → Address → PacketDestination
packet_destination k (Address.ip addr) =
    ip_packet addr (k.country (ip_of addr)) (k.resolved_host (ip_of addr))
packet_destination k (Address.name host port) = domain_packet host port []

unfoldable pub rule_protocol : TrafficType → RuleProtocol
rule_protocol TrafficType.datagram = RuleProtocol.udp
rule_protocol TrafficType.stream = RuleProtocol.tcp

module _ {P : Type 0} (t : TrafficType) (score : Bytes → ℕ) where
  -- The two `filter_map`s over all upstreams, which differ by the test of the groups.
  unfoldable pub select :
      (Option (List Bytes) → Bool) → List (Bytes × UpstreamConfig P) → List (Candidate P)
  unfolding supports
  select among [] = []
  select among ((n, c) ∷ upstreams) =
      let rest = select among upstreams in
      if not (supports c.protocol t) || not c.enabled
      then rest
      else if not (among c.groups)
      then rest
      else (n, c, score n) ∷ rest

  unfoldable pub named : Bytes → Option (UpstreamConfig P) → List (Candidate P)
  named name none = []
  named name (some config) = if config.enabled then (name, config, 0) ∷ [] else []

  unfoldable pub candidates :
      List (Bytes × UpstreamConfig P) → Option RuleExecutionResult → List (Candidate P)
  unfolding named
  candidates upstreams none = select (λ groups. true) upstreams
  candidates upstreams (some (RuleExecutionResult.proxy name)) = named name (get upstreams name)
  candidates upstreams (some (RuleExecutionResult.proxy_group name)) =
      select (λ groups. in_group groups name) upstreams
  candidates upstreams (some RuleExecutionResult.reject) = []

-- `now` is what the clock says when the score of an upstream is computed.
unfoldable pub find_best_upstream :
    {P : Type 0}
    → Engines
    → Known
    → (Bytes → ℕ)
    → ClientConfig P
    → TrafficType
    → ClientStatistics
    → Address
    → Option Bytes
    → List (Bytes × UpstreamConfig P)
unfolding packet_destination rule_protocol
find_best_upstream e k now config t stats target initial_data =
    let action = execute_rules e config.traffic_rules (record {
      target = packet_destination k target;
      proto = rule_protocol t;
      initial_data = initial_data;
    }) in
    unscored (sort_by_key (candidates t (last_visit_scores now stats) config.upstreams action))
