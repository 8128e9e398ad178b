-- ===== src/Tests/Choices.antt =====
-- Runs of the choice of an upstream.
use cpxy.Base.{
  ℕ, ◌+◌, ◌≡◌, ◌↔◌, true, false, none, List, [], ◌∷◌, Bytes, if◌then◌else◌, codes, Result, ok, err,
  message, eq_bytes,
}
use cpxy.Rules.{Engines}
use cpxy.Upstreams.{
  TrafficType, UpstreamConfig, ClientConfig, ClientStatistics, Known, direct, socks5,
  find_best_upstream, last_visit_scores,
}
use cpxy.Upstreams.Connect.{Stats, pops, find_and_connect_stream}
use cpxy.Upstreams.Order.{In}
use cpxy.Upstreams.Choice.{Chosen, decided, find_best_upstream_iff}
use cpxy.Upstreams.Attempts.{Ends, IsDescending, find_and_connect_stream-Ends}
use cpxy.Tests.{site}

abbrev blind : Engines
blind = record {
  regex_matches = λ p s. false;
  list_matches = λ l s. false;
  network_contains = λ n ip. false;
  http_host = λ b. none;
  sni_host = λ b. none;
  dns_names = λ b. none;
}

abbrev unknown : Known
unknown = record { country = λ ip. none; resolved_host = λ ip. [] }

abbrev direct_config : UpstreamConfig Unit
direct_config = record { protocol = direct tt; groups = none; enabled = true }

abbrev socks_config : UpstreamConfig Unit
socks_config = record { protocol = socks5 false tt; groups = none; enabled = true }

abbrev two : ClientConfig Unit
two = record {
  upstreams = (codes "a", direct_config) ∷ (codes "b", socks_config) ∷ [];
  fwmark = none;
  traffic_rules = [];
}

-- "a" was used at 90, and "b" at 40.
abbrev used : ClientStatistics
used =
    (codes "a", record { tx = 0; rx = 0; last_activity = 90; last_latency = 1 })
    ∷ (codes "b", record { tx = 0; rx = 0; last_activity = 40; last_latency = 1 })
    ∷ []

find_best_upstream_iff_example :
    In
      (codes "a", direct_config)
      (find_best_upstream blind unknown (λ n. 100) two TrafficType.stream used site none)
    ↔ Chosen TrafficType.stream two.upstreams
        (decided blind unknown (λ n. 100) two TrafficType.stream used site none)
        (codes "a")
        direct_config
find_best_upstream_iff_example =
    find_best_upstream_iff blind unknown (λ n. 100) two TrafficType.stream used site none
      (codes "a") direct_config

-- Only "a" answers, and both count what was sent; the world is its time.
unfoldable dial_a : Bytes → UpstreamConfig Unit → Stats → ℕ → Result ℕ × ℕ × Stats × ℕ
dial_a n c counters w =
    let counted : Stats = record counters { tx = counters.tx + 10 } in
    if eq_bytes n (codes "a")
    then (ok 7, 3, counted, w + 1)
    else (err (message "refused"), 2, counted, w + 1)

find_and_connect_stream-Ends_example :
    (found : List (Bytes × UpstreamConfig Unit)) × (found
      ≡ pops (find_best_upstream blind unknown (λ n. 100) two TrafficType.stream used site none))
    × IsDescending (last_visit_scores (λ n. 100) used) found
    × Ends dial_a
        (λ w. w)
        (λ w n. w)
        none
        used
        100
        found
        (find_and_connect_stream dial_a (λ w. w) (λ w n. w) blind unknown two used site none 100)
find_and_connect_stream-Ends_example =
    find_and_connect_stream-Ends dial_a (λ w. w) (λ w n. w) blind unknown two used site none 100
