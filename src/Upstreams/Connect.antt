-- ===== src/Upstreams/Connect.antt =====
-- src/client/common.rs, `find_and_connect_stream`. `dial` is `new_stream` of a protocol, for the
-- destination and the first data of the call. It gets the counters of the upstream, and gives what it
-- returns, the latency of the call, the counters behind it and the world behind it, whose time is
-- `clock`; `visited` is what the clock says when the score of a name is computed. The errors'
-- context names no upstream here, and no other connection changes the statistics meanwhile.
use cpxy.Base.{
  ℕ, eq_bytes, if◌then◌else◌, Option, none, some, List, [], ◌∷◌, ◌++◌, Bytes, Result, ok, err,
  Error, message, within,
}
use cpxy.Address.{Address}
use cpxy.Rules.{Engines}
use cpxy.Upstreams.{
  UpstreamConfig, UpstreamStatistics, ClientConfig, ClientStatistics, Known, get, update_upstream,
  find_best_upstream, TrafficType,
}

-- What `Vec::pop` returns until the list is empty.
unfoldable pub pops {ℓ} : {A : Type ℓ} → List A → List A
pops [] = []
pops (x ∷ xs) = pops xs ++ (x ∷ [])

-- `Stats`, which shares its counters with the statistics of an upstream.
pub record Stats : Type 0 where
  pub tx : ℕ
  pub rx : ℕ

-- `map` and `unwrap_or_default`: an upstream without statistics has counters of its own.
unfoldable pub protocol_stats : Option UpstreamStatistics → Stats
protocol_stats none = record { tx = 0; rx = 0 }
protocol_stats (some s) = record { tx = s.tx; rx = s.rx }

-- The statistics whose counters are the shared ones.
unfoldable pub count : Stats → Bytes → ClientStatistics → ClientStatistics
count counted name [] = []
count counted name ((n, s) ∷ stats) =
    if eq_bytes n name
    then (n, record s { tx = counted.tx; rx = counted.rx }) ∷ stats
    else (n, s) ∷ count counted name stats

unfoldable pub no_upstream : Option Error → Error
no_upstream none = message "No upstream available"
no_upstream (some last_error) = last_error

module _ {P S W : Type 0} (dial : Bytes → UpstreamConfig P → Stats → W → Result S × ℕ × Stats × W)
    (clock : W → ℕ) (visited : W → Bytes → ℕ) where
  -- The match on what `new_stream` returned; `rest` goes on with the loop. What the call counted is
  -- in the statistics, whatever it returned.
  unfoldable pub after_dial :
      Bytes
      → ClientStatistics
      → (Option Error → ClientStatistics → W → Result S × ClientStatistics × W)
      → Result S × ℕ × Stats × W
      → Result S × ClientStatistics × W
  unfolding count
  after_dial name stats rest (ok upstream, latency, counted, w) =
      (ok upstream, update_upstream (clock w) latency name (count counted name stats), w)
  after_dial name stats rest (err e, latency, counted, w) =
      rest (some (within "Requesting new streaming connection" e)) (count counted name stats) w

  -- The loop over what is popped.
  unfoldable pub try_each :
      List (Bytes × UpstreamConfig P)
      → Option Error
      → ClientStatistics
      → W
      → Result S × ClientStatistics × W
  unfolding no_upstream after_dial protocol_stats
  try_each [] last_error stats w = (err (no_upstream last_error), stats, w)
  try_each ((name, config) ∷ upstreams) last_error stats w =
      after_dial name stats (try_each upstreams)
        (dial name config (protocol_stats (get stats name)) w)

  unfoldable pub find_and_connect_stream :
      Engines
      → Known
      → ClientConfig P
      → ClientStatistics
      → Address
      → Option Bytes
      → W
      → Result S × ClientStatistics × W
  unfolding try_each pops
  find_and_connect_stream e k config stats dst initial_data w =
      let found =
        find_best_upstream e k (visited w) config TrafficType.stream stats dst initial_data in
      try_each (pops found) none stats w
