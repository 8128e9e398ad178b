-- ===== src/Upstreams/Attempts.antt =====
-- What `find_and_connect_stream` of src/client/common.rs returns, and whom it asks on the way.
use cpxy.Base.{
  ℕ, ◌≤◌, ◌≡◌, refl, Option, none, some, List, [], ◌∷◌, ◌++◌, Bytes, Result, ok, err, Error, within,
  All, All-append, ap,
}
use cpxy.Address.{Address}
use cpxy.Rules.{Engines}
use cpxy.Upstreams.{
  UpstreamConfig, ClientConfig, ClientStatistics, Known, update_upstream, find_best_upstream,
  TrafficType, get, last_visit_scores,
}
use cpxy.Upstreams.Connect.{
  Stats, protocol_stats, count, pops, no_upstream, after_dial, try_each, find_and_connect_stream,
}
use cpxy.Upstreams.Order.{IsOrdered}
use cpxy.Upstreams.Choice.{candidates-IsOrdered}

module _ {P : Type 0} (score : Bytes → ℕ) where
  -- The scores do not rise.
  abbrev pub IsDescending : List (Bytes × UpstreamConfig P) → Type 0
  IsDescending [] = Unit
  IsDescending (x ∷ xs) =
      All (λ (y : Bytes × UpstreamConfig P). score (y.0) ≤ score (x.0)) xs × IsDescending xs

  All-pops :
      (Q : Bytes × UpstreamConfig P → Type 0) (xs : List (Bytes × UpstreamConfig P))
      → All Q xs
      → All Q (pops xs)
  unfolding pops
  All-pops Q [] h = tt
  All-pops Q (x ∷ xs) (h, t) = All-append Q (pops xs) (x ∷ []) (All-pops Q xs t) (h, tt)

  concat-IsDescending :
      (xs : List (Bytes × UpstreamConfig P)) (x : Bytes × UpstreamConfig P)
      → IsDescending xs
      → All (λ (y : Bytes × UpstreamConfig P). score (x.0) ≤ score (y.0)) xs
      → IsDescending (xs ++ (x ∷ []))
  concat-IsDescending [] x h k = (tt, tt)
  concat-IsDescending (y ∷ ys) x (h, t) (k, u) = (
    All-append (λ (z : Bytes × UpstreamConfig P). score (z.0) ≤ score (y.0)) ys (x ∷ []) h (k, tt),
    concat-IsDescending ys x t u,
  )

  pub pops-IsDescending :
      (xs : List (Bytes × UpstreamConfig P)) → IsOrdered score xs → IsDescending (pops xs)
  unfolding pops
  pops-IsDescending [] h = tt
  pops-IsDescending (x ∷ xs) (h, t) =
      concat-IsDescending (pops xs) x (pops-IsDescending xs t) (All-pops _ xs h)

module _ {P S W : Type 0} (dial : Bytes → UpstreamConfig P → Stats → W → Result S × ℕ × Stats × W)
    (clock : W → ℕ) (visited : W → Bytes → ℕ) where
  abbrev pub Called : Type 0
  Called = Result S × ℕ × Stats × W

  -- The call of an upstream with the counters that its statistics have.
  abbrev pub called : Bytes → UpstreamConfig P → ClientStatistics → W → Called
  called n c stats w = dial n c (protocol_stats (get stats n)) w

  -- Upstreams that are asked in turn and all fail, from one last error, statistics and world to
  -- others: each call starts from what the one before it counted.
  pub data Fails
      : Option Error
        → ClientStatistics
        → W
        → List (Bytes × UpstreamConfig P)
        → Option Error
        → ClientStatistics
        → W
        → Type 0 where
    nobody :
        (last : Option Error) (stats : ClientStatistics) (w : W)
        → Fails last stats w [] last stats w
    failed :
        (last : Option Error) (stats : ClientStatistics) (w : W) (n : Bytes) (c : UpstreamConfig P)
        (e : Error) (l : ℕ) (counted : Stats) (w1 : W) (more : List (Bytes × UpstreamConfig P))
        (last' : Option Error) (stats' : ClientStatistics) (w' : W)
        → Path Called (called n c stats w) (err e, l, counted, w1)
        → Fails
            (some (within "Requesting new streaming connection" e))
            (count counted n stats)
            w1
            more
            last'
            stats'
            w'
        → Fails last stats w ((n, c) ∷ more) last' stats' w'

  -- How a search over `xs` ends: with the first that answers, or with the last error.
  pub data Ends (last : Option Error) (stats : ClientStatistics) (w : W)
      (xs : List (Bytes × UpstreamConfig P)) : Result S × ClientStatistics × W → Type 0 where
    served :
        (before after : List (Bytes × UpstreamConfig P)) (n : Bytes) (c : UpstreamConfig P) (s : S)
        (l : ℕ) (counted : Stats) (last' : Option Error) (stats' : ClientStatistics) (w1 w2 : W)
        → xs ≡ before ++ ((n, c) ∷ after)
        → Fails last stats w before last' stats' w1
        → Path Called (called n c stats' w1) (ok s, l, counted, w2)
        → Ends last stats w xs (ok s, update_upstream (clock w2) l n (count counted n stats'), w2)
    refused :
        (last' : Option Error) (stats' : ClientStatistics) (w1 : W)
        → Fails last stats w xs last' stats' w1
        → Ends last stats w xs (err (no_upstream last'), stats', w1)

  Ends-behind :
      (last : Option Error) (stats : ClientStatistics) (w w1 : W) (n : Bytes) (c : UpstreamConfig P)
      (xs : List (Bytes × UpstreamConfig P)) (e : Error) (l : ℕ) (counted : Stats)
      (r : Result S × ClientStatistics × W)
      → Path Called (called n c stats w) (err e, l, counted, w1)
      → Ends (some (within "Requesting new streaming connection" e)) (count counted n stats) w1 xs r
      → Ends last stats w ((n, c) ∷ xs) r
  Ends-behind last stats w w1 n c xs e l counted _ h
        (served before after m d s k counts last' stats' w2 w3 same f g) =
      served ((n, c) ∷ before) after m d s k counts last' stats' w2 w3 (ap (◌∷◌ (n, c)) same)
        (failed last stats w n c e l counted w1 before last' stats' w2 h f) g
  Ends-behind last stats w w1 n c xs e l counted _ h (refused last' stats' w2 f) =
      refused last' stats' w2 (failed last stats w n c e l counted w1 xs last' stats' w2 h f)

  after_dial-Ends :
      (last : Option Error) (stats : ClientStatistics) (w : W) (n : Bytes) (c : UpstreamConfig P)
      (xs : List (Bytes × UpstreamConfig P)) (answer : Called)
      (rest : Option Error → ClientStatistics → W → Result S × ClientStatistics × W)
      → Path Called (called n c stats w) answer
      → ((last1 : Option Error) (stats1 : ClientStatistics) (w1 : W)
          → Ends last1 stats1 w1 xs (rest last1 stats1 w1))
      → Ends last stats w ((n, c) ∷ xs) (after_dial dial clock visited n stats rest answer)
  unfolding after_dial
  after_dial-Ends last stats w n c xs (ok s, l, counted, w2) rest h behind =
      served [] xs n c s l counted last stats w w2 refl (nobody last stats w) h
  after_dial-Ends last stats w n c xs (err e, l, counted, w1) rest h behind =
      Ends-behind last stats w w1 n c xs e l counted _ h (behind _ _ w1)

  try_each-Ends :
      (xs : List (Bytes × UpstreamConfig P)) (last : Option Error) (stats : ClientStatistics)
      (w : W)
      → Ends last stats w xs (try_each dial clock visited xs last stats w)
  unfolding try_each
  try_each-Ends [] last stats w = refused last stats w (nobody last stats w)
  try_each-Ends ((n, c) ∷ xs) last stats w =
      after_dial-Ends last stats w n c xs (called n c stats w) _ refl (try_each-Ends xs)

  -- find_and_connect_stream asks the upstreams that find_best_upstream gave, from the end of
  -- that list, in which the last-visit scores do not rise. Either one answers and every one
  -- asked before it failed, and the time and the latency of its call are set in the statistics
  -- of its name alone; or all fail, no time and no latency is set, and the error is that of the
  -- last one asked, or that there is no upstream. Each call gets the counters of its name as the
  -- calls before it left them, and the world that they left; what it counts is in the statistics
  -- of its name, also when it fails.
  pub find_and_connect_stream-Ends :
      (e : Engines) (k : Known) (config : ClientConfig P) (stats : ClientStatistics) (dst : Address)
      (initial_data : Option Bytes) (w : W)
      → (found : List (Bytes × UpstreamConfig P)) × (found
          ≡ pops
              (find_best_upstream e k (visited w) config TrafficType.stream stats dst initial_data))
        × IsDescending (last_visit_scores (visited w) stats) found
        × Ends none stats w found
            (find_and_connect_stream dial clock visited e k config stats dst initial_data w)
  unfolding find_and_connect_stream find_best_upstream
  find_and_connect_stream-Ends e k config stats dst initial_data w =
      (_, refl, pops-IsDescending _ _ (candidates-IsOrdered _ _ _ _), try_each-Ends _ none stats w)
