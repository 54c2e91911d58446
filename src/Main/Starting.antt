-- ===== src/Main/Starting.antt =====
-- The state that a relay starts with.
use icy_easy_send.Base.{ℕ, ◌≡◌, ◌≤◌, ◌↔◌, String, none, ok, arith}
use icy_easy_send.Base.Int.{ℤ, pos, negsuc}
use icy_easy_send.Config.{Config, Parsers, load}
use icy_easy_send.Config.Validation.{IsBetween, IsAtLeast, load-IsSafe}
use icy_easy_send.Limit.{Rate}
use icy_easy_send.Limit.Bandwidth.{Shaper, BandwidthPool, magnitude, wrap}
use icy_easy_send.Stream.Registry.{new_registry}
use icy_easy_send.Stream.Registry.Invariant.{IsValid, new_registry-IsValid}
use icy_easy_send.Main.{start}

magnitude-IsBetween : (z : ℤ) → IsBetween 1 64 z → (1 ≤ magnitude z) × (magnitude z ≤ 64)
unfolding magnitude
magnitude-IsBetween (pos n) h = ground (arith, h)
magnitude-IsBetween (negsuc n) h = absurd h

magnitude-IsAtLeast : (n : ℕ) (z : ℤ) → IsAtLeast n z → n ≤ magnitude z
unfolding magnitude
magnitude-IsAtLeast n (pos m) h = ground (arith, h)
magnitude-IsAtLeast n (negsuc m) h = absurd h

module _ (rate : Rate) (shaper : Shaper) where
  -- Wrap throttles just when the rate is above zero.
  wrap-none :
      (d : String) (now : ℕ) (p : BandwidthPool shaper.Limiter)
      → IsAtLeast 0 p.bps
      → ((wrap shaper d now p).0 ≡ none) ↔ (p.bps ≡ pos 0)
  unfolding wrap
  wrap-none d now p h = (λ e. ground (arith, h), λ e. ground (arith, e))

  -- Whatever the environment, a relay that starts at all starts well: if Load accepts it, then the
  -- registry is well formed, allows each device from 1 to 64 streams and gives a new stream some time;
  -- the pairing limiter allows at least one request a minute, so that it never divides by zero; and
  -- uploads are throttled exactly if a rate was set.
  pub starts_safely :
      (p : Parsers) (getenv : String → String) (cfg : Config)
      → load p getenv ≡ ok cfg
      → let r = start rate shaper cfg in
        IsValid r.world.streams
        × (1 ≤ r.world.streams.max_per_device)
        × (r.world.streams.max_per_device ≤ 64)
        × (1 ≤ r.world.streams.ttl)
        × (1 ≤ r.world.pairing.per_min)
        × ((d : String) (now : ℕ)
            → ((wrap shaper d now r.bandwidth).0 ≡ none) ↔ (cfg.rate_limit_bps ≡ pos 0))
  unfolding new_registry
  starts_safely p getenv cfg h =
      let (token, tls, streams, bytes, bps, pairs, rendezvous, idle, level) =
        load-IsSafe p getenv cfg h in
      let cap = magnitude-IsBetween cfg.max_concurrent_streams streams in
      (
        new_registry-IsValid (magnitude cfg.max_concurrent_streams)
            (magnitude cfg.stream_rendezvous_timeout),
        cap.0,
        cap.1,
        magnitude-IsAtLeast 1 cfg.stream_rendezvous_timeout rendezvous,
        magnitude-IsAtLeast 1 cfg.pair_rate_per_min pairs,
        λ d now. wrap-none d now (start rate shaper cfg).bandwidth bps,
      )
