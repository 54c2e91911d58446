-- ===== src/Main.antt =====
-- relay/cmd/relayd/main.go: how `run` puts the relay together, and its sweeper.
--
-- The sockets, the signals and the routing of net/http are not modelled: what they end with is an
-- argument.
pub mod Sweeping
pub mod Starting
pub mod Samples
mod Tests
use icy_easy_send.Base.{
  ℕ, ◌*◌, String, Bool, true, false, Option, none, some, List, [], ◌∷◌, ◌==◌, if◌then◌else◌, Result,
  ok, err,
}
use icy_easy_send.Base.Int.{ℤ}
use icy_easy_send.Config.{Config, ConfigError, Parsers, load}
use icy_easy_send.Protocol.{Limits, max_message_bytes}
use icy_easy_send.Limit.{Rate, PairLimiter, new_pair_limiter, minute}
use icy_easy_send.Limit as Pairing
use icy_easy_send.Limit.Bandwidth.{Shaper, BandwidthPool, new_bandwidth_pool, magnitude}
use icy_easy_send.Limit.Bandwidth as Shaping
use icy_easy_send.Stream.Registry.{Registry, new_registry, len}
use icy_easy_send.Stream.Registry as Streams
use icy_easy_send.Signal.Hub.{new_hub, count}
use icy_easy_send.Signal.Session.{new_outbox}
use icy_easy_send.Signal.World.{World}

abbrev pub second : ℕ
second = 1_000_000_000

abbrev pub sweep_interval : ℕ
sweep_interval = 30 * second

abbrev pub limiter_max_idle : ℕ
limiter_max_idle = 10 * minute

-- slog's levels.
pub data Level : Type 0 where
  debug info warn error : Level

-- The switch of newLogger.
unfoldable pub log_level : String → Level
log_level level =
    if level == "debug"
    then debug
    else if level == "warn"
    then warn
    else if level == "error"
    then error
    else info

-- The limits that `run` hands to the signaling server, for its welcome messages.
abbrev pub limits : Config → Limits
limits cfg = record {
  max_concurrent_streams = magnitude cfg.max_concurrent_streams;
  max_stream_bytes = magnitude cfg.max_stream_bytes;
  max_message_bytes = max_message_bytes;
  pair_rate_per_min = magnitude cfg.pair_rate_per_min;
}

-- What the select of sweep takes: the end of the context, or a tick.
pub data Wake : Type 0 where
  stopped : Wake
  ticked : ℕ → Wake

module _ (rate : Rate) (shaper : Shaper) where
  -- What `run` makes and the handlers share.
  pub record Relay : Type 0 where
    pub world : World rate.Limiter
    pub bandwidth : BandwidthPool shaper.Limiter

  -- The first lines of `run`, behind Load. A positive int is a number.
  abbrev pub start : Config → Relay
  start cfg = record {
    world = record {
      hub = new_hub;
      streams =
          new_registry (magnitude cfg.max_concurrent_streams)
            (magnitude cfg.stream_rendezvous_timeout);
      pairing = new_pair_limiter rate (magnitude cfg.pair_rate_per_min);
      outboxes = λ ref. new_outbox;
      events = [];
    };
    bandwidth = new_bandwidth_pool shaper cfg.rate_limit_bps;
  }

  -- The gauges that `run` hands to the metrics.
  abbrev pub session_count : Relay → ℕ
  session_count r = count r.world.hub

  abbrev pub stream_count : Relay → ℕ
  stream_count r = len r.world.streams

  -- One tick of sweep.
  unfoldable pub tick : ℕ → Relay → Relay
  tick now r =
      let (expired, streams) = Streams.sweep now r.world.streams in
      let (forgotten, pairing) = Pairing.sweep rate limiter_max_idle now r.world.pairing in
      let (idle, bandwidth) = Shaping.sweep shaper limiter_max_idle now r.bandwidth in
      let w = r.world in
      record { world = record w { streams = streams; pairing = pairing }; bandwidth = bandwidth }

  -- The loop of sweep, with nothing else between its ticks.
  unfoldable pub sweeper : List Wake → Relay → Relay
  sweeper [] r = r
  sweeper (stopped ∷ ws) r = r
  sweeper (ticked now ∷ ws) r = sweeper ws (tick now r)

-- What `run` waits for: the server's end, with http.ErrServerClosed or another error, or a signal and
-- then what Shutdown returned.
pub data End : Type 0 where
  closed : End
  failed : String → End
  interrupted : Option String → End

pub data Failure : Type 0 where
  bad_config : ConfigError → Failure
  server_error : String → Failure

abbrev ended : End → Option Failure
ended closed = none
ended (failed e) = some (server_error e)
ended (interrupted none) = none
ended (interrupted (some e)) = some (server_error e)

-- run, as to the error that it returns.
unfoldable pub run : Parsers → (String → String) → End → Option Failure
unfolding load
run p getenv e = elim (load p getenv) [ err x ↦ some (bad_config x) | ok cfg ↦ ended e ]

-- main: the exit status.
unfoldable pub exit_status : Option Failure → ℕ
exit_status none = 0
exit_status (some e) = 1
