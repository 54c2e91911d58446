-- ===== src/Main/Samples.antt =====
-- A configuration, and libraries to run with, that the concrete histories share.
use icy_easy_send.Base.{ℕ, ◌-◌, String, none, ltb, ◌==◌, if◌then◌else◌}
use icy_easy_send.Base.Int.{pos}
use icy_easy_send.Config.{Config, Parsers, seconds}
use icy_easy_send.Limit.{Rate}
use icy_easy_send.Limit.Bandwidth.{Shaper}

abbrev pub tokens : Rate
tokens = record { Limiter = ℕ; every = λ i b. b; allow = λ t l. (ltb 0 l, l - 1) }

abbrev pub unlimited : Shaper
unlimited = record {
  Limiter = ℕ;
  new_limiter = λ bps n. n;
  burst = λ l. l;
  wait_n = λ n l. (none, l);
}

abbrev pub environment : String → String
environment key = if key == "RELAY_TOKEN" then "0123456789abcdef0123456789abcdef" else ""

abbrev pub parsers : Parsers
parsers = record {
  atoi = λ t. none;
  parse_int = λ t. none;
  parse_duration = λ t. none;
  to_lower = λ t. t;
}

abbrev pub defaults : Config
defaults = record {
  listen = ":8443";
  token = "0123456789abcdef0123456789abcdef";
  tls_cert = "";
  tls_key = "";
  max_concurrent_streams = pos 8;
  max_stream_bytes = pos 0;
  rate_limit_bps = pos 0;
  stream_rendezvous_timeout = seconds 30;
  stream_idle_timeout = seconds 60;
  pair_rate_per_min = pos 5;
  log_level = "info";
}
