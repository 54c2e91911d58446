-- ===== src/Config/Tests.antt =====
-- The configuration's theorems in a concrete environment.
use icy_easy_send.Base.{◌≡◌, refl, String, none, some, ok, ◌==◌, if◌then◌else◌}
use icy_easy_send.Base.Int.{pos}
use icy_easy_send.Base.Text.{trim_space}
use icy_easy_send.Config.{
  Config, Parsers, validate, is_level, load, checked, number_or, string_or, seconds,
}
use icy_easy_send.Config.Validation.{IsSafe, validate_iff}

abbrev token : String
token = "0123456789abcdef0123456789abcdef"

-- Nothing but the token and the pairing rate is set.
abbrev environment : String → String
environment key =
    if key == "RELAY_TOKEN" then token else if key == "RELAY_PAIR_RATE_PER_MIN" then " 7 " else ""

abbrev parsers : Parsers
parsers = record {
  atoi = λ t. if t == "7" then some (pos 7) else none;
  parse_int = λ t. none;
  parse_duration = λ t. none;
  to_lower = λ t. t;
}

abbrev defaults : Config
defaults = record {
  listen = ":8443";
  token = token;
  tls_cert = "";
  tls_key = "";
  max_concurrent_streams = pos 8;
  max_stream_bytes = pos 0;
  rate_limit_bps = pos 0;
  stream_rendezvous_timeout = seconds 30;
  stream_idle_timeout = seconds 60;
  pair_rate_per_min = pos 7;
  log_level = "info";
}

loads : load parsers environment ≡ ok defaults
unfolding load checked validate is_level number_or string_or trim_space
loads = refl

accepted : validate defaults ≡ none
unfolding validate is_level
accepted = refl

validate_iff_example : IsSafe defaults
validate_iff_example = (validate_iff defaults).0 accepted
