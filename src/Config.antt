-- ===== src/Config.antt =====
-- relay/internal/config/config.go: the configuration from the environment, and its validation.
--
-- `Parsers` is what the code calls of the standard library to read a number: strconv.Atoi,
-- strconv.ParseInt with base 10 and 64 bits, and time.ParseDuration, in nanoseconds; and
-- strings.ToLower.
pub mod Validation
mod Tests
use Prim.Native.String.{len}
use icy_easy_send.Base.{
  ℕ, ◌*◌, String, Bool, true, false, not, ◌&&◌, ◌||◌, Option, none, some, ltb, ◌==◌, if◌then◌else◌,
  Result, ok, err, ◌>>=◌,
}
use icy_easy_send.Base.Int.{ℤ, pos, lt_int}
use icy_easy_send.Base.Text.{trim_space}

pub record Config : Type 0 where
  pub listen : String
  pub token : String
  pub tls_cert : String
  pub tls_key : String
  pub max_concurrent_streams : ℤ
  pub max_stream_bytes : ℤ
  pub rate_limit_bps : ℤ
  pub stream_rendezvous_timeout : ℤ
  pub stream_idle_timeout : ℤ
  pub pair_rate_per_min : ℤ
  pub log_level : String

-- An error names the variable that is wrong.
pub data ConfigError : Type 0 where
  missing too_short half_tls out_of_range unknown_level not_a_number : String → ConfigError

pub record Parsers : Type 0 where
  pub atoi : String → Option ℤ
  pub parse_int : String → Option ℤ
  pub parse_duration : String → Option ℤ
  pub to_lower : String → String

abbrev pub min_token_length : ℕ
min_token_length = 32

abbrev pub max_concurrent_streams_cap : ℕ
max_concurrent_streams_cap = 64

unfoldable pub tls_enabled : Config → Bool
tls_enabled c = not (c.tls_cert == "") && not (c.tls_key == "")

-- stringOr
unfoldable pub string_or : (String → String) → String → String → String
unfolding trim_space
string_or getenv key fallback = let v = trim_space (getenv key) in if v == "" then fallback else v

-- intOr, int64Or and durationOr, with their parser.
unfoldable pub number_or :
    (String → Option ℤ) → (String → String) → String → ℤ → Result ConfigError ℤ
unfolding trim_space
number_or parse getenv key fallback =
    let raw = trim_space (getenv key) in
    if raw == ""
    then ok fallback
    else elim (parse raw) [ none ↦ err (not_a_number key) | some v ↦ ok v ]

-- intOr, int64Or and durationOr.
abbrev pub int_or : Parsers → (String → String) → String → ℤ → Result ConfigError ℤ
int_or p = number_or p.atoi

abbrev pub int64_or : Parsers → (String → String) → String → ℤ → Result ConfigError ℤ
int64_or p = number_or p.parse_int

abbrev pub duration_or : Parsers → (String → String) → String → ℤ → Result ConfigError ℤ
duration_or p = number_or p.parse_duration

-- The levels that the last switch of validate lets through.
unfoldable pub is_level : String → Bool
is_level l = (l == "debug") || (l == "info") || (l == "warn") || (l == "error")

-- a != b
abbrev pub differ : Bool → Bool → Bool
differ true b = not b
differ false b = b

-- validate: the first test that fails.
unfoldable pub validate : Config → Option ConfigError
unfolding is_level
validate c =
    if c.token == ""
    then some (missing "RELAY_TOKEN")
    else if ltb (len c.token) min_token_length
    then some (too_short "RELAY_TOKEN")
    else if differ (c.tls_cert == "") (c.tls_key == "")
    then some (half_tls "RELAY_TLS_CERT")
    else if lt_int c.max_concurrent_streams (pos 1)
    then some (out_of_range "RELAY_MAX_CONCURRENT_STREAMS")
    else if lt_int (pos max_concurrent_streams_cap) c.max_concurrent_streams
    then some (out_of_range "RELAY_MAX_CONCURRENT_STREAMS")
    else if lt_int c.max_stream_bytes (pos 0)
    then some (out_of_range "RELAY_MAX_STREAM_BYTES")
    else if lt_int c.rate_limit_bps (pos 0)
    then some (out_of_range "RELAY_RATE_LIMIT_BPS")
    else if lt_int c.pair_rate_per_min (pos 1)
    then some (out_of_range "RELAY_PAIR_RATE_PER_MIN")
    else if not (lt_int (pos 0) c.stream_rendezvous_timeout)
    then some (out_of_range "RELAY_STREAM_RENDEZVOUS_TIMEOUT")
    else if not (lt_int (pos 0) c.stream_idle_timeout)
    then some (out_of_range "RELAY_STREAM_IDLE_TIMEOUT")
    else if not (is_level c.log_level)
    then some (unknown_level "RELAY_LOG_LEVEL")
    else none

abbrev pub seconds : ℕ → ℤ
seconds n = pos (n * 1_000_000_000)

-- The validation at the end of Load.
unfoldable pub checked : Config → Result ConfigError Config
unfolding validate
checked c = elim (validate c) [ none ↦ ok c | some e ↦ err e ]

unfoldable pub load : Parsers → (String → String) → Result ConfigError Config
unfolding string_or number_or
load p getenv = do
  streams ← int_or p getenv "RELAY_MAX_CONCURRENT_STREAMS" (pos 8)
  bytes ← int64_or p getenv "RELAY_MAX_STREAM_BYTES" (pos 0)
  bps ← int64_or p getenv "RELAY_RATE_LIMIT_BPS" (pos 0)
  pairs ← int_or p getenv "RELAY_PAIR_RATE_PER_MIN" (pos 5)
  rendezvous ← duration_or p getenv "RELAY_STREAM_RENDEZVOUS_TIMEOUT" (seconds 30)
  idle ← duration_or p getenv "RELAY_STREAM_IDLE_TIMEOUT" (seconds 60)
  checked (record {
    listen = string_or getenv "RELAY_LISTEN" ":8443";
    token = getenv "RELAY_TOKEN";
    tls_cert = getenv "RELAY_TLS_CERT";
    tls_key = getenv "RELAY_TLS_KEY";
    max_concurrent_streams = streams;
    max_stream_bytes = bytes;
    rate_limit_bps = bps;
    stream_rendezvous_timeout = rendezvous;
    stream_idle_timeout = idle;
    pair_rate_per_min = pairs;
    log_level = p.to_lower (string_or getenv "RELAY_LOG_LEVEL" "info");
  })
