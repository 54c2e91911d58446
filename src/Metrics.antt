-- ===== src/Metrics.antt =====
-- relay/internal/metrics/metrics.go: the counters behind the observers of both planes.
--
-- The Prometheus client is the parameter `Prometheus`. The gauges call functions of the main program.
pub mod Series
pub mod Counting
mod Tests
use icy_easy_send.Base.{
  ℕ, ◌+◌, ◌≤◌, ◌≡◌, ◌≢◌, String, Bool, Option, none, some, List, [], ◌∷◌, ltb, if◌then◌else◌,
}
use icy_easy_send.Stream.Handler.{Event, auth_failure, error, bytes_relayed}
use icy_easy_send.Signal.World as Signaling

-- What the code uses of the client: counters, and vectors of counters under one label; `value` and
-- `labelled` are what a scrape shows. A counter counts in the language's floating-point numbers, and
-- `of_int` is its conversion from an integer.
pub record Prometheus : Type 1 where
  pub Float : Type 0
  pub Counter : Type 0
  pub CounterVec : Type 0
  pub of_int : ℕ → Float
  pub new_counter : Counter
  pub new_counter_vec : CounterVec
  pub inc : Counter → Counter
  pub add : Float → Counter → Counter
  pub inc_label : String → CounterVec → CounterVec
  pub value : Counter → Float
  pub labelled : String → CounterVec → Float

-- The integers up to 2 ^ 53 are floating-point numbers of 64 bits.
abbrev pub exact_up_to : ℕ
exact_up_to = 9_007_199_254_740_992

-- What the client and its numbers document: a counter starts at zero; it grows by what is added, with
-- no rounding as long as the sum is an integer of at most 2 ^ 53; and the counter of one label does not
-- touch another.
pub record IsCounting (p : Prometheus) : Type 0 where
  pub starts : p.value p.new_counter ≡ p.of_int 0
  pub incs :
      (m : ℕ) (c : p.Counter)
      → p.value c ≡ p.of_int m
      → m + 1 ≤ exact_up_to
      → p.value (p.inc c) ≡ p.of_int (m + 1)
  pub adds :
      (m n : ℕ) (c : p.Counter)
      → p.value c ≡ p.of_int m
      → m + n ≤ exact_up_to
      → p.value (p.add (p.of_int n) c) ≡ p.of_int (m + n)
  pub starts_labelled : (l : String) → p.labelled l p.new_counter_vec ≡ p.of_int 0
  pub incs_label :
      (m : ℕ) (l : String) (v : p.CounterVec)
      → p.labelled l v ≡ p.of_int m
      → m + 1 ≤ exact_up_to
      → p.labelled l (p.inc_label l v) ≡ p.of_int (m + 1)
  pub keeps_label :
      (k l : String) (v : p.CounterVec) → k ≢ l → p.labelled l (p.inc_label k v) ≡ p.labelled l v

-- The counters of `Collector`.
pub record Collector (p : Prometheus) : Type 0 where
  pub auth_failures : p.CounterVec
  pub errors : p.CounterVec
  pub streams_created : p.Counter
  pub bytes : p.Counter
  pub pair_rate_limited : p.Counter

module _ (p : Prometheus) where
  -- New, whose counters are all at zero.
  abbrev pub new_collector : Collector p
  new_collector = record {
    auth_failures = p.new_counter_vec;
    errors = p.new_counter_vec;
    streams_created = p.new_counter;
    bytes = p.new_counter;
    pair_rate_limited = p.new_counter;
  }

  -- `if c == nil { return }`
  abbrev unless_nil : (Collector p → Collector p) → Option (Collector p) → Option (Collector p)
  unless_nil f none = none
  unless_nil f (some c) = some (f c)

  -- AuthFailure, Error, StreamCreated, BytesRelayed and PairRateLimited.
  unfoldable pub count_auth_failure : String → Option (Collector p) → Option (Collector p)
  count_auth_failure reason =
      unless_nil (λ c. record c { auth_failures = p.inc_label reason c.auth_failures })

  unfoldable pub count_error : String → Option (Collector p) → Option (Collector p)
  count_error code = unless_nil (λ c. record c { errors = p.inc_label code c.errors })

  unfoldable pub count_stream : Option (Collector p) → Option (Collector p)
  count_stream = unless_nil (λ c. record c { streams_created = p.inc c.streams_created })

  unfoldable pub count_bytes : ℕ → Option (Collector p) → Option (Collector p)
  count_bytes n o =
      if ltb 0 n then unless_nil (λ c. record c { bytes = p.add (p.of_int n) c.bytes }) o else o

  unfoldable pub count_rate_limited : Option (Collector p) → Option (Collector p)
  count_rate_limited = unless_nil (λ c. record c { pair_rate_limited = p.inc c.pair_rate_limited })

  -- The calls of the two planes.
  unfoldable pub observe_data : Event → Option (Collector p) → Option (Collector p)
  observe_data (auth_failure reason) = count_auth_failure reason
  observe_data (error code) = count_error code
  observe_data (bytes_relayed n) = count_bytes n

  unfoldable pub observe_signal : Signaling.Event → Option (Collector p) → Option (Collector p)
  observe_signal (Signaling.auth_failure reason) = count_auth_failure reason
  observe_signal (Signaling.failed code) = count_error code
  observe_signal Signaling.stream_created = count_stream
  observe_signal Signaling.pair_rate_limited = count_rate_limited
