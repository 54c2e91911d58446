-- ===== src/Metrics/Tests.antt =====
-- The metrics' theorem with concrete counters.
use icy_easy_send.Base.{
  ℕ, ◌+◌, ◌≡◌, ◌≢◌, refl, ap, arith, eq_refl, eq_iff, String, none, some, List, [], ◌∷◌, ◌==◌,
  if◌then◌else◌,
}
use icy_easy_send.Stream.Handler.{auth_failure, error, bytes_relayed}
use icy_easy_send.Signal.World as Signaling
use icy_easy_send.Metrics.{Prometheus, IsCounting, Collector, new_collector}
use icy_easy_send.Metrics.Series.{Shows}
use icy_easy_send.Metrics.Counting.{
  Seen, on_data, on_signal, is_auth_failure, is_error, relays, creates, is_limited, total,
  observe_all, counts_exactly,
}

abbrev numbers : Prometheus
numbers = record {
  Float = ℕ;
  Counter = ℕ;
  CounterVec = String → ℕ;
  new_counter = 0;
  new_counter_vec = λ l. 0;
  of_int = λ n. n;
  inc = λ c. c + 1;
  add = λ n c. c + n;
  inc_label = λ k v l. v l + (if k == l then 1 else 0);
  value = λ c. c;
  labelled = λ l v. v l;
}

label_lem :
    (m : ℕ) (l : String) (v : String → ℕ) → v l ≡ m → v l + (if l == l then 1 else 0) ≡ m + 1
label_lem m l v e = ground (arith, e, eq_refl l)

other_lem : (k l : String) (v : String → ℕ) → k ≢ l → v l + (if k == l then 1 else 0) ≡ v l
other_lem k l v other = ground (arith, other, eq_iff k l)

numbers-IsCounting : IsCounting numbers
numbers-IsCounting = record {
  starts = refl;
  incs = λ m c e small. ap (λ (x : ℕ). x + 1) e;
  adds = λ m n c e small. ap (λ (x : ℕ). x + n) e;
  starts_labelled = λ l. refl;
  incs_label = λ m l v e small. label_lem m l v e;
  keeps_label = λ k l v other. other_lem k l v other;
}

abbrev calls : List Seen
calls =
    on_data (auth_failure "token")
    ∷ on_data (error "unauthorized")
    ∷ on_signal Signaling.stream_created
    ∷ on_data (bytes_relayed 7)
    ∷ on_signal (Signaling.failed "unauthorized")
    ∷ on_data (bytes_relayed 0)
    ∷ on_data (bytes_relayed 5)
    ∷ []

counts_exactly_example :
    ((c : Collector numbers) × ((observe_all numbers calls (some (new_collector numbers)) ≡ some c)
        × Shows numbers
            (λ l. total (is_auth_failure l) calls)
            (λ l. total (is_error l) calls)
            (total relays calls)
            (total creates calls)
            (total is_limited calls)
            c))
    × (observe_all numbers calls none ≡ none)
counts_exactly_example = counts_exactly numbers numbers-IsCounting calls

twelve_bytes : total relays calls ≡ 12
unfolding total
twelve_bytes = refl

two_errors : total (is_error "unauthorized") calls ≡ 2
unfolding total
two_errors = refl
