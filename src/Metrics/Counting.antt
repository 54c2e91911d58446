-- ===== src/Metrics/Counting.antt =====
-- What a scrape shows is what was observed.
use icy_easy_send.Base.{
  inr, ℕ, ◌+◌, ◌≡◌, refl, ap, ◌∙◌, String, Option, none, some, List, [], ◌∷◌, ◌==◌, if◌then◌else◌,
  arith,
}
use icy_easy_send.Stream.Handler.{Event, auth_failure, error, bytes_relayed}
use icy_easy_send.Signal.World as Signaling
use icy_easy_send.Metrics.Series.{
  Shows, Stands-eq, keeps, auth_failure-Shows, error-Shows, stream-Shows, limited-Shows,
  bytes-Shows,
}
use icy_easy_send.Metrics.{
  Prometheus, IsCounting, Collector, new_collector, count_auth_failure, count_error, count_stream,
  count_bytes, count_rate_limited, observe_data, observe_signal,
}

-- A call of an observer on either plane.
pub data Seen : Type 0 where
  on_data : Event → Seen
  on_signal : Signaling.Event → Seen

-- What a call adds to a series.
abbrev pub is_auth_failure : String → Seen → ℕ
is_auth_failure l (on_data (auth_failure r)) = if r == l then 1 else 0
is_auth_failure l (on_signal (Signaling.auth_failure r)) = if r == l then 1 else 0
is_auth_failure l e = 0

abbrev pub is_error : String → Seen → ℕ
is_error l (on_data (error c)) = if c == l then 1 else 0
is_error l (on_signal (Signaling.failed c)) = if c == l then 1 else 0
is_error l e = 0

abbrev pub relays : Seen → ℕ
relays (on_data (bytes_relayed n)) = n
relays e = 0

abbrev pub creates : Seen → ℕ
creates (on_signal Signaling.stream_created) = 1
creates e = 0

abbrev pub is_limited : Seen → ℕ
is_limited (on_signal Signaling.pair_rate_limited) = 1
is_limited e = 0

unfoldable pub total : (Seen → ℕ) → List Seen → ℕ
total f [] = 0
total f (e ∷ es) = f e + total f es

module _ (p : Prometheus) where
  abbrev observe : Seen → Option (Collector p) → Option (Collector p)
  observe (on_data e) = observe_data p e
  observe (on_signal e) = observe_signal p e

  unfoldable pub observe_all : List Seen → Option (Collector p) → Option (Collector p)
  observe_all [] o = o
  observe_all (e ∷ es) o = observe_all es (observe e o)

  module _ (k : IsCounting p) where
    -- One call.
    observe-Shows :
        (e : Seen) (a r : String → ℕ) (b s m : ℕ) (c : Collector p)
        → Shows p a r b s m c
        → (d : Collector p) × ((observe e (some c) ≡ some d)
            × Shows p
                (λ l. a l + is_auth_failure l e)
                (λ l. r l + is_error l e)
                (b + relays e)
                (s + creates e)
                (m + is_limited e)
                d)
    unfolding observe_data observe_signal count_auth_failure count_error count_stream
        count_rate_limited
    observe-Shows (on_data (auth_failure t)) a r b s m c h =
        (_, (refl, auth_failure-Shows p k t a r b s m c h))
    observe-Shows (on_data (error t)) a r b s m c h = (_, (refl, error-Shows p k t a r b s m c h))
    observe-Shows (on_data (bytes_relayed n)) a r b s m c h = bytes-Shows p k n a r b s m c h
    observe-Shows (on_signal (Signaling.auth_failure t)) a r b s m c h =
        (_, (refl, auth_failure-Shows p k t a r b s m c h))
    observe-Shows (on_signal (Signaling.failed t)) a r b s m c h =
        (_, (refl, error-Shows p k t a r b s m c h))
    observe-Shows (on_signal Signaling.stream_created) a r b s m c h =
        (_, (refl, stream-Shows p k a r b s m c h))
    observe-Shows (on_signal Signaling.pair_rate_limited) a r b s m c h =
        (_, (refl, limited-Shows p k a r b s m c h))

    observe_all-Shows :
        (es : List Seen) (a r : String → ℕ) (b s m : ℕ) (c : Collector p)
        → Shows p a r b s m c
        → (d : Collector p) × ((observe_all es (some c) ≡ some d)
            × Shows p
                (λ l. a l + total (is_auth_failure l) es)
                (λ l. r l + total (is_error l) es)
                (b + total relays es)
                (s + total creates es)
                (m + total is_limited es)
                d)
    unfolding observe_all total
    observe_all-Shows [] a r b s m c h = (
      c,
      (
        refl,
        record {
          failures_shown = λ l. keeps p _ (a l) (h.failures_shown l);
          errors_shown = λ l. keeps p _ (r l) (h.errors_shown l);
          bytes_shown = keeps p _ b h.bytes_shown;
          streams_shown = keeps p _ s h.streams_shown;
          limited_shown = keeps p _ m h.limited_shown;
        },
      ),
    )
    observe_all-Shows (e ∷ es) a r b s m c h =
        let (f, (first, g)) = observe-Shows e a r b s m c h in
        let (d, (rest, t)) = observe_all-Shows es _ _ _ _ _ f g in
        (
          d,
          (
            ap (observe_all es) first ∙ rest,
            record {
              failures_shown = λ l. Stands-eq p _ _ _ (omega arith) (t.failures_shown l);
              errors_shown = λ l. Stands-eq p _ _ _ (omega arith) (t.errors_shown l);
              bytes_shown = Stands-eq p _ _ _ (omega arith) t.bytes_shown;
              streams_shown = Stands-eq p _ _ _ (omega arith) t.streams_shown;
              limited_shown = Stands-eq p _ _ _ (omega arith) t.limited_shown;
            },
          ),
        )

  observe_all-none : (es : List Seen) → observe_all es none ≡ none
  unfolding observe_all observe_data observe_signal count_auth_failure count_error count_stream
      count_bytes count_rate_limited
  observe_all-none [] = refl
  observe_all-none (on_data (auth_failure r) ∷ es) = observe_all-none es
  observe_all-none (on_data (error r) ∷ es) = observe_all-none es
  observe_all-none (on_data (bytes_relayed n) ∷ es) =
      ap (observe_all es) (ground arith) ∙ observe_all-none es
  observe_all-none (on_signal (Signaling.auth_failure r) ∷ es) = observe_all-none es
  observe_all-none (on_signal (Signaling.failed r) ∷ es) = observe_all-none es
  observe_all-none (on_signal Signaling.stream_created ∷ es) = observe_all-none es
  observe_all-none (on_signal Signaling.pair_rate_limited ∷ es) = observe_all-none es

  -- The metrics count, as far as floating-point numbers do. If the client counts as it documents, then
  -- after any calls of the observers of both planes, from a new collector, a scrape shows for each reason
  -- the admission failures with that reason and for each code the errors with that code, on either plane;
  -- the sum of the bytes that uploads reported; and how many streams were allocated and how many pairing
  -- requests were throttled: each of these numbers exactly if it is at most 2 ^ 53. A nil collector
  -- stays nil.
  pub counts_exactly :
      (k : IsCounting p) (es : List Seen)
      → ((c : Collector p) × ((observe_all es (some (new_collector p)) ≡ some c)
            × Shows p
                (λ l. total (is_auth_failure l) es)
                (λ l. total (is_error l) es)
                (total relays es)
                (total creates es)
                (total is_limited es)
                c))
        × (observe_all es none ≡ none)
  counts_exactly k es =
      let start : Shows p (λ l. 0) (λ l. 0) 0 0 0 (new_collector p) = record {
        failures_shown = λ l. inr (k.starts_labelled l);
        errors_shown = λ l. inr (k.starts_labelled l);
        bytes_shown = inr k.starts;
        streams_shown = inr k.starts;
        limited_shown = inr k.starts;
      } in
      let (c, (same, t)) = observe_all-Shows k es (λ l. 0) (λ l. 0) 0 0 0 (new_collector p) start in
      (
        (
          c,
          (
            same,
            record {
              failures_shown = λ l. Stands-eq p _ _ _ (omega arith) (t.failures_shown l);
              errors_shown = λ l. Stands-eq p _ _ _ (omega arith) (t.errors_shown l);
              bytes_shown = Stands-eq p _ _ _ (omega arith) t.bytes_shown;
              streams_shown = Stands-eq p _ _ _ (omega arith) t.streams_shown;
              limited_shown = Stands-eq p _ _ _ (omega arith) t.limited_shown;
            },
          ),
        ),
        observe_all-none es,
      )
