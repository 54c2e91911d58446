-- ===== src/Metrics/Series.antt =====
-- The series of a collector, and what one call adds to them.
use icy_easy_send.Base.{
  ℕ, ◌+◌, ◌≤◌, ◌<◌, ◌⊎◌, ◌≡◌, refl, subst, String-cases, String, some, ltb, ◌==◌, Bool-cases, inl,
  inr, if◌then◌else◌, arith,
}
use icy_easy_send.Metrics.{Prometheus, IsCounting, exact_up_to, Collector, count_bytes}

module _ (p : Prometheus) where
  -- The series stands at this number, or the number is too large to be counted exactly.
  abbrev pub Stands : p.Float → ℕ → Type 0
  Stands x n = (exact_up_to < n) ⊎ (x ≡ p.of_int n)

  -- The series of the collector, each at its number.
  pub record Shows (failures errors : String → ℕ) (bytes streams limited : ℕ) (c : Collector p)
      : Type 0 where
    pub failures_shown : (l : String) → Stands (p.labelled l c.auth_failures) (failures l)
    pub errors_shown : (l : String) → Stands (p.labelled l c.errors) (errors l)
    pub bytes_shown : Stands (p.value c.bytes) bytes
    pub streams_shown : Stands (p.value c.streams_created) streams
    pub limited_shown : Stands (p.value c.pair_rate_limited) limited

  pub Stands-eq : (x : p.Float) (m n : ℕ) → m ≡ n → Stands x m → Stands x n
  Stands-eq x m n e h = subst (Stands x) e h

  pub keeps : (x : p.Float) (m : ℕ) → Stands x m → Stands x (m + 0)
  keeps x m h = Stands-eq x m (m + 0) (omega arith) h

  module _ (k : IsCounting p) where
    grown :
        (x y : p.Float) (m n : ℕ)
        → (x ≡ p.of_int m → m + n ≤ exact_up_to → y ≡ p.of_int (m + n))
        → Stands x m
        → Stands y (m + n)
    grown x y m n step (inl large) = inl (omega arith)
    grown x y m n step (inr e) = elim (Bool-cases (ltb exact_up_to (m + n))) [
      | inl large ↦ inl (ground (arith, large))
      | inr small ↦ inr (step e (ground (arith, small)))
    ]

    inc-Stands : (c : p.Counter) (m : ℕ) → Stands (p.value c) m → Stands (p.value (p.inc c)) (m + 1)
    inc-Stands c m h = grown (p.value c) (p.value (p.inc c)) m 1 (k.incs m c) h

    inc_label-Stands :
        (j l : String) (v : p.CounterVec) (m : ℕ)
        → Stands (p.labelled l v) m
        → Stands (p.labelled l (p.inc_label j v)) (m + (if j == l then 1 else 0))
    inc_label-Stands j l v m h = elim (String-cases j l) [
      | inl (e, t) ↦
          rw (t, e)
            (grown (p.labelled l v) (p.labelled l (p.inc_label l v)) m 1 (k.incs_label m l v) h)
      | inr (n, t) ↦ rw t (rw (k.keeps_label j l v n) (keeps (p.labelled l v) m h))
    ]

    pub count_bytes-Stands :
        (n m : ℕ) (c : Collector p)
        → Stands (p.value c.bytes) m
        → (d : Collector p) × ((count_bytes p n (some c) ≡ some d)
            × Stands (p.value d.bytes) (m + n)
            × (c ≡ record d { bytes = c.bytes }))
    unfolding count_bytes
    count_bytes-Stands n m c h = elim (Bool-cases (ltb 0 n)) [
      | inl e ↦ rw e (
        _,
        (
          refl,
          grown (p.value c.bytes) (p.value (p.add (p.of_int n) c.bytes)) m n (k.adds m n c.bytes) h,
          refl,
        ),
      )
      | inr e ↦ rw e (c, (refl, Stands-eq (p.value c.bytes) m (m + n) (ground (arith, e)) h, refl))
    ]

    pub auth_failure-Shows :
        (t : String) (a r : String → ℕ) (b s m : ℕ) (c : Collector p)
        → Shows a r b s m c
        → Shows
            (λ l. a l + (if t == l then 1 else 0))
            (λ l. r l + 0)
            (b + 0)
            (s + 0)
            (m + 0)
            (record c { auth_failures = p.inc_label t c.auth_failures })
    auth_failure-Shows t a r b s m c h = record {
      failures_shown = λ l. inc_label-Stands t l c.auth_failures (a l) (h.failures_shown l);
      errors_shown = λ l. keeps _ (r l) (h.errors_shown l);
      bytes_shown = keeps _ b h.bytes_shown;
      streams_shown = keeps _ s h.streams_shown;
      limited_shown = keeps _ m h.limited_shown;
    }

    pub error-Shows :
        (t : String) (a r : String → ℕ) (b s m : ℕ) (c : Collector p)
        → Shows a r b s m c
        → Shows
            (λ l. a l + 0)
            (λ l. r l + (if t == l then 1 else 0))
            (b + 0)
            (s + 0)
            (m + 0)
            (record c { errors = p.inc_label t c.errors })
    error-Shows t a r b s m c h = record {
      failures_shown = λ l. keeps _ (a l) (h.failures_shown l);
      errors_shown = λ l. inc_label-Stands t l c.errors (r l) (h.errors_shown l);
      bytes_shown = keeps _ b h.bytes_shown;
      streams_shown = keeps _ s h.streams_shown;
      limited_shown = keeps _ m h.limited_shown;
    }

    pub stream-Shows :
        (a r : String → ℕ) (b s m : ℕ) (c : Collector p)
        → Shows a r b s m c
        → Shows
            (λ l. a l + 0)
            (λ l. r l + 0)
            (b + 0)
            (s + 1)
            (m + 0)
            (record c { streams_created = p.inc c.streams_created })
    stream-Shows a r b s m c h = record {
      failures_shown = λ l. keeps _ (a l) (h.failures_shown l);
      errors_shown = λ l. keeps _ (r l) (h.errors_shown l);
      bytes_shown = keeps _ b h.bytes_shown;
      streams_shown = inc-Stands c.streams_created s h.streams_shown;
      limited_shown = keeps _ m h.limited_shown;
    }

    pub limited-Shows :
        (a r : String → ℕ) (b s m : ℕ) (c : Collector p)
        → Shows a r b s m c
        → Shows
            (λ l. a l + 0)
            (λ l. r l + 0)
            (b + 0)
            (s + 0)
            (m + 1)
            (record c { pair_rate_limited = p.inc c.pair_rate_limited })
    limited-Shows a r b s m c h = record {
      failures_shown = λ l. keeps _ (a l) (h.failures_shown l);
      errors_shown = λ l. keeps _ (r l) (h.errors_shown l);
      bytes_shown = keeps _ b h.bytes_shown;
      streams_shown = keeps _ s h.streams_shown;
      limited_shown = inc-Stands c.pair_rate_limited m h.limited_shown;
    }

    pub bytes-Shows :
        (n : ℕ) (a r : String → ℕ) (b s m : ℕ) (c : Collector p)
        → Shows a r b s m c
        → (d : Collector p) × ((count_bytes p n (some c) ≡ some d)
            × Shows (λ l. a l + 0) (λ l. r l + 0) (b + n) (s + 0) (m + 0) d)
    bytes-Shows n a r b s m c h =
        let (d, (same, stands, kept)) = count_bytes-Stands n b c h.bytes_shown in
        (
          d,
          (
            same,
            record {
              failures_shown = λ l. keeps _ (a l) (
                  subst (λ (x : Collector p). Stands (p.labelled l x.auth_failures) (a l)) kept
                    (h.failures_shown l));
              errors_shown = λ l. keeps _ (r l) (
                  subst (λ (x : Collector p). Stands (p.labelled l x.errors) (r l)) kept
                    (h.errors_shown l));
              bytes_shown = stands;
              streams_shown = keeps _ s (
                  subst (λ (x : Collector p). Stands (p.value x.streams_created) s) kept
                    h.streams_shown);
              limited_shown = keeps _ m (
                  subst (λ (x : Collector p). Stands (p.value x.pair_rate_limited) m) kept
                    h.limited_shown);
            },
          ),
        )
