-- ===== src/Limit/Pairing.antt =====
-- Forgetting idle devices does not change what the pairing limiter answers.
use Prim.Native.Nat.{min}
use icy_easy_send.Base.{
  ℕ, ◌+◌, ◌-◌, ◌*◌, ◌/◌, ◌≤◌, ◌≡◌, inl, inr, refl, ap, sym, ◌∙◌, String, Bool, some, List, [], ◌∷◌,
  Map, lookup, retain, keep_if, lookup-insert, lookup-retain, insert-HasUniqueKeys,
  retain-HasUniqueKeys, HasUniqueKeys, length, ltb, leb, if◌then◌else◌, ◌==◌, arith, Option-cases,
  Bool-cases,
}
use icy_easy_send.Limit.{
  Rate, Entry, PairLimiter, is_recent, sweep_entries, new_pair_limiter, fresh_limiter, limiter_of,
  allow, sweep, len, minute,
}

pub kept-sweep_entries :
    {L : Type 0} (max_idle now : ℕ) (m : Map (Entry L))
    → (sweep_entries max_idle now m).1 ≡ retain (is_recent max_idle now) m
unfolding sweep_entries retain
kept-sweep_entries max_idle now [] = refl
kept-sweep_entries max_idle now ((k, e) ∷ m) = ground (arith, kept-sweep_entries max_idle now m)

removed-sweep_entries :
    {L : Type 0} (max_idle now : ℕ) (m : Map (Entry L))
    → (sweep_entries max_idle now m).0 + length (sweep_entries max_idle now m).1 ≡ length m
unfolding sweep_entries
removed-sweep_entries max_idle now [] = refl
removed-sweep_entries max_idle now ((k, e) ∷ m) =
    ground (arith, removed-sweep_entries max_idle now m)

-- The token bucket that the package documents: a bucket of `burst` tokens, full at first and refilled
-- by one token each `interval`, up to the burst; a request takes one token, and is refused if there
-- is none. Levels are counted in the time that it takes to fill them.
pub record IsBucket (rate : Rate) (interval burst : ℕ) : Type 0 where
  pub level : ℕ → rate.Limiter → ℕ
  pub full_at_first : (t : ℕ) → level t (rate.every interval burst) ≡ burst * interval
  pub answers : (t : ℕ) (l : rate.Limiter) → (rate.allow t l).0 ≡ leb interval (level t l)
  pub refills :
      (t u : ℕ) (l : rate.Limiter)
      → t ≤ u
      → level u (rate.allow t l).1
        ≡ min
            (burst * interval)
            ((if leb interval (level t l) then level t l - interval else level t l) + (u - t))

-- The calls on the limiter, each with the time since the one before.
pub data Call : Type 0 where
  asks : ℕ → String → Call
  sweeps : ℕ → Call

module _ (rate : Rate) (max_idle : ℕ) where
  -- The answers to the pairing requests of a history, with the sweeps made and without them.
  unfoldable pub answers_with : ℕ → List Call → PairLimiter rate.Limiter → List Bool
  answers_with now [] p = []
  answers_with now (asks dt d ∷ cs) p =
      let (answer, q) = allow rate d (now + dt) p in answer ∷ answers_with (now + dt) cs q
  answers_with now (sweeps dt ∷ cs) p =
      answers_with (now + dt) cs (sweep rate max_idle (now + dt) p).1

  unfoldable pub answers_without : ℕ → List Call → PairLimiter rate.Limiter → List Bool
  answers_without now [] p = []
  answers_without now (asks dt d ∷ cs) p =
      let (answer, q) = allow rate d (now + dt) p in answer ∷ answers_without (now + dt) cs q
  answers_without now (sweeps dt ∷ cs) p = answers_without (now + dt) cs p

-- The table of one history against that of the other: the same level for every device, from now on;
-- and a device that was last seen at some time has by now at least what was refilled since.
record Agrees (rate : Rate) (per_min : ℕ) (b : IsBucket rate (minute / per_min) per_min) (now : ℕ)
    (p q : PairLimiter rate.Limiter) : Type 0 where
  rate_p : p.per_min ≡ per_min
  rate_q : q.per_min ≡ per_min
  unique : HasUniqueKeys p.limiters
  levels :
      (d : String) (t : ℕ)
      → now ≤ t
      → b.level t (limiter_of rate d p) ≡ b.level t (limiter_of rate d q)
  filled :
      (d : String) (e : Entry rate.Limiter) (t : ℕ)
      → lookup d p.limiters ≡ some e
      → now ≤ t
      → (min (per_min * (minute / per_min)) (t - e.last_seen) ≤ b.level t e.limiter)
        × (b.level t e.limiter ≤ per_min * (minute / per_min))

module _ (rate : Rate) (per_min : ℕ) (b : IsBucket rate (minute / per_min) per_min) where
  abbrev bucket_size : ℕ
  bucket_size = per_min * (minute / per_min)

  limiter_of-allow :
      (d k : String) (t : ℕ) (p : PairLimiter rate.Limiter)
      → limiter_of rate k (allow rate d t p).1
        ≡ (if d == k then (rate.allow t (limiter_of rate d p)).1 else limiter_of rate k p)
  unfolding allow
  limiter_of-allow d k t p =
      let e : Entry rate.Limiter = record {
        limiter = (rate.allow t (limiter_of rate d p)).1;
        last_seen = t;
      } in
      rw (limiter_of, lookup-insert d k e p.limiters) (ground arith)

  allow-Agrees :
      (d : String) (now t : ℕ) (p q : PairLimiter rate.Limiter)
      → now ≤ t
      → Agrees rate per_min b now p q
      → ((allow rate d t p).0 ≡ (allow rate d t q).0)
        × Agrees rate per_min b t (allow rate d t p).1 (allow rate d t q).1
  unfolding allow
  allow-Agrees d now t p q le a =
      let lp = limiter_of rate d p in
      let lq = limiter_of rate d q in
      let same : b.level t lp ≡ b.level t lq = a.levels d t le in
      let e : Entry rate.Limiter = record { limiter = (rate.allow t lp).1; last_seen = t } in
      (
        b.answers t lp ∙ (ap (leb (minute / per_min)) same ∙ sym (b.answers t lq)),
        record {
          rate_p = a.rate_p;
          rate_q = a.rate_q;
          unique = insert-HasUniqueKeys d e p.limiters a.unique;
          levels = λ k u h. ground (
            arith,
            limiter_of-allow d k t p,
            limiter_of-allow d k t q,
            a.levels k u,
            same,
            b.refills t u lp h,
            b.refills t u lq h,
            le,
          );
          filled = λ k x u found h.
              ground (arith, lookup-insert d k e p.limiters, a.filled k x u, b.refills t u lp h);
        },
      )

  fresh-level :
      (t : ℕ) (p : PairLimiter rate.Limiter)
      → p.per_min ≡ per_min
      → b.level t (fresh_limiter rate p.per_min) ≡ bucket_size
  unfolding fresh_limiter
  fresh-level t p e = rw e (b.full_at_first t)

  size-le-minute : bucket_size ≤ minute
  size-le-minute = grind arith

  level-sweep :
      (max_idle now t : ℕ) (p : PairLimiter rate.Limiter) (k : String) (u : ℕ)
      (q : PairLimiter rate.Limiter)
      → minute ≤ max_idle
      → now ≤ t
      → t ≤ u
      → Agrees rate per_min b now p q
      → b.level u (limiter_of rate k (sweep rate max_idle t p).1) ≡ b.level u (limiter_of rate k p)
  unfolding sweep limiter_of
  level-sweep max_idle now t p k u q long le h a =
      let kept = kept-sweep_entries max_idle t p.limiters in
      let at = lookup-retain (is_recent max_idle t) k p.limiters a.unique in
      let fresh = fresh-level u p a.rate_p in
      elim (Option-cases (lookup k p.limiters)) [
        | inl off ↦ rw (kept, at, limiter_of, off)
        | inr (e, on) ↦ elim (Bool-cases (ltb (e.last_seen + max_idle) t)) [
          | inr young ↦ rw (kept, at, limiter_of, on, young)
          | inl idle ↦
              let f = a.filled k e u on (omega arith) in
              rw (kept, at, limiter_of, on, idle, fresh) (ground (arith, f, size-le-minute))
        ]
      ]

  sweep-Agrees :
      (max_idle now t : ℕ) (p q : PairLimiter rate.Limiter)
      → minute ≤ max_idle
      → now ≤ t
      → Agrees rate per_min b now p q
      → Agrees rate per_min b t (sweep rate max_idle t p).1 q
  unfolding sweep
  sweep-Agrees max_idle now t p q long le a =
      let kept = kept-sweep_entries max_idle t p.limiters in
      let at = λ (k : String). lookup-retain (is_recent max_idle t) k p.limiters a.unique in
      record {
        rate_p = a.rate_p;
        rate_q = a.rate_q;
        unique = rw kept (retain-HasUniqueKeys (is_recent max_idle t) p.limiters a.unique);
        levels =
            λ k u h. level-sweep max_idle now t p k u q long le h a ∙ a.levels k u (omega arith);
        filled = λ k x u found h. ground (arith, kept, at k, a.filled k x u);
      }

  answers-Agrees :
      (max_idle now : ℕ) (cs : List Call) (p q : PairLimiter rate.Limiter)
      → minute ≤ max_idle
      → Agrees rate per_min b now p q
      → answers_with rate max_idle now cs p ≡ answers_without rate max_idle now cs q
  unfolding answers_with answers_without
  answers-Agrees max_idle now [] p q long a = refl
  answers-Agrees max_idle now (asks dt d ∷ cs) p q long a =
      let (same, next) = allow-Agrees d now (now + dt) p q (omega arith) a in
      ground (
        arith,
        same,
        answers-Agrees max_idle (now + dt) cs (allow rate d (now + dt) p).1
            (allow rate d (now + dt) q).1 long next,
      )
  answers-Agrees max_idle now (sweeps dt ∷ cs) p q long a =
      answers-Agrees max_idle (now + dt) cs (sweep rate max_idle (now + dt) p).1 q long
        (sweep-Agrees max_idle now (now + dt) p q long (omega arith) a)

  -- Forgetting idle devices is not observable. If the library's limiter is a token bucket of
  -- `per_min` tokens that refills by one token each minute / `per_min`, and a device is forgotten
  -- only after at least a minute, then in every history of pairing requests and sweeps each request
  -- gets the answer that it would get if nothing were ever forgotten.
  pub sweeps_unobserved :
      (max_idle now : ℕ) (cs : List Call)
      → minute ≤ max_idle
      → answers_with rate max_idle now cs (new_pair_limiter rate per_min)
        ≡ answers_without rate max_idle now cs (new_pair_limiter rate per_min)
  unfolding lookup
  sweeps_unobserved max_idle now cs long = answers-Agrees max_idle now cs _ _ long (record {
    rate_p = refl;
    rate_q = refl;
    unique = tt;
    levels = λ d t h. refl;
    filled = λ d e t found h. absurd (ground arith);
  })

-- Sweep forgets exactly the devices that were last seen more than `max_idle` ago: every other device
-- keeps its limiter; it returns their number. A request touches the asking device's entry alone.
pub forgets_exactly :
    (rate : Rate) (max_idle now : ℕ) (d : String) (p : PairLimiter rate.Limiter)
    → HasUniqueKeys p.limiters
    → ((sweep rate max_idle now p).0 + len rate (sweep rate max_idle now p).1 ≡ len rate p)
      × ((k : String)
          → lookup k (sweep rate max_idle now p).1.limiters
            ≡ keep_if (λ e. leb now (e.last_seen + max_idle)) (lookup k p.limiters))
      × ((k : String)
          → lookup k (allow rate d now p).1.limiters ≡ (
              if d == k
              then some
                  (record { limiter = (rate.allow now (limiter_of rate d p)).1; last_seen = now })
              else lookup k p.limiters))
unfolding sweep len allow
forgets_exactly rate max_idle now d p u = (
  removed-sweep_entries max_idle now p.limiters,
  λ k. ground (
    arith,
    kept-sweep_entries max_idle now p.limiters,
    lookup-retain (is_recent max_idle now) k p.limiters u,
  ),
  λ k. lookup-insert d k _ p.limiters,
)
