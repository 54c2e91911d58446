-- ===== src/Limit.antt =====
-- relay/internal/limit/limit.go: the pairing limiter.
--
-- golang.org/x/time/rate is the parameter `Rate`. Times are nanoseconds.
pub mod Pairing
pub mod Bandwidth
mod Tests
use icy_easy_send.Base.{
  ℕ, ◌+◌, ◌-◌, ◌*◌, ◌/◌, ◌^◌, ◌≤◌, ◌≡◌, String, Bool, true, false, not, Option, none, some, List,
  [], ◌∷◌, Map, lookup, insert, length, ltb, eqb, if◌then◌else◌,
}

-- `Limiter` is the type of the limiters that one component makes, which all have one rate and burst.
-- What the code uses of rate.Limiter: making one from the time between two tokens and a burst, and
-- taking one token at a time, if there is one.
pub record Rate : Type 1 where
  pub Limiter : Type 0
  pub every : ℕ → ℕ → Limiter
  pub allow : ℕ → Limiter → Bool × Limiter

abbrev pub minute : ℕ
minute = 60 * 1_000_000_000

-- `entry`, over the type of limiters
pub record Entry (L : Type 0) : Type 0 where
  pub limiter : L
  pub last_seen : ℕ

pub record PairLimiter (L : Type 0) : Type 0 where
  pub limiters : Map (Entry L)
  pub per_min : ℕ

-- The test of a Sweep's loop, negated: not `lastSeen.Before(now - maxIdle)`.
abbrev pub is_recent : {L : Type 0} → ℕ → ℕ → Entry L → Bool
is_recent max_idle now e = not (ltb (e.last_seen + max_idle) now)

-- The loop of a Sweep: what stays, and how many go.
unfoldable pub sweep_entries : {L : Type 0} → ℕ → ℕ → Map (Entry L) → ℕ × Map (Entry L)
sweep_entries max_idle now [] = (0, [])
sweep_entries max_idle now ((id, e) ∷ rest) =
    let (removed, kept) = sweep_entries max_idle now rest in
    if ltb (e.last_seen + max_idle) now then (removed + 1, kept) else (removed, (id, e) ∷ kept)

module _ (rate : Rate) where
  open rate use {Limiter}

  abbrev pub new_pair_limiter : ℕ → PairLimiter Limiter
  new_pair_limiter per_min = record { limiters = []; per_min = per_min }

  -- The limiter of a device that is not tracked yet.
  unfoldable pub fresh_limiter : ℕ → Limiter
  fresh_limiter per_min = rate.every (minute / per_min) per_min

  -- The device's limiter in the table, or a fresh one.
  unfoldable pub limiter_of : String → PairLimiter Limiter → Limiter
  unfolding fresh_limiter
  limiter_of d p = elim (lookup d p.limiters) [
    | none ↦ fresh_limiter p.per_min
    | some e ↦ e.limiter
  ]

  -- Allow. One minute divided by `per_min` panics at zero, which config.Load excludes.
  unfoldable pub allow : String → ℕ → PairLimiter Limiter → Bool × PairLimiter Limiter
  unfolding limiter_of
  allow d now p =
      let (answer, l) = rate.allow now (limiter_of d p) in
      (
        answer,
        record p { limiters = insert d (record { limiter = l; last_seen = now }) p.limiters },
      )

  unfoldable pub sweep : ℕ → ℕ → PairLimiter Limiter → ℕ × PairLimiter Limiter
  unfolding sweep_entries
  sweep max_idle now p =
      let (removed, kept) = sweep_entries max_idle now p.limiters in
      (removed, record p { limiters = kept })

  unfoldable pub len : PairLimiter Limiter → ℕ
  len p = length p.limiters
