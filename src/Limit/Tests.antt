-- ===== src/Limit/Tests.antt =====
-- The pairing limiter's theorems with a concrete token bucket.
use Prim.Native.Nat.{min}
use icy_easy_send.Base.{
  ℕ, ◌+◌, ◌-◌, ◌*◌, ◌≡◌, refl, true, false, List, [], ◌∷◌, lookup, insert, leb, HasUniqueKeys,
  if◌then◌else◌, arith,
}
use icy_easy_send.Limit.{Rate, PairLimiter, new_pair_limiter, allow, sweep, minute}
use icy_easy_send.Limit.Pairing.{
  IsBucket, Call, asks, sweeps, answers_with, answers_without, sweeps_unobserved,
}

-- Five tokens, one each twelve seconds.
abbrev interval : ℕ
interval = 12_000_000_000

-- A level, and the time at which it was measured.
abbrev Level : Type 0
Level = ℕ × ℕ

abbrev level : ℕ → Level → ℕ
level t l = min (5 * interval) (l.0 + (t - l.1))

abbrev bucket : Rate
bucket = record {
  Limiter = Level;
  every = λ i b. (b * i, 0);
  allow = λ t l. (
    leb interval (level t l),
    ((if leb interval (level t l) then level t l - interval else level t l), t),
  );
}

bucket-IsBucket : IsBucket bucket interval 5
bucket-IsBucket = record {
  level = level;
  full_at_first = λ t. omega arith;
  answers = λ t l. refl;
  refills = λ t u l h. omega arith;
}

abbrev history : List Call
history =
    asks 0 "eve"
    ∷ asks 1 "eve"
    ∷ asks 1 "eve"
    ∷ asks 1 "eve"
    ∷ asks 1 "eve"
    ∷ asks 1 "eve"
    ∷ sweeps 70_000_000_000
    ∷ asks 1 "eve"
    ∷ []

sweeps_unobserved_example :
    answers_with bucket minute 5 history (new_pair_limiter bucket 5)
    ≡ answers_without bucket minute 5 history (new_pair_limiter bucket 5)
sweeps_unobserved_example =
    sweeps_unobserved bucket 5 bucket-IsBucket minute 5 history (omega arith)

-- The sixth request in a row is refused, and the one after a minute is not.
sixth_is_refused :
    answers_with bucket minute 5 history (new_pair_limiter bucket 5)
    ≡ true ∷ true ∷ true ∷ true ∷ true ∷ false ∷ true ∷ []
unfolding answers_with allow sweep lookup insert
sixth_is_refused = refl

abbrev asked : PairLimiter bucket.Limiter
asked = (allow bucket "eve" 5 (new_pair_limiter bucket 5)).1

asked_once : HasUniqueKeys asked.limiters
unfolding allow lookup insert
asked_once = (refl, tt)
