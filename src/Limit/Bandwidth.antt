-- ===== src/Limit/Bandwidth.antt =====
-- relay/internal/limit/limit.go: the bandwidth pool and the readers that draw from it.
--
-- golang.org/x/time/rate is the parameter `Shaper`. The streams of a device share one `*rate.Limiter`,
-- so limiters stand in a store and a reference is a number. Times are nanoseconds; a pool is not nil.
-- A Read is one step: its `now` is the time of its touch, and what its WaitN waits is not modelled.
pub mod Table
pub mod Sharing
pub mod Reading
mod Tests
use icy_easy_send.Base.{
  ℕ, ◌+◌, ◌^◌, ◌≡◌, ◌≤◌, String, Bool, true, false, not, Option, none, some, Map, [], ◌∷◌, lookup,
  insert, length, ltb, eqb, if◌then◌else◌,
}
use icy_easy_send.Base.Int.{ℤ, pos, negsuc, lt_int}
use icy_easy_send.Stream.Errors.{Error}
use icy_easy_send.Limit.{Entry, sweep_entries}

-- What the code uses of rate.Limiter here: NewLimiter with bytes per second and a burst, Burst, and
-- WaitN without a deadline, which may refuse.
pub record Shaper : Type 1 where
  pub Limiter : Type 0
  pub new_limiter : ℕ → ℕ → Limiter
  pub burst : Limiter → ℕ
  pub wait_n : ℕ → Limiter → Option Error × Limiter

-- `bwEntry`, with a reference to its limiter.
abbrev pub BwEntry : Type 0
BwEntry = Entry ℕ

-- The pool, with all limiters that were made.
pub record BandwidthPool (L : Type 0) : Type 0 where
  pub limiters : Map BwEntry
  pub bps : ℤ
  pub store : ℕ → L
  pub made : ℕ

-- `bandwidthReader`: its limiter, and the device that its `touch` looks up, if it has one.
pub record BandwidthReader : Type 0 where
  pub limiter : ℕ
  pub touches : Option String

-- A positive int64 as a number.
unfoldable pub magnitude : ℤ → ℕ
magnitude (pos n) = n
magnitude (negsuc n) = 0

-- min(bps, 1<<20)
unfoldable pub burst_of : ℤ → ℕ
unfolding magnitude
burst_of bps = if ltb (magnitude bps) (2 ^ 20) then magnitude bps else 2 ^ 20

-- What the code relies on: a limiter keeps its burst, and WaitN without a deadline refuses no more
-- than the burst.
pub record IsShaper (shaper : Shaper) : Type 0 where
  pub has_burst : (bps n : ℕ) → shaper.burst (shaper.new_limiter bps n) ≡ n
  pub keeps_burst :
      (n : ℕ) (l : shaper.Limiter) → shaper.burst (shaper.wait_n n l).1 ≡ shaper.burst l
  pub grants : (n : ℕ) (l : shaper.Limiter) → n ≤ shaper.burst l → (shaper.wait_n n l).0 ≡ none

abbrev pub set_limiter : {L : Type 0} → ℕ → L → (ℕ → L) → ℕ → L
set_limiter i l store j = if eqb i j then l else store j

module _ (shaper : Shaper) where
  open shaper use {Limiter}

  -- newBandwidthLimiter
  unfoldable pub new_bandwidth_limiter : ℤ → Limiter
  unfolding magnitude burst_of
  new_bandwidth_limiter bps = shaper.new_limiter (magnitude bps) (burst_of bps)

  abbrev pub new_bandwidth_pool : ℤ → BandwidthPool Limiter
  new_bandwidth_pool bps = record {
    limiters = [];
    bps = bps;
    store = λ i. new_bandwidth_limiter bps;
    made = 0;
  }

  -- The device's limiter, which is made if it is not tracked.
  unfoldable pub limiter_for : String → BandwidthPool Limiter → ℕ × BandwidthPool Limiter
  unfolding new_bandwidth_limiter
  limiter_for d p = elim (lookup d p.limiters) [
    | some e ↦ (e.limiter, p)
    | none ↦ (
      p.made,
      record p {
        store = set_limiter p.made (new_bandwidth_limiter p.bps) p.store;
        made = p.made + 1;
      },
    )
  ]

  -- Wrap: no reader means that the source comes back unchanged.
  unfoldable pub wrap :
      String → ℕ → BandwidthPool Limiter → Option BandwidthReader × BandwidthPool Limiter
  unfolding limiter_for
  wrap d now p =
      let (i, q) = limiter_for d p in
      if not (lt_int (pos 0) p.bps) then (none, p) else (
        some (record { limiter = i; touches = some d }),
        record q { limiters = insert d (record { limiter = i; last_seen = now }) q.limiters },
      )

  -- NewBandwidthReader: its limiter is nobody else's.
  unfoldable pub new_bandwidth_reader :
      ℤ → BandwidthPool Limiter → Option BandwidthReader × BandwidthPool Limiter
  unfolding new_bandwidth_limiter
  new_bandwidth_reader bps p = if not (lt_int (pos 0) bps) then (none, p) else (
    some (record { limiter = p.made; touches = none }),
    record p { store = set_limiter p.made (new_bandwidth_limiter bps) p.store; made = p.made + 1 },
  )

  -- The closure `touch`.
  unfoldable pub touch : Option String → ℕ → BandwidthPool Limiter → BandwidthPool Limiter
  touch none now p = p
  touch (some d) now p = elim (lookup d p.limiters) [
    | none ↦ p
    | some e ↦ record p { limiters = insert d (record e { last_seen = now }) p.limiters }
  ]

  -- The length that Read asks its source for.
  unfoldable pub asked : BandwidthReader → ℕ → BandwidthPool Limiter → ℕ
  asked b size p =
      let burst = shaper.burst (p.store b.limiter) in if ltb burst size then burst else size

  -- An error of the source comes before one of the wait.
  abbrev first_error : Option Error → Option Error → Option Error
  first_error (some e) w = some e
  first_error none w = w

  -- Read into a buffer of `size` bytes; `src` is what the source returns for a length.
  unfoldable pub read :
      BandwidthReader
      → (ℕ → ℕ × Option Error)
      → ℕ
      → ℕ
      → BandwidthPool Limiter
      → (ℕ × Option Error) × BandwidthPool Limiter
  unfolding asked touch
  read b src size now p =
      let (n, err) = src (asked b size p) in
      let (wait_err, l) = shaper.wait_n n (p.store b.limiter) in
      let q = touch b.touches now p in
      if not (ltb 0 n)
      then ((n, err), p)
      else ((n, first_error err wait_err), record q { store = set_limiter b.limiter l q.store })

  unfoldable pub sweep : ℕ → ℕ → BandwidthPool Limiter → ℕ × BandwidthPool Limiter
  unfolding sweep_entries
  sweep max_idle now p =
      let (removed, kept) = sweep_entries max_idle now p.limiters in
      (removed, record p { limiters = kept })

  unfoldable pub len : BandwidthPool Limiter → ℕ
  len p = length p.limiters

  -- What the streams of all devices and the sweeper do to the pool. `lasting` tells of each sweep
  -- whether it may be made.
  pub data Uses (lasts : BandwidthPool Limiter → ℕ → ℕ → Type 0) (p : BandwidthPool Limiter)
      : BandwidthPool Limiter → Type 0 where
    here : Uses lasts p p
    wraps :
        {q : BandwidthPool Limiter} (d : String) (now : ℕ)
        → Uses lasts p q
        → Uses lasts p (wrap d now q).1
    reads :
        {q : BandwidthPool Limiter} (b : BandwidthReader) (src : ℕ → ℕ × Option Error)
        (size now : ℕ)
        → Uses lasts p q
        → Uses lasts p (read b src size now q).1
    sweeps :
        {q : BandwidthPool Limiter} (max_idle now : ℕ)
        → lasts q max_idle now
        → Uses lasts p q
        → Uses lasts p (sweep max_idle now q).1
