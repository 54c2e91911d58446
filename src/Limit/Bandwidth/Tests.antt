-- ===== src/Limit/Bandwidth/Tests.antt =====
-- The bandwidth pool's theorems with a concrete limiter, which counts what it grants.
use icy_easy_send.Base.{
  ℕ, ◌+◌, ◌*◌, ◌^◌, ◌≡◌, ◌≢◌, ◌≤◌, refl, String, false, Option, none, some, lookup, insert, leb,
  if◌then◌else◌, arith, eq_iff,
}
use icy_easy_send.Base.Int.{ℤ, pos}
use icy_easy_send.Stream.Errors.{Error, foreign}
use icy_easy_send.Limit.Bandwidth.{
  Shaper, IsShaper, BandwidthPool, BandwidthReader, new_bandwidth_pool, wrap, asked, read, here,
  wraps, magnitude, burst_of, sweep, sweeps,
}
use icy_easy_send.Limit.Bandwidth.Reading.{read_is_transparent}
use icy_easy_send.Limit.Bandwidth.Sharing.{Spares, one_budget_per_device}

-- The burst, and the bytes granted so far.
abbrev counter : Shaper
counter = record {
  Limiter = ℕ × ℕ;
  new_limiter = λ bps n. (n, 0);
  burst = λ l. l.0;
  wait_n = λ n l. (
    (if leb n l.0 then none else some (foreign false "rate: Wait(n) exceeds limiter's burst")),
    (l.0, l.1 + n),
  );
}

counter-IsShaper : IsShaper counter
counter-IsShaper = record {
  has_burst = λ bps n. refl;
  keeps_burst = λ n l. refl;
  grants = λ n l h. ground arith;
}

abbrev alice : String
alice = "alice"

-- Two megabytes a second.
abbrev rate : ℤ
rate = pos 2_000_000

abbrev AllSweeps : BandwidthPool counter.Limiter → ℕ → ℕ → Type 0
AllSweeps p max_idle now = Unit

abbrev empty_pool : BandwidthPool counter.Limiter
empty_pool = new_bandwidth_pool counter rate

abbrev one_stream : BandwidthPool counter.Limiter
one_stream = (wrap counter alice 5 empty_pool).1

abbrev reader : BandwidthReader
reader = record { limiter = 0; touches = some alice }

-- A source that fills what it is asked for.
abbrev zeros : ℕ → ℕ × Option Error
zeros n = (n, none)

-- Three mebibytes of room: the read is cut to one.
read_is_transparent_example :
    (asked counter reader (3 * 2 ^ 20) one_stream ≤ 2 ^ 20)
    × ((read counter reader zeros (3 * 2 ^ 20) 6 one_stream).0
        ≡ zeros (asked counter reader (3 * 2 ^ 20) one_stream))
read_is_transparent_example =
    let out =
      read_is_transparent counter counter-IsShaper rate AllSweeps one_stream reader zeros
        (3 * 2 ^ 20) 6 (wraps alice 5 here) (λ n. omega arith) in
    (out.2, out.4)

asked_mebibyte : asked counter reader (3 * 2 ^ 20) one_stream ≡ 2 ^ 20
unfolding asked wrap lookup insert burst_of magnitude
asked_mebibyte = refl

wrapped : (wrap counter alice 5 empty_pool).0 ≡ some reader
unfolding wrap lookup
wrapped = refl

-- A sweep a minute later.
abbrev swept : BandwidthPool counter.Limiter
swept = (sweep counter 600 65 one_stream).1

spared : Spares counter alice one_stream 600 65
unfolding wrap lookup insert
spared e found = ground (arith, found)

wrapped_again : (wrap counter alice 70 swept).0 ≡ some reader
unfolding wrap lookup sweep insert
wrapped_again = refl

-- Bob's first stream.
abbrev other : BandwidthReader
other = record { limiter = 1; touches = some "bob" }

wrapped_other : (wrap counter "bob" 70 swept).0 ≡ some other
unfolding wrap lookup sweep insert
wrapped_other = refl

bob_ne_alice : alice ≢ "bob"
bob_ne_alice e = absurd (ground (arith, e, eq_iff alice "bob"))

one_budget_per_device_example : (other.limiter ≢ reader.limiter) × (reader.limiter ≡ reader.limiter)
one_budget_per_device_example =
    let out = one_budget_per_device counter rate AllSweeps empty_pool alice 5 reader here wrapped in
    (
      out.0 swept "bob" 70 other (sweeps 600 65 tt here) bob_ne_alice wrapped_other,
      out.1 swept 70 reader (sweeps 600 65 spared here) wrapped_again,
    )
