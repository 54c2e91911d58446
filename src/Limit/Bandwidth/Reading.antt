-- ===== src/Limit/Bandwidth/Reading.antt =====
-- A throttled read gives what its source gives, in steps of at most the burst.
use icy_easy_send.Base.{ℕ, ◌^◌, ◌≡◌, ◌≤◌, refl, String, true, Option, none, arith}
use icy_easy_send.Base.Int.{ℤ, pos, negsuc, lt_int}
use icy_easy_send.Stream.Errors.{Error}
use icy_easy_send.Limit.Bandwidth.{
  Shaper, IsShaper, BandwidthPool, BandwidthReader, magnitude, burst_of, new_bandwidth_limiter,
  new_bandwidth_pool, limiter_for, wrap, touch, asked, read, sweep, Uses, here, wraps, reads,
  sweeps,
}

burst_of-positive : (bps : ℤ) → lt_int (pos 0) bps ≡ true → 1 ≤ burst_of bps
unfolding burst_of magnitude
burst_of-positive (pos n) h = ground arith
burst_of-positive (negsuc n) h = absurd (ground arith)

burst_of-le : (bps : ℤ) → (burst_of bps ≤ 2 ^ 20) × (burst_of bps ≤ magnitude bps)
unfolding burst_of
burst_of-le bps = (ground arith, ground arith)

module _ (shaper : Shaper) (v : IsShaper shaper) (bps : ℤ) where
  -- Every limiter that was ever made has the burst of the pool's rate.
  record IsShaped (p : BandwidthPool shaper.Limiter) : Type 0 where
    same_bps : p.bps ≡ bps
    bursts : (i : ℕ) → shaper.burst (p.store i) ≡ burst_of bps

  burst-new_bandwidth_limiter : shaper.burst (new_bandwidth_limiter shaper bps) ≡ burst_of bps
  unfolding new_bandwidth_limiter
  burst-new_bandwidth_limiter = v.has_burst (magnitude bps) (burst_of bps)

  wrap-IsShaped :
      (d : String) (now : ℕ) (p : BandwidthPool shaper.Limiter)
      → IsShaped p
      → IsShaped (wrap shaper d now p).1
  unfolding wrap limiter_for
  wrap-IsShaped d now p h = record {
    same_bps = ground (arith, h.same_bps);
    bursts = λ i. ground (arith, h.same_bps, h.bursts i, burst-new_bandwidth_limiter);
  }

  read-IsShaped :
      (b : BandwidthReader) (src : ℕ → ℕ × Option Error) (size now : ℕ)
      (p : BandwidthPool shaper.Limiter)
      → IsShaped p
      → IsShaped (read shaper b src size now p).1
  unfolding read touch
  read-IsShaped b src size now p h =
      let n = (src (asked shaper b size p)).0 in
      record {
        same_bps = ground (arith, h.same_bps);
        bursts = λ i.
            ground (arith, h.bursts i, h.bursts b.limiter, v.keeps_burst n (p.store b.limiter));
      }

  Uses-IsShaped :
      (lasts : BandwidthPool shaper.Limiter → ℕ → ℕ → Type 0) (p : BandwidthPool shaper.Limiter)
      → Uses shaper lasts (new_bandwidth_pool shaper bps) p
      → IsShaped p
  unfolding sweep
  Uses-IsShaped lasts p here = record { same_bps = refl; bursts = λ i. burst-new_bandwidth_limiter }
  Uses-IsShaped lasts p (wraps {q} d now u) = wrap-IsShaped d now q (Uses-IsShaped lasts q u)
  Uses-IsShaped lasts p (reads {q} b src size now u) =
      read-IsShaped b src size now q (Uses-IsShaped lasts q u)
  Uses-IsShaped lasts p (sweeps {q} max_idle now l u) =
      let h = Uses-IsShaped lasts q u in record { same_bps = h.same_bps; bursts = h.bursts }

  -- Where the wait is granted, Read returns what the source did.
  passes :
      (b : BandwidthReader) (src : ℕ → ℕ × Option Error) (size now : ℕ)
      (p : BandwidthPool shaper.Limiter)
      → let n = asked shaper b size p in
        (shaper.wait_n (src n).0 (p.store b.limiter)).0 ≡ none
        → (read shaper b src size now p).0 ≡ src n
  unfolding read
  passes b src size now p granted = ground (arith, granted)

  -- A throttled stream stays whole. Let the library's limiter keep its burst and grant what is within
  -- it, and let a source never return more bytes than it is asked for. Then in every state that the
  -- pool comes to, a read into a buffer asks the source for no more than the buffer, one second of the
  -- pool's rate or a mebibyte, and for at least one byte if the buffer has room and the rate is
  -- positive; and it returns exactly what the source returned: waiting neither fails it nor loses bytes.
  pub read_is_transparent :
      (lasts : BandwidthPool shaper.Limiter → ℕ → ℕ → Type 0) (p : BandwidthPool shaper.Limiter)
      (b : BandwidthReader) (src : ℕ → ℕ × Option Error) (size now : ℕ)
      → Uses shaper lasts (new_bandwidth_pool shaper bps) p
      → ((n : ℕ) → (src n).0 ≤ n)
      → let n = asked shaper b size p in
        (n ≤ size)
        × (n ≤ magnitude bps)
        × (n ≤ 2 ^ 20)
        × (lt_int (pos 0) bps ≡ true → 1 ≤ size → 1 ≤ n)
        × ((read shaper b src size now p).0 ≡ src n)
  unfolding asked
  read_is_transparent lasts p b src size now u contract =
      let h = (Uses-IsShaped lasts p u).bursts b.limiter in
      let n = asked shaper b size p in
      let within : n ≤ shaper.burst (p.store b.limiter) = ground arith in
      let le = burst_of-le bps in
      (
        ground arith,
        ground (arith, h, le),
        ground (arith, h, le),
        λ rate room. ground (arith, h, burst_of-positive bps rate),
        passes b src size now p
            (v.grants (src n).0 (p.store b.limiter) (omega (arith, contract n))),
      )
