-- ===== src/Limit/Bandwidth/Sharing.antt =====
-- All streams of a device draw from one limiter, and those of two devices from two.
use icy_easy_send.Base.{
  ℕ, ◌≡◌, ◌≢◌, ◌<◌, sym, subst, ◌∙◌, String, Bool, Option, none, some, lookup, lookup-insert, ltb,
  arith, eq_refl, Option-cases, Bool-cases, inl, inr,
}
use icy_easy_send.Base.Int.{ℤ, pos, lt_int}
use icy_easy_send.Stream.Errors.{Error}
use icy_easy_send.Limit.{is_recent}
use icy_easy_send.Limit.Pairing.{kept-sweep_entries}
use icy_easy_send.Limit.Bandwidth.Table.{
  IsTable, IsOf, Has, Change, unchanged, makes, refreshes, forgets, Change-IsTable, Change-IsOf,
  Change-Has, empty-IsTable, SparesIn, AnySweep,
}
use icy_easy_send.Limit.Bandwidth.{
  Shaper, BandwidthPool, BandwidthReader, BwEntry, new_bandwidth_pool, limiter_for, wrap, touch,
  asked, read, sweep, Uses, here, wraps, reads, sweeps,
}

module _ (shaper : Shaper) where
  wrap-Change :
      (may : (BwEntry → Bool) → Type 0) (d : String) (now : ℕ) (p : BandwidthPool shaper.Limiter)
      → let q = (wrap shaper d now p).1 in Change may p.limiters p.made q.limiters q.made
  unfolding wrap limiter_for
  wrap-Change may d now p = elim (Bool-cases (lt_int (pos 0) p.bps)) [
    | inr off ↦ rw (off, wrap) unchanged
    | inl on ↦ elim (Option-cases (lookup d p.limiters)) [
      | inl new ↦ rw (on, new, wrap, limiter_for) (makes d now new)
      | inr (e, old) ↦ rw (on, old, wrap, limiter_for) (refreshes d now e old)
    ]
  ]

  touch-Change :
      (may : (BwEntry → Bool) → Type 0) (o : Option String) (now : ℕ)
      (p : BandwidthPool shaper.Limiter)
      → let q = touch shaper o now p in Change may p.limiters p.made q.limiters q.made
  unfolding touch
  touch-Change may none now p = unchanged
  touch-Change may (some d) now p = elim (Option-cases (lookup d p.limiters)) [
    | inl new ↦ rw (new, touch) unchanged
    | inr (e, old) ↦ rw (old, touch) (refreshes d now e old)
  ]

  read-Change :
      (may : (BwEntry → Bool) → Type 0) (b : BandwidthReader) (src : ℕ → ℕ × Option Error)
      (size now : ℕ) (p : BandwidthPool shaper.Limiter)
      → let q = (read shaper b src size now p).1 in Change may p.limiters p.made q.limiters q.made
  unfolding read
  read-Change may b src size now p = elim (Bool-cases (ltb 0 (src (asked shaper b size p)).0)) [
    | inr nothing ↦ rw nothing unchanged
    | inl some' ↦ rw some' (touch-Change may b.touches now p)
  ]

  sweep-Change :
      (may : (BwEntry → Bool) → Type 0) (max_idle now : ℕ) (p : BandwidthPool shaper.Limiter)
      → may (is_recent max_idle now)
      → let q = (sweep shaper max_idle now p).1 in Change may p.limiters p.made q.limiters q.made
  unfolding sweep
  sweep-Change may max_idle now p f =
      rw (kept-sweep_entries max_idle now p.limiters) (forgets (is_recent max_idle now) f)

  -- After Wrap the device has the limiter of the reader.
  wrap-Has :
      (d : String) (now : ℕ) (p : BandwidthPool shaper.Limiter) (b : BandwidthReader)
      → (wrap shaper d now p).0 ≡ some b
      → Has d b.limiter (wrap shaper d now p).1.limiters
  unfolding wrap limiter_for
  wrap-Has d now p b h =
      let e : BwEntry = record { limiter = b.limiter; last_seen = now } in
      (e, ground (arith, h, eq_refl d, lookup-insert d d e p.limiters))

  Uses-IsTable :
      (lasts : BandwidthPool shaper.Limiter → ℕ → ℕ → Type 0) {p q : BandwidthPool shaper.Limiter}
      → Uses shaper lasts p q
      → IsTable p.limiters p.made
      → IsTable q.limiters q.made
  Uses-IsTable lasts here t = t
  Uses-IsTable lasts (wraps {q = r} d now u) t =
      Change-IsTable (wrap-Change AnySweep d now r) (Uses-IsTable lasts u t)
  Uses-IsTable lasts (reads {q = r} b src size now u) t =
      Change-IsTable (read-Change AnySweep b src size now r) (Uses-IsTable lasts u t)
  Uses-IsTable lasts (sweeps {q = r} max_idle now l u) t =
      Change-IsTable (sweep-Change AnySweep max_idle now r tt) (Uses-IsTable lasts u t)

  Uses-IsOf :
      (lasts : BandwidthPool shaper.Limiter → ℕ → ℕ → Type 0) (d : String) (i : ℕ)
      {p q : BandwidthPool shaper.Limiter}
      → Uses shaper lasts p q
      → IsTable p.limiters p.made
      → IsOf d i p.limiters p.made
      → IsOf d i q.limiters q.made
  Uses-IsOf lasts d i here t h = h
  Uses-IsOf lasts d i (wraps {q = r} k now u) t h =
      Change-IsOf d i (wrap-Change AnySweep k now r) (Uses-IsTable lasts u t)
        (Uses-IsOf lasts d i u t h)
  Uses-IsOf lasts d i (reads {q = r} b src size now u) t h =
      Change-IsOf d i (read-Change AnySweep b src size now r) (Uses-IsTable lasts u t)
        (Uses-IsOf lasts d i u t h)
  Uses-IsOf lasts d i (sweeps {q = r} max_idle now l u) t h =
      Change-IsOf d i (sweep-Change AnySweep max_idle now r tt) (Uses-IsTable lasts u t)
        (Uses-IsOf lasts d i u t h)

  -- The sweeps that find the device seen in time.
  abbrev pub Spares : String → BandwidthPool shaper.Limiter → ℕ → ℕ → Type 0
  Spares d p max_idle now = SparesIn d p.limiters (is_recent max_idle now)

  Uses-Has :
      (d : String) (i : ℕ) {p q : BandwidthPool shaper.Limiter}
      → Uses shaper (Spares d) p q
      → IsTable p.limiters p.made
      → Has d i p.limiters
      → Has d i q.limiters
  Uses-Has d i here t h = h
  Uses-Has d i (wraps {q = r} k now u) t h =
      Change-Has d i (wrap-Change (SparesIn d r.limiters) k now r) (Uses-IsTable (Spares d) u t)
        (Uses-Has d i u t h)
  Uses-Has d i (reads {q = r} b src size now u) t h =
      Change-Has d i (read-Change (SparesIn d r.limiters) b src size now r)
        (Uses-IsTable (Spares d) u t) (Uses-Has d i u t h)
  Uses-Has d i (sweeps {q = r} max_idle now l u) t h =
      Change-Has d i (sweep-Change (SparesIn d r.limiters) max_idle now r l)
        (Uses-IsTable (Spares d) u t) (Uses-Has d i u t h)

  -- A device has one budget, and it is its own. Let a reader `a` come from Wrap for the device `d`,
  -- in any state that the pool comes to. Whatever streams and sweeps follow, a reader for another
  -- device draws from another limiter. As long as no sweep finds `d` idle for too long, every further
  -- reader for `d` draws from the limiter of `a`.
  pub one_budget_per_device :
      (bps : ℤ) (lasts : BandwidthPool shaper.Limiter → ℕ → ℕ → Type 0)
      (p : BandwidthPool shaper.Limiter) (d : String) (now : ℕ) (a : BandwidthReader)
      → Uses shaper lasts (new_bandwidth_pool shaper bps) p
      → (wrap shaper d now p).0 ≡ some a
      → ((q : BandwidthPool shaper.Limiter) (k : String) (t : ℕ) (b : BandwidthReader)
          → Uses shaper lasts (wrap shaper d now p).1 q
          → d ≢ k
          → (wrap shaper k t q).0 ≡ some b
          → b.limiter ≢ a.limiter)
        × ((q : BandwidthPool shaper.Limiter) (t : ℕ) (b : BandwidthReader)
            → Uses shaper (Spares d) (wrap shaper d now p).1 q
            → (wrap shaper d t q).0 ≡ some b
            → b.limiter ≡ a.limiter)
  one_budget_per_device bps lasts p d now a u made =
      let t = Change-IsTable (wrap-Change AnySweep d now p) (Uses-IsTable lasts u empty-IsTable) in
      let (x, (at, is_a)) = wrap-Has d now p a made in
      let own : IsOf d a.limiter (wrap shaper d now p).1.limiters (wrap shaper d now p).1.made = (
        subst (λ i. i < (wrap shaper d now p).1.made) is_a (t.bounded d x at),
        λ k e at' same. t.separate k d e x at' at (same ∙ sym is_a),
      ) in
      (
        λ q k now' b more other made' same.
            let (y, (at', is_b)) = wrap-Has k now' q b made' in
            let out =
              Change-IsOf d a.limiter (wrap-Change AnySweep k now' q) (Uses-IsTable lasts more t)
                (Uses-IsOf lasts d a.limiter more t own) in
            other (sym (out.1 k y at' (is_b ∙ same))),
        λ q now' b more made'.
            let (y, (at', is_b)) = wrap-Has d now' q b made' in
            let (z, (at'', is_a')) =
              Change-Has d a.limiter (wrap-Change (SparesIn d q.limiters) d now' q)
                (Uses-IsTable (Spares d) more t) (Uses-Has d a.limiter more t (x, (at, is_a))) in
            ground (arith, at', is_b, at'', is_a'),
      )
