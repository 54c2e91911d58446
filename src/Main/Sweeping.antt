-- ===== src/Main/Sweeping.antt =====
-- What the sweeper of main.go does to the streams over time.
use icy_easy_send.Base.{
  ℕ, ◌≡◌, ◌/◌, ◌<◌, ◌⊎◌, inl, inr, refl, ap, ◌∙◌, String, Bool, true, ◌||◌, some, List, [], ◌∷◌,
  lookup, arith, Option-cases, AllEntries-lookup,
}
use icy_easy_send.Limit.{Rate, minute, new_pair_limiter}
use icy_easy_send.Limit.Pairing.{IsBucket, Call, answers_with, answers_without, sweeps_unobserved}
use icy_easy_send.Limit.Bandwidth.{Shaper}
use icy_easy_send.Stream.Registry.{Stream, Ends, Registry, sweep, is_stale}
use icy_easy_send.Stream.Registry.Invariant.{IsValid, HasOwnId, sweep-IsValid}
use icy_easy_send.Stream.Registry.Sweeping.{sweep_lem}
use icy_easy_send.Stream.Registry.Refinement.{sweep-view}
use icy_easy_send.Main.{Relay, limiter_max_idle, tick, Wake, stopped, ticked, sweeper}

abbrev pub is_attached : Ends → Bool
is_attached e = e.sender_attached || e.receiver_attached

-- What a sweep does to one stream.
sweep-spares :
    (now : ℕ) (r : Registry) (k : String) (s : Stream)
    → IsValid r
    → lookup k r.streams ≡ some s
    → is_attached (r.ends k) ≡ true
    → (lookup k (sweep now r).1.streams ≡ some s) × ((sweep now r).1.ends k ≡ r.ends k)
unfolding is_stale lookup
sweep-spares now r k s v at h =
    let own : s.id ≡ k = AllEntries-lookup HasOwnId k s r.streams v.keyed at in
    let h' : is_attached (r.ends s.id) ≡ true = rw own h in
    (
      (sweep_lem now r v).0 k ∙ rw at (ground (arith, h')),
      ap (λ i. i.ends k) (sweep-view now r v) ∙ rw at (ground (arith, h')),
    )

sweep-reclaims :
    (now : ℕ) (r : Registry) (k : String) (s : Stream)
    → IsValid r
    → lookup k (sweep now r).1.streams ≡ some s
    → (now < s.expires_at) ⊎ (is_attached (r.ends k) ≡ true)
sweep-reclaims now r k s v at = elim (Option-cases (lookup k r.streams)) [
  | inl e ↦ absurd (ground (arith, (sweep_lem now r v).0 k, e))
  | inr (t, e) ↦
      let own : t.id ≡ k = AllEntries-lookup HasOwnId k t r.streams v.keyed e in
      ground (arith, (sweep_lem now r v).0 k, e, own, ap r.ends own)
]

module _ (rate : Rate) (shaper : Shaper) where
  abbrev streams_of : Relay rate shaper → Registry
  streams_of r = r.world.streams

  sweeper-IsValid :
      (ws : List Wake) (r : Relay rate shaper)
      → IsValid (streams_of r)
      → IsValid (streams_of (sweeper rate shaper ws r))
  unfolding sweeper tick
  sweeper-IsValid [] r v = v
  sweeper-IsValid (stopped ∷ ws) r v = v
  sweeper-IsValid (ticked now ∷ ws) r v =
      sweeper-IsValid ws (tick rate shaper now r) (sweep-IsValid now (streams_of r) v)

  sweeper-spares :
      (ws : List Wake) (r : Relay rate shaper) (k : String) (s : Stream)
      → IsValid (streams_of r)
      → lookup k (streams_of r).streams ≡ some s
      → is_attached ((streams_of r).ends k) ≡ true
      → let q = streams_of (sweeper rate shaper ws r) in
        (lookup k q.streams ≡ some s) × (q.ends k ≡ (streams_of r).ends k)
  unfolding sweeper tick
  sweeper-spares [] r k s v at h = (at, refl)
  sweeper-spares (stopped ∷ ws) r k s v at h = (at, refl)
  sweeper-spares (ticked now ∷ ws) r k s v at h =
      let (at', same) = sweep-spares now (streams_of r) k s v at h in
      let (found, ends) =
        sweeper-spares ws (tick rate shaper now r) k s (sweep-IsValid now (streams_of r) v) at'
          (ap is_attached same ∙ h) in
      (found, ends ∙ same)

  -- The sweeper never ends a stream in use, and leaves no abandoned one. From a relay with a
  -- well-formed registry, however often it ticks, a stream to which an end is attached stays in the
  -- registry, with its flags and its pipe as they were. Behind a tick, every stream that is left has a
  -- deadline to come or an end that was attached before it.
  pub sweeper_lem :
      (r : Relay rate shaper) (k : String) (s : Stream)
      → IsValid (streams_of r)
      → ((ws : List Wake)
          → lookup k (streams_of r).streams ≡ some s
          → is_attached ((streams_of r).ends k) ≡ true
          → let q = streams_of (sweeper rate shaper ws r) in
            (lookup k q.streams ≡ some s) × (q.ends k ≡ (streams_of r).ends k))
        × ((now : ℕ)
            → lookup k (streams_of (tick rate shaper now r)).streams ≡ some s
            → (now < s.expires_at) ⊎ (is_attached ((streams_of r).ends k) ≡ true))
  unfolding tick
  sweeper_lem r k s v = (
    λ ws at h. sweeper-spares ws r k s v at h,
    λ now at. sweep-reclaims now (streams_of r) k s v at,
  )

  -- The sweeper forgets only devices that would have a full bucket again: it changes no answer to a
  -- pairing request.
  sweeper_unobserved :
      (per_min now : ℕ) (b : IsBucket rate (minute / per_min) per_min) (cs : List Call)
      → answers_with rate limiter_max_idle now cs (new_pair_limiter rate per_min)
        ≡ answers_without rate limiter_max_idle now cs (new_pair_limiter rate per_min)
  sweeper_unobserved per_min now b cs =
      sweeps_unobserved rate per_min b limiter_max_idle now cs (omega arith)
