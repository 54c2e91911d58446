-- ===== src/Stream/Registry/Loops.antt =====
-- The loops of Sweep and ReleaseDevice: what they keep, and what they do to the accounts.
use icy_easy_send.Base.{
  ℕ, ◌+◌, ◌≤◌, ◌≡◌, refl, String, Bool, not, [], ◌∷◌, Map, length, retain, ◌==◌, eq_iff,
  if◌then◌else◌, arith, Bool-cases, inl, inr, All,
}
use icy_easy_send.Stream.Registry.{
  Stream, Ends, charged, refund, is_stale, sweep_loop, is_idle_of, release_loop,
}
use icy_easy_send.Stream.Registry.Accounts.{owned, charged-refund, HasNoZero, refund-HasNoZero}

pub owned-retain-le :
    (p : Stream → Bool) (d : String) (m : Map Stream) → owned d (retain p m) ≤ owned d m
unfolding retain
owned-retain-le p d [] = omega arith
owned-retain-le p d ((k, s) ∷ m) = ground (arith, owned-retain-le p d m)

module _ (now : ℕ) (ends : String → Ends) where
  -- Sweep's test of a stream that stays.
  abbrev pub survives : Stream → Bool
  survives s = not (is_stale now (ends s.id) s)

  pub kept-sweep_loop :
      (m : Map Stream) (counts : Map ℕ) → (sweep_loop now ends m counts).kept ≡ retain survives m
  unfolding sweep_loop retain
  kept-sweep_loop [] counts = refl
  kept-sweep_loop ((k, s) ∷ m) counts =
      ground (arith, kept-sweep_loop m counts, kept-sweep_loop m (refund 1 s.owner counts))

  pub stale-sweep_loop :
      (m : Map Stream) (counts : Map ℕ)
      → length (sweep_loop now ends m counts).stale + length (retain survives m) ≡ length m
  unfolding sweep_loop retain
  stale-sweep_loop [] counts = refl
  stale-sweep_loop ((k, s) ∷ m) counts =
      ground (arith, stale-sweep_loop m counts, stale-sweep_loop m (refund 1 s.owner counts))

  -- Every stream that goes is stale by Sweep's test.
  pub stale-sweep_loop-All :
      (m : Map Stream) (counts : Map ℕ)
      → All (λ s. is_stale now (ends s.id) s ≡ Bool.true) (sweep_loop now ends m counts).stale
  unfolding sweep_loop
  stale-sweep_loop-All [] counts = tt
  stale-sweep_loop-All ((k, s) ∷ m) counts =
      ground
        (arith, stale-sweep_loop-All m counts, stale-sweep_loop-All m (refund 1 s.owner counts))

  pub counts-sweep_loop :
      (d : String) (m : Map Stream) (counts : Map ℕ)
      → ((j : String) → owned j m ≤ charged j counts)
      → charged d (sweep_loop now ends m counts).counts + owned d m
        ≡ charged d counts + owned d (retain survives m)
  unfolding sweep_loop retain
  counts-sweep_loop d [] counts h = refl
  counts-sweep_loop d ((k, s) ∷ m) counts h = elim (Bool-cases (is_stale now (ends s.id) s)) [
    | inl e ↦ rw e (
        ground (
          arith,
          h d,
          charged-refund 1 s.owner d counts,
          counts-sweep_loop d m (refund 1 s.owner counts)
              (λ j. ground (arith, h j, charged-refund 1 s.owner j counts)),
        ))
    | inr e ↦ rw e (ground (arith, h d, counts-sweep_loop d m counts (λ j. ground (arith, h j))))
  ]

  pub sweep_loop-HasNoZero :
      (m : Map Stream) (counts : Map ℕ)
      → HasNoZero counts
      → HasNoZero (sweep_loop now ends m counts).counts
  unfolding sweep_loop
  sweep_loop-HasNoZero [] counts z d = z d
  sweep_loop-HasNoZero ((k, s) ∷ m) counts z d = ground (
    arith,
    sweep_loop-HasNoZero m counts z d,
    sweep_loop-HasNoZero m (refund 1 s.owner counts) (refund-HasNoZero 1 s.owner counts z) d,
  )

module _ (d : String) (ends : String → Ends) where
  -- ReleaseDevice's test of a stream that stays.
  abbrev pub stays : Stream → Bool
  stays s = not (is_idle_of d (ends s.id) s)

  pub kept-release_loop : (m : Map Stream) → (release_loop d ends m).kept ≡ retain stays m
  unfolding release_loop retain
  kept-release_loop [] = refl
  kept-release_loop ((k, s) ∷ m) = ground (arith, kept-release_loop m)

  -- What the loop drops was all owned by the device.
  pub dropped-release_loop :
      (j : String) (m : Map Stream)
      → owned j (retain stays m) + (if d == j then length (release_loop d ends m).dropped else 0)
        ≡ owned j m
  unfolding release_loop retain is_idle_of
  dropped-release_loop j [] = ground arith
  dropped-release_loop j ((k, s) ∷ m) =
      ground (arith, eq_iff d j, eq_iff s.owner d, eq_iff s.owner j, dropped-release_loop j m)
