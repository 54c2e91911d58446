-- ===== src/Stream/Registry/Sweeping.antt =====
-- What each operation does to the streams and the accounts, on every branch.
use icy_easy_send.Base.{
  ℕ, ◌+◌, ◌-◌, ◌≤◌, ◌<◌, ◌≡◌, refl, ◌⊎◌, inl, inr, String, Bool, true, false, not, ◌&&◌, ◌||◌, none,
  some, [], ◌∷◌, Map, lookup, lookup-insert, lookup-delete, ok, err, ◌==◌, eq_iff, eq_refl,
  if◌then◌else◌, arith, Bool-cases, Option, keep_if, retain, lookup-retain, leb, ltb, length,
}
use icy_easy_send.Stream.Errors.{too_many_streams}
use icy_easy_send.Stream.Registry.{
  Stream, Ends, Registry, new_ends, new_stream, allocate, get, release, sweep, release_device,
  release_loop, charged, is_stale, is_idle_of, len,
}
use icy_easy_send.Stream.Registry.Accounts.{owned, charged-refund, charged-insert}
use icy_easy_send.Stream.Registry.Loops.{
  survives, kept-sweep_loop, stale-sweep_loop, stays, kept-release_loop, dropped-release_loop,
}
use icy_easy_send.Stream.Registry.Invariant.{IsValid}

-- What Create does with an id.
abbrev pub Allocates : String → ℕ → String → String → String → Registry → Type 0
Allocates id now owner sender receiver r =
    ((r.max_per_device ≤ owned owner r.streams)
      × (allocate id now owner sender receiver r ≡ (err too_many_streams, r)))
    ⊎ ((owned owner r.streams < r.max_per_device)
        × (let (out, q) = allocate id now owner sender receiver r in
            let s = new_stream id owner sender receiver (now + r.ttl) in
            (out ≡ ok s)
            × (q.ends id ≡ new_ends)
            × ((k : String) → get k q ≡ (if id == k then ok s else get k r))
            × ((d : String)
                → charged d q.per_device
                  ≡ (if owner == d then charged d r.per_device + 1 else charged d r.per_device))))

-- Create is refused exactly when the owner has as many live streams as the cap allows; the refusal
-- changes nothing. Otherwise the stream is found under its id with the owner, the endpoints and the
-- deadline that were asked for, both of its ends free, no other id is found differently, and the
-- owner's count alone has grown, by one.
pub allocate_lem :
    (id : String) (now : ℕ) (owner sender receiver : String) (r : Registry)
    → IsValid r
    → Allocates id now owner sender receiver r
unfolding allocate get
allocate_lem id now owner sender receiver r v =
    let s = new_stream id owner sender receiver (now + r.ttl) in
    elim (Bool-cases (leb r.max_per_device (charged owner r.per_device))) [
      | inl full ↦ inl (ground (arith, v.accounted owner), rw (full, allocate))
      | inr room ↦ inr (
        ground (arith, v.accounted owner),
        (
          rw (room, allocate) refl,
          rw (room, allocate) (ground (arith, eq_refl id)),
          λ k. rw (room, allocate) (ground (arith, lookup-insert id k s r.streams)),
          λ d.
              rw (room, allocate)
                (ground (
                  arith,
                  eq_iff owner d,
                  charged-insert owner d (charged owner r.per_device + 1) r.per_device,
                )),
        ),
      )
    ]

-- Sweep removes exactly the streams whose deadline has passed and that no end is attached to: a
-- lookup finds what it found before, unless that is such a stream. It returns how many they are.
pub sweep_lem :
    (now : ℕ) (r : Registry)
    → IsValid r
    → ((k : String)
        → lookup k (sweep now r).1.streams
          ≡ keep_if
              (λ s.
                ltb now s.expires_at
                || (r.ends s.id).sender_attached
                || (r.ends s.id).receiver_attached)
              (lookup k r.streams))
      × ((sweep now r).0 + len (sweep now r).1 ≡ len r)
unfolding sweep is_stale len
sweep_lem now r v = (
  λ k. ground (
    arith,
    kept-sweep_loop now r.ends r.streams r.per_device,
    lookup-retain (survives now r.ends) k r.streams v.unique,
  ),
  ground (
    arith,
    kept-sweep_loop now r.ends r.streams r.per_device,
    stale-sweep_loop now r.ends r.streams r.per_device,
  ),
)

-- Both ends are attached.
abbrev pub in_flight : (String → Ends) → Stream → Bool
in_flight ends s = (ends s.id).sender_attached && (ends s.id).receiver_attached

owned-stays :
    (d : String) (ends : String → Ends) (m : Map Stream)
    → owned d (retain (stays d ends) m) ≡ owned d (retain (in_flight ends) m)
unfolding retain is_idle_of
owned-stays d ends [] = refl
owned-stays d ends ((k, s) ∷ m) = ground (arith, eq_iff s.owner d, owned-stays d ends m)

-- ReleaseDevice removes exactly the device's streams that are not attached at both ends; a stream of
-- another owner, and one in flight, is found as before. Other devices keep their count, and the
-- device is left charged for its streams in flight alone.
pub release_device_lem :
    (d : String) (r : Registry)
    → IsValid r
    → ((k : String)
        → lookup k (release_device d r).streams
          ≡ keep_if (λ s. not (s.owner == d) || in_flight r.ends s) (lookup k r.streams))
      × ((j : String)
          → charged j (release_device d r).per_device ≡ (
              if d == j
              then owned d (retain (in_flight r.ends) r.streams)
              else charged j r.per_device))
unfolding release_device is_idle_of
release_device_lem d r v = (
  λ k. ground (
    arith,
    kept-release_loop d r.ends r.streams,
    lookup-retain (stays d r.ends) k r.streams v.unique,
  ),
  λ j.
      let n = length (release_loop d r.ends r.streams).dropped in
      ground (
        arith,
        v.accounted d,
        eq_iff d j,
        charged-refund n d j r.per_device,
        dropped-release_loop d r.ends d r.streams,
        eq_refl d,
        owned-stays d r.ends r.streams,
      ),
)

abbrev pub is_some {ℓ} : {A : Type ℓ} → Option A → Bool
is_some none = false
is_some (some a) = true

-- Release takes the stream from the list and nothing else; it takes one from the owner's count if
-- the stream was listed, and from no other count. A second Release changes nothing.
pub release_lem :
    (s : Stream) (r : Registry)
    → ((k : String)
        → lookup k (release s r).streams ≡ (if s.id == k then none else lookup k r.streams))
      × ((d : String)
          → charged d (release s r).per_device ≡ (
              if is_some (lookup s.id r.streams) && (s.owner == d)
              then charged d r.per_device - 1
              else charged d r.per_device))
      × (release s (release s r) ≡ release s r)
unfolding release
release_lem s r = (
  λ k. ground (arith, eq_iff s.id k, lookup-delete s.id k r.streams),
  λ d. ground (arith, charged-refund 1 s.owner d r.per_device),
  ground (arith, eq_refl s.id, lookup-delete s.id s.id r.streams),
)
