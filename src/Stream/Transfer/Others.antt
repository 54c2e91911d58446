-- ===== src/Stream/Transfer/Others.antt =====
-- What the rest of the relay does to the pipe of a stream while its handlers are at work: `others` of
-- a transfer allows for it.
use icy_easy_send.Base.{
  ℕ, ◌≡◌, ap, subst, ◌∙◌, ◌≢◌, ◌⊎◌, inl, inr, refl, String, true, some, List, [], ◌∷◌, arith,
  eq_iff,
}
use icy_easy_send.Stream.Errors.{not_found}
use icy_easy_send.Stream.Pipe.{close_write, close_read}
use icy_easy_send.Stream.Registry.{
  Stream, Ends, Registry, allocate, claim_sender, claim_receiver, close_ends, close, close_all,
  release, sweep, sweep_loop, release_device, release_loop,
}
use icy_easy_send.Stream.Handler.{begin_sender, begin_receiver}
use icy_easy_send.Stream.Transfer.{Ended}

close-cases :
    (k : String) (s : Stream) (ends : String → Ends)
    → let x = ends k in
      let y = close not_found s ends k in
      (y ≡ x)
      ⊎ ((y.closed ≡ true)
          × (y.pipe ≡ close_read (some not_found) (close_write (some not_found) x.pipe)))
unfolding close close_ends
close-cases k s ends = ground (arith, eq_iff s.id k)

close_all-closed :
    (k : String) (ss : List Stream) (ends : String → Ends)
    → (ends k).closed ≡ true
    → close_all not_found ss ends k ≡ ends k
unfolding close_all close close_ends
close_all-closed k [] ends h = refl
close_all-closed k (s ∷ ss) ends h =
    let same : close not_found s ends k ≡ ends k = ground (arith, eq_iff s.id k) in
    close_all-closed k ss (close not_found s ends) (ap (λ x. x.closed) same ∙ h) ∙ same

-- A stream that stands in the list twice is closed once.
close_all-Ended :
    (k : String) (ss : List Stream) (ends : String → Ends)
    → Ended (ends k).pipe (close_all not_found ss ends k).pipe
unfolding close_all
close_all-Ended k [] ends = inl refl
close_all-Ended k (s ∷ ss) ends =
    let rest = close not_found s ends in
    elim (close-cases k s ends) [
      | inl e ↦
          subst (λ x. Ended x.pipe (close_all not_found ss rest k).pipe) e
            (close_all-Ended k ss rest)
      | inr (c, p) ↦ inr (ap (λ x. x.pipe) (close_all-closed k ss rest c) ∙ p)
    ]

release-Ended :
    (k : String) (s : Stream) (r : Registry) → Ended (r.ends k).pipe ((release s r).ends k).pipe
unfolding release close close_ends
release-Ended k s r = ground (arith, eq_iff s.id k)

begin_sender-Ended :
    (k : String) (s : Stream) (r : Registry)
    → Ended (r.ends k).pipe ((begin_sender s r).1.ends k).pipe
unfolding begin_sender claim_sender release close close_ends
begin_sender-Ended k s r = ground (arith, eq_iff s.id k)

begin_receiver-Ended :
    (k : String) (s : Stream) (r : Registry)
    → Ended (r.ends k).pipe ((begin_receiver s r).1.ends k).pipe
unfolding begin_receiver claim_receiver release close close_ends
begin_receiver-Ended k s r = ground (arith, eq_iff s.id k)

allocate-Ended :
    (k id : String) (now : ℕ) (owner sender receiver : String) (r : Registry)
    → id ≢ k
    → Ended (r.ends k).pipe ((allocate id now owner sender receiver r).1.ends k).pipe
unfolding allocate
allocate-Ended k id now owner sender receiver r h = inl (ground (arith, eq_iff id k))

-- Whatever else the relay does while two handlers are at work on a stream, it leaves the stream's pipe
-- as it is or closes both halves with the error that no such stream exists. This holds for a Release of
-- any stream, a sweep, the departure of a device, another request for either end of any stream, up to
-- its wait, and a Create that does not draw the same id.
pub others_only_close :
    (k : String) (r : Registry)
    → ((s : Stream) → Ended (r.ends k).pipe ((release s r).ends k).pipe)
      × ((now : ℕ) → Ended (r.ends k).pipe ((sweep now r).1.ends k).pipe)
      × ((d : String) → Ended (r.ends k).pipe ((release_device d r).ends k).pipe)
      × ((s : Stream) → Ended (r.ends k).pipe ((begin_sender s r).1.ends k).pipe)
      × ((s : Stream) → Ended (r.ends k).pipe ((begin_receiver s r).1.ends k).pipe)
      × ((id : String) (now : ℕ) (owner sender receiver : String)
          → id ≢ k
          → Ended (r.ends k).pipe ((allocate id now owner sender receiver r).1.ends k).pipe)
unfolding sweep release_device
others_only_close k r = (
  λ s. release-Ended k s r,
  λ now. close_all-Ended k (sweep_loop now r.ends r.streams r.per_device).stale r.ends,
  λ d. close_all-Ended k (release_loop d r.ends r.streams).dropped r.ends,
  λ s. begin_sender-Ended k s r,
  λ s. begin_receiver-Ended k s r,
  λ id now owner sender receiver h. allocate-Ended k id now owner sender receiver r h,
)
