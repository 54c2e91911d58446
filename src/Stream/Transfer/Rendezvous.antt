-- ===== src/Stream/Transfer/Rendezvous.antt =====
-- How a transfer begins: a stream is made, and both ends attach.
use icy_easy_send.Base.{ℕ, ◌+◌, ◌≡◌, ◌<◌, String, eq_refl, arith}
use icy_easy_send.Stream.Registry.{
  Stream, Registry, new_stream, allocate, charged, claim_sender, claim_receiver, ready, wait_for,
}
use icy_easy_send.Stream.Registry.Closing.{IsOpen}
use icy_easy_send.Stream.Handler.{
  waiting, pumping, begin_sender, begin_receiver, woken_sender, woken_receiver,
}

module _ (id : String) (now : ℕ) (owner sender receiver : String) (r : Registry) where
  abbrev fresh : Stream
  fresh = new_stream id owner sender receiver (now + r.ttl)

  abbrev made : Registry
  made = (allocate id now owner sender receiver r).1

  -- A stream that is made when its owner has room can be attached to by both ends, in either order.
  -- Each of the two waits, each wakes to its loop once the other is there, and they begin on an open
  -- pipe.
  pub rendezvous :
      charged owner r.per_device < r.max_per_device
      → let a = begin_sender fresh made in
        let b = begin_receiver fresh made in
        let ab = begin_receiver fresh a.1 in
        let ba = begin_sender fresh b.1 in
        ((a.0.0 ≡ waiting) × (ab.0.0 ≡ waiting) × (b.0.0 ≡ waiting) × (ba.0.0 ≡ waiting))
        × (((woken_sender fresh ready ab.1).0.0 ≡ pumping)
            × ((woken_receiver fresh ready ab.1).0.0 ≡ pumping))
        × ((woken_sender fresh ready ab.1).1 ≡ ab.1)
        × IsOpen (ab.1.ends id)
        × IsOpen (ba.1.ends id)
  unfolding allocate begin_sender begin_receiver claim_sender claim_receiver woken_sender
      woken_receiver wait_for
  rendezvous room = ground (arith, eq_refl id)
