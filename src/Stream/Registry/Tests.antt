-- ===== src/Stream/Registry/Tests.antt =====
-- The registry's theorems at concrete histories.
use icy_easy_send.Base.{◌≡◌, refl, true, some, [], ◌∷◌, lookup, insert, delete, ok, err}
use icy_easy_send.Stream.Errors.{not_found, too_many_streams, peer_not_attached}
use icy_easy_send.Stream.Registry.{
  Stream, new_registry, new_stream, allocate, create, get, claim_sender, claim_receiver, sweep,
  release_device, charged, attach_sender, timed_out,
}
use icy_easy_send.Stream.Registry.Invariant.{IsValid}
use icy_easy_send.Stream.Registry.History.{
  System, allocates, claims_sender, sweeps, here, next, Reach, IsSound, Reach-IsSound,
}
use icy_easy_send.Stream.Registry.Sweeping.{release_device_lem}

-- Stream "s1", from alice to bob, made at time 5.
abbrev first : Stream
first = new_stream "s1" "alice" "alice" "bob" 35

abbrev one : System
one = record {
  registry = (allocate "s1" 5 "alice" "alice" "bob" (new_registry 2 30)).1;
  issued = insert "s1" first [];
}

abbrev claimed : System
claimed = record one { registry = (claim_sender first one.registry).1 }

abbrev received : System
received = record one { registry = (claim_receiver first one.registry).1 }

abbrev swept : System
swept = record one { registry = (sweep 40 one.registry).1 }

one_reached : Reach 2 30 one
unfolding allocate lookup insert new_registry
one_reached = next here (allocates "s1" 5 "alice" "alice" "bob" refl)

swept_reached : Reach 2 30 swept
swept_reached = next one_reached (sweeps 40)

one_IsValid : IsValid one.registry
one_IsValid = (Reach-IsSound 2 30 one_reached).valid

first_known : lookup "s1" one.issued ≡ some first
unfolding lookup insert
first_known = refl

Reach-IsSound_example : IsSound 2 swept
Reach-IsSound_example = Reach-IsSound 2 30 swept_reached

receiver_free : (claim_receiver first one.registry).0 ≡ true
unfolding claim_receiver allocate new_registry lookup
receiver_free = refl

swept_gone : get "s1" swept.registry ≡ err not_found
unfolding get sweep allocate new_registry lookup insert delete
swept_gone = refl

release_device_lem_example :
    charged "bob" (release_device "alice" claimed.registry).per_device
    ≡ charged "bob" claimed.registry.per_device
release_device_lem_example = (release_device_lem "alice" claimed.registry claimed_IsValid).1 "bob"
  where
    claimed_IsValid : IsValid claimed.registry
    claimed_IsValid =
        (Reach-IsSound 2 30 (next one_reached (claims_sender first first_known))).valid

-- A device at its cap is refused.
full_is_refused :
    (create
      (ok (255 ∷ []))
      9
      "alice"
      "alice"
      "bob"
      (allocate "s2" 7 "alice" "bob" "alice" one.registry).1).0
    ≡ err too_many_streams
unfolding create allocate new_registry lookup insert
full_is_refused = refl

-- One end alone times out.
alone_times_out : (attach_sender first timed_out one.registry).0 ≡ err peer_not_attached
unfolding attach_sender allocate new_registry lookup
alone_times_out = refl
