-- ===== src/Relay/Tests.antt =====
-- The relay's theorems at a concrete history.
use icy_easy_send.Base.{
  ℕ, ◌≡◌, ◌≤◌, ◌<◌, ◌⊎◌, ◌∙◌, sym, refl, ap, String, some, [], ◌∷◌, lookup, insert, arith,
}
use icy_easy_send.Stream.Registry.{Stream, new_registry, charged, sweep}
use icy_easy_send.Main.{tick}
use icy_easy_send.Signal.Server.{dispatch}
use icy_easy_send.Signal.Handshake.{enter, welcomed, welcome}
use icy_easy_send.Signal.Hub.{register}
use icy_easy_send.Signal.World.{close_session}
use icy_easy_send.Limit.Bandwidth.{magnitude}
use icy_easy_send.Config.{seconds}
use icy_easy_send.Signal.Samples.{toy, alice_id, bob_id, countdown, alice}
use icy_easy_send.Main.Samples.{unlimited, defaults}
use icy_easy_send.Relay.{Side, begin, woken}
use icy_easy_send.Relay.Claims.{job_of, live_job, IsHeld}
use icy_easy_send.Relay.Limits.{limits_as_told}
use icy_easy_send.Stream.Registry.Accounts.{owned}
use icy_easy_send.Relay.Slots.{no_slot_leaks, slots_come_back, one_handler_per_side}
use icy_easy_send.Relay.Signatures.{requests_are_signed}
use icy_easy_send.Signal.Transfers.{SignedBy}
use icy_easy_send.Relay.Samples.{
  down, down_works, made, request, stream, talk, up, up_works, working,
}

one_handler_per_side_example : ◌≡◌ {A = ℕ} 1 1
one_handler_per_side_example =
    one_handler_per_side countdown unlimited talk toy defaults working.0 1 1 up up working.1
      (ap live_job up_works) (ap live_job up_works) refl refl

requests_are_signed_example : SignedBy toy bob_id stream (request "GET" bob_id)
requests_are_signed_example =
    requests_are_signed countdown unlimited talk toy defaults working.0 2 down working.1
      (ap job_of down_works)

-- At 40 seconds the deadline of the stream has passed.
abbrev late : ℕ
late = 40_000_000_000

still_listed :
    lookup "ab" (tick countdown unlimited late working.0.relay).world.streams.streams ≡ some stream
unfolding tick sweep begin woken dispatch enter welcomed register close_session insert new_registry
    magnitude seconds lookup
still_listed = refl

no_slot_leaks_example :
    (late < stream.expires_at) ⊎ ((y : Side) × IsHeld working.0.requests y stream)
no_slot_leaks_example =
    no_slot_leaks countdown unlimited talk toy defaults working.0 late "ab" stream working.1
      still_listed

-- Before anyone has attached.
made_streams : made.0.relay.world.streams.streams ≡ ("ab", stream) ∷ []
unfolding lookup dispatch enter welcomed register close_session insert new_registry magnitude
    seconds
made_streams = refl

made_late :
    (k : String) (t : Stream)
    → lookup k made.0.relay.world.streams.streams ≡ some t
    → t.owner ≡ alice_id
    → t.expires_at ≤ late
unfolding lookup
made_late k t at same =
    let at' : lookup k (("ab", stream) ∷ []) ≡ some t = ap (lookup k) (sym made_streams) ∙ at in
    ground (arith, at')

slots_come_back_example :
    charged alice_id (tick countdown unlimited late made.0.relay).world.streams.per_device ≡ 0
slots_come_back_example =
    slots_come_back countdown unlimited talk toy defaults made.0 late alice_id made.1 made_late
      (λ n j h. absurd (ground (arith, h)))

limits_as_told_example : owned alice_id working.0.relay.world.streams.streams ≤ 8
unfolding welcome magnitude
limits_as_told_example =
    (limits_as_told countdown unlimited talk toy defaults working.0 7 alice working.1).0 alice_id
