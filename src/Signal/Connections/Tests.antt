-- ===== src/Signal/Connections/Tests.antt =====
-- The connections' theorem at a device that comes back.
use icy_easy_send.Base.{ℕ, ◌≡◌, ◌≢◌, ◌⊎◌, refl, some, [], lookup, insert, ok}
use icy_easy_send.Base.Text.{bytes}
use icy_easy_send.Auth.{
  verify_identity, decode_public_key, verify_key, device_id_from_public_key, check_signature,
}
use icy_easy_send.Signal.Hub.{Session, register, unregister, lookup_session}
use icy_easy_send.Signal.World.{close_session}
use icy_easy_send.Signal.Server.{teardown}
use icy_easy_send.Signal.Handshake.{check_answer, enter, parse_answer, verified}
use icy_easy_send.Signal.Samples.{
  repeat, toy, alice_id, countdown, codec, answer, alice, alice_passes, empty,
}
use icy_easy_send.Signal.Handshake.{welcomed}
use icy_easy_send.Signal.Connections as Connections
use icy_easy_send.Signal.Connections.Ghosts.{no_ghosts}

-- Alice comes back on a second connection, and then the server notices that the first one is dead.
abbrev alice_again : Session
alice_again = record { ref = 3; device_id = alice_id; public_key = repeat 0 32; session_id = "" }

alice_passes_again :
    check_answer toy (answer alice_id "key0") [] (some "") (some []) 3 ≡ ok alice_again
unfolding check_answer parse_answer verified verify_identity decode_public_key verify_key
    device_id_from_public_key check_signature bytes
alice_passes_again = refl

abbrev back : (x : Connections.System ℕ) × Connections.Reach countdown codec toy x
back = (
  _,
  Connections.next
      (Connections.next
        (Connections.next
          (Connections.next (Connections.start empty refl) (
            Connections.moves (ok []) (
              Connections.answers (answer alice_id "key0") [] (some "") (some []) 1 alice refl
                alice_passes)))
          (Connections.moves (ok []) (Connections.is_welcome alice refl)))
        (Connections.moves (ok []) (
          Connections.answers (answer alice_id "key0") [] (some "") (some []) 3 alice_again refl
            alice_passes_again)))
      (Connections.moves (ok []) (Connections.ends 7 alice refl)),
)

alice_is_back : lookup_session alice_id back.0.world.hub ≡ some alice_again
unfolding lookup_session teardown enter register unregister close_session lookup insert welcomed
alice_is_back = refl

no_ghosts_example :
    (alice_again.device_id ≡ alice_id)
    × ((back.0.points 3 ≡ Connections.entered alice_again)
        ⊎ (back.0.points 3 ≡ Connections.reading alice_again))
    × (back.0.points 3 ≢ Connections.gone)
no_ghosts_example = no_ghosts countdown codec toy back.0 alice_id alice_again back.1 alice_is_back
