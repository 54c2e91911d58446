-- ===== src/Signal/Tests.antt =====
-- The signaling plane's theorems at concrete histories.
use icy_easy_send.Base.{
  ◌&&◌, ◌≡◌, ◌≤◌, refl, String, true, some, [], ◌∷◌, ◌++◌, lookup, insert, length, ok,
}
use icy_easy_send.Base.Text.{bytes}
use icy_easy_send.Auth.{
  device_id_from_public_key, verify_identity, decode_public_key, verify_key,
  device_id_from_public_key, check_signature,
}
use icy_easy_send.Limit as Limits
use icy_easy_send.Limit.{Rate, new_pair_limiter}
use icy_easy_send.Stream.Registry.{Stream, new_registry, new_stream, allocate}
use icy_easy_send.Stream.Handler.{Request, serve_http, to_sender, to_receiver}
use icy_easy_send.Signal.Visit.{Visit, identified, without, serve_connection, visit_lem}
use icy_easy_send.Signal.Hub.Invariant as Hubs
use icy_easy_send.Base.{ℕ, none, delete}
use icy_easy_send.Base.Hex.{hex_encode}
use icy_easy_send.Stream.Registry.{create, new_id}
use icy_easy_send.Signal.Hub.{Hub, new_hub, subscribe}
use icy_easy_send.Signal.Hub.{register, unregister, lookup_session, public_key}
use icy_easy_send.Signal.Session.{Message, Outbox, new_outbox, send, close, pong}
use icy_easy_send.Signal.Session.Delivery.{
  Ran, sends, writes, accepted_of, taken_of, delivery_in_order,
}
use icy_easy_send.Signal.Session.Delivery as Delivery
use icy_easy_send.Signal.World.{World, close_session}
use icy_easy_send.Signal.Server.{handle_relay, teardown}
use icy_easy_send.Signal.Server.Relaying.{Outcome, verdict, allowed, handle_relay_lem}
use icy_easy_send.Signal.Server.Creating.{creation_verdict}
use icy_easy_send.Signal.Handshake.{
  enter, begin_handshake, admit, check_answer, parse_answer, verified,
}
use icy_easy_send.Signal.History.{Reach, start, next, enters, keys_are_genuine}
use icy_easy_send.Signal.Transfers.{handler_options}
use icy_easy_send.Signal.Samples.{
  repeat, toy, alice_id, bob_id, countdown, envelope, greeting, codec, answer, alice, bob,
  alice_passes, bob_passes, empty, two,
}

two_reached : Reach countdown codec toy two
two_reached =
    next
      (next (start empty refl)
        (enters (answer alice_id "key0") [] (some "") (some []) 1 alice alice_passes))
      (enters (answer bob_id "key1") [] (some "") (some []) 2 bob bob_passes)

bob_is_known : public_key bob_id two.hub ≡ some (repeat 1 32)
unfolding public_key enter register lookup insert
bob_is_known = refl

keys_are_genuine_example :
    (device_id_from_public_key toy (repeat 1 32) ≡ bob_id) × (length (repeat 1 32) ≡ 32)
keys_are_genuine_example =
    keys_are_genuine countdown codec toy bob_id (repeat 1 32) two_reached bob_is_known

abbrev request : String → String → Request
request method device = record {
  method = method;
  path = "/v1/stream/s1";
  authorization = "Bearer t0ken";
  device_id = device;
  stream_proof = "valid";
}

abbrev stream : Stream
stream = new_stream "s1" alice_id alice_id bob_id 35

upload_is_routed :
    (serve_http (handler_options "t0ken" toy two.hub) (request "POST" alice_id) two.streams).0
    ≡ to_sender stream alice_id
unfolding serve_http public_key enter register allocate new_registry lookup insert close_session
    bytes
upload_is_routed = refl

download_is_routed :
    (serve_http (handler_options "t0ken" toy two.hub) (request "GET" bob_id) two.streams).0
    ≡ to_receiver stream
unfolding serve_http public_key enter register allocate new_registry lookup insert close_session
    bytes
download_is_routed = refl

handle_relay_lem_example :
    Outcome countdown codec 7 alice greeting "m1"
      (verdict alice greeting
        (allowed countdown codec 7 alice two)
        (lookup_session bob_id two.hub)
        (λ t. two.outboxes t.ref))
      (lookup_session bob_id two.hub)
      two
      (handle_relay countdown codec 7 alice "frame" "m1" two)
handle_relay_lem_example =
    (handle_relay_lem countdown codec 7 alice "frame" "m1" greeting two refl).0

-- The message is passed on, and its sender is the session's device.
bob_hears : length ((handle_relay countdown codec 7 alice "frame" "m1" two).outboxes 2).queue ≡ 1
unfolding handle_relay enter register lookup insert Limits.allow send
bob_hears = refl

-- The wish is granted: no test refuses it.
wish_is_granted :
    creation_verdict alice
      (codec.stream_create "frame")
      (λ d. lookup_session d two.hub)
      (λ sender receiver. (create (ok (7 ∷ [])) 7 alice_id sender receiver two.streams).0)
    ≡ none
unfolding create new_id hex_encode allocate new_registry enter register lookup insert lookup_session
wish_is_granted = refl

-- Alice and Bob are connected and subscribe to each other.
abbrev friends_hub : Hub
friends_hub =
    (subscribe alice_id (bob_id ∷ [])
      (subscribe bob_id (alice_id ∷ []) (register bob (register alice new_hub).1).1).1).1

abbrev friends : World ℕ
friends = record two { hub = friends_hub }

bob_is_told : length ((teardown countdown codec 7 alice friends).outboxes 2).queue ≡ 1
unfolding teardown unregister subscribe register lookup insert delete send close enter
bob_is_told = refl

abbrev ping : Message
ping = pong (envelope "pong")

abbrev sent : Outbox
sent = (send ping new_outbox).1

sent_Ran : Ran sent (ping ∷ []) []
unfolding send
sent_Ran = sends ping Delivery.start

delivery_in_order_example : (ping ∷ [] ≡ [] ++ sent.queue) × (length sent.queue ≤ 32)
delivery_in_order_example = delivery_in_order sent_Ran

abbrev visit : Visit
visit = record {
  authorization = "Bearer t0ken";
  upgraded = true;
  now = 3;
  nonce = λ n. some [];
  challenge_written = λ c. true;
  answer = some "";
  session_random = some [];
  ref = 1;
  welcome_written = true;
  frames = (5, ok [], "hello") ∷ [];
  ended = 9;
}

visit_is_identified :
    identified countdown codec toy (λ raw. "") (answer alice_id "key0") "t0ken" visit true
    ≡ ok alice
unfolding begin_handshake check_answer parse_answer verified verify_identity decode_public_key
    verify_key device_id_from_public_key check_signature bytes
visit_is_identified = refl

visit_lem_example :
    lookup alice_id
      (serve_connection countdown codec toy
        (λ raw. "")
        (answer alice_id "key0")
        "t0ken"
        visit
        two).hub.sessions
    ≡ without countdown codec toy
        (λ raw. "")
        (answer alice_id "key0")
        "t0ken"
        (identified countdown codec toy
          (λ raw. "")
          (answer alice_id "key0")
          "t0ken"
          visit
          ((admit "t0ken" visit.authorization two).0 && true))
        alice_id
        (lookup alice_id two.hub.sessions)
visit_lem_example =
    visit_lem countdown codec toy (λ raw. "") (answer alice_id "key0") "t0ken" visit two alice_id
