-- ===== src/Signal/Server.antt =====
-- relay/internal/signal/server.go: what the server does with the messages of a session, and when the
-- session ends.
--
-- `Codec` is encoding/json: what Unmarshal gives for the four types that are read. A handler runs as
-- one step; others may run between its calls, each of which is a step of its own part.
pub mod Relaying
pub mod Creating
pub mod Leaving
pub mod Streams
pub mod Pairing
use icy_easy_send.Base.{
  ℕ, String, Bool, true, false, ◌&&◌, ◌||◌, Option, none, some, List, length, ltb, ◌==◌,
  if◌then◌else◌, Result, ok, err,
}
use icy_easy_send.Protocol.{
  Envelope, Relay, Subscribe, StreamCreate, StreamCreated, new_envelope, max_subscribe_peers,
  type_subscribe, type_relay, type_stream_create, type_stream_created, type_ping, type_pong,
  kind_pair, role_sender, role_receiver, code_bad_request, code_rate_limited, code_peer_offline,
  code_too_many_streams, code_internal,
}
use icy_easy_send.Limit as Limits
use icy_easy_send.Limit.{Rate}
use icy_easy_send.Stream.Errors.{Error, too_many_streams}
use icy_easy_send.Stream.Registry.{Stream, Registry, create, release_device}
use icy_easy_send.Signal.Hub as Hubs
use icy_easy_send.Signal.Hub.{Session, Hub, lookup_session, unregister}
use icy_easy_send.Signal.Session.{Message, relay, stream_created, pong}
use icy_easy_send.Signal.World.{
  World, Event, pair_rate_limited, observe, seconds, send_to, send_error, send_updates, tell_gone,
  close_session,
}
use icy_easy_send.Signal.World as Worlds

pub record Codec : Type 0 where
  pub envelope : String → Option Envelope
  pub subscribe : String → Option Subscribe
  pub relay : String → Option Relay
  pub stream_create : String → Option StreamCreate

-- What is passed on: the sender is the session's device, whatever the message says.
unfoldable pub forwarded : ℕ → Session → Relay → Message
unfolding new_envelope
forwarded now s msg = relay (record {
  envelope = record (new_envelope type_relay (seconds now)) { mid = msg.envelope.mid };
  to = "";
  from = s.device_id;
  kind = msg.kind;
  payload = msg.payload;
})

-- The answer to stream.create.
unfoldable pub created : ℕ → String → Stream → Message
unfolding new_envelope
created now mid st = stream_created (record {
  envelope = record (new_envelope type_stream_created (seconds now)) { mid = mid };
  stream_id = st.id;
  expires_at = seconds st.expires_at;
})

-- The switch on the role: the sender and the receiver of the new stream.
unfoldable pub endpoints : String → String → String → Option (String × String)
endpoints role own peer =
    if role == role_sender
    then some (own, peer)
    else if role == role_receiver
    then some (peer, own)
    else none

-- The code and the message for an error of Create.
unfoldable pub creation_failure : Error → String × String
creation_failure too_many_streams = (code_too_many_streams, "concurrent stream limit reached")
creation_failure e = (code_internal, "could not allocate stream")

module _ (rate : Rate) (codec : Codec) (now : ℕ) where
  open rate use {Limiter}

  abbrev State : Type 0
  State = World Limiter

  unfoldable pub handle_subscribe : Session → String → State → State
  unfolding Hubs.subscribe send_updates send_error
  handle_subscribe s frame w = elim (codec.subscribe frame) [
    | none ↦ send_error now s "" code_bad_request "malformed subscribe" w
    | some msg ↦
        if ltb max_subscribe_peers (length msg.peers)
        then send_error now s "" code_bad_request "too many peers in subscribe" w
        else (let (updates, hub) = Hubs.subscribe s.device_id msg.peers w.hub in
            send_updates now updates (record w { hub = hub }))
  ]

  -- The call of PairLimiter.Allow, which is made for a pairing message only.
  unfoldable pub may_pass : Session → Relay → State → Bool × State
  unfolding Limits.allow
  may_pass s msg w =
      let (answer, pairing) = Limits.allow rate s.device_id now w.pairing in
      if msg.kind == kind_pair then (answer, record w { pairing = pairing }) else (true, w)

  -- handleRelay from the lookup of the target on.
  unfoldable pub pass_on : Session → Relay → String → State → State
  unfolding lookup_session send_to forwarded send_error
  pass_on s msg mid w = elim (lookup_session msg.to w.hub) [
    | none ↦ send_error now s mid code_peer_offline "peer is not connected" w
    | some target ↦
        let (sent, after) = send_to target (forwarded now s msg) w in
        if sent then after else send_error now s mid code_peer_offline "peer is not reachable" after
  ]

  unfoldable pub relay_checked : Session → Relay → String → State → State
  unfolding may_pass pass_on send_error
  relay_checked s msg mid w =
      if (msg.to == "") || (msg.to == s.device_id)
      then send_error now s mid code_bad_request "invalid relay target" w
      else (let (passes, after) = may_pass s msg w in
          if passes
          then pass_on s msg mid after
          else send_error now s mid code_rate_limited "too many pairing requests"
              (observe pair_rate_limited after))

  unfoldable pub handle_relay : Session → String → String → State → State
  unfolding relay_checked send_error
  handle_relay s frame mid w = elim (codec.relay frame) [
    | none ↦ send_error now s mid code_bad_request "malformed relay" w
    | some msg ↦ relay_checked s msg mid w
  ]

  -- handleStreamCreate behind Create.
  unfoldable pub answer_created : Session → String → Result Error Stream × Registry → State → State
  unfolding send_error send_to created creation_failure
  answer_created s mid (ok st, streams) w =
      (send_to s (created now mid st)
        (observe Worlds.stream_created (record w { streams = streams }))).1
  answer_created s mid (err e, streams) w =
      let (code, text) = creation_failure e in
      send_error now s mid code text (record w { streams = streams })

  -- handleStreamCreate from the lookup of the peer on.
  unfoldable pub create_for :
      Result Error (List ℕ) → Session → String → String → String × String → State → State
  unfolding lookup_session create answer_created send_error
  create_for random s mid peer ends w = elim (lookup_session peer w.hub) [
    | none ↦ send_error now s mid code_peer_offline "peer is not connected" w
    | some _ ↦ answer_created s mid (create random now s.device_id ends.0 ends.1 w.streams) w
  ]

  unfoldable pub stream_create_checked :
      Result Error (List ℕ) → Session → StreamCreate → String → State → State
  unfolding endpoints create_for send_error
  stream_create_checked random s msg mid w =
      if (msg.peer == "") || (msg.peer == s.device_id)
      then send_error now s mid code_bad_request "invalid stream peer" w
      else elim (endpoints msg.role s.device_id msg.peer) [
        | none ↦ send_error now s mid code_bad_request "role must be sender or receiver" w
        | some ends ↦ create_for random s mid msg.peer ends w
      ]

  -- `random` is what rand.Read gives for the id of a new stream.
  unfoldable pub handle_stream_create :
      Result Error (List ℕ) → Session → String → String → State → State
  unfolding stream_create_checked send_error
  handle_stream_create random s frame mid w = elim (codec.stream_create frame) [
    | none ↦ send_error now s mid code_bad_request "malformed stream.create" w
    | some msg ↦ stream_create_checked random s msg mid w
  ]

  -- The switch of dispatch.
  unfoldable pub handle : Result Error (List ℕ) → Session → String → Envelope → State → State
  unfolding handle_subscribe handle_relay handle_stream_create send_to send_error new_envelope
  handle random s frame e w =
      if e.type == type_subscribe
      then handle_subscribe s frame w
      else if e.type == type_relay
      then handle_relay s frame e.mid w
      else if e.type == type_stream_create
      then handle_stream_create random s frame e.mid w
      else if e.type == type_ping
      then (send_to s (pong (record (new_envelope type_pong (seconds now)) { mid = e.mid })) w).1
      else send_error now s e.mid code_bad_request "unknown message type" w

  unfoldable pub dispatch : Result Error (List ℕ) → Session → String → State → State
  unfolding handle send_error
  dispatch random s frame w = elim (codec.envelope frame) [
    | none ↦ send_error now s "" code_bad_request "malformed message" w
    | some e ↦ handle random s frame e w
  ]

  -- teardown, with the registry that the options name.
  unfoldable pub teardown : Session → State → State
  unfolding close_session unregister tell_gone release_device
  teardown s w =
      let closed = close_session s w in
      let ((watchers, removed), hub) = unregister s closed.hub in
      let told = tell_gone now s.device_id watchers (record closed { hub = hub }) in
      if removed
      then record told { streams = release_device s.device_id told.streams }
      else record closed { hub = hub }
