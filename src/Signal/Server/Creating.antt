-- ===== src/Signal/Server/Creating.antt =====
-- When a stream is created, and for whom.
use icy_easy_send.Base.{
  ℕ, ◌≡◌, String, ◌||◌, Option, none, some, List, [], ◌∷◌, ◌++◌, ◌==◌, if◌then◌else◌, Result, ok,
  err,
}
use icy_easy_send.Protocol.{
  StreamCreate, role_sender, role_receiver, code_bad_request, code_peer_offline,
}
use icy_easy_send.Limit.{Rate}
use icy_easy_send.Stream.Errors.{Error}
use icy_easy_send.Stream.Registry.{Stream, Registry, create, role}
use icy_easy_send.Signal.Hub.{Session}
use icy_easy_send.Signal.Session as Outgoing
use icy_easy_send.Signal.Session.{Message}
use icy_easy_send.Signal.World.{World, failed, seconds, stream_created}
use icy_easy_send.Signal.Server.{Codec, creation_failure}
use icy_easy_send.Signal.Server.Relaying.{added, refusal}

-- What Create says of the new stream, and that a refusal changes nothing.
abbrev IsMade : String → String → String → Registry → Result Error Stream × Registry → Type 0
IsMade owner sender receiver r (ok st, q) =
    (st.sender ≡ sender) × (st.receiver ≡ receiver) × (st.owner ≡ owner)
IsMade owner sender receiver r (err e, q) = q ≡ r

-- What the asking device gets: the id of the stream and its deadline, under the id of the request.
abbrev pub announced : ℕ → String → Stream → Message
announced now mid st = Outgoing.stream_created (record {
  envelope = record { v = 1; type = "stream.created"; mid = mid; ts = seconds now };
  stream_id = st.id;
  expires_at = seconds st.expires_at;
})

-- The code and the text of the answer to an error of Create, or none if there is a stream.
abbrev pub creation_error : Result Error Stream → Option (String × String)
creation_error (ok st) = none
creation_error (err e) = some (creation_failure e)

abbrev pub peer_verdict : Option Session → Result Error Stream → Option (String × String)
peer_verdict none made = some (code_peer_offline, "peer is not connected")
peer_verdict (some peer) made = creation_error made

-- The code and the text of the answer to a request that gets no stream, or none if it gets one: with who
-- is connected, and what Create gives for a sender and a receiver.
abbrev pub creation_verdict :
    Session
    → Option StreamCreate
    → (String → Option Session)
    → (String → String → Result Error Stream)
    → Option (String × String)
creation_verdict s none connected made = some (code_bad_request, "malformed stream.create")
creation_verdict s (some msg) connected made =
    if (msg.peer == "") || (msg.peer == s.device_id)
    then some (code_bad_request, "invalid stream peer")
    else if msg.role == role_sender
    then peer_verdict (connected msg.peer) (made s.device_id msg.peer)
    else if msg.role == role_receiver
    then peer_verdict (connected msg.peer) (made msg.peer s.device_id)
    else some (code_bad_request, "role must be sender or receiver")

-- The other role.
abbrev pub opposite : String → String
opposite r = if r == role_sender then role_receiver else role_sender

module _ (rate : Rate) (codec : Codec) (now : ℕ) (random : Result Error (List ℕ)) where
  abbrev State : Type 0
  State = World rate.Limiter

  -- A stream is made, and its id is queued for the device that asked: the session's device owns the
  -- stream and has the role that it asked for, and the peer has the other.
  pub record Granted (s : Session) (mid : String) (msg : StreamCreate) (w w' : State) : Type 0 where
    pub stream : Stream
    pub owned : stream.owner ≡ s.device_id
    pub own_role : role stream s.device_id ≡ ok msg.role
    pub peer_role : role stream msg.peer ≡ ok (opposite msg.role)
    pub made :
        create random now s.device_id stream.sender stream.receiver w.streams
        ≡ (ok stream, w'.streams)
    pub counted : w'.events ≡ w.events ++ (stream_created ∷ [])
    pub queues :
        (r : ℕ)
        → (w'.outboxes r).queue
          ≡ (w.outboxes r).queue ++ added s (announced now mid stream) r (w.outboxes r)

  -- The registry is as before, and the request is refused: the code is counted, and the only message
  -- that may be queued is the refusal, for the sender.
  abbrev pub Denied : Session → String → String → String → State → State → Type 0
  Denied s mid code text w w' =
      (w'.streams ≡ w.streams)
      × (w'.events ≡ w.events ++ (failed code ∷ []))
      × ((r : ℕ)
          → (w'.outboxes r).queue
            ≡ (w.outboxes r).queue ++ added s (refusal now mid code text) r (w.outboxes r))

  -- What becomes of a request with this verdict.
  abbrev pub Answered :
      Session → String → Option StreamCreate → Option (String × String) → State → State → Type 0
  Answered s mid asked (some v) w w' = Denied s mid v.0 v.1 w w'
  Answered s mid (some msg) none w w' = Granted s mid msg w w'
  Answered s mid none none w w' = ⊥
