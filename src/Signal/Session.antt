-- ===== src/Signal/Session.antt =====
-- relay/internal/signal/session.go: the queue between whoever sends a device a message and the
-- goroutine that writes to its socket.
--
-- A Send is one step: what a Close between its two selects would change is only a message that
-- nobody reads. The fields of Session that never change are `Signal.Hub.Session`.
pub mod Delivery
use icy_easy_send.Base.{
  ℕ, String, Bool, true, false, Option, none, some, List, [], ◌∷◌, ◌++◌, length, ltb, if◌then◌else◌,
}
use icy_easy_send.Protocol.{Envelope, Presence, Relay, StreamCreated, ErrorMessage}

abbrev pub outbound_buffer : ℕ
outbound_buffer = 32

-- What the server sends on an open session.
pub data Message : Type 0 where
  presence : Presence → Message
  relay : Relay → Message
  stream_created : StreamCreated → Message
  error : ErrorMessage → Message
  pong : Envelope → Message

-- The channel `out`, oldest message first, and whether `closed` is closed.
pub record Outbox : Type 0 where
  pub queue : List Message
  pub closed : Bool

abbrev pub new_outbox : Outbox
new_outbox = record { queue = []; closed = false }

-- Close, under its closeOnce.
unfoldable pub close : Outbox → Outbox
close o = record o { closed = true }

unfoldable pub send : Message → Outbox → Bool × Outbox
unfolding close
send m o =
    if o.closed
    then (false, o)
    else if ltb (length o.queue) outbound_buffer
    then (true, record o { queue = o.queue ++ (m ∷ []) })
    else (false, close o)

-- One round of writeLoop that takes a message: what is handed to the socket, and the queue behind
-- it. A write that fails closes the session and ends the loop.
unfoldable pub write_round : Bool → Outbox → Option Message × Outbox
unfolding close
write_round failed o = elim o.queue [
  | [] ↦ (none, o)
  | m ∷ rest ↦
      (some m, if failed then close (record o { queue = rest }) else record o { queue = rest })
]

-- What the select of pingLoop takes: the end of the context or of the session, or a tick, with what
-- Ping then returned.
pub data Tick : Type 0 where
  stopped : Tick
  pinged : Bool → Tick

-- One round of pingLoop: whether the loop goes on. A ping that fails closes the session.
unfoldable pub ping_round : Tick → Outbox → Bool × Outbox
unfolding close
ping_round stopped o = (false, o)
ping_round (pinged true) o = (true, o)
ping_round (pinged false) o = (false, close o)
