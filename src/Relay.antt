-- ===== src/Relay.antt =====
-- relay/cmd/relayd/main.go: the whole relay at work. The connections of relay/internal/signal, the
-- requests of relay/internal/stream and the sweeper share one hub, one registry, one pairing limiter
-- and one bandwidth pool, and take their steps in every order.
--
-- A request is known by a number. Where its handler waits for the other end, or moves bytes, the
-- others run; the bytes themselves are `Stream.Transfer`'s. `issued` remembers the streams that Create
-- has made; no function of the code reads it.
pub mod Ledger
pub mod Claims
pub mod Routing
pub mod Running
pub mod Invariant
pub mod Slots
pub mod Limits
pub mod Signatures
pub mod Transfers
pub mod Histories
pub mod Sole
pub mod Together
pub mod Delivery
mod Samples
mod Tests
mod DeliveryTests
use icy_easy_send.Base.{
  ℕ, ◌≡◌, String, Bool, true, Option, none, some, List, [], Map, lookup, insert, eqb, if◌then◌else◌,
  Result, ok, err,
}
use icy_easy_send.Auth.{Crypto}
use icy_easy_send.Config.{Config}
use icy_easy_send.Limit.{Rate}
use icy_easy_send.Limit.Bandwidth.{Shaper, wrap}
use icy_easy_send.Stream.Errors.{Error}
use icy_easy_send.Stream.Registry.{Stream, Ends, Registry, new_id, Wake, ready}
use icy_easy_send.Stream.Registry.History as History
use icy_easy_send.Stream.Handler.{
  Request, Response, Route, refused, to_sender, to_receiver, Phase, Event, serve_http, begin_sender,
  woken_sender, finish_sender, begin_receiver, woken_receiver, finish_receiver,
}
use icy_easy_send.Stream.Handler as Handler
use icy_easy_send.Signal.Server.{Codec}
use icy_easy_send.Signal.Session.{Outbox, Tick, write_round, ping_round}
use icy_easy_send.Signal.World.{set_outbox}
use icy_easy_send.Signal.Connections as Connections
use icy_easy_send.Signal.Transfers.{handler_options}
use icy_easy_send.Main as Main

-- serveSender or serveReceiver.
pub data Side : Type 0 where
  sending receiving : Side

abbrev pub other : Side → Side
other sending = receiving
other receiving = sending

-- What a handler behind ServeHTTP works on.
pub record Job : Type 0 where
  pub side : Side
  pub stream : Stream
  pub request : Request

-- Where a request is: not here yet; behind ServeHTTP's switch; waiting for the other end; moving
-- bytes; or answered.
pub data Point : Type 0 where
  outside : Point
  routed waiting pumping : Job → Point
  answered : Response → Point

unfoldable pub begin : Side → Stream → Registry → (Phase × List Event) × Registry
unfolding begin_sender begin_receiver
begin sending = begin_sender
begin receiving = begin_receiver

unfoldable pub woken : Side → Stream → Wake → Registry → (Phase × List Event) × Registry
unfolding woken_sender woken_receiver
woken sending = woken_sender
woken receiving = woken_receiver

unfoldable pub finish :
    Side → Stream → ℕ → Option Error → Registry → (Phase × List Event) × Registry
unfolding finish_sender finish_receiver
finish sending s written e reg = finish_sender s written e reg
finish receiving s written e reg = finish_receiver s e reg

-- The flag of this side.
abbrev pub flag : Side → Ends → Bool
flag sending e = e.sender_attached
flag receiving e = e.receiver_attached

-- Where ServeHTTP's answer and a handler's phase put a request.
abbrev pub behind_switch : Request → Route → Point
behind_switch r (refused response) = answered response
behind_switch r (to_sender s device) = routed (record { side = sending; stream = s; request = r })
behind_switch r (to_receiver s) = routed (record { side = receiving; stream = s; request = r })

abbrev pub in_phase : Job → Phase → Point
in_phase j Handler.waiting = waiting j
in_phase j Handler.pumping = pumping j
in_phase j (Handler.finished response) = answered response

abbrev pub put : ℕ → Point → (ℕ → Point) → ℕ → Point
put n p requests m = if eqb n m then p else requests m

-- The streams issued behind a step that drew these bytes for an id: the id is listed if it was used.
unfoldable pub noted : Result Error (List ℕ) → Registry → Map Stream → Map Stream
noted drawn q issued = elim (new_id drawn) [
  | err e ↦ issued
  | ok id ↦ elim (lookup id q.streams) [ none ↦ issued | some s ↦ insert id s issued ]
]

module _ (rate : Rate) (shaper : Shaper) where
  pub record System : Type 0 where
    pub relay : Main.Relay rate shaper
    pub points : ℕ → Connections.Point
    pub requests : ℕ → Point
    pub issued : Map Stream

  abbrev pub streams_of : System → Registry
  streams_of x = x.relay.world.streams

  -- The part of the signaling plane, and that of the registry.
  abbrev pub signaling : System → Connections.System rate.Limiter
  signaling x = record { world = x.relay.world; points = x.points }

  abbrev pub ledger : System → History.System
  ledger x = record { registry = streams_of x; issued = x.issued }

  abbrev pub with_streams : Registry → System → System
  with_streams q x = record x {
    relay = record x.relay { world = record x.relay.world { streams = q } };
  }

  abbrev pub with_outbox : ℕ → Outbox → System → System
  with_outbox ref o x = record x {
    relay = record x.relay { world = set_outbox ref o x.relay.world };
  }

  abbrev pub after_move : Result Error (List ℕ) → Connections.System rate.Limiter → System → System
  after_move drawn y x = record {
    relay = record x.relay { world = y.world };
    points = y.points;
    requests = x.requests;
    issued = noted drawn y.world.streams x.issued;
  }

  -- The handler of this request has run a part of its work.
  abbrev pub after_handler : ℕ → Job → (Phase × List Event) × Registry → System → System
  after_handler n j ((phase, events), q) x = record (with_streams q x) {
    requests = put n (in_phase j phase) x.requests;
  }

  -- The 32 random bytes of an id are no issued stream's.
  abbrev pub IsFresh : Result Error (List ℕ) → System → Type 0
  IsFresh drawn x = (id : String) → new_id drawn ≡ ok id → lookup id x.issued ≡ none

  module _ (codec : Codec) (crypto : Crypto) (cfg : Config) where
    pub data Step (x : System) : System → Type 0 where
      -- A step of a connection.
      connects :
          (drawn : Result Error (List ℕ)) {y : Connections.System rate.Limiter}
          → IsFresh drawn x
          → Connections.Move rate codec crypto drawn (signaling x) y
          → Step x (after_move drawn y x)
      -- A tick of the sweeper.
      ticks : (now : ℕ) → Step x (record x { relay = Main.tick rate shaper now x.relay })
      -- ServeHTTP of the stream handler.
      arrives :
          (n : ℕ) (r : Request)
          → x.requests n ≡ outside
          → Step x (
              let o = handler_options cfg.token crypto x.relay.world.hub in
              record x {
                requests = put n (behind_switch r (serve_http o r (streams_of x)).0) x.requests;
              })
      begins :
          (n : ℕ) (j : Job)
          → x.requests n ≡ routed j
          → Step x (after_handler n j (begin j.side j.stream (streams_of x)) x)
      -- The wait ends. It is `ready` only if the other end is attached.
      wakes :
          (n : ℕ) (j : Job) (w : Wake)
          → x.requests n ≡ waiting j
          → (w ≡ ready → flag (other j.side) ((streams_of x).ends j.stream.id) ≡ true)
          → Step x (after_handler n j (woken j.side j.stream w (streams_of x)) x)
      -- The call of the limiter, by whichever request sends.
      shapes :
          (d : String) (now : ℕ)
          → Step x (record x {
            relay = record x.relay { bandwidth = (wrap shaper d now x.relay.bandwidth).1 };
          })
      -- A round of writeLoop takes a message from a queue, and its write fails or not.
      writes :
          (ref : ℕ) (failed : Bool)
          → Step x (with_outbox ref (write_round failed (x.relay.world.outboxes ref)).1 x)
      -- A round of pingLoop.
      pings :
          (ref : ℕ) (t : Tick)
          → Step x (with_outbox ref (ping_round t (x.relay.world.outboxes ref)).1 x)
      -- The loop has moved its bytes, and ended with this error or none.
      finishes :
          (n : ℕ) (j : Job) (written : ℕ) (e : Option Error)
          → x.requests n ≡ pumping j
          → Step x (after_handler n j (finish j.side j.stream written e (streams_of x)) x)

    pub data Reach : System → Type 0 where
      start : Reach (record {
        relay = Main.start rate shaper cfg;
        points = λ r. Connections.outside;
        requests = λ n. outside;
        issued = [];
      })
      next : {x y : System} → Reach x → Step x y → Reach y
