-- ===== src/Signal/World.antt =====
-- What the signaling server works on: the hub, the stream registry, the pairing limiter, and the
-- queue of every session, by the session's address.
use icy_easy_send.Base.{ℕ, ◌/◌, String, Bool, List, [], ◌∷◌, ◌++◌, eqb, if◌then◌else◌}
use icy_easy_send.Protocol.{new_envelope, type_error, type_presence}
use icy_easy_send.Limit.{PairLimiter}
use icy_easy_send.Stream.Registry.{Registry}
use icy_easy_send.Signal.Hub.{Session, Hub, PresenceUpdate}
use icy_easy_send.Signal.Session as Outgoing
use icy_easy_send.Signal.Session.{Message, Outbox, presence, error}

-- The calls of the Observer.
pub data Event : Type 0 where
  auth_failure failed : String → Event
  stream_created pair_rate_limited : Event

pub record World (L : Type 0) : Type 0 where
  pub hub : Hub
  pub streams : Registry
  pub pairing : PairLimiter L
  pub outboxes : ℕ → Outbox
  pub events : List Event

-- Times are nanoseconds; the wire has seconds.
abbrev pub seconds : ℕ → ℕ
seconds now = now / 1_000_000_000

unfoldable pub presence_message : ℕ → String → Bool → Message
unfolding new_envelope
presence_message now device online = presence (record {
  envelope = new_envelope type_presence (seconds now);
  device_id = device;
  online = online;
})

module _ {L : Type 0} where
  abbrev pub set_outbox : ℕ → Outbox → World L → World L
  set_outbox ref o w = record w { outboxes = λ r. if eqb ref r then o else w.outboxes r }

  abbrev pub observe : Event → World L → World L
  observe e w = record w { events = w.events ++ (e ∷ []) }

  -- s.Send(m)
  unfoldable pub send_to : Session → Message → World L → Bool × World L
  unfolding Outgoing.send
  send_to s m w = let (sent, o) = Outgoing.send m (w.outboxes s.ref) in (sent, set_outbox s.ref o w)

  -- s.Close()
  unfoldable pub close_session : Session → World L → World L
  unfolding Outgoing.close
  close_session s w = set_outbox s.ref (Outgoing.close (w.outboxes s.ref)) w

  -- (*Session).SendError
  unfoldable pub session_error : ℕ → Session → String → String → String → World L → World L
  unfolding send_to new_envelope
  session_error now s mid code message w =
      (send_to s
        (error (record {
          envelope = record (new_envelope type_error (seconds now)) { mid = mid };
          code = code;
          message = message;
        }))
        w).1

  -- (*Server).sendError
  unfoldable pub send_error : ℕ → Session → String → String → String → World L → World L
  unfolding session_error
  send_error now s mid code message w =
      session_error now s mid code message (observe (failed code) w)

  -- The loop of handleSubscribe over the notifications.
  unfoldable pub send_updates : ℕ → List PresenceUpdate → World L → World L
  unfolding send_to presence_message
  send_updates now [] w = w
  send_updates now (u ∷ us) w =
      send_updates now us (send_to u.to (presence_message now u.device_id u.online) w).1

  -- The loop of teardown over the watchers.
  unfoldable pub tell_gone : ℕ → String → List Session → World L → World L
  unfolding send_to presence_message
  tell_gone now device [] w = w
  tell_gone now device (s ∷ ss) w =
      tell_gone now device ss (send_to s (presence_message now device Bool.false) w).1
