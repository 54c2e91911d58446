-- ===== src/Relay/Invariant.antt =====
-- Every reachable state of the relay is in order.
use icy_easy_send.Base.{ℕ, ◌≡◌, refl, none, arith}
use icy_easy_send.Auth.{Crypto}
use icy_easy_send.Config.{Config}
use icy_easy_send.Limit.{Rate}
use icy_easy_send.Limit.Bandwidth.{Shaper, magnitude}
use icy_easy_send.Stream.Registry.{new_registry}
use icy_easy_send.Stream.Registry.History as History
use icy_easy_send.Stream.Registry.History.{IsSound, Steps-IsSound, start-IsSound}
use icy_easy_send.Stream.Handler.{Request, Route, refused, to_sender, to_receiver, serve_http}
use icy_easy_send.Signal.Server.{Codec}
use icy_easy_send.Signal.Transfers.{handler_options}
use icy_easy_send.Main.{tick}
use icy_easy_send.Relay.{
  Point, behind_switch, System, streams_of, ledger, Step, connects, ticks, arrives, begins, wakes,
  shapes, writes, pings, finishes, Reach, start, next,
}
use icy_easy_send.Relay.Ledger.{Evolves, swept}
use icy_easy_send.Relay.Ledger.Moves.{Move-Evolves}
use icy_easy_send.Relay.Claims.{live_job, settled, Evolves-IsKept}
use icy_easy_send.Relay.Routing.{routed-listed}
use icy_easy_send.Relay.Running.{IsInOrder, begin-IsInOrder, woken-IsInOrder, finish-IsInOrder}

pub live-behind_switch : (r : Request) (route : Route) → live_job (behind_switch r route) ≡ none
live-behind_switch r (refused response) = refl
live-behind_switch r (to_sender s device) = refl
live-behind_switch r (to_receiver s) = refl

evolved :
    (max : ℕ) {s u : History.System} (requests : ℕ → Point)
    → Evolves s u
    → IsInOrder max s requests
    → IsInOrder max u requests
evolved max requests e i = record {
  sound = Steps-IsSound max e.steps i.sound;
  kept = Evolves-IsKept max requests i.sound e i.kept;
}

module _ (rate : Rate) (shaper : Shaper) (codec : Codec) (crypto : Crypto) (cfg : Config) where
  abbrev pub InOrder : ℕ → System rate shaper → Type 0
  InOrder max x = IsInOrder max (ledger rate shaper x) x.requests

  Step-InOrder :
      (max : ℕ) {x y : System rate shaper}
      → Step rate shaper codec crypto cfg x y
      → InOrder max x
      → InOrder max y
  unfolding tick
  Step-InOrder max {x} (connects drawn fresh m) i =
      evolved max x.requests (Move-Evolves rate shaper codec crypto max drawn x i.sound fresh m) i
  Step-InOrder max {x} (ticks now) i = evolved max x.requests (swept max now i.sound) i
  Step-InOrder max {x} (arrives n r here) i =
      let o = handler_options cfg.token crypto x.relay.world.hub in
      let reg = streams_of rate shaper x in
      record {
        sound = i.sound;
        kept =
            settled (ledger rate shaper x) x.requests i.kept n
              (behind_switch r (serve_http o r reg).0) (live-behind_switch r (serve_http o r reg).0)
              (λ j h. i.sound.issues j.stream.id j.stream (routed-listed o r reg j i.sound.valid h))
              (λ j h. absurd (ground (arith, here, h))) i.sound.valid;
      }
  Step-InOrder max {x} (begins n j here) i =
      begin-IsInOrder max (ledger rate shaper x) x.requests n j i here
  Step-InOrder max {x} (wakes n j w here met) i =
      woken-IsInOrder max (ledger rate shaper x) x.requests n j i w here met
  Step-InOrder max {x} (shapes d now) i = i
  Step-InOrder max {x} (writes ref failed) i = i
  Step-InOrder max {x} (pings ref t) i = i
  Step-InOrder max {x} (finishes n j written e here) i =
      finish-IsInOrder max (ledger rate shaper x) x.requests n j i written e here

  -- The cap of the registry is the configured one.
  abbrev pub cap : ℕ
  cap = magnitude cfg.max_concurrent_streams

  pub Reach-InOrder :
      {x : System rate shaper} → Reach rate shaper codec crypto cfg x → InOrder cap x
  unfolding new_registry
  Reach-InOrder start = record {
    sound = start-IsSound cap (magnitude cfg.stream_rendezvous_timeout);
    kept = record {
      known = λ n j h. absurd (ground (arith, h));
      claimed = λ n j h. absurd (ground (arith, h));
      paired = λ n j h. absurd (ground (arith, h));
      received = λ k t at set. absurd (ground (arith, set));
      sent = λ k t at set. absurd (ground (arith, set));
      alone = λ n m i j h. absurd (ground (arith, h));
    };
  }
  Reach-InOrder (next r st) = Step-InOrder cap st (Reach-InOrder r)
