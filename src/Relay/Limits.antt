-- ===== src/Relay/Limits.antt =====
-- The limits that clients are told, and those that the relay keeps.
use icy_easy_send.Base.{ℕ, ◌≡◌, ◌≤◌, ◌↔◌, String, err, arith}
use icy_easy_send.Auth.{Crypto}
use icy_easy_send.Config.{Config}
use icy_easy_send.Limit.{Rate}
use icy_easy_send.Limit.Bandwidth.{Shaper}
use icy_easy_send.Stream.Errors.{too_many_streams}
use icy_easy_send.Stream.Registry.{allocate}
use icy_easy_send.Stream.Registry.Accounts.{owned}
use icy_easy_send.Signal.Hub.{Session}
use icy_easy_send.Base.{refl, ◌∙◌, List, Result}
use icy_easy_send.Stream.Errors.{Error}
use icy_easy_send.Signal.World.{World, close_session}
use icy_easy_send.Signal.Handshake.{
  Refusal, bad_request, incomplete, identity, enter, welcome, welcomed, reject_handshake,
}
use icy_easy_send.Signal.Server.Pairing.{rate_of, rate-dispatch, rate-teardown}
use icy_easy_send.Signal.Connections as Connections
use icy_easy_send.Signal.Connections.{Move, answers, is_refused, is_welcome, is_lost, reads, ends}
use icy_easy_send.Limit as Limits
use icy_easy_send.Limit.{new_pair_limiter}
use icy_easy_send.Limit.Bandwidth.{magnitude}
use icy_easy_send.Signal.Server.{Codec}
use icy_easy_send.Main.{limits, tick}
use icy_easy_send.Relay.{
  System, Reach, start, next, connects, ticks, arrives, begins, wakes, shapes, writes, pings,
  finishes,
}
use icy_easy_send.Relay.Invariant.{Reach-InOrder}

module _ {L : Type 0} where
  rate-enter : (s : Session) (w : World L) → rate_of (enter s w) ≡ rate_of w
  unfolding enter close_session
  rate-enter s w = ground arith

  rate-reject_handshake : (e : Refusal) (w : World L) → rate_of (reject_handshake e w).1 ≡ rate_of w
  unfolding reject_handshake
  rate-reject_handshake bad_request w = refl
  rate-reject_handshake incomplete w = refl
  rate-reject_handshake (identity e) w = refl

module _ (rate : Rate) (codec : Codec) (crypto : Crypto) where
  Move-rate :
      (drawn : Result Error (List ℕ)) {x y : Connections.System rate.Limiter}
      → Move rate codec crypto drawn x y
      → rate_of y.world ≡ rate_of x.world
  unfolding welcomed
  Move-rate drawn {x} (answers decode nonce read random ref s new good) = rate-enter s x.world
  Move-rate drawn {x} (is_refused ref e new) = rate-reject_handshake e x.world
  Move-rate drawn (is_welcome s at) = refl
  Move-rate drawn (is_lost s at) = refl
  Move-rate drawn {x} (reads now s frame at) = rate-dispatch rate codec now drawn s frame x.world
  Move-rate drawn {x} (ends now s at) = rate-teardown rate codec now s x.world

module _ (rate : Rate) (shaper : Shaper) (codec : Codec) (crypto : Crypto) (cfg : Config) where
  -- Nothing changes the rate of the pairing limiter.
  Reach-rate :
      {x : System rate shaper}
      → Reach rate shaper codec crypto cfg x
      → rate_of x.relay.world ≡ magnitude cfg.pair_rate_per_min
  unfolding tick new_pair_limiter Limits.sweep
  Reach-rate start = refl
  Reach-rate (next r (connects drawn fresh m)) = Move-rate rate codec crypto drawn m ∙ Reach-rate r
  Reach-rate (next r (ticks now)) = Reach-rate r
  Reach-rate (next r (arrives n request here)) = Reach-rate r
  Reach-rate (next r (begins n j here)) = Reach-rate r
  Reach-rate (next r (wakes n j w here met)) = Reach-rate r
  Reach-rate (next r (shapes d now)) = Reach-rate r
  Reach-rate (next r (writes ref failed)) = Reach-rate r
  Reach-rate (next r (pings ref t)) = Reach-rate r
  Reach-rate (next r (finishes n j written e here)) = Reach-rate r

  -- The limits are the ones that clients are told. In every state that the relay reaches, no device owns
  -- more streams than the welcome message says it may have at once, a Create for a device is refused
  -- exactly if it owns that many already, and the pairing limiter works with the rate that the message
  -- names.
  pub limits_as_told :
      (x : System rate shaper) (now : ℕ) (s : Session)
      → Reach rate shaper codec crypto cfg x
      → let told = (welcome now (limits cfg) s).limits in
        let live = x.relay.world.streams.streams in
        ((d : String) → owned d live ≤ told.max_concurrent_streams)
        × ((id : String) (at : ℕ) (owner sender receiver : String)
            → ((allocate id at owner sender receiver x.relay.world.streams).0
                ≡ err too_many_streams)
              ↔ (told.max_concurrent_streams ≤ owned owner live))
        × (x.relay.world.pairing.per_min ≡ told.pair_rate_per_min)
  unfolding welcome allocate
  limits_as_told x now s reached =
      let i = Reach-InOrder rate shaper codec crypto cfg reached in
      (
        λ d. ground (arith, i.sound.valid.capped d, i.sound.cap),
        λ id at owner sender receiver. (
          λ h. ground (arith, h, i.sound.valid.accounted owner, i.sound.cap),
          λ h. ground (arith, h, i.sound.valid.accounted owner, i.sound.cap),
        ),
        Reach-rate reached,
      )
