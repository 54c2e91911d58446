-- ===== src/Signal/Server/Pairing.antt =====
-- What the handlers of the signaling server do to the pairing limiter: its rate stays.
use icy_easy_send.Base.{ℕ, ◌≡◌, refl, String, List, [], ◌∷◌, Result, ok, err, arith}
use icy_easy_send.Protocol.{Relay}
use icy_easy_send.Limit as Limits
use icy_easy_send.Limit.{Rate, PairLimiter}
use icy_easy_send.Stream.Errors.{Error}
use icy_easy_send.Stream.Registry.{Stream, Registry}
use icy_easy_send.Signal.Hub.{Session, PresenceUpdate}
use icy_easy_send.Signal.World.{
  World, send_to, send_error, session_error, send_updates, tell_gone, close_session,
}
use icy_easy_send.Signal.Server.{
  Codec, dispatch, handle, handle_subscribe, handle_relay, relay_checked, may_pass, pass_on,
  handle_stream_create, stream_create_checked, create_for, answer_created, teardown,
}

abbrev pub rate_of : {L : Type 0} → World L → ℕ
rate_of w = w.pairing.per_min

module _ {L : Type 0} where
  rate-send_updates :
      (now : ℕ) (us : List PresenceUpdate) (w : World L)
      → rate_of (send_updates now us w) ≡ rate_of w
  unfolding send_updates send_to
  rate-send_updates now [] w = refl
  rate-send_updates now (u ∷ us) w = rate-send_updates now us _

  rate-tell_gone :
      (now : ℕ) (d : String) (ss : List Session) (w : World L)
      → rate_of (tell_gone now d ss w) ≡ rate_of w
  unfolding tell_gone send_to
  rate-tell_gone now d [] w = refl
  rate-tell_gone now d (s ∷ ss) w = rate-tell_gone now d ss _

module _ (rate : Rate) (codec : Codec) (now : ℕ) where
  abbrev State : Type 0
  State = World rate.Limiter

  rate-allow :
      (d : String) (p : PairLimiter rate.Limiter)
      → (Limits.allow rate d now p).1.per_min ≡ p.per_min
  unfolding Limits.allow
  rate-allow d p = ground arith

  rate-handle_subscribe :
      (s : Session) (frame : String) (w : State)
      → rate_of (handle_subscribe rate codec now s frame w) ≡ rate_of w
  unfolding handle_subscribe send_error session_error send_to
  rate-handle_subscribe s frame w = grind (arith, rate-send_updates now)

  rate-pass_on :
      (s : Session) (msg : Relay) (mid : String) (w : State)
      → rate_of (pass_on rate codec now s msg mid w) ≡ rate_of w
  unfolding pass_on send_to send_error session_error
  rate-pass_on s msg mid w = ground arith

  rate-may_pass :
      (s : Session) (msg : Relay) (w : State)
      → rate_of (may_pass rate codec now s msg w).1 ≡ rate_of w
  unfolding may_pass
  rate-may_pass s msg w = ground (arith, rate-allow s.device_id w.pairing)

  rate-handle_relay :
      (s : Session) (frame mid : String) (w : State)
      → rate_of (handle_relay rate codec now s frame mid w) ≡ rate_of w
  unfolding handle_relay relay_checked send_to send_error session_error
  rate-handle_relay s frame mid w = grind (arith, rate-pass_on s, rate-may_pass s)

  rate-answer_created :
      (s : Session) (mid : String) (out : Result Error Stream × Registry) (w : State)
      → rate_of (answer_created rate codec now s mid out w) ≡ rate_of w
  unfolding answer_created send_to send_error session_error
  rate-answer_created s mid (ok st, q) w = refl
  rate-answer_created s mid (err e, q) w = refl

  rate-handle_stream_create :
      (random : Result Error (List ℕ)) (s : Session) (frame mid : String) (w : State)
      → rate_of (handle_stream_create rate codec now random s frame mid w) ≡ rate_of w
  unfolding handle_stream_create stream_create_checked create_for send_error session_error send_to
  rate-handle_stream_create random s frame mid w = grind (arith, rate-answer_created s)

  pub rate-dispatch :
      (random : Result Error (List ℕ)) (s : Session) (frame : String) (w : State)
      → rate_of (dispatch rate codec now random s frame w) ≡ rate_of w
  unfolding dispatch handle send_error session_error send_to
  rate-dispatch random s frame w =
      grind
        (arith, rate-handle_subscribe s, rate-handle_relay s, rate-handle_stream_create random s)

  pub rate-teardown : (s : Session) (w : State) → rate_of (teardown rate codec now s w) ≡ rate_of w
  unfolding teardown close_session
  rate-teardown s w = grind (arith, rate-tell_gone now s.device_id)
