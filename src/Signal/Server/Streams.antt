-- ===== src/Signal/Server/Streams.antt =====
-- What the handlers of the signaling server do to the stream registry.
use icy_easy_send.Base.{
  ℕ, ◌≡◌, ◌⊎◌, inl, inr, refl, String, List, [], ◌∷◌, Result, ok, err, arith, Option-cases, ap,
}
use icy_easy_send.Limit.{Rate}
use icy_easy_send.Protocol.{Relay, StreamCreate}
use icy_easy_send.Stream.Errors.{Error}
use icy_easy_send.Stream.Registry.{Stream, Registry, create, release_device}
use icy_easy_send.Signal.Hub.{Session, PresenceUpdate, lookup_session}
use icy_easy_send.Signal.World.{
  World, send_to, send_error, session_error, send_updates, close_session,
}
use icy_easy_send.Signal.Server.Leaving.{teardown_parts}
use icy_easy_send.Signal.Server.{
  Codec, dispatch, handle, handle_subscribe, handle_relay, relay_checked, may_pass, pass_on,
  handle_stream_create, stream_create_checked, create_for, answer_created, teardown,
}

-- Nothing, or one Create with these random bytes.
abbrev pub AtMostCreates : Result Error (List ℕ) → ℕ → Registry → Registry → Type 0
AtMostCreates random now r q =
    (q ≡ r)
    ⊎ ((owner : String) × (sender : String) × (receiver : String) × (q
          ≡ (create random now owner sender receiver r).1))

-- Nothing, or one ReleaseDevice.
abbrev pub AtMostReleases : String → Registry → Registry → Type 0
AtMostReleases d r q = (q ≡ r) ⊎ (q ≡ release_device d r)

module _ {L : Type 0} where
  streams-send_updates :
      (now : ℕ) (us : List PresenceUpdate) (w : World L)
      → (send_updates now us w).streams ≡ w.streams
  unfolding send_updates send_to
  streams-send_updates now [] w = refl
  streams-send_updates now (u ∷ us) w = streams-send_updates now us _

module _ (rate : Rate) (codec : Codec) (now : ℕ) where
  abbrev State : Type 0
  State = World rate.Limiter

  streams-handle_subscribe :
      (s : Session) (frame : String) (w : State)
      → (handle_subscribe rate codec now s frame w).streams ≡ w.streams
  unfolding handle_subscribe send_error session_error send_to
  streams-handle_subscribe s frame w = grind (arith, streams-send_updates now)

  streams-pass_on :
      (s : Session) (msg : Relay) (mid : String) (w : State)
      → (pass_on rate codec now s msg mid w).streams ≡ w.streams
  unfolding pass_on send_to send_error session_error
  streams-pass_on s msg mid w = ground arith

  streams-handle_relay :
      (s : Session) (frame mid : String) (w : State)
      → (handle_relay rate codec now s frame mid w).streams ≡ w.streams
  unfolding handle_relay relay_checked may_pass send_to send_error session_error
  streams-handle_relay s frame mid w = grind (arith, streams-pass_on s)

  streams-answer_created :
      (s : Session) (mid : String) (out : Result Error Stream × Registry) (w : State)
      → (answer_created rate codec now s mid out w).streams ≡ out.1
  unfolding answer_created send_to send_error session_error
  streams-answer_created s mid (ok st, q) w = refl
  streams-answer_created s mid (err e, q) w = refl

  module _ (random : Result Error (List ℕ)) where
    streams-create_for :
        (s : Session) (mid peer : String) (ends : String × String) (w : State)
        → AtMostCreates random now w.streams
            (create_for rate codec now random s mid peer ends w).streams
    unfolding create_for send_error session_error send_to
    streams-create_for s mid peer ends w = elim (Option-cases (lookup_session peer w.hub)) [
      | inl e ↦ inl (ground (arith, e))
      | inr (t, e) ↦ inr (
        s.device_id,
        ends.0,
        ends.1,
        rw (e, create_for)
            (streams-answer_created s mid (create random now s.device_id ends.0 ends.1 w.streams)
              w),
      )
    ]

    streams-stream_create_checked :
        (s : Session) (msg : StreamCreate) (mid : String) (w : State)
        → AtMostCreates random now w.streams
            (stream_create_checked rate codec now random s msg mid w).streams
    unfolding stream_create_checked send_error session_error send_to
    streams-stream_create_checked s msg mid w = grind (arith, streams-create_for s mid msg.peer)

    streams-handle_stream_create :
        (s : Session) (frame mid : String) (w : State)
        → AtMostCreates random now w.streams
            (handle_stream_create rate codec now random s frame mid w).streams
    unfolding handle_stream_create send_error session_error send_to
    streams-handle_stream_create s frame mid w = elim (Option-cases (codec.stream_create frame)) [
      | inl e ↦ inl (ground (arith, e))
      | inr (msg, e) ↦ rw (e, handle_stream_create) (streams-stream_create_checked s msg mid w)
    ]

    -- A message makes at most one stream, with an id from the bytes that were drawn for it.
    pub streams-dispatch :
        (s : Session) (frame : String) (w : State)
        → AtMostCreates random now w.streams (dispatch rate codec now random s frame w).streams
    unfolding dispatch handle send_error session_error send_to
    streams-dispatch s frame w =
        grind (
          arith,
          streams-handle_subscribe s,
          streams-handle_relay s,
          streams-handle_stream_create s,
        )

  -- The end of a session releases at most the streams of its own device.
  pub streams-teardown :
      (s : Session) (w : State)
      → AtMostReleases s.device_id w.streams (teardown rate codec now s w).streams
  unfolding close_session
  streams-teardown s w = elim (teardown_parts rate codec now s w) [
    | inl h ↦ inl (ap (λ v. v.streams) h.1)
    | inr (live, hub, streams, closed) ↦ inr streams
  ]
