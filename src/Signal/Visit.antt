-- ===== src/Signal/Visit.antt =====
-- relay/internal/signal/server.go: ServeHTTP from its first line to its last, for one connection that
-- nothing else runs beside.
use icy_easy_send.Base.{
  ℕ, ◌≡◌, refl, sym, ◌∙◌, ap, String, Bool, true, false, Option, none, List, [], ◌∷◌, lookup,
  insert, lookup-insert, lookup-delete, ◌==◌, eq_iff, eq_refl, if◌then◌else◌, ◌&&◌, arith, Result,
  ok, err, inl, inr, Bool-cases, Result-cases,
}
use icy_easy_send.Protocol as Wire
use icy_easy_send.Auth.{Crypto}
use icy_easy_send.Limit.{Rate}
use icy_easy_send.Stream.Errors.{Error}
use icy_easy_send.Signal.Hub.{Session, Hub, unregister}
use icy_easy_send.Signal.World.{World, close_session}
use icy_easy_send.Signal.Server.{Codec, dispatch, teardown}
use icy_easy_send.Signal.Handshake.{
  Refusal, admit, begin_handshake, check_answer, accept, enter, welcomed, reject_handshake,
}
use icy_easy_send.Signal.History.{sessions-dispatch, hub-teardown}
use icy_easy_send.Signal.Connections.{read_loop}
use icy_easy_send.Signal.Connections.Ghosts.{hub-enter, hub-reject_handshake}

-- What the client and the network do in a connection, and what rand.Read gives.
pub record Visit : Type 0 where
  pub authorization : String
  pub upgraded : Bool
  pub now : ℕ
  pub nonce : ℕ → Option (List ℕ)
  pub challenge_written : Wire.Challenge → Bool
  pub answer : Option String
  pub session_random : Option (List ℕ)
  pub ref : ℕ
  pub welcome_written : Bool
  pub frames : List (ℕ × Result Error (List ℕ) × String)
  pub ended : ℕ

module _ (rate : Rate) (codec : Codec) (crypto : Crypto) (encode_base64 : List ℕ → String)
    (decode : String → Option Wire.Auth) (token : String) where
  abbrev State : Type 0
  State = World rate.Limiter

  -- ServeHTTP behind the handshake.
  after_handshake : Visit → Result Refusal Session × State → State
  unfolding reject_handshake teardown read_loop
  after_handshake v (err e, w) = (reject_handshake e w).1
  after_handshake v (ok s, w) =
      teardown rate codec v.ended s (read_loop rate codec crypto s v.frames w)

  -- The handshake behind the registration.
  welcome_round : Visit → Result Refusal Session × State → Result Refusal Session × State
  unfolding welcomed
  welcome_round v (err e, w) = (err e, w)
  welcome_round v (ok s, w) = welcomed v.welcome_written s w

  handshake : Visit → State → Result Refusal Session × State
  unfolding begin_handshake accept check_answer welcome_round
  handshake v w = elim (begin_handshake encode_base64 v.challenge_written v.now v.nonce) [
    | err e ↦ (err e, w)
    | ok nonce ↦
        welcome_round v
          (accept (check_answer crypto decode nonce v.answer v.session_random v.ref) w)
  ]

  unfoldable pub serve_connection : Visit → State → State
  unfolding admit handshake after_handshake
  serve_connection v w =
      let (admitted, after) = admit token v.authorization w in
      if admitted && v.upgraded then after_handshake v (handshake v after) else after

  -- The session that the connection is registered with, if it gets that far.
  abbrev pub identified : Visit → Bool → Result Refusal Session
  identified v false = err Refusal.incomplete
  identified v true = elim (begin_handshake encode_base64 v.challenge_written v.now v.nonce) [
    | err e ↦ err e
    | ok nonce ↦ check_answer crypto decode nonce v.answer v.session_random v.ref
  ]

  abbrev pub without : Result Refusal Session → String → Option Session → Option Session
  without (err e) d found = found
  without (ok s) d found = if s.device_id == d then none else found

  sessions-read_loop :
      (s : Session) (frames : List (ℕ × Result Error (List ℕ) × String)) (w : State)
      → (read_loop rate codec crypto s frames w).hub.sessions ≡ w.hub.sessions
  unfolding read_loop
  sessions-read_loop s [] w = refl
  sessions-read_loop s ((now, random, frame) ∷ rest) w =
      sessions-read_loop s rest (dispatch rate codec now random s frame w)
      ∙ sessions-dispatch rate codec now random s frame w

  -- Unregister takes off the session that was just registered.
  lookup-unregister :
      (s : Session) (d : String) (h : Hub) (w : State)
      → h.sessions ≡ insert s.device_id s w.hub.sessions
      → lookup d (unregister s h).1.sessions
        ≡ (if s.device_id == d then none else lookup d w.hub.sessions)
  unfolding unregister
  lookup-unregister s d h w e = ground (
    arith,
    e,
    ap (lookup s.device_id) e,
    lookup-insert s.device_id s.device_id s w.hub.sessions,
    lookup-insert s.device_id d s w.hub.sessions,
    lookup-delete s.device_id d h.sessions,
    ap (lookup d) e,
    eq_refl s.device_id,
    eq_iff s.device_id d,
  )

  hub-admit : (authorization : String) (w : State) → (admit token authorization w).1.hub ≡ w.hub
  unfolding admit
  hub-admit authorization w = ground arith

  -- Once the session is registered, whether or not its welcome goes out.
  registered-sessions :
      (v : Visit) (s : Session) (d : String) (w : State)
      → lookup d (after_handshake v (welcome_round v (ok s, enter s w))).hub.sessions
        ≡ (if s.device_id == d then none else lookup d w.hub.sessions)
  unfolding after_handshake welcome_round welcomed close_session
  registered-sessions v s d w = elim (Bool-cases v.welcome_written) [
    | inl sent ↦
        let read = read_loop rate codec crypto s v.frames (enter s w) in
        rw (sent, hub-teardown rate codec v.ended s read)
          (lookup-unregister s d read.hub w
            (sessions-read_loop s v.frames (enter s w) ∙ hub-enter s w))
    | inr lost ↦
        rw (lost, hub-reject_handshake Refusal.incomplete)
          (lookup-unregister s d (enter s w).hub w (hub-enter s w))
  ]

  handshake-sessions :
      (v : Visit) (d : String) (w : State)
      → lookup d (after_handshake v (handshake v w)).hub.sessions
        ≡ without (identified v true) d (lookup d w.hub.sessions)
  unfolding after_handshake handshake welcome_round accept
  handshake-sessions v d w =
      let told : (r : Result Refusal Session)
          → identified v true ≡ r
          → lookup d (after_handshake v (handshake v w)).hub.sessions
            ≡ without r d (lookup d w.hub.sessions)
          → lookup d (after_handshake v (handshake v w)).hub.sessions
            ≡ without (identified v true) d (lookup d w.hub.sessions) =
        λ r known h. h ∙ sym (ap (λ a. without a d (lookup d w.hub.sessions)) known) in
      elim (Result-cases (begin_handshake encode_base64 v.challenge_written v.now v.nonce)) [
        | inr (e, bad) ↦
            told (err e) (ground (arith, bad)) (rw (bad, handshake, hub-reject_handshake e w) refl)
        | inl (nonce, good) ↦
            elim (Result-cases (check_answer crypto decode nonce v.answer v.session_random v.ref)) [
              | inr (e, bad) ↦ told (err e) (ground (arith, good, bad)) (
                  rw
                    (
                      good,
                      handshake,
                      bad,
                      accept,
                      welcome_round,
                      after_handshake,
                      hub-reject_handshake e w,
                    )
                    refl)
              | inl (s, right) ↦
                  told (ok s) (ground (arith, good, right))
                    (rw (good, handshake, right, accept) (registered-sessions v s d w))
            ]
      ]

  -- A visit leaves no trace. Whatever a client sends, and wherever its connection breaks off, one
  -- connection from the first test of its token to the end of ServeHTTP, that nothing else runs beside,
  -- changes what the hub lists at most for the device that it proved to be. That device is offline
  -- behind it, also if it was online before; every other device is listed just as it was. If the
  -- token, the upgrade or the handshake up to the check of the answer fails, no device is listed
  -- differently.
  pub visit_lem :
      (v : Visit) (w : State) (d : String)
      → lookup d (serve_connection v w).hub.sessions
        ≡ without
            (identified v ((admit token v.authorization w).0 && v.upgraded))
            d
            (lookup d w.hub.sessions)
  unfolding serve_connection
  visit_lem v w d =
      let after = (admit token v.authorization w).1 in
      elim (Bool-cases ((admit token v.authorization w).0 && v.upgraded)) [
        | inr out ↦ rw (out, hub-admit v.authorization w) refl
        | inl admitted ↦
            rw admitted (handshake-sessions v d after ∙ rw (hub-admit v.authorization w) refl)
      ]
