-- ===== src/Signal/History.antt =====
-- Histories of the whole signaling plane, and whose key the hub hands out.
use icy_easy_send.Base.{
  ℕ, ◌≡◌, refl, subst, String, false, Option, none, some, List, [], ◌∷◌, lookup, length, Result, ok,
  err, arith, Option-cases, Result-cases, inl, inr, AllEntries, insert-AllEntries,
  delete-AllEntries, AllEntries-lookup,
}
use icy_easy_send.Protocol as Wire
use icy_easy_send.Auth.{Crypto, device_id_from_public_key, verify_identity}
use icy_easy_send.Auth.Admission.{verify_identity_iff}
use icy_easy_send.Limit.{Rate}
use icy_easy_send.Stream.Errors.{Error}
use icy_easy_send.Stream.Registry.{Registry, Stream}
use icy_easy_send.Signal.Hub.{
  Session, PresenceUpdate, new_hub, register, unregister, public_key, subscribe,
}
use icy_easy_send.Signal.World.{
  World, send_to, send_error, session_error, send_updates, tell_gone, close_session,
}
use icy_easy_send.Signal.Server.{
  Codec, dispatch, handle, handle_subscribe, handle_relay, relay_checked, may_pass, pass_on,
  handle_stream_create, stream_create_checked, create_for, answer_created, teardown,
}
use icy_easy_send.Signal.Handshake.{Refusal, check_answer, parse_answer, verified, enter, welcomed}

-- A session whose device id is the fingerprint of its key, listed under that id.
abbrev pub IsGenuine : Crypto → String → Session → Type 0
IsGenuine crypto k s =
    (s.device_id ≡ k)
    × (device_id_from_public_key crypto s.public_key ≡ k)
    × (length s.public_key ≡ 32)

module _ {L : Type 0} where
  hub-send_updates :
      (now : ℕ) (us : List PresenceUpdate) (w : World L) → (send_updates now us w).hub ≡ w.hub
  unfolding send_updates send_to
  hub-send_updates now [] w = refl
  hub-send_updates now (u ∷ us) w = hub-send_updates now us _

  hub-tell_gone :
      (now : ℕ) (d : String) (ss : List Session) (w : World L) → (tell_gone now d ss w).hub ≡ w.hub
  unfolding tell_gone send_to
  hub-tell_gone now d [] w = refl
  hub-tell_gone now d (s ∷ ss) w = hub-tell_gone now d ss _

module _ (rate : Rate) (codec : Codec) (now : ℕ) where
  abbrev State : Type 0
  State = World rate.Limiter

  hub-pass_on :
      (s : Session) (msg : Wire.Relay) (mid : String) (w : State)
      → (pass_on rate codec now s msg mid w).hub ≡ w.hub
  unfolding pass_on send_to send_error session_error
  hub-pass_on s msg mid w = ground arith

  hub-handle_relay :
      (s : Session) (frame mid : String) (w : State)
      → (handle_relay rate codec now s frame mid w).hub ≡ w.hub
  unfolding handle_relay relay_checked may_pass send_to send_error session_error
  hub-handle_relay s frame mid w = grind (arith, hub-pass_on s)

  hub-answer_created :
      (s : Session) (mid : String) (out : Result Error Stream × Registry) (w : State)
      → (answer_created rate codec now s mid out w).hub ≡ w.hub
  unfolding answer_created send_to send_error session_error
  hub-answer_created s mid (ok st, q) w = refl
  hub-answer_created s mid (err e, q) w = refl

  hub-handle_stream_create :
      (random : Result Error (List ℕ)) (s : Session) (frame mid : String) (w : State)
      → (handle_stream_create rate codec now random s frame mid w).hub ≡ w.hub
  unfolding handle_stream_create stream_create_checked create_for send_error session_error send_to
  hub-handle_stream_create random s frame mid w = grind (arith, hub-answer_created s)

  sessions-handle_subscribe :
      (s : Session) (frame : String) (w : State)
      → (handle_subscribe rate codec now s frame w).hub.sessions ≡ w.hub.sessions
  unfolding handle_subscribe subscribe send_error session_error send_to
  sessions-handle_subscribe s frame w = grind (arith, hub-send_updates now)

  -- No message changes who is connected.
  pub sessions-dispatch :
      (random : Result Error (List ℕ)) (s : Session) (frame : String) (w : State)
      → (dispatch rate codec now random s frame w).hub.sessions ≡ w.hub.sessions
  unfolding dispatch handle send_error session_error send_to
  sessions-dispatch random s frame w = ground (
    arith,
    sessions-handle_subscribe s frame w,
    hub-handle_relay s frame,
    hub-handle_stream_create random s frame,
  )

  pub hub-teardown :
      (s : Session) (w : State) → (teardown rate codec now s w).hub ≡ (unregister s w.hub).1
  unfolding teardown close_session
  hub-teardown s w = grind (arith, hub-tell_gone now s.device_id)

abbrev IsGenuineIfOk : Crypto → Result Refusal Session → Type 0
IsGenuineIfOk crypto (ok s) = IsGenuine crypto s.device_id s
IsGenuineIfOk crypto (err e) = Unit

abbrev IsOwnKey : Crypto → String → Option (List ℕ) → Type 0
IsOwnKey crypto d none = Unit
IsOwnKey crypto d (some key) = (device_id_from_public_key crypto key ≡ d) × (length key ≡ 32)

check_answer-IsGenuine :
    (crypto : Crypto) (decode : String → Option Wire.Auth) (nonce : List ℕ) (read : Option String)
    (random : Option (List ℕ)) (ref : ℕ) (s : Session)
    → check_answer crypto decode nonce read random ref ≡ ok s
    → IsGenuine crypto s.device_id s
unfolding check_answer verified
check_answer-IsGenuine crypto decode nonce read random ref s h =
    elim (Result-cases (parse_answer decode read)) [
      | inr (e, bad) ↦ absurd (ground arith)
      | inl (msg, good) ↦
          elim (Result-cases
            (verify_identity crypto msg.device_id msg.public_key msg.signature nonce)) [
              | inr (e, bad) ↦ absurd (ground arith)
              | inl (key, known) ↦
                  let facts =
                    (verify_identity_iff crypto msg.device_id msg.public_key msg.signature nonce
                        key).0
                      known in
                  elim (Option-cases random) [
                    | inl dry ↦ absurd (ground arith)
                    | inr (raw, e) ↦
                        subst (IsGenuineIfOk crypto)
                          (rw (good, check_answer, verified, known, e) at h)
                          (refl, facts.2, facts.1)
                  ]
            ]
    ]

module _ (rate : Rate) (codec : Codec) (crypto : Crypto) where
  -- What can happen on the server. A connection enters when its answer to a challenge passes; its
  -- welcome may fail; its messages are handled; it is torn down. The queues and the registry may
  -- change in any way in between, and so may the limiter's table.
  pub data Step (w : World rate.Limiter) : World rate.Limiter → Type 0 where
    enters :
        (decode : String → Option Wire.Auth) (nonce : List ℕ) (read : Option String)
        (random : Option (List ℕ)) (ref : ℕ) (s : Session)
        → check_answer crypto decode nonce read random ref ≡ ok s
        → Step w (enter s w)
    drops : (s : Session) → Step w (welcomed false s w).1
    dispatches :
        (now : ℕ) (random : Result Error (List ℕ)) (s : Session) (frame : String)
        → Step w (dispatch rate codec now random s frame w)
    leaves : (now : ℕ) (s : Session) → Step w (teardown rate codec now s w)
    moves : (v : World rate.Limiter) → v.hub ≡ w.hub → Step w v

  pub data Reach : World rate.Limiter → Type 0 where
    start : (w : World rate.Limiter) → w.hub ≡ new_hub → Reach w
    next : {w v : World rate.Limiter} → Reach w → Step w v → Reach v

  abbrev AreGenuine : World rate.Limiter → Type 0
  AreGenuine w = AllEntries (IsGenuine crypto) w.hub.sessions

  enter-AreGenuine :
      (s : Session) (w : World rate.Limiter)
      → IsGenuine crypto s.device_id s
      → AreGenuine w
      → AreGenuine (enter s w)
  unfolding enter register close_session
  enter-AreGenuine s w g a =
      let done' = insert-AllEntries (IsGenuine crypto) s.device_id s w.hub.sessions g a in
      elim (Option-cases (lookup s.device_id w.hub.sessions)) [
        | inl e ↦ rw (enter, e) done'
        | inr (old, e) ↦ rw (enter, e) done'
      ]

  unregister-AreGenuine :
      (s : Session) (w : World rate.Limiter)
      → AreGenuine w
      → AllEntries (IsGenuine crypto) (unregister s w.hub).1.sessions
  unfolding unregister
  unregister-AreGenuine s w a =
      ground (arith, delete-AllEntries (IsGenuine crypto) s.device_id w.hub.sessions a)

  Step-AreGenuine : {w v : World rate.Limiter} → Step w v → AreGenuine w → AreGenuine v
  unfolding welcomed teardown close_session
  Step-AreGenuine {w} (enters decode nonce read random ref s h) a =
      enter-AreGenuine s w (check_answer-IsGenuine crypto decode nonce read random ref s h) a
  Step-AreGenuine {w} (drops s) a = unregister-AreGenuine s w a
  Step-AreGenuine {w} (dispatches now random s frame) a =
      rw (sessions-dispatch rate codec now random s frame w) a
  Step-AreGenuine {w} (leaves now s) a =
      rw (hub-teardown rate codec now s w) (unregister-AreGenuine s w a)
  Step-AreGenuine {w} (moves v same) a = rw same a

  Reach-AreGenuine : {w : World rate.Limiter} → Reach w → AreGenuine w
  Reach-AreGenuine (start w e) = rw e tt
  Reach-AreGenuine (next r s) = Step-AreGenuine s (Reach-AreGenuine r)

  -- The hub never hands out a wrong key: after any history of connections, messages and departures,
  -- the key that it gives for a device has 32 bytes, and the device's id is the fingerprint of that
  -- key.
  pub keys_are_genuine :
      {w : World rate.Limiter} (d : String) (key : List ℕ)
      → Reach w
      → public_key d w.hub ≡ some key
      → (device_id_from_public_key crypto key ≡ d) × (length key ≡ 32)
  unfolding public_key
  keys_are_genuine {w} d key r h = elim (Option-cases (lookup d w.hub.sessions)) [
    | inl e ↦ absurd (ground arith)
    | inr (s, e) ↦
        let g = AllEntries-lookup (IsGenuine crypto) d s w.hub.sessions (Reach-AreGenuine r) e in
        subst (IsOwnKey crypto d) (rw (e, public_key) at h) (g.1, g.2)
  ]
