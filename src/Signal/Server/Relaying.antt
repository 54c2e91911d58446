-- ===== src/Signal/Server/Relaying.antt =====
-- Where a relay message goes.
use mathlib.Core.List.{append-nil, append_assoc}
use icy_easy_send.Base.{
  ℕ, ◌≡◌, ◌⊎◌, inl, inr, refl, ◌∙◌, String, Bool, true, false, not, ◌&&◌, ◌||◌, Option, none, some,
  List, [], ◌∷◌, ◌++◌, length, ltb, eqb, ◌==◌, if◌then◌else◌, arith, Bool-cases,
}
use icy_easy_send.Protocol.{
  Relay, kind_pair, code_bad_request, code_rate_limited, code_peer_offline, new_envelope,
}
use icy_easy_send.Limit as Limits
use icy_easy_send.Limit.{Rate, PairLimiter}
use icy_easy_send.Signal.Hub.{Session, lookup_session}
use icy_easy_send.Signal.Session.{Message, Outbox, error, relay, send, close}
use icy_easy_send.Signal.World.{
  World, failed, pair_rate_limited, observe, send_to, send_error, session_error, seconds,
}
use icy_easy_send.Signal.Server.{Codec, forwarded, handle_relay, relay_checked, may_pass, pass_on}

-- The session can take one more message.
abbrev pub has_room : Outbox → Bool
has_room o = if o.closed then false else ltb (length o.queue) 32

-- The error message that answers a request.
abbrev pub refusal : ℕ → String → String → String → Message
refusal now mid code message = error (record {
  envelope = record { v = 1; type = "error"; mid = mid; ts = seconds now };
  code = code;
  message = message;
})

-- What a target gets: the message's kind, payload and id, and as its sender the session's device.
abbrev pub passed_on : ℕ → Session → Relay → Message
passed_on now s msg = relay (record {
  envelope = record { v = 1; type = "relay"; mid = msg.envelope.mid; ts = seconds now };
  to = "";
  from = s.device_id;
  kind = msg.kind;
  payload = msg.payload;
})

-- The code and the text of the answer to a relay message that is not passed on, or none if it is:
-- the tests in the order of the code, with what the limiter says to a pairing request, the session of
-- the target if it is connected, and the queue of that session.
abbrev pub verdict :
    Session → Relay → Bool → Option Session → (Session → Outbox) → Option (String × String)
verdict s msg allowed target outbox =
    if msg.to == ""
    then some (code_bad_request, "invalid relay target")
    else if msg.to == s.device_id
    then some (code_bad_request, "invalid relay target")
    else if (msg.kind == kind_pair) && (if allowed then false else true)
    then some (code_rate_limited, "too many pairing requests")
    else elim target [
      | none ↦ some (code_peer_offline, "peer is not connected")
      | some t ↦
          if has_room (outbox t) then none else some (code_peer_offline, "peer is not reachable")
    ]

-- What a Send of the message to the session adds to the queue at this address.
abbrev pub added : Session → Message → ℕ → Outbox → List Message
added s m r o = if eqb s.ref r then if has_room o then m ∷ [] else [] else []

pub queue-send_to :
    {L : Type 0} (s : Session) (m : Message) (w : World L) (r : ℕ)
    → ((send_to s m w).1.outboxes r).queue ≡ (w.outboxes r).queue ++ added s m r (w.outboxes r)
unfolding send_to send close
queue-send_to s m w r = ground (arith, append-nil (w.outboxes r).queue)

sent-send_to :
    {L : Type 0} (s : Session) (m : Message) (w : World L)
    → (send_to s m w).0 ≡ has_room (w.outboxes s.ref)
unfolding send_to send
sent-send_to s m w = ground arith

pub events-send_to :
    {L : Type 0} (s : Session) (m : Message) (w : World L) → (send_to s m w).1.events ≡ w.events
unfolding send_to
events-send_to s m w = refl

-- A Send that is refused leaves every queue with the room that it had, or none.
has_room-send_to :
    {L : Type 0} (s : Session) (m : Message) (w : World L) (r : ℕ)
    → (send_to s m w).0 ≡ false
    → has_room ((send_to s m w).1.outboxes r) ≡ has_room (w.outboxes r)
unfolding send_to send close
has_room-send_to s m w r h = ground arith

module _ (rate : Rate) (codec : Codec) (now : ℕ) where
  abbrev State : Type 0
  State = World rate.Limiter

  -- What the limiter would answer to a pairing request of this session.
  abbrev pub allowed : Session → State → Bool
  allowed s w = (Limits.allow rate s.device_id now w.pairing).0

  -- The request is refused with this code: the code is counted, and the only message that may be
  -- queued is the refusal, for the sender.
  abbrev pub Refused : Session → String → String → String → State → State → Type 0
  Refused s mid code text w w' =
      ((w'.events ≡ w.events ++ (failed code ∷ []))
        ⊎ (w'.events ≡ w.events ++ (pair_rate_limited ∷ failed code ∷ [])))
      × ((r : ℕ)
          → (w'.outboxes r).queue
            ≡ (w.outboxes r).queue ++ added s (refusal now mid code text) r (w.outboxes r))

  -- The message is passed on: it is queued for its target, and nothing else happens.
  abbrev pub Passed : Session → Session → Relay → State → State → Type 0
  Passed s t msg w w' =
      (w'.events ≡ w.events)
      × ((r : ℕ)
          → (w'.outboxes r).queue
            ≡ (w.outboxes r).queue ++ (if eqb t.ref r then passed_on now s msg ∷ [] else []))

  pub send_error-Refused :
      (s : Session) (mid code text : String) (w : State)
      → Refused s mid code text w (send_error now s mid code text w)
  unfolding send_error session_error new_envelope
  send_error-Refused s mid code text w = (
    inl (events-send_to s (refusal now mid code text) (observe (failed code) w)),
    λ r. queue-send_to s (refusal now mid code text) (observe (failed code) w) r,
  )

  pub events-send_error :
      (s : Session) (mid code text : String) (w : State)
      → (send_error now s mid code text w).events ≡ w.events ++ (failed code ∷ [])
  unfolding send_error session_error send_to
  events-send_error s mid code text w = refl

  -- The refusal after a Send that was refused itself.
  unreachable-Refused :
      (s t : Session) (m : Message) (mid code text : String) (w : State)
      → (send_to t m w).0 ≡ false
      → has_room (w.outboxes t.ref) ≡ false
      → Refused s mid code text w (send_error now s mid code text (send_to t m w).1)
  unfolding send_to
  unreachable-Refused s t m mid code text w h full =
      let w1 = (send_to t m w).1 in
      let r = send_error-Refused s mid code text w1 in
      (
        rw (← events-send_to t m w) r.0,
        λ k.
            r.1 k
            ∙ ground (
              arith,
              queue-send_to t m w k,
              has_room-send_to t m w k h,
              full,
              append-nil (w.outboxes k).queue,
            ),
      )

  -- What becomes of a request with this verdict.
  abbrev pub Outcome :
      Session → Relay → String → Option (String × String) → Option Session → State → State → Type 0
  Outcome s msg mid none none w w' = ⊥
  Outcome s msg mid none (some t) w w' = Passed s t msg w w'
  Outcome s msg mid (some v) target w w' = Refused s mid v.0 v.1 w w'

  pass_on-Outcome :
      (s : Session) (msg : Relay) (mid : String) (w : State) (p : PairLimiter rate.Limiter)
      (target : Option Session)
      → lookup_session msg.to w.hub ≡ target
      → Outcome s msg mid
          (elim target [
            | none ↦ some (code_peer_offline, "peer is not connected")
            | some t ↦
                if has_room (w.outboxes t.ref)
                then none
                else some (code_peer_offline, "peer is not reachable")
          ])
          target
          w
          (pass_on rate codec now s msg mid (record w { pairing = p }))
  unfolding pass_on forwarded new_envelope
  pass_on-Outcome s msg mid w p none e =
      rw (e, pass_on)
        (send_error-Refused s mid code_peer_offline "peer is not connected"
          (record w { pairing = p }))
  pass_on-Outcome s msg mid w p (some t) e =
      let after = record w { pairing = p } in
      let m = forwarded now s msg in
      let sent = sent-send_to t m after in
      elim (Bool-cases (has_room (w.outboxes t.ref))) [
        | inl room ↦
            rw (e, pass_on, sent, room)
              (events-send_to t m after, λ r. queue-send_to t m after r ∙ ground (arith, room))
        | inr full ↦
            rw (e, pass_on, sent, full)
              (unreachable-Refused s t m mid code_peer_offline "peer is not reachable" after
                (sent ∙ full) full)
      ]

  pairing-pass_on :
      (s : Session) (msg : Relay) (mid : String) (w : State)
      → (pass_on rate codec now s msg mid w).pairing ≡ w.pairing
  unfolding pass_on send_to send_error session_error
  pairing-pass_on s msg mid w = ground arith

  -- A pairing request over the limit.
  limited-Refused :
      (s : Session) (mid code text : String) (w : State)
      → Refused s mid code text w (send_error now s mid code text (observe pair_rate_limited w))
  limited-Refused s mid code text w =
      let before = observe pair_rate_limited w in
      let r = send_error-Refused s mid code text before in
      (inr (events-send_error s mid code text before ∙ append_assoc w.events _ _), r.1)

  -- What becomes of a relay message, by its verdict: the first test that refuses it, in the order
  -- no target or the sender itself, a pairing request over the limit, a target that is not connected,
  -- a target whose queue is closed or full. A message that no test refuses is queued for its target
  -- with the session's own device as its sender, whatever the message says; of one that is refused
  -- nothing goes out but the refusal to its sender, and the code is counted. For no kind of message does
  -- it matter who subscribes to whom. The limiter is charged for pairing requests alone, and not for
  -- those without a target.
  pub handle_relay_lem :
      (s : Session) (frame mid : String) (msg : Relay) (w : State)
      → codec.relay frame ≡ some msg
      → let target = lookup_session msg.to w.hub in
        let w' = handle_relay rate codec now s frame mid w in
        Outcome s msg mid (verdict s msg (allowed s w) target (λ t. w.outboxes t.ref)) target w w'
        × (w'.pairing ≡ (
            if (msg.kind == kind_pair) && not ((msg.to == "") || (msg.to == s.device_id))
            then (Limits.allow rate s.device_id now w.pairing).1
            else w.pairing))
  unfolding handle_relay relay_checked may_pass
  handle_relay_lem s frame mid msg w parsed =
      let target = lookup_session msg.to w.hub in
      elim (Bool-cases (msg.to == "")) [
        | inl empty ↦
            rw (parsed, handle_relay, empty)
              (send_error-Refused s mid code_bad_request "invalid relay target" w, ground arith)
        | inr named ↦ elim (Bool-cases (msg.to == s.device_id)) [
          | inl own ↦
              rw (parsed, handle_relay, named, own)
                (send_error-Refused s mid code_bad_request "invalid relay target" w, ground arith)
          | inr other ↦ elim (Bool-cases (msg.kind == kind_pair)) [
            | inr free ↦
                rw (parsed, handle_relay, named, other, free)
                  (pass_on-Outcome s msg mid w w.pairing target refl, pairing-pass_on s msg mid w)
            | inl pair ↦
                let charged = record w {
                  pairing = (Limits.allow rate s.device_id now w.pairing).1;
                } in
                elim (Bool-cases (allowed s w)) [
                  | inl passes ↦
                      rw (parsed, handle_relay, named, other, pair, passes)
                        (
                          pass_on-Outcome s msg mid w charged.pairing target refl,
                          pairing-pass_on s msg mid charged,
                        )
                  | inr limited ↦
                      rw (parsed, handle_relay, named, other, pair, limited)
                        (
                          limited-Refused s mid code_rate_limited "too many pairing requests"
                              charged,
                          ground arith,
                        )
                ]
          ]
        ]
      ]
