-- ===== src/Signal/Handshake.antt =====
-- relay/internal/signal/server.go: how a connection becomes a session.
--
-- The handshake waits on the network three times. It is cut there: `begin_handshake` ends with the
-- write of the challenge, `accept` runs from the client's answer to the registration, and `welcomed`
-- behind the write of the welcome message.
use icy_easy_send.Base.{
  ℕ, ◌*◌, eqb, String, Bool, true, false, Option, none, some, List, ◌==◌, if◌then◌else◌, Result, ok,
  err,
}
use icy_easy_send.Base.Hex.{hex_encode}
use icy_easy_send.Protocol as Wire
use icy_easy_send.Protocol.{
  Welcome, Challenge, new_envelope, type_auth, type_welcome, type_challenge, code_unauthorized,
  code_bad_request, code_bad_identity,
}
use icy_easy_send.Auth.{Crypto, AuthError, token_matches, parse_bearer, verify_identity, new_nonce}
use icy_easy_send.Signal.Hub.{Session, register, unregister}
use icy_easy_send.Signal.Session.{new_outbox}
use icy_easy_send.Signal.World.{
  World, auth_failure, failed, observe, close_session, set_outbox, seconds,
}

-- The timings of ServerOptions; one that is zero is not set.
pub record Timings : Type 0 where
  pub ping_interval : ℕ
  pub pong_timeout : ℕ
  pub auth_timeout : ℕ
  pub write_timeout : ℕ

abbrev second : ℕ
second = 1_000_000_000

abbrev pub defaults : Timings
defaults = record {
  ping_interval = 25 * second;
  pong_timeout = 10 * second;
  auth_timeout = 10 * second;
  write_timeout = 10 * second;
}

abbrev unless_zero : ℕ → ℕ → ℕ
unless_zero default n = if eqb n 0 then default else n

-- NewServer, as to its timings.
unfoldable pub new_server : Timings → Timings
new_server t = record {
  ping_interval = unless_zero defaults.ping_interval t.ping_interval;
  pong_timeout = unless_zero defaults.pong_timeout t.pong_timeout;
  auth_timeout = unless_zero defaults.auth_timeout t.auth_timeout;
  write_timeout = unless_zero defaults.write_timeout t.write_timeout;
}

-- newSessionID: `random` is what rand.Read gave.
unfoldable pub new_session_id : Option (List ℕ) → Option String
unfolding hex_encode
new_session_id none = none
new_session_id (some raw) = some (hex_encode raw)

-- The errors of the handshake that rejectHandshake tells apart.
pub data Refusal : Type 0 where
  bad_request incomplete : Refusal
  identity : AuthError → Refusal

-- The challenge, with the nonce in base64.
unfoldable pub challenge : (List ℕ → String) → ℕ → List ℕ → Challenge
unfolding new_envelope
challenge encode_base64 now nonce = record {
  envelope = new_envelope type_challenge (seconds now);
  nonce = encode_base64 nonce;
}

-- The handshake up to the wait for the answer: the nonce that is drawn, and what goes out. `written`
-- tells whether the write of a challenge succeeded.
unfoldable pub begin_handshake :
    (List ℕ → String) → (Challenge → Bool) → ℕ → (ℕ → Option (List ℕ)) → Result Refusal (List ℕ)
unfolding challenge new_nonce
begin_handshake encode_base64 written now random = elim (new_nonce random) [
  | none ↦ err incomplete
  | some nonce ↦ if written (challenge encode_base64 now nonce) then ok nonce else err incomplete
]

-- json.Unmarshal of the answer, and the test of its type. `read` is what conn.Read returned.
unfoldable pub parse_answer : (String → Option Wire.Auth) → Option String → Result Refusal Wire.Auth
parse_answer decode none = err incomplete
parse_answer decode (some frame) = elim (decode frame) [
  | none ↦ err bad_request
  | some msg ↦ if msg.envelope.type == type_auth then ok msg else err bad_request
]

-- newSession of a connection with this address, once the identity is verified; `random` is what
-- rand.Read gave for the session's id.
unfoldable pub verified : Crypto → List ℕ → Option (List ℕ) → ℕ → Wire.Auth → Result Refusal Session
unfolding verify_identity new_session_id
verified crypto nonce random ref msg =
    elim (verify_identity crypto msg.device_id msg.public_key msg.signature nonce) [
      | err e ↦ err (identity e)
      | ok key ↦ elim (new_session_id random) [
        | none ↦ err incomplete
        | some id ↦
            ok (record { ref = ref; device_id = msg.device_id; public_key = key; session_id = id })
      ]
    ]

-- The whole check of the answer to the challenge.
unfoldable pub check_answer :
    Crypto
    → (String → Option Wire.Auth)
    → List ℕ
    → Option String
    → Option (List ℕ)
    → ℕ
    → Result Refusal Session
unfolding parse_answer verified
check_answer crypto decode nonce read random ref = elim (parse_answer decode read) [
  | err e ↦ err e
  | ok msg ↦ verified crypto nonce random ref msg
]

unfoldable pub welcome : ℕ → Wire.Limits → Session → Welcome
unfolding new_envelope
welcome now limits s = record {
  envelope = new_envelope type_welcome (seconds now);
  session_id = s.session_id;
  server_time = seconds now;
  limits = limits;
}

module _ {L : Type 0} where
  -- ServeHTTP's first layer: whether the connection is upgraded.
  unfoldable pub admit : String → String → World L → Bool × World L
  unfolding token_matches parse_bearer
  admit token authorization w =
      if token_matches token (parse_bearer authorization)
      then (true, w)
      else (false, observe (failed code_unauthorized) (observe (auth_failure "token") w))

  -- The registration; the session that it replaces is closed.
  unfoldable pub enter : Session → World L → World L
  unfolding register close_session
  enter s w =
      let (previous, hub) = register s w.hub in
      let entered = set_outbox s.ref new_outbox (record w { hub = hub }) in
      elim previous [ none ↦ entered | some old ↦ close_session old entered ]

  unfoldable pub accept : Result Refusal Session → World L → Result Refusal Session × World L
  unfolding enter
  accept (ok s) w = (ok s, enter s w)
  accept (err e) w = (err e, w)

  -- Behind the write of the welcome message, which went out or failed.
  unfoldable pub welcomed : Bool → Session → World L → Result Refusal Session × World L
  unfolding unregister
  welcomed true s w = (ok s, w)
  welcomed false s w = (err incomplete, record w { hub = (unregister s w.hub).1 })

  -- rejectHandshake: the reason that the connection is closed with.
  unfoldable pub reject_handshake : Refusal → World L → String × World L
  reject_handshake bad_request w = (code_bad_request, observe (failed code_bad_request) w)
  reject_handshake (identity e) w =
      (code_bad_identity, observe (failed code_bad_identity) (observe (auth_failure "identity") w))
  reject_handshake incomplete w = ("handshake incomplete", w)
