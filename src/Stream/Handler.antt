-- ===== src/Stream/Handler.antt =====
-- relay/internal/stream/handler.go: POST and GET on /v1/stream/{streamId}.
--
-- A request is the parts of it that the code reads. Where a handler waits for the other end or moves
-- bytes, other requests run: it is cut there into `begin_…`, `woken_…` and `finish_…`, each with the
-- registry of its own moment. The counters of the Observer are a list of events.
pub mod Pump
pub mod Copying
pub mod Admission
pub mod Teardown
pub mod Refusals
mod Tests
use icy_easy_send.Base.{
  ℕ, ◌+◌, ◌≡◌, String, Bool, true, false, ◌&&◌, ◌||◌, Option, none, some, List, [], ◌∷◌, ◌++◌, ◌==◌,
  if◌then◌else◌, Result, ok, err,
}
use icy_easy_send.Base.Text.{trim_prefix, contains_slash}
use icy_easy_send.Protocol.{
  code_unauthorized, code_bad_identity, code_bad_request, code_stream_not_found,
  code_stream_forbidden, code_peer_not_attached, code_too_many_streams, code_payload_too_large,
  code_idle_timeout, code_internal, role_sender, role_receiver, http_status,
}
use icy_easy_send.Auth.{Crypto, AuthError, token_matches, parse_bearer, verify_stream_proof}
use icy_easy_send.Stream.Errors.{
  Error, too_many_streams, not_found, forbidden, already_attached, peer_not_attached,
  stream_too_large, eof, closed_pipe, plain, foreign,
}
use icy_easy_send.Stream.Pipe.{close_write, close_read}
use icy_easy_send.Stream.Registry.{
  Stream, Ends, Registry, get, role, claim_sender, claim_receiver, Wake, wait_for, release,
  set_ends,
}

-- err.Error()
unfoldable pub error_text : Error → String
error_text too_many_streams = code_too_many_streams
error_text not_found = code_stream_not_found
error_text forbidden = code_stream_forbidden
error_text already_attached = "endpoint already attached"
error_text peer_not_attached = code_peer_not_attached
error_text stream_too_large = code_payload_too_large
error_text eof = "EOF"
error_text closed_pipe = "io: read/write on closed pipe"
error_text (plain t) = t
error_text (foreign timeout t) = t

-- The last switch of errorCode, on the text of the error.
code_of_text : String → String
code_of_text t =
    if (t == code_unauthorized) || (t == code_bad_identity) || (t == code_bad_request)
    then t
    else code_internal

unfoldable pub error_code : Option Error → String
unfolding code_of_text error_text
error_code none = code_internal
error_code (some peer_not_attached) = code_peer_not_attached
error_code (some forbidden) = code_stream_forbidden
error_code (some already_attached) = code_stream_forbidden
error_code (some not_found) = code_stream_not_found
error_code (some too_many_streams) = code_too_many_streams
error_code (some stream_too_large) = code_payload_too_large
error_code (some (foreign true t)) = code_idle_timeout
error_code (some e) = code_of_text (error_text e)

pub record Request : Type 0 where
  pub method : String
  pub path : String
  pub authorization : String
  pub device_id : String
  pub stream_proof : String

-- The fields of HandlerOptions that decide anything, but the limiter. `keys` is a KeyLookup.
pub record Options : Type 0 where
  pub token : String
  pub keys : String → Option (List ℕ)
  pub crypto : Crypto

-- The calls of the Observer.
pub data Event : Type 0 where
  auth_failure error : String → Event
  bytes_relayed : ℕ → Event

-- What the client gets: an error, the sender's acknowledgement, the whole body, or a connection that
-- is dropped in the middle of the body.
pub data Response : Type 0 where
  failure : ℕ → String → String → Response
  uploaded : ℕ → Response
  downloaded aborted : Response

unfoldable pub write_error : String → String → Response × List Event
unfolding http_status
write_error code message = (failure (http_status code) code message, error code ∷ [])

refuse_identity : Result Error String × List Event
refuse_identity = (err (plain code_bad_identity), auth_failure "identity" ∷ [])

check_proof : Options → Request → String → Option (List ℕ) → Result Error String × List Event
unfolding refuse_identity verify_stream_proof
check_proof o r stream none = refuse_identity
check_proof o r stream (some key) = elim (verify_stream_proof o.crypto key stream r.stream_proof) [
  | err _ ↦ refuse_identity
  | ok _ ↦ (ok r.device_id, [])
]

unfoldable pub authenticate : Options → Request → String → Result Error String × List Event
unfolding check_proof token_matches parse_bearer
authenticate o r stream =
    if token_matches o.token (parse_bearer r.authorization)
    then if r.device_id == "" then refuse_identity else check_proof o r stream (o.keys r.device_id)
    else (err (plain code_unauthorized), auth_failure "token" ∷ [])

-- Where ServeHTTP goes on.
pub data Route : Type 0 where
  refused : Response → Route
  to_sender : Stream → String → Route
  to_receiver : Stream → Route

abbrev refuse : String → String → Route × List Event
refuse code message =
    let (response, events) = write_error code message in (refused response, events)

-- The switch on method and role.
by_method : String → Stream → String → String → Route × List Event
unfolding write_error
by_method method s device role =
    if (method == "POST") && (role == role_sender)
    then (to_sender s device, [])
    else if (method == "GET") && (role == role_receiver)
    then (to_receiver s, [])
    else refuse code_stream_forbidden "method does not match role"

by_role : String → Stream → String → Result Error String → Route × List Event
unfolding by_method
by_role method s device (ok role) = by_method method s device role
by_role method s device (err e) = refuse code_stream_forbidden "not an endpoint of this stream"

by_stream : String → String → Result Error Stream → Route × List Event
unfolding by_role role
by_stream method device (ok s) = by_role method s device (role s device)
by_stream method device (err e) = refuse code_stream_not_found "unknown stream"

by_identity : Request → Registry → String → Result Error String × List Event → Route × List Event
unfolding by_stream error_code get
by_identity r reg stream (ok device, events) =
    let (route, more) = by_stream r.method device (get stream reg) in (route, events ++ more)
by_identity r reg stream (err e, events) =
    let (route, more) = refuse (error_code (some e)) (error_text e) in (route, events ++ more)

unfoldable pub serve_http : Options → Request → Registry → Route × List Event
unfolding by_identity authenticate trim_prefix contains_slash write_error
serve_http o r reg =
    let stream = trim_prefix r.path "/v1/stream/" in
    if (stream == "") || contains_slash stream
    then refuse code_bad_request "missing stream id"
    else by_identity r reg stream (authenticate o r stream)

-- A handler behind ServeHTTP waits for the other end, moves bytes, or is done.
pub data Phase : Type 0 where
  waiting pumping : Phase
  finished : Response → Phase

-- `Release(s)`, then the error to the client.
give_up : Stream → Error → Registry → (Phase × List Event) × Registry
unfolding release error_code write_error
give_up s e reg =
    let (response, events) = write_error (error_code (some e)) (error_text e) in
    ((finished response, events), release s reg)

after_claim : Stream → Bool × Registry → (Phase × List Event) × Registry
unfolding give_up
after_claim s (true, reg) = ((waiting, []), reg)
after_claim s (false, reg) = give_up s already_attached reg

after_wait : Stream → Result Error (Unit {0}) → Registry → (Phase × List Event) × Registry
unfolding give_up
after_wait s (ok _) reg = ((pumping, []), reg)
after_wait s (err e) reg = give_up s e reg

-- serveSender up to the wait in AttachSender, and from there to the loop.
unfoldable pub begin_sender : Stream → Registry → (Phase × List Event) × Registry
unfolding after_claim claim_sender
begin_sender s reg = after_claim s (claim_sender s reg)

unfoldable pub woken_sender : Stream → Wake → Registry → (Phase × List Event) × Registry
unfolding after_wait wait_for
woken_sender s w reg = after_wait s (wait_for w) reg

abbrev pub close_writer : Stream → Option Error → Registry → Registry
close_writer s e reg =
    let x = reg.ends s.id in
    record reg { ends = set_ends s.id (record x { pipe = close_write e x.pipe }) reg.ends }

abbrev pub close_reader : Stream → Option Error → Registry → Registry
close_reader s e reg =
    let x = reg.ends s.id in
    record reg { ends = set_ends s.id (record x { pipe = close_read e x.pipe }) reg.ends }

-- serveSender behind the loop, which moved `written` bytes and ended with this error or none.
unfoldable pub finish_sender :
    Stream → ℕ → Option Error → Registry → (Phase × List Event) × Registry
unfolding give_up close_write
finish_sender s written (some e) reg = give_up s e (close_writer s (some e) reg)
finish_sender s written none reg =
    ((finished (uploaded written), bytes_relayed written ∷ []), close_writer s none reg)

unfoldable pub begin_receiver : Stream → Registry → (Phase × List Event) × Registry
unfolding after_claim claim_receiver
begin_receiver s reg = after_claim s (claim_receiver s reg)

unfoldable pub woken_receiver : Stream → Wake → Registry → (Phase × List Event) × Registry
unfolding after_wait wait_for
woken_receiver s w reg = after_wait s (wait_for w) reg

-- serveReceiver behind the loop; the deferred Release runs last, also under the panic.
unfoldable pub finish_receiver : Stream → Option Error → Registry → (Phase × List Event) × Registry
unfolding release close_read
finish_receiver s (some e) reg = ((finished aborted, []), release s (close_reader s (some e) reg))
finish_receiver s none reg = ((finished downloaded, []), release s (close_reader s none reg))
