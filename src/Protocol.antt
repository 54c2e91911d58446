-- ===== src/Protocol.antt =====
-- relay/internal/protocol/protocol.go: the names on the wire, the messages, the error codes and
-- their HTTP status. Integers of the wire are natural numbers here; JSON is not modelled.
use icy_easy_send.Base.{ℕ, ◌*◌, String, Bool, List, ◌==◌, ◌||◌, if◌then◌else◌}

abbrev pub version : ℕ
version = 1

abbrev pub max_message_bytes : ℕ
max_message_bytes = 64 * 1024

abbrev pub max_subscribe_peers : ℕ
max_subscribe_peers = 256

-- Signature domain separators
abbrev pub sig_context_auth : String
sig_context_auth = "icy-relay-auth-v1"

abbrev pub sig_context_stream : String
sig_context_stream = "icy-relay-stream-v1"

-- Message types on the signaling plane
abbrev pub type_challenge : String
type_challenge = "challenge"

abbrev pub type_auth : String
type_auth = "auth"

abbrev pub type_welcome : String
type_welcome = "welcome"

abbrev pub type_subscribe : String
type_subscribe = "subscribe"

abbrev pub type_presence : String
type_presence = "presence"

abbrev pub type_relay : String
type_relay = "relay"

abbrev pub type_stream_create : String
type_stream_create = "stream.create"

abbrev pub type_stream_created : String
type_stream_created = "stream.created"

abbrev pub type_ping : String
type_ping = "ping"

abbrev pub type_pong : String
type_pong = "pong"

abbrev pub type_error : String
type_error = "error"

-- Relay kinds
abbrev pub kind_pair : String
kind_pair = "pair"

abbrev pub kind_transfer : String
kind_transfer = "transfer"

-- Stream roles
abbrev pub role_sender : String
role_sender = "sender"

abbrev pub role_receiver : String
role_receiver = "receiver"

-- Error codes
abbrev pub code_unauthorized : String
code_unauthorized = "unauthorized"

abbrev pub code_bad_identity : String
code_bad_identity = "bad_identity"

abbrev pub code_bad_request : String
code_bad_request = "bad_request"

abbrev pub code_peer_offline : String
code_peer_offline = "peer_offline"

abbrev pub code_stream_not_found : String
code_stream_not_found = "stream_not_found"

abbrev pub code_stream_forbidden : String
code_stream_forbidden = "stream_forbidden"

abbrev pub code_peer_not_attached : String
code_peer_not_attached = "peer_not_attached"

abbrev pub code_too_many_streams : String
code_too_many_streams = "too_many_streams"

abbrev pub code_payload_too_large : String
code_payload_too_large = "payload_too_large"

abbrev pub code_idle_timeout : String
code_idle_timeout = "idle_timeout"

abbrev pub code_rate_limited : String
code_rate_limited = "rate_limited"

abbrev pub code_internal : String
code_internal = "internal"

-- HTTPStatus, with the numbers that net/http gives its names.
unfoldable pub http_status : String → ℕ
http_status code =
    if code == code_unauthorized
    then 401
    else if code == code_bad_identity || code == code_stream_forbidden
    then 403
    else if code == code_bad_request
    then 400
    else if code == code_peer_offline || code == code_stream_not_found
    then 404
    else if code == code_peer_not_attached
    then 504
    else if code == code_too_many_streams || code == code_rate_limited
    then 429
    else if code == code_payload_too_large
    then 413
    else if code == code_idle_timeout
    then 408
    else 500

pub record Envelope : Type 0 where
  pub v : ℕ
  pub type : String
  pub mid : String
  pub ts : ℕ

unfoldable pub new_envelope : String → ℕ → Envelope
new_envelope type now = record { v = version; type = type; mid = ""; ts = now }

pub record Challenge : Type 0 where
  pub envelope : Envelope
  pub nonce : String

pub record Auth : Type 0 where
  pub envelope : Envelope
  pub device_id : String
  pub public_key : String
  pub signature : String

pub record Limits : Type 0 where
  pub max_concurrent_streams : ℕ
  pub max_stream_bytes : ℕ
  pub max_message_bytes : ℕ
  pub pair_rate_per_min : ℕ

pub record Welcome : Type 0 where
  pub envelope : Envelope
  pub session_id : String
  pub server_time : ℕ
  pub limits : Limits

pub record Subscribe : Type 0 where
  pub envelope : Envelope
  pub peers : List String

pub record Presence : Type 0 where
  pub envelope : Envelope
  pub device_id : String
  pub online : Bool

pub record Relay : Type 0 where
  pub envelope : Envelope
  pub to : String
  pub from : String
  pub kind : String
  pub payload : String

pub record StreamCreate : Type 0 where
  pub envelope : Envelope
  pub peer : String
  pub role : String

pub record StreamCreated : Type 0 where
  pub envelope : Envelope
  pub stream_id : String
  pub expires_at : ℕ

pub record ErrorMessage : Type 0 where
  pub envelope : Envelope
  pub code : String
  pub message : String
