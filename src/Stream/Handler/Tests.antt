-- ===== src/Stream/Handler/Tests.antt =====
-- The data plane's theorems at concrete requests.
use icy_easy_send.Base.{
  ℕ, ◌≡◌, ◌≢◌, refl, String, true, none, some, List, [], ◌∷◌, Option, lookup, insert, delete, err,
  length,
}
use icy_easy_send.Auth.{Crypto}
use icy_easy_send.Protocol.{code_stream_forbidden}
use icy_easy_send.Stream.Errors.{Error, eof, not_found, stream_too_large, closed_pipe}
use icy_easy_send.Stream.Registry.{
  Stream, Registry, new_registry, new_stream, allocate, get, claim_sender, charged, release, refund,
}
use icy_easy_send.Stream.Registry.Closing.{reads, writes, IsOpen}
use icy_easy_send.Stream.Handler.{
  Request, Options, serve_http, to_sender, to_receiver, finish_receiver, failure, finished,
}
use icy_easy_send.Stream.Handler.Pump.{Round, pump, done}
use icy_easy_send.Stream.Handler.Copying.{
  source, is_clean, Fits, Counts, IsPrefix, pump_copies, pump_succeeds_iff,
}
use icy_easy_send.Stream.Handler.Admission.{Admits, upload_iff, download_iff}
use icy_easy_send.Stream.Handler.Teardown.{sending, attaches, second_request_ends_first}
use icy_easy_send.Base.{◌⊎◌, ok}
use icy_easy_send.Base.Text.{trim_prefix}
use icy_easy_send.Stream.Handler.{auth_failure, error, refused, authenticate}
use icy_easy_send.Stream.Handler.Refusals.{IsTold, has_bad_path, refusal_lem}

-- Every signature verifies.
abbrev trusting : Crypto
trusting = record { sum256 = λ k. k; verify = λ k m s. true; decode_base64 = λ t. some [] }

abbrev options : Options
options = record { token = "t0ken"; keys = λ d. some (1 ∷ []); crypto = trusting }

abbrev request : String → String → Request
request method device = record {
  method = method;
  path = "/v1/stream/s1";
  authorization = "Bearer t0ken";
  device_id = device;
  stream_proof = "";
}

abbrev upload : Request
upload = request "POST" "alice"

abbrev download : Request
download = request "GET" "bob"

abbrev stream : Stream
stream = new_stream "s1" "alice" "alice" "bob" 35

abbrev registry : Registry
registry = (allocate "s1" 5 "alice" "alice" "bob" (new_registry 2 30)).1

upload_is_routed : (serve_http options upload registry).0 ≡ to_sender stream "alice"
unfolding serve_http allocate new_registry lookup insert
upload_is_routed = refl

download_is_routed : (serve_http options download registry).0 ≡ to_receiver stream
unfolding serve_http allocate new_registry lookup insert
download_is_routed = refl

upload_iff_example :
    Admits options upload registry stream
    × (stream.sender ≡ upload.device_id)
    × (upload.method ≡ "POST")
upload_iff_example = (upload_iff options upload registry stream).0 upload_is_routed

download_iff_example :
    Admits options download registry stream
    × (stream.receiver ≡ download.device_id)
    × (stream.sender ≢ download.device_id)
    × (download.method ≡ "GET")
download_iff_example = (download_iff options download registry stream).0 download_is_routed

abbrev read : List ℕ → Option Error → Round
read bytes e = record { extend_err = none; chunk = bytes; read_err = e; write_err = none }

-- Three bytes in two reads, then the end of the file.
abbrev three_bytes : List Round
three_bytes = read (1 ∷ 2 ∷ []) none ∷ read (3 ∷ []) none ∷ read [] (some eof) ∷ []

three_bytes_arrive : (pump 3 three_bytes).outcome ≡ done none
unfolding pump
three_bytes_arrive = refl

-- The second read passes a limit of two bytes.
limit_stops : (pump 2 three_bytes).outcome ≡ done (some stream_too_large)
unfolding pump
limit_stops = refl

pump_succeeds_iff_example :
    (is_clean three_bytes ≡ true)
    × Fits 3 (length (source three_bytes))
    × ((pump 3 three_bytes).written ≡ source three_bytes)
pump_succeeds_iff_example = (pump_succeeds_iff 3 three_bytes).0 three_bytes_arrive

pump_copies_example :
    IsPrefix (pump 2 three_bytes).written (source three_bytes)
    × Fits 2 (length (pump 2 three_bytes).written)
    × Counts (pump 2 three_bytes) three_bytes
pump_copies_example = pump_copies 2 three_bytes

-- The client has taken one byte of two when its connection breaks.
abbrev broken : List Round
broken =
    record {
      extend_err = none;
      chunk = 1 ∷ 2 ∷ [];
      read_err = none;
      write_err = some (1, closed_pipe);
    }
    ∷ []

one_byte_is_out : (pump 0 broken).written ≡ 1 ∷ []
unfolding pump
one_byte_is_out = refl

it_is_not_counted : (pump 0 broken).total ≡ 0
unfolding pump
it_is_not_counted = refl

one_slot_is_back : charged "alice" (finish_receiver stream none registry).1.per_device ≡ 0
unfolding finish_receiver release refund allocate new_registry lookup insert delete
one_slot_is_back = refl

abbrev uploading : Registry
uploading = (claim_sender stream registry).1

uploading_attached : (uploading.ends stream.id).sender_attached ≡ true
unfolding claim_sender allocate new_registry lookup
uploading_attached = refl

uploading_listed : lookup stream.id uploading.streams ≡ some stream
unfolding claim_sender allocate new_registry lookup insert
uploading_listed = refl

uploading_IsOpen : IsOpen (uploading.ends stream.id)
unfolding claim_sender allocate new_registry lookup
uploading_IsOpen = (refl, refl, refl)

second_request_ends_first_example :
    let ((phase, events), after) = attaches sending stream uploading in
    (phase ≡ finished (failure 403 code_stream_forbidden "endpoint already attached"))
    × (get stream.id after ≡ err not_found)
    × (reads (after.ends stream.id) ≡ some closed_pipe)
    × (writes (after.ends stream.id) ≡ some closed_pipe)
second_request_ends_first_example =
    second_request_ends_first sending stream uploading uploading_attached uploading_listed
      uploading_IsOpen

abbrev stranger : Request
stranger = record upload { authorization = "Bearer guess" }

stranger_is_refused : serve_http options stranger registry ≡ (
  refused (failure 401 "unauthorized" "unauthorized"),
  auth_failure "token" ∷ error "unauthorized" ∷ [],
)
unfolding serve_http
stranger_is_refused = refl

refusal_lem_example :
    (IsTold [] (serve_http options stranger registry)
      × ((has_bad_path stranger ≡ true)
          ⊎ ((authenticate options stranger (trim_prefix stranger.path "/v1/stream/")).0
              ≡ ok "alice")))
    ⊎ ((reason : String) × (((reason ≡ "token") ⊎ (reason ≡ "identity"))
          × IsTold (auth_failure reason ∷ []) (serve_http options stranger registry)
          × ((other : Registry)
              → serve_http options stranger other ≡ serve_http options stranger registry)))
refusal_lem_example = refusal_lem options stranger registry
