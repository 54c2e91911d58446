-- ===== src/Signal/Transfers.antt =====
-- relay/cmd/relayd/main.go hands the hub's keys to the data plane: who can move the bytes of a stream.
use icy_easy_send.Base.{
  ℕ, ◌≡◌, String, true, some, List, lookup, ok, arith, Option-cases, AllEntries-lookup,
}
use icy_easy_send.Auth.{Crypto, device_id_from_public_key, stream_message}
use icy_easy_send.Auth.Admission.{verify_stream_proof_iff}
use icy_easy_send.Limit.{Rate}
use icy_easy_send.Stream.Registry.{Stream, Registry, get}
use icy_easy_send.Stream.Registry.Invariant.{IsValid, HasOwnId}
use icy_easy_send.Stream.Handler.{Request, Options, to_sender, to_receiver, serve_http}
use icy_easy_send.Stream.Handler.Admission.{Admits, upload_iff, download_iff}
use icy_easy_send.Signal.Hub.{Hub, public_key}
use icy_easy_send.Signal.World.{World}
use icy_easy_send.Signal.Server.{Codec}
use icy_easy_send.Signal.History.{Reach, keys_are_genuine}

-- The options that `run` builds the stream handler with, as far as they decide anything.
abbrev pub handler_options : String → Crypto → Hub → Options
handler_options token crypto hub = record {
  token = token;
  keys = λ d. public_key d hub;
  crypto = crypto;
}

pub get-HasOwnId :
    (k : String) (st : Stream) (r : Registry) → IsValid r → get k r ≡ ok st → st.id ≡ k
unfolding get
get-HasOwnId k st r v h =
    AllEntries-lookup HasOwnId k st r.streams v.keyed
      (ground (arith, Option-cases (lookup k r.streams)))

-- A signature over the id of the stream, in the request, by a key whose fingerprint is the device id.
abbrev pub SignedBy : Crypto → String → Stream → Request → Type 0
SignedBy crypto device st r =
    (key : List ℕ) × (signature : List ℕ) × (device_id_from_public_key crypto key ≡ device)
    × (crypto.decode_base64 r.stream_proof ≡ some signature)
    × (crypto.verify key (stream_message st.id) signature ≡ true)

module _ (rate : Rate) (codec : Codec) (crypto : Crypto) where
  pub Admits-SignedBy :
      (token : String) (r : Request) (st : Stream) (w : World rate.Limiter)
      → Reach rate codec crypto w
      → IsValid w.streams
      → Admits (handler_options token crypto w.hub) r w.streams st
      → SignedBy crypto r.device_id st r
  Admits-SignedBy token r st w reached valid a =
      let key = a.authentic.key in
      let g = keys_are_genuine rate codec crypto r.device_id key reached a.authentic.known in
      let (signature, decoded, verified') =
        (verify_stream_proof_iff crypto key a.stream r.stream_proof).0 a.authentic.proved in
      let same = get-HasOwnId a.stream st w.streams valid a.listed in
      (key, signature, g.0, decoded, rw same verified')

  -- Only the holder of the sender's key uploads: after any history of the signaling plane, and with a
  -- well-formed registry, a request that gets to send a stream's bytes carries a signature over this
  -- stream's id that verifies under a key whose fingerprint is the stream's sender.
  pub upload_is_signed :
      (token : String) (r : Request) (st : Stream) (w : World rate.Limiter)
      → Reach rate codec crypto w
      → IsValid w.streams
      → (serve_http (handler_options token crypto w.hub) r w.streams).0 ≡ to_sender st r.device_id
      → SignedBy crypto st.sender st r
  upload_is_signed token r st w reached valid h =
      let (a, same, method) =
        (upload_iff (handler_options token crypto w.hub) r w.streams st).0 h in
      rw same (Admits-SignedBy token r st w reached valid a)

  -- Only the holder of the receiver's key downloads: after any history of the signaling plane, and
  -- with a well-formed registry, a request that gets to receive a stream's bytes carries a signature
  -- over this stream's id that verifies under a key whose fingerprint is the stream's receiver.
  pub download_is_signed :
      (token : String) (r : Request) (st : Stream) (w : World rate.Limiter)
      → Reach rate codec crypto w
      → IsValid w.streams
      → (serve_http (handler_options token crypto w.hub) r w.streams).0 ≡ to_receiver st
      → SignedBy crypto st.receiver st r
  download_is_signed token r st w reached valid h =
      let (a, same, not_sender, method) =
        (download_iff (handler_options token crypto w.hub) r w.streams st).0 h in
      rw same (Admits-SignedBy token r st w reached valid a)
