-- ===== src/Signal/Samples.antt =====
-- Devices, keys and messages that the concrete histories of the signaling plane share.
use icy_easy_send.Base.{
  ℕ, ◌-◌, ◌≡◌, refl, String, Option, none, some, List, [], ◌∷◌, length, eqb, ltb, ◌==◌,
  if◌then◌else◌, ok,
}
use icy_easy_send.Base.Text.{bytes}
use icy_easy_send.Protocol as Wire
use icy_easy_send.Protocol.{kind_pair}
use icy_easy_send.Auth.{
  Crypto, verify_identity, decode_public_key, verify_key, device_id_from_public_key,
  check_signature,
}
use icy_easy_send.Limit.{Rate, new_pair_limiter}
use icy_easy_send.Stream.Registry.{new_registry, allocate}
use icy_easy_send.Signal.Hub.{Session, new_hub}
use icy_easy_send.Signal.Session.{new_outbox}
use icy_easy_send.Signal.World.{World}
use icy_easy_send.Signal.Server.{Codec}
use icy_easy_send.Signal.Handshake.{check_answer, enter, parse_answer, verified}

abbrev pub repeat : ℕ → ℕ → List ℕ
repeat x ℕ.zero = []
repeat x (ℕ.suc n) = x ∷ repeat x n

-- Two texts are keys, and any other text is its own bytes. A signature is right if it has five bytes.
abbrev pub toy : Crypto
toy = record {
  sum256 = λ k. k;
  verify = λ k m s. eqb (length s) 5;
  decode_base64 =
      λ t. some (if t == "key0" then repeat 0 32 else if t == "key1" then repeat 1 32 else bytes t);
}

abbrev pub alice_id : String
alice_id = "00000000000000000000000000000000"

abbrev pub bob_id : String
bob_id = "01010101010101010101010101010101"

-- A limiter that only counts down.
abbrev pub countdown : Rate
countdown = record { Limiter = ℕ; every = λ i b. b; allow = λ t l. (ltb 0 l, l - 1) }

abbrev pub envelope : String → Wire.Envelope
envelope type = record { v = 1; type = type; mid = "m1"; ts = 0 }

abbrev pub greeting : Wire.Relay
greeting = record {
  envelope = envelope "relay";
  to = bob_id;
  from = "mallory";
  kind = "pair";
  payload = "hello";
}

abbrev pub wish : Wire.StreamCreate
wish = record { envelope = envelope "stream.create"; peer = bob_id; role = "sender" }

abbrev pub codec : Codec
codec = record {
  envelope = λ frame. none;
  subscribe = λ frame. none;
  relay = λ frame. some greeting;
  stream_create = λ frame. some wish;
}

abbrev pub answer : String → String → String → Option Wire.Auth
answer id key frame =
    some
      (record { envelope = envelope "auth"; device_id = id; public_key = key; signature = "valid" })

abbrev pub alice : Session
alice = record { ref = 1; device_id = alice_id; public_key = repeat 0 32; session_id = "" }

abbrev pub bob : Session
bob = record { ref = 2; device_id = bob_id; public_key = repeat 1 32; session_id = "" }

pub alice_passes : check_answer toy (answer alice_id "key0") [] (some "") (some []) 1 ≡ ok alice
unfolding check_answer parse_answer verified verify_identity decode_public_key verify_key
    device_id_from_public_key check_signature bytes
alice_passes = refl

pub bob_passes : check_answer toy (answer bob_id "key1") [] (some "") (some []) 2 ≡ ok bob
unfolding check_answer parse_answer verified verify_identity decode_public_key verify_key
    device_id_from_public_key check_signature bytes
bob_passes = refl

abbrev pub empty : World ℕ
empty = record {
  hub = new_hub;
  streams = (allocate "s1" 5 alice_id alice_id bob_id (new_registry 2 30)).1;
  pairing = new_pair_limiter countdown 5;
  outboxes = λ r. new_outbox;
  events = [];
}

abbrev pub two : World ℕ
two = enter bob (enter alice empty)
