-- ===== src/Auth/Tests.antt =====
-- The admission theorems with a concrete stand-in for the cryptography.
use icy_easy_send.Base.{
  ℕ, ◌≡◌, refl, String, true, some, List, [], ◌∷◌, ok, length, eqb, ◌==◌, if◌then◌else◌,
}
use icy_easy_send.Base.Text.{bytes}
use icy_easy_send.Auth.{
  Crypto, verify_identity, verify_stream_proof, auth_message, device_id_from_public_key,
  decode_public_key, verify_key, check_signature,
}
use icy_easy_send.Auth.Admission.{verify_identity_iff}
use icy_easy_send.Auth.Messages.{auth_message_injective}

abbrev zeros : ℕ → List ℕ
zeros ℕ.zero = []
zeros (ℕ.suc n) = 0 ∷ zeros n

-- Text "key" is a key of 32 zeros, and any other text is its own bytes. A signature is right if it has
-- five bytes.
abbrev toy : Crypto
toy = record {
  sum256 = λ k. k;
  verify = λ k m s. eqb (length s) 5;
  decode_base64 = λ t. some (if t == "key" then zeros 32 else bytes t);
}

abbrev zero_id : String
zero_id = "00000000000000000000000000000000"

abbrev nonce : List ℕ
nonce = 7 ∷ 8 ∷ 9 ∷ []

zeros_are_accepted : verify_identity toy zero_id "key" "valid" nonce ≡ ok (zeros 32)
unfolding verify_identity decode_public_key verify_key device_id_from_public_key check_signature
    bytes
zeros_are_accepted = refl

verify_identity_iff_example :
    (toy.decode_base64 "key" ≡ some (zeros 32))
    × (length (zeros 32) ≡ 32)
    × (device_id_from_public_key toy (zeros 32) ≡ zero_id)
    × ((signature : List ℕ) × (toy.decode_base64 "valid" ≡ some signature)
        × (toy.verify (zeros 32) (auth_message nonce zero_id) signature ≡ true))
verify_identity_iff_example =
    (verify_identity_iff toy zero_id "key" "valid" nonce (zeros 32)).0 zeros_are_accepted

proof_is_accepted : verify_stream_proof toy (zeros 32) "s1" "valid" ≡ ok tt
unfolding verify_stream_proof bytes
proof_is_accepted = refl

auth_message_injective_example : (nonce ≡ nonce) × (bytes "alice" ≡ bytes "alice")
auth_message_injective_example = auth_message_injective nonce nonce "alice" "alice" refl refl
