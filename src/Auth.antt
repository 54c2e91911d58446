-- ===== src/Auth.antt =====
-- relay/internal/auth/auth.go: the two admission layers.
--
-- SHA-256, Ed25519 and base64 are the parameter `Crypto`.
pub mod Messages
pub mod Admission
mod Tests
use Prim.Native.String.{len, slice}
use icy_easy_send.Base.{
  ℕ, ◌≡◌, String, Bool, Option, none, some, List, [], ◌∷◌, ◌++◌, ◌==◌, ◌||◌, not, eqb, leb, length,
  take, if◌then◌else◌, Result, ok, err, ◌>>=◌, ◌>>◌,
}
use icy_easy_send.Base.Hex.{hex_encode}
use icy_easy_send.Base.Text.{bytes, equal_fold, trim_space}
use icy_easy_send.Protocol.{sig_context_auth, sig_context_stream}

pub data AuthError : Type 0 where
  bad_public_key device_id_mismatch bad_signature : AuthError

pub record Crypto : Type 0 where
  -- sha256.Sum256
  pub sum256 : List ℕ → List ℕ
  -- ed25519.Verify: key, message, signature
  pub verify : List ℕ → List ℕ → List ℕ → Bool
  -- base64.StdEncoding.DecodeString
  pub decode_base64 : String → Option (List ℕ)

abbrev pub device_id_bytes : ℕ
device_id_bytes = 16

abbrev pub public_key_size : ℕ
public_key_size = 32

abbrev pub nonce_bytes : ℕ
nonce_bytes = 16

-- NewNonce: `read` is rand.Read, for as many bytes.
unfoldable pub new_nonce : (ℕ → Option (List ℕ)) → Option (List ℕ)
new_nonce read = read nonce_bytes

unfoldable pub parse_bearer : String → String
unfolding equal_fold trim_space
parse_bearer header =
    if leb (len header) 7 || not (equal_fold (slice header 0 7) "bearer ")
    then ""
    else trim_space (slice header 7 (len header))

-- ConstantTimeCompare answers 1 just when the two have the same bytes.
unfoldable pub token_matches : String → String → Bool
token_matches expected provided = expected == provided

unfoldable pub auth_message : List ℕ → String → List ℕ
unfolding bytes
auth_message nonce device = bytes sig_context_auth ++ (nonce ++ bytes device)

unfoldable pub stream_message : String → List ℕ
unfolding bytes
stream_message stream = bytes sig_context_stream ++ bytes stream

module _ (crypto : Crypto) where
  unfoldable pub device_id_from_public_key : List ℕ → String
  unfolding hex_encode
  device_id_from_public_key key = hex_encode (take device_id_bytes (crypto.sum256 key))

  check_size : List ℕ → Result AuthError (List ℕ)
  check_size raw = if eqb (length raw) public_key_size then ok raw else err bad_public_key

  unfoldable pub decode_public_key : String → Result AuthError (List ℕ)
  unfolding check_size
  decode_public_key encoded = elim (crypto.decode_base64 encoded) [
    | none ↦ err bad_public_key
    | some raw ↦ check_size raw
  ]

  -- The signature is decoded, and verified over the message.
  unfoldable pub check_signature : List ℕ → List ℕ → String → Bool
  check_signature key message encoded = elim (crypto.decode_base64 encoded) [
    | none ↦ Bool.false
    | some signature ↦ crypto.verify key message signature
  ]

  -- VerifyIdentity behind the decoding of the key.
  unfoldable pub verify_key : String → String → List ℕ → List ℕ → Result AuthError (List ℕ)
  verify_key device encoded_signature nonce key = do
    if device_id_from_public_key key == device then ok key else err device_id_mismatch
    if check_signature key (auth_message nonce device) encoded_signature
        then ok key
        else err bad_signature

  unfoldable pub verify_identity : String → String → String → List ℕ → Result AuthError (List ℕ)
  verify_identity device encoded_key encoded_signature nonce = do
    key ← decode_public_key encoded_key
    verify_key device encoded_signature nonce key

  unfoldable pub verify_stream_proof : List ℕ → String → String → Result AuthError (Unit {0})
  unfolding check_signature stream_message
  verify_stream_proof key stream encoded_signature =
      if check_signature key (stream_message stream) encoded_signature
      then ok tt
      else err bad_signature
