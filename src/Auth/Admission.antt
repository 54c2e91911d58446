-- ===== src/Auth/Admission.antt =====
-- What the two admission layers let through.
use icy_easy_send.Base.{
  ℕ, ◌≡◌, ◌↔◌, refl, String, List, arith, length, true, some, ok, eq_iff, Result-cases, inl, inr,
  ap, ◌∙◌,
}
use icy_easy_send.Auth.{
  Crypto, verify_identity, verify_key, verify_stream_proof, decode_public_key, check_signature,
  device_id_from_public_key, auth_message, stream_message,
}

decode_public_key_iff :
    (crypto : Crypto) (encoded : String) (key : List ℕ)
    → (decode_public_key crypto encoded ≡ ok key)
      ↔ ((crypto.decode_base64 encoded ≡ some key) × (length key ≡ 32))
unfolding decode_public_key
decode_public_key_iff crypto encoded key = (λ h. ground arith, λ h. ground arith)

check_signature_iff :
    (crypto : Crypto) (key message : List ℕ) (encoded : String)
    → (check_signature crypto key message encoded ≡ true) ↔ (
        (signature : List ℕ) × (crypto.decode_base64 encoded ≡ some signature)
        × (crypto.verify key message signature ≡ true))
unfolding check_signature
check_signature_iff crypto key message encoded = (λ h. ground arith, λ h. ground arith)

-- The two checks behind the decoding of the key.
checks_iff :
    (crypto : Crypto) (device encoded_signature : String) (nonce k key : List ℕ)
    → (verify_key crypto device encoded_signature nonce k ≡ ok key) ↔ (
        (k ≡ key)
        × (device_id_from_public_key crypto k ≡ device)
        × (check_signature crypto k (auth_message nonce device) encoded_signature ≡ true))
unfolding verify_key
checks_iff crypto device encoded_signature nonce k key =
    let same = eq_iff (device_id_from_public_key crypto k) device in
    (λ h. ground (arith, same), λ h. ground (arith, same))

-- A response is accepted, with the key, exactly when the key decodes to 32 bytes, the claimed id is
-- the fingerprint of that key, and the signature decodes and verifies over this nonce and this id.
pub verify_identity_iff :
    (crypto : Crypto) (device encoded_key encoded_signature : String) (nonce key : List ℕ)
    → (verify_identity crypto device encoded_key encoded_signature nonce ≡ ok key) ↔ (
        (crypto.decode_base64 encoded_key ≡ some key)
        × (length key ≡ 32)
        × (device_id_from_public_key crypto key ≡ device)
        × ((signature : List ℕ) × (crypto.decode_base64 encoded_signature ≡ some signature)
            × (crypto.verify key (auth_message nonce device) signature ≡ true)))
unfolding verify_identity
verify_identity_iff crypto device encoded_key encoded_signature nonce key =
    let decoded = decode_public_key_iff crypto encoded_key key in
    let signed = check_signature_iff crypto key (auth_message nonce device) encoded_signature in
    let checks = checks_iff crypto device encoded_signature nonce in
    (
      λ h. elim (Result-cases (decode_public_key crypto encoded_key)) [
        | inl (k, e) ↦
            let (same, fingerprint, verified) = (checks k key).0 (rw (e, verify_identity) at h) in
            let (d, l) = decoded.0 (e ∙ ap ok same) in
            (d, l, rw (← same) fingerprint, signed.0 (rw (← same) verified))
        | inr (x, e) ↦ absurd (ground arith)
      ],
      λ h.
          rw (decoded.1 (h.0, h.1), verify_identity) ((checks key key).1 (refl, h.2, signed.1 h.3)),
    )

-- A stream proof is accepted exactly when it decodes and verifies over this stream's id.
pub verify_stream_proof_iff :
    (crypto : Crypto) (key : List ℕ) (stream encoded : String)
    → (verify_stream_proof crypto key stream encoded ≡ ok tt) ↔ (
        (signature : List ℕ) × (crypto.decode_base64 encoded ≡ some signature)
        × (crypto.verify key (stream_message stream) signature ≡ true))
unfolding verify_stream_proof
verify_stream_proof_iff crypto key stream encoded = (λ h. ground arith, λ h. ground arith)
