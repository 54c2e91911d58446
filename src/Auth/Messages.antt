-- ===== src/Auth/Messages.antt =====
-- The signed messages: a signature for one purpose is no signature for another.
use icy_easy_send.Base.{ℕ, ◌≡◌, ◌≢◌, refl, String, List, [], ◌∷◌, ◌++◌, arith, length}
use icy_easy_send.Base.Text.{bytes}
use icy_easy_send.Auth.{auth_message, stream_message}

-- No challenge response is a stream proof: whatever nonce, device and stream, the two messages that
-- are signed differ.
pub auth_message-ne-stream_message :
    (nonce : List ℕ) (device stream : String) → auth_message nonce device ≢ stream_message stream
unfolding auth_message stream_message
auth_message-ne-stream_message nonce device stream e = ground arith

append_cancel :
    (xs xs' ys ys' : List ℕ)
    → length xs ≡ length xs'
    → xs ++ ys ≡ xs' ++ ys'
    → (xs ≡ xs') × (ys ≡ ys')
append_cancel [] [] ys ys' l e = (refl, e)
append_cancel [] (x ∷ xs') ys ys' l e = absurd (omega arith)
append_cancel (x ∷ xs) [] ys ys' l e = absurd (omega arith)
append_cancel (x ∷ xs) (x' ∷ xs') ys ys' l e =
    let ih = append_cancel xs xs' ys ys' (omega arith) (ground arith) in (ground arith, ih.1)

-- A challenge response is for one nonce and one device: among nonces of one length, the nonce and
-- the bytes of the device id can be read off the message.
pub auth_message_injective :
    (nonce nonce' : List ℕ) (device device' : String)
    → length nonce ≡ length nonce'
    → auth_message nonce device ≡ auth_message nonce' device'
    → (nonce ≡ nonce') × (bytes device ≡ bytes device')
unfolding auth_message
auth_message_injective nonce nonce' device device' l e =
    append_cancel nonce nonce' (bytes device) (bytes device') l (ground arith)
