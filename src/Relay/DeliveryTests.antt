-- ===== src/Relay/DeliveryTests.antt =====
-- A file of two bytes on its way through the relay, with a tick of the sweeper in between.
use icy_easy_send.Base.{ℕ, ◌≡◌, refl, none, some, List, [], ◌∷◌, Option, length}
use icy_easy_send.Stream.Errors.{Error, eof}
use icy_easy_send.Stream.Handler.{downloaded, uploaded, finish_sender}
use icy_easy_send.Stream.Handler.Pump.{Round, pump_round}
use icy_easy_send.Stream.Handler.Copying.{source, IsPrefix}
use icy_easy_send.Stream.Transfer.{
  Transfer, Move, begins, hands_over, has_written, delivers, skips, split_at,
}
use icy_easy_send.Stream.Transfer.Bytes.{IsHonest}
use icy_easy_send.Signal.Samples.{toy, countdown}
use icy_easy_send.Main.Samples.{unlimited, defaults}
use icy_easy_send.Relay.{System, ticks, answered, finish}
use icy_easy_send.Main.{tick}
use icy_easy_send.Base.{arith}
use icy_easy_send.Relay.Samples.{
  talk, stream, up, down, working, up_works, down_works, working_IsOpen,
}
use icy_easy_send.Relay.Together.{Meeting, Together, meets, aside, moves_bytes, upload_ends}
use icy_easy_send.Relay.Delivery.{whole_file_or_error}

abbrev meeting : Meeting working.0.requests
meeting = record {
  upload = 1;
  download = 2;
  up = up;
  down = down;
  sends = refl;
  receives = refl;
  one_stream = refl;
  uploads = up_works;
  downloads = down_works;
}

abbrev read : List ℕ → Option Error → Round
read bytes e = record { extend_err = none; chunk = bytes; read_err = e; write_err = none }

abbrev body : List Round
body = read (1 ∷ 2 ∷ []) none ∷ read [] (some eof) ∷ []

abbrev Run : Type 0
Run =
    (x : System countdown unlimited) × (t : Transfer) × Together countdown unlimited talk toy
      defaults 0 body working.0 meeting x t

-- A round that moves bytes.
abbrev moved :
    (r : Run) {u : Transfer}
    → Move stream 0 r.1 u
    → u.registry ≡ r.1.registry
    → u.answer_up ≡ r.1.answer_up
    → u.answer_down ≡ r.1.answer_down
    → Run
moved r m reg up' down' = (r.0, _, moves_bytes r.2 m reg up' down')

abbrev first_read : Round
first_read = read (1 ∷ 2 ∷ []) none

abbrev last_read : Round
last_read = read [] (some eof)

-- The two bytes are through, the sweeper ticks, and the upload comes to its end.
unfoldable sent : Run
unfolding pump_round split_at tick
sent =
    let a =
      moved (_, _, meets) (begins first_read (last_read ∷ []) refl refl refl refl) refl refl refl in
    let b =
      moved a (hands_over first_read 1 (2 ∷ []) refl working_IsOpen.1 working_IsOpen.2 refl refl)
        refl refl refl in
    let c = moved b (delivers (1 ∷ 2 ∷ []) none refl) refl refl refl in
    let d = moved c (has_written first_read refl) refl refl refl in
    let e =
      moved (_, _, aside d.2 (ticks 40_000_000_000) refl refl)
        (skips last_read [] refl refl refl refl) refl refl refl in
    (_, _, upload_ends none e.2 up_works refl)

sent_uploaded : sent.0.requests 1 ≡ answered (uploaded 2)
unfolding sent finish finish_sender pump_round split_at
sent_uploaded = refl

body-IsHonest : IsHonest body
body-IsHonest = (λ e. absurd (ground (arith, e)), (λ e. absurd (ground (arith, e)), tt))

whole_file_or_error_example :
    IsPrefix sent.1.down.written (source body)
    × (sent.0.requests 2 ≡ answered downloaded → sent.1.down.written ≡ source body)
    × ((n : ℕ) → sent.0.requests 1 ≡ answered (uploaded n) → n ≡ length (source body))
whole_file_or_error_example =
    whole_file_or_error countdown unlimited talk toy defaults 0 body working.0 meeting sent.0 sent.1
      working.1 body-IsHonest working_IsOpen sent.2
