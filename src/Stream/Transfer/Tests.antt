-- ===== src/Stream/Transfer/Tests.antt =====
-- The theorems on transfers at a concrete one: two bytes, then the end of the file.
use icy_easy_send.Base.{
  ℕ, ◌≡◌, ◌≤◌, ◌⊎◌, refl, true, false, none, some, List, [], ◌∷◌, Option, lookup, arith, ◌+◌,
}
use icy_easy_send.Stream.Errors.{Error, eof}
use icy_easy_send.Stream.Registry.{Stream, Registry, new_registry, new_stream, allocate}
use icy_easy_send.Stream.Registry.Closing.{IsOpen}
use icy_easy_send.Stream.Pipe.{close_write, store_once, read_outcome}
use icy_easy_send.Stream.Handler.{finished, downloaded, finish_sender, finish_receiver}
use icy_easy_send.Stream.Handler.Pump.{Round, pump_round, done}
use icy_easy_send.Stream.Handler.Copying.{source}
use icy_easy_send.Stream.Transfer.{
  Transfer, Move, begins, skips, hands_over, has_written, delivers, sees_end, answers_up,
  answers_down, moves, Reach, here, next, over, split_at, begin_transfer,
}
use icy_easy_send.Stream.Transfer.Bytes.{IsHonest}
use icy_easy_send.Stream.Transfer.Complete.{transfer_is_complete}
use icy_easy_send.Stream.Transfer.Ending.{ends}
use icy_easy_send.Stream.Transfer.Work.{moves_of, work_of_body}
use icy_easy_send.Stream.Transfer.Liveness.{times_out, never_stuck, moves_are_bounded}

abbrev stream : Stream
stream = new_stream "s1" "alice" "alice" "bob" 35

abbrev registry : Registry
registry = (allocate "s1" 5 "alice" "alice" "bob" (new_registry 2 30)).1

abbrev read : List ℕ → Option Error → Round
read bytes e = record { extend_err = none; chunk = bytes; read_err = e; write_err = none }

abbrev body : List Round
body = read (1 ∷ 2 ∷ []) none ∷ read [] (some eof) ∷ []

abbrev start : Transfer
start = begin_transfer stream 0 registry body

abbrev first_read : Round
first_read = read (1 ∷ 2 ∷ []) none

abbrev last_read : Round
last_read = read [] (some eof)

-- The two bytes are through, and the sender is about to read on.
unfoldable half_way : (t : Transfer) × Reach stream 0 start t
unfolding pump_round split_at allocate new_registry lookup
half_way = (
  _,
  next
      (next
        (next (next here (moves (begins first_read (last_read ∷ []) refl refl refl refl)))
          (moves (hands_over first_read 1 (2 ∷ []) refl refl refl refl refl)))
        (moves (delivers (1 ∷ 2 ∷ []) none refl)))
      (moves (has_written first_read refl)),
)

-- Both handlers have answered.
unfoldable finish : (t : Transfer) × Reach stream 0 start t
unfolding half_way pump_round split_at allocate new_registry lookup finish_sender finish_receiver
    close_write store_once read_outcome
finish = (
  _,
  next
      (next
        (next (next half_way.1 (moves (skips last_read [] refl refl refl refl)))
          (moves (answers_up none refl refl)))
        (moves (sees_end eof refl refl refl)))
      (moves (answers_down none refl refl)),
)

body-IsHonest : IsHonest body
body-IsHonest = (λ e. absurd (ground arith), (λ e. absurd (ground arith), tt))

registry-IsOpen : IsOpen (registry.ends stream.id)
unfolding allocate new_registry lookup
registry-IsOpen = (refl, refl, refl)

finish_downloaded : finish.0.answer_down ≡ finished downloaded
unfolding finish half_way finish_receiver
finish_downloaded = refl

transfer_is_complete_example :
    (finish.0.down.written ≡ source body) × (finish.0.up.outcome ≡ done none)
transfer_is_complete_example =
    (transfer_is_complete stream 0 registry body finish.0 body-IsHonest registry-IsOpen finish.1).1
      finish_downloaded

body_ends : ends body ≡ true
unfolding ends
body_ends = refl

never_stuck_example :
    (((over half_way.0.answer_up ≡ true) × (over half_way.0.answer_down ≡ true))
      ⊎ ((u : Transfer) × ((m : Move stream 0 half_way.0 u) × (times_out stream 0 m ≡ false))))
    × ((u : Transfer) × (Reach stream 0 half_way.0 u
          × (over u.answer_up ≡ true)
          × (over u.answer_down ≡ true)))
never_stuck_example = never_stuck stream 0 registry body half_way.0 body_ends half_way.1

moves_are_bounded_example : moves_of stream 0 finish.1 ≤ work_of_body body + 3
moves_are_bounded_example = moves_are_bounded stream 0 registry body finish.0 finish.1

-- Eight moves, of the fifteen that two rounds with two bytes allow.
finish_moves : moves_of stream 0 finish.1 ≡ 8
unfolding moves_of finish half_way
finish_moves = refl

body_work : work_of_body body + 3 ≡ 15
unfolding work_of_body
body_work = refl
