-- ===== src/Stream/Transfer/Work.antt =====
-- How much is left to do in a transfer, and that every move leaves less of it.
use icy_easy_send.Base.{
  ℕ, ◌+◌, ◌*◌, ◌≡◌, ◌≢◌, ◌⊎◌, inl, inr, ◌≤◌, Bool, true, false, Option, none, some, List, [], ◌∷◌,
  length, arith,
}
use icy_easy_send.Stream.Errors.{Error}
use icy_easy_send.Stream.Registry.{Stream}
use icy_easy_send.Stream.Handler.{finish_sender, finish_receiver}
use icy_easy_send.Stream.Handler.Pump.{Round, Outcome, running, done, pump_round}
use icy_easy_send.Stream.Transfer.{
  Transfer, Move, begins, skips, hands_over, has_written, fails_to_write, delivers, gives_up,
  sees_end, answers_up, answers_down, moves, others, Reach, here, next, over, split_at, ended_up,
  ended_down,
}

-- What a body still asks for: a read and a write for each round, and a read and a delivery for each
-- byte at worst.
unfoldable pub work_of_body : List Round → ℕ
work_of_body [] = 0
work_of_body (r ∷ rs) = (3 + 3 * length r.chunk) + work_of_body rs

abbrev pub work_of_write : Option (Round × List ℕ) → ℕ
work_of_write none = 0
work_of_write (some (r, left)) = 1 + 3 * length left

abbrev pub work_of_delivery : Option (List ℕ) → ℕ
work_of_delivery none = 0
work_of_delivery (some c) = 2

abbrev pub work_of_loop : Outcome → ℕ
work_of_loop running = 1
work_of_loop (done e) = 0

abbrev pub work_of_answer : Bool → ℕ
work_of_answer true = 0
work_of_answer false = 1

unfoldable pub work : Transfer → ℕ
work t =
    work_of_body t.upload
    + work_of_write t.giving
    + work_of_delivery t.taken
    + work_of_loop t.down.outcome
    + work_of_answer (over t.answer_up)
    + work_of_answer (over t.answer_down)

length-split_at : (n : ℕ) (xs : List ℕ) → length (split_at n xs).1 ≤ length xs
unfolding split_at
length-split_at ℕ.zero xs = omega arith
length-split_at (ℕ.suc n) [] = omega arith
length-split_at (ℕ.suc n) (x ∷ xs) = omega (arith, length-split_at n xs)

-- A read takes at least a byte, so it leaves less to be taken.
length-split_at-suc :
    (n b : ℕ) (xs : List ℕ) → 1 + length (split_at (ℕ.suc n) (b ∷ xs)).1 ≤ length (b ∷ xs)
unfolding split_at
length-split_at-suc n b xs = omega (arith, length-split_at n xs)

work_of_loop-pump_round :
    (max total : ℕ) (written : List ℕ) (r : Round)
    → work_of_loop (pump_round max total written r).outcome ≤ 1
unfolding pump_round
work_of_loop-pump_round max total written r = ground arith

-- A round of the receiver without a byte that brings an error ends its loop.
work_of_loop-last :
    (max total : ℕ) (written : List ℕ) (x y : Option Error)
    → (x ≢ none) ⊎ (y ≢ none)
    → work_of_loop
        (pump_round max total written
          (record { extend_err = x; chunk = []; read_err = y; write_err = none })).outcome
      ≡ 0
unfolding pump_round
work_of_loop-last max total written x y h = ground arith

module _ (s : Stream) (max : ℕ) where
  pub over-ended_up : (e : Option Error) (t : Transfer) → over (ended_up s max e t).answer_up ≡ true
  unfolding finish_sender
  over-ended_up e t = ground arith

  pub over-ended_down :
      (e : Option Error) (t : Transfer) → over (ended_down s max e t).answer_down ≡ true
  unfolding finish_receiver
  over-ended_down e t = ground arith

  pub work-Move : {t u : Transfer} → Move s max t u → 1 + work u ≤ work t
  unfolding work work_of_body
  work-Move {t} (begins r rest u o g k) = rw (u, g) (omega arith)
  work-Move {t} (skips r rest u o g k) = rw (u, g) (omega arith)
  work-Move {t} (hands_over r b left g w d o k) =
      rw (g, k) (omega (arith, length-split_at-suc 32767 b left))
  work-Move {t} (has_written r g) = rw g (omega arith)
  work-Move {t} (fails_to_write r b left e g w) = rw g (omega arith)
  work-Move {t} (delivers c w k) = rw k (omega (arith, work_of_loop-pump_round))
  work-Move {t} (gives_up e o k) =
      rw
        (
          o,
          work_of_loop-last max t.down.total t.down.written (some e) none (inl (λ h. ground arith)),
        )
        (omega arith)
  work-Move {t} (sees_end e o k x) =
      rw
        (
          o,
          work_of_loop-last max t.down.total t.down.written none (some e) (inr (λ h. ground arith)),
        )
        (omega arith)
  work-Move {t} (answers_up e o f) = rw (f, over-ended_up e t) (omega arith)
  work-Move {t} (answers_down e o f) = rw (f, over-ended_down e t) (omega arith)

  -- How many moves of the two handlers a run has, not counting what others do.
  unfoldable pub moves_of : {t u : Transfer} → Reach s max t u → ℕ
  moves_of here = 0
  moves_of (next r (moves m)) = 1 + moves_of r
  moves_of (next r (others q e)) = moves_of r

  pub moves_of-work : {t u : Transfer} (r : Reach s max t u) → moves_of r + work u ≤ work t
  unfolding moves_of work
  moves_of-work here = omega arith
  moves_of-work (next r (moves m)) = omega (arith, moves_of-work r, work-Move m)
  moves_of-work (next r (others q e)) = moves_of-work r
