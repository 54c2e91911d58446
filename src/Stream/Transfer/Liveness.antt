-- ===== src/Stream/Transfer/Liveness.antt =====
-- A transfer whose body ends comes to its end: there is always a next move, and only so many.
use icy_easy_send.Base.{
  ℕ, ◌+◌, ◌≡◌, ◌≤◌, ◌⊎◌, inl, inr, refl, Bool, true, false, Option, none, some, List, [], ◌∷◌,
  arith, Option-cases, Bool-cases,
}
use icy_easy_send.Stream.Errors.{Error}
use icy_easy_send.Stream.Pipe.{read_outcome, write_outcome}
use icy_easy_send.Stream.Registry.{Stream, Registry}
use icy_easy_send.Stream.Handler.Pump.{Round, Outcome, running, done}
use icy_easy_send.Stream.Transfer.{
  here, next, moves, Transfer, Move, begins, skips, hands_over, has_written, fails_to_write,
  delivers, gives_up, sees_end, answers_up, answers_down, Reach, gives, over, begin_transfer,
  pipe_of,
}
use icy_easy_send.Stream.Transfer.Ending.{
  ends, WillEnd, AreShut, IsLive, Reach-IsLive, Step-IsLive, begin_transfer-IsLive,
}
use icy_easy_send.Stream.Transfer.Work.{work-Move, work, work_of_body, moves_of, moves_of-work}

Outcome-cases : (o : Outcome) → (o ≡ running) ⊎ ((e : Option Error) × (o ≡ done e))
Outcome-cases running = inl refl
Outcome-cases (done e) = inr (e, refl)

module _ (s : Stream) (max : ℕ) where
  -- The failing of a deadline: no move to count on.
  unfoldable pub times_out : {t u : Transfer} → Move s max t u → Bool
  times_out (begins r rest u o g k) = false
  times_out (skips r rest u o g k) = false
  times_out (hands_over r b left g w d o k) = false
  times_out (has_written r g) = false
  times_out (fails_to_write r b left e g w) = false
  times_out (delivers c w k) = false
  times_out (gives_up e o k) = true
  times_out (sees_end e o k x) = false
  times_out (answers_up e o f) = false
  times_out (answers_down e o f) = false

  abbrev CanMove : Transfer → Type 0
  CanMove t = (u : Transfer) × ((m : Move s max t u) × (times_out m ≡ false))

  -- The receiver writes what it has, reads, or answers.
  receiver_moves :
      (t : Transfer)
      → (t.down.outcome ≡ running → t.taken ≡ none → CanMove t)
      → CanMove t ⊎ (over t.answer_down ≡ true)
  unfolding times_out
  receiver_moves t reads = elim (Option-cases t.taken) [
    | inr (c, k) ↦ inl (_, (delivers c none k, refl))
    | inl k ↦ elim (Outcome-cases t.down.outcome) [
      | inl o ↦ inl (reads o k)
      | inr (e, o) ↦ elim (Bool-cases (over t.answer_down)) [
        | inl f ↦ inr f
        | inr f ↦ inl (_, (answers_down e o f, refl))
      ]
    ]
  ]

  -- A write that runs can go on: the pipe fails it, or the receiver takes the bytes.
  write_moves :
      (t : Transfer) (r : Round) (left : List ℕ)
      → t.giving ≡ some (r, left)
      → AreShut s max t
      → CanMove t
  unfolding times_out write_outcome
  write_moves t r [] g v = (_, (has_written r g, refl))
  write_moves t r (b ∷ left) g v =
      let w = (pipe_of s max t).write_err in
      let d = (pipe_of s max t).read_err in
      elim (Option-cases (write_outcome w d)) [
        | inr (e, x) ↦ (_, (fails_to_write r b left e g x, refl))
        | inl x ↦
            elim (receiver_moves t (λ o k.
              (_, (hands_over r b left g (ground (arith, x)) (ground (arith, x)) o k, refl)))) [
                | inl m ↦ m
                | inr f ↦ absurd (ground (arith, x, v.1 f))
              ]
      ]

  -- Behind the sender's answer the receiver reads an error or the end of the file.
  last_moves :
      (t : Transfer)
      → over t.answer_up ≡ true
      → AreShut s max t
      → CanMove t ⊎ (over t.answer_down ≡ true)
  unfolding times_out read_outcome
  last_moves t f v =
      let w = (pipe_of s max t).write_err in
      let d = (pipe_of s max t).read_err in
      receiver_moves t (λ o k. elim (Option-cases (read_outcome d w)) [
        | inr (e, x) ↦ (_, (sees_end e o k x, refl))
        | inl x ↦ absurd (ground (arith, x, v.0 f))
      ])

  reads_body :
      (t : Transfer) (upload : List Round)
      → t.upload ≡ upload
      → t.giving ≡ none
      → t.up.outcome ≡ running
      → ends upload ≡ true
      → CanMove t
  unfolding times_out ends
  reads_body t [] u g o v = absurd (ground arith)
  reads_body t (r ∷ rest) u g o v = elim (Bool-cases (gives max t.up.total r)) [
    | inl k ↦ (_, (begins r rest u o g k, refl))
    | inr k ↦ (_, (skips r rest u o g k, refl))
  ]

  sender_moves :
      (t : Transfer)
      → t.giving ≡ none
      → WillEnd t.upload none t.up.outcome
      → CanMove t ⊎ (over t.answer_up ≡ true)
  unfolding times_out ends
  sender_moves t g v = elim (Outcome-cases t.up.outcome) [
    | inr (e, o) ↦ elim (Bool-cases (over t.answer_up)) [
      | inl f ↦ inr f
      | inr f ↦ inl (_, (answers_up e o f, refl))
    ]
    | inl o ↦ inl (reads_body t t.upload refl g o (rw o at v))
  ]

  -- A transfer that can move no more has both answers.
  live_moves :
      (t : Transfer)
      → IsLive s max t
      → ((over t.answer_up ≡ true) × (over t.answer_down ≡ true)) ⊎ CanMove t
  live_moves t v = elim (Option-cases t.giving) [
    | inr ((r, left), g) ↦ inr (write_moves t r left g v.are_shut)
    | inl g ↦ elim (sender_moves t g (rw g at v.will_end)) [
      | inl m ↦ inr m
      | inr f ↦ elim (last_moves t f v.are_shut) [ inl m ↦ inr m | inr h ↦ inl (f, h) ]
    ]
  ]

-- A run that begins with a move.
move_first :
    (s : Stream) (max : ℕ) {t u v : Transfer} → Move s max t u → Reach s max u v → Reach s max t v
move_first s max m here = next here (moves m)
move_first s max m (next r st) = next (move_first s max m r) st

-- With as much fuel as there is work left, moves come to both answers.
finishes :
    (s : Stream) (max n : ℕ) (t : Transfer)
    → IsLive s max t
    → work t ≤ n
    → (u : Transfer) × (Reach s max t u × (over u.answer_up ≡ true) × (over u.answer_down ≡ true))
finishes s max ℕ.zero t v le = elim (live_moves s max t v) [
  | inl (f, h) ↦ (t, (here, f, h))
  | inr (u, (m, luck)) ↦ absurd (omega (arith, work-Move s max m, le))
]
finishes s max (ℕ.suc n) t v le = elim (live_moves s max t v) [
  | inl (f, h) ↦ (t, (here, f, h))
  | inr (u, (m, luck)) ↦
      let (w, (r, f, h)) =
        finishes s max n u (Step-IsLive s max (moves m) v) (omega (arith, work-Move s max m, le)) in
      (w, (move_first s max m r, f, h))
]

-- A transfer is never stuck. If the body of the upload comes to an end, fails, or its deadline cannot
-- be renewed, then in every state that the two handlers reach, whatever the interleaving, and whether
-- or not others close the stream meanwhile, either both handlers have answered, or one of them has a
-- next move that is not the failing of the receiver's deadline; and from that state there is a run on
-- which both answer.
pub never_stuck :
    (s : Stream) (max : ℕ) (r : Registry) (upload : List Round) (t : Transfer)
    → ends upload ≡ true
    → Reach s max (begin_transfer s max r upload) t
    → (((over t.answer_up ≡ true) × (over t.answer_down ≡ true))
        ⊎ ((u : Transfer) × ((m : Move s max t u) × (times_out s max m ≡ false))))
      × ((u : Transfer) × (Reach s max t u
            × (over u.answer_up ≡ true)
            × (over u.answer_down ≡ true)))
never_stuck s max r upload t h reached =
    let v = Reach-IsLive s max (begin_transfer-IsLive s max r upload h) reached in
    (live_moves s max t v, finishes s max (work t) t v (omega arith))

-- The two handlers make only so many moves, whatever the interleaving, and whether or not others close
-- the stream meanwhile: three for each round of the upload, three for each byte of it, and three to end. So both
-- loops terminate once the body of the upload does.
pub moves_are_bounded :
    (s : Stream) (max : ℕ) (r : Registry) (upload : List Round) (t : Transfer)
    (reached : Reach s max (begin_transfer s max r upload) t)
    → moves_of s max reached ≤ work_of_body upload + 3
unfolding work
moves_are_bounded s max r upload t reached = omega (arith, moves_of-work s max reached)
