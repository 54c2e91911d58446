-- ===== src/Stream/Transfer/Ends.antt =====
-- The pipe of a transfer: how its halves are closed, and what that tells the other side.
use icy_easy_send.Base.{
  ℕ, ◌≡◌, ◌≢◌, inl, inr, Option, none, some, List, [], arith, eq_refl, Option-cases,
}
use icy_easy_send.Stream.Errors.{Error, eof}
use icy_easy_send.Stream.Pipe.{Pipe, close_write, close_read, read_outcome, store_once}
use icy_easy_send.Stream.Registry.{Stream, Registry, release, close_ends, close}
use icy_easy_send.Stream.Handler.{finished, uploaded, downloaded, finish_sender, finish_receiver}
use icy_easy_send.Stream.Handler.Pump.{Outcome, done, pump_round}
use icy_easy_send.Stream.Transfer.{Transfer, Ended, ended_up}

-- While the reading half is open, the end of the file shows only behind a sender that has come to
-- the end of its body.
abbrev pub IsSealed : Pipe → Outcome → Type 0
IsSealed p up =
    p.read_err ≡ none
    → ((p.write_err ≡ some eof → up ≡ done none) × (p.write_err ≡ none → up ≢ done (some eof)))

-- Who reads the end of the file reads it behind a sender that has come to the end of its body.
pub seen_end :
    (max total : ℕ) (written : List ℕ) (p : Pipe) (up : Outcome) (e : Error)
    → read_outcome p.read_err p.write_err ≡ some e
    → IsSealed p up
    → (pump_round max total written
        (record { extend_err = none; chunk = []; read_err = some e; write_err = none })).outcome
      ≡ done none
    → up ≡ done none
unfolding pump_round read_outcome
seen_end max total written p up e x v h = elim (Option-cases p.read_err) [
  | inl open' ↦ (v open').0 (ground arith)
  | inr (r, shut) ↦ absurd (ground arith)
]

module _ (s : Stream) (max : ℕ) where
  -- What the end of a handler, or a Close, leaves of the pipe.
  pub ended-IsSealed :
      (p q : Pipe) (e : Option Error) (up : Outcome)
      → up ≡ done e
      → q.write_err ≡ (close_write e p).write_err
      → (q.read_err ≡ none → p.read_err ≡ none)
      → IsSealed p up
      → IsSealed q up
  unfolding close_write store_once
  ended-IsSealed p q e up o w r v =
      λ h. (λ x. ground (arith, v (r h)), λ x y. ground (arith, v (r h)))

  pub Ended-IsSealed : (p q : Pipe) (up : Outcome) → Ended p q → IsSealed p up → IsSealed q up
  unfolding close_write close_read store_once
  Ended-IsSealed p q up e v =
      λ h. (λ x. ground (arith, e, h, x, v), λ x y. ground (arith, e, h, x, v))

  pub pipe-finish_sender :
      (n : ℕ) (e : Option Error) (r : Registry)
      → let p = (r.ends s.id).pipe in
        let q = ((finish_sender s n e r).1.ends s.id).pipe in
        (q.write_err ≡ (close_write e p).write_err) × (q.read_err ≡ none → p.read_err ≡ none)
  unfolding finish_sender release close close_ends close_write close_read store_once
  pipe-finish_sender n none r = ground (arith, eq_refl s.id)
  pipe-finish_sender n (some e) r = ground (arith, eq_refl s.id)

  pub pipe-finish_receiver :
      (e : Option Error) (r : Registry) → ((finish_receiver s e r).1.ends s.id).pipe.read_err ≢ none
  unfolding finish_receiver release close close_ends close_write close_read store_once
  pipe-finish_receiver none r h = ground (arith, eq_refl s.id)
  pipe-finish_receiver (some e) r h = ground (arith, eq_refl s.id)

  pub told-finish_sender :
      (t : Transfer) (e : Option Error)
      → t.up.outcome ≡ done e
      → (n : ℕ) → (ended_up s max e t).answer_up ≡ finished (uploaded n)
      → (t.up.outcome ≡ done none) × (n ≡ t.up.total)
  unfolding finish_sender
  told-finish_sender t none o n h = (o, ground arith)
  told-finish_sender t (some e) o n h = absurd (ground arith)

  pub told-finish_receiver :
      (e : Option Error) (r : Registry) (down : Outcome)
      → down ≡ done e
      → (finish_receiver s e r).0.0 ≡ finished downloaded
      → down ≡ done none
  unfolding finish_receiver
  told-finish_receiver none r down o h = o
  told-finish_receiver (some e) r down o h = absurd (ground arith)
