-- ===== src/Stream/Transfer/Ending.antt =====
-- What ends a transfer: the body of the upload will end, and a handler that has answered has shut its
-- half of the pipe.
use icy_easy_send.Base.{
  ℕ, ◌≡◌, Bool, true, false, ◌||◌, Option, none, some, List, [], ◌∷◌, arith, eq_refl,
}
use icy_easy_send.Stream.Errors.{Error}
use icy_easy_send.Stream.Pipe.{Pipe, close_write, close_read, store_once}
use icy_easy_send.Stream.Registry.{Stream, Registry, release, close_ends, close}
use icy_easy_send.Stream.Handler.{finish_sender, finish_receiver}
use icy_easy_send.Stream.Handler.Pump.{Round, Outcome, running, done, pump_round}
use icy_easy_send.Stream.Transfer.{
  Transfer, Move, begins, skips, hands_over, has_written, fails_to_write, delivers, gives_up,
  sees_end, answers_up, answers_down, Step, moves, others, Reach, here, next, Ended, over,
  begin_transfer, pipe_of,
}

abbrev pub is_some : Option Error → Bool
is_some none = false
is_some (some e) = true

-- The body of an upload comes to an end, or fails, or the deadline cannot be renewed.
unfoldable pub ends : List Round → Bool
ends [] = false
ends (r ∷ rs) = (is_some r.extend_err || is_some r.read_err) || ends rs

-- The rest of the body still brings the sender's loop to its end.
abbrev pub WillEnd : List Round → Option (Round × List ℕ) → Outcome → Type 0
WillEnd upload (some (r, left)) up = ends (r ∷ upload) ≡ true
WillEnd upload none running = ends upload ≡ true
WillEnd upload none (done e) = Unit

-- A handler that has answered has closed its half of the pipe.
abbrev pub HasShut : Bool → Option Error → Type 0
HasShut answered e = answered ≡ true → is_some e ≡ true

skip-WillEnd :
    (max total : ℕ) (written : List ℕ) (r : Round) (rest : List Round)
    → ends (r ∷ rest) ≡ true
    → WillEnd rest none (pump_round max total written r).outcome
unfolding pump_round ends
skip-WillEnd max total written r rest h = ground arith

write-WillEnd :
    (max total : ℕ) (written : List ℕ) (r : Round) (rest : List Round) (w : Option (ℕ × Error))
    → ends (r ∷ rest) ≡ true
    → WillEnd rest none (pump_round max total written (record r { write_err = w })).outcome
unfolding pump_round ends
write-WillEnd max total written r rest w h = ground arith

module _ (s : Stream) (max : ℕ) where
  others-HasShut :
      (p q : Pipe) (b c : Bool)
      → Ended p q
      → HasShut b p.write_err
      → HasShut c p.read_err
      → HasShut b q.write_err × HasShut c q.read_err
  unfolding close_write close_read store_once
  others-HasShut p q b c e x y = (λ h. ground (arith, e, x h), λ h. ground (arith, e, y h))

  finish_sender-HasShut :
      (n : ℕ) (e : Option Error) (r : Registry) (c : Bool)
      → let q = ((finish_sender s n e r).1.ends s.id).pipe in
        HasShut c (r.ends s.id).pipe.read_err → (is_some q.write_err ≡ true) × HasShut c q.read_err
  unfolding finish_sender release close close_ends close_write close_read store_once
  finish_sender-HasShut n none r c h =
      (ground (arith, eq_refl s.id), λ x. ground (arith, eq_refl s.id, h x))
  finish_sender-HasShut n (some e) r c h =
      (ground (arith, eq_refl s.id), λ x. ground (arith, eq_refl s.id, h x))

  finish_receiver-HasShut :
      (e : Option Error) (r : Registry) (b : Bool)
      → let q = ((finish_receiver s e r).1.ends s.id).pipe in
        HasShut b (r.ends s.id).pipe.write_err → HasShut b q.write_err × (is_some q.read_err ≡ true)
  unfolding finish_receiver release close close_ends close_write close_read store_once
  finish_receiver-HasShut none r b h =
      (λ x. ground (arith, eq_refl s.id, h x), ground (arith, eq_refl s.id))
  finish_receiver-HasShut (some e) r b h =
      (λ x. ground (arith, eq_refl s.id, h x), ground (arith, eq_refl s.id))

  Move-WillEnd :
      {t u : Transfer}
      → Move s max t u
      → WillEnd t.upload t.giving t.up.outcome
      → WillEnd u.upload u.giving u.up.outcome
  unfolding ends
  Move-WillEnd {t} (begins r rest u o g k) v = rw (u, o, g) at v
  Move-WillEnd {t} (skips r rest u o g k) v =
      rw g (skip-WillEnd max t.up.total t.up.written r rest (rw (u, o, g) at v))
  Move-WillEnd {t} (hands_over r b left g w d o k) v = rw g at v
  Move-WillEnd {t} (has_written r g) v =
      write-WillEnd max t.up.total t.up.written r t.upload none (rw g at v)
  Move-WillEnd {t} (fails_to_write r b left e g w) v =
      write-WillEnd max t.up.total t.up.written r t.upload (some (_, e)) (rw g at v)
  Move-WillEnd (delivers c w k) v = v
  Move-WillEnd (gives_up e o k) v = v
  Move-WillEnd (sees_end e o k x) v = v
  Move-WillEnd (answers_up e o f) v = v
  Move-WillEnd (answers_down e o f) v = v

  -- Both handlers have shut their halves if they have answered.
  abbrev pub AreShut : Transfer → Type 0
  AreShut t =
      HasShut (over t.answer_up) (pipe_of s max t).write_err
      × HasShut (over t.answer_down) (pipe_of s max t).read_err

  Move-AreShut : {t u : Transfer} → Move s max t u → AreShut t → AreShut u
  Move-AreShut (begins r rest u o g k) v = v
  Move-AreShut (skips r rest u o g k) v = v
  Move-AreShut (hands_over r b left g w d o k) v = v
  Move-AreShut (has_written r g) v = v
  Move-AreShut (fails_to_write r b left e g w) v = v
  Move-AreShut (delivers c w k) v = v
  Move-AreShut (gives_up e o k) v = v
  Move-AreShut (sees_end e o k x) v = v
  Move-AreShut {t} (answers_up e o f) v =
      let q = finish_sender-HasShut t.up.total e t.registry (over t.answer_down) v.1 in
      (λ h. q.0, q.1)
  Move-AreShut {t} (answers_down e o f) v =
      let q = finish_receiver-HasShut e t.registry (over t.answer_up) v.0 in (q.0, λ h. q.1)

  pub record IsLive (t : Transfer) : Type 0 where
    pub will_end : WillEnd t.upload t.giving t.up.outcome
    pub are_shut : AreShut t

  pub Step-IsLive : {t u : Transfer} → Step s max t u → IsLive t → IsLive u
  Step-IsLive (moves m) v = record {
    will_end = Move-WillEnd m v.will_end;
    are_shut = Move-AreShut m v.are_shut;
  }
  Step-IsLive {t} (others r e) v = record {
    will_end = v.will_end;
    are_shut =
        others-HasShut (pipe_of s max t) (r.ends s.id).pipe (over t.answer_up) (over t.answer_down)
          e v.are_shut.0 v.are_shut.1;
  }

  pub Reach-IsLive : {t u : Transfer} → IsLive t → Reach s max t u → IsLive u
  Reach-IsLive v here = v
  Reach-IsLive v (next r st) = Step-IsLive st (Reach-IsLive v r)

pub begin_transfer-IsLive :
    (s : Stream) (max : ℕ) (r : Registry) (upload : List Round)
    → ends upload ≡ true
    → IsLive s max (begin_transfer s max r upload)
begin_transfer-IsLive s max r upload h = record {
  will_end = h;
  are_shut = (λ x. absurd (ground arith), λ x. absurd (ground arith));
}
