-- ===== src/Signal/Connections/Histories.antt =====
-- What the connections do, as a history of the signaling plane.
use icy_easy_send.Base.{ℕ, List, Result, refl}
use icy_easy_send.Auth.{Crypto}
use icy_easy_send.Limit.{Rate}
use icy_easy_send.Stream.Errors.{Error}
use icy_easy_send.Signal.Server.{Codec}
use icy_easy_send.Signal.Handshake.{welcomed}
use icy_easy_send.Signal.History as History
use icy_easy_send.Signal.Connections.{
  System, Move, moves, answers, is_refused, is_welcome, is_lost, reads, ends, others, Reach, start,
  next,
}
use icy_easy_send.Signal.Connections.Ghosts.{hub-reject_handshake}

module _ (rate : Rate) (codec : Codec) (crypto : Crypto) where
  Move-Step :
      (drawn : Result Error (List ℕ)) {x y : System rate.Limiter}
      → Move rate codec crypto drawn x y
      → History.Step rate codec crypto x.world y.world
  unfolding welcomed
  Move-Step drawn (answers decode nonce read random ref s new good) =
      History.enters decode nonce read random ref s good
  Move-Step drawn {x} (is_refused ref e new) = History.moves _ (hub-reject_handshake e x.world)
  Move-Step drawn (is_welcome s at) = History.moves _ refl
  Move-Step drawn (is_lost s at) = History.drops s
  Move-Step drawn (reads now s frame at) = History.dispatches now drawn s frame
  Move-Step drawn (ends now s at) = History.leaves now s

  pub Reach-History :
      {x : System rate.Limiter}
      → Reach rate codec crypto x
      → History.Reach rate codec crypto x.world
  Reach-History (start w e) = History.start w e
  Reach-History (next r (moves drawn m)) = History.next (Reach-History r) (Move-Step drawn m)
  Reach-History (next r (others w same)) = History.next (Reach-History r) (History.moves w same)
