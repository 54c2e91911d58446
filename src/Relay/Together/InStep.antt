-- ===== src/Relay/Together/InStep.antt =====
-- A transfer in the relay is a transfer: the relay's steps beside it are those that a transfer allows for.
use icy_easy_send.Base.{ℕ, ◌≡◌, ◌≢◌, inl, inr, refl, sym, ◌∙◌, ap, false, Option, List, arith}
use icy_easy_send.Auth.{Crypto}
use icy_easy_send.Config.{Config}
use icy_easy_send.Limit.{Rate}
use icy_easy_send.Limit.Bandwidth.{Shaper}
use icy_easy_send.Stream.Errors.{Error}
use icy_easy_send.Stream.Registry.{Stream, Registry}
use icy_easy_send.Stream.Handler.{Phase, Response, finished, finish_sender, finish_receiver}
use icy_easy_send.Stream.Handler.Pump.{Round}
use icy_easy_send.Stream.Transfer as Transfer
use icy_easy_send.Stream.Transfer.{
  Transfer, Ended, Move, over, begin_transfer, ended_up, ended_down,
}
use icy_easy_send.Stream.Transfer.Others.{others_only_close}
use icy_easy_send.Signal.Server.{Codec}
use icy_easy_send.Main.{tick}
use icy_easy_send.Relay.{
  Side, sending, receiving, Job, Point, waiting, pumping, answered, in_phase, put, finish, System,
  streams_of, ledger, after_handler, Step, connects, ticks, arrives, begins, wakes, shapes, writes,
  pings, finishes, Reach,
}
use icy_easy_send.Relay as Relay
use icy_easy_send.Relay.Claims.{live_job, job_of}
use icy_easy_send.Relay.Invariant.{Reach-InOrder}
use icy_easy_send.Relay.Sole.{IsSole, Step-IsSole}
use icy_easy_send.Relay.Transfers.{
  Move-PipeEnded, begin-PipeEnded, woken-PipeEnded, finish-PipeEnded, finish-ne-pumping, Side-cases,
}
use icy_easy_send.Relay.Together.{
  Meeting, Together, meets, aside, moves_bytes, upload_ends, download_ends,
}

apart : (requests : ℕ → Point) (g : Meeting requests) → g.upload ≢ g.download
apart requests g e = ground (arith, e, g.uploads, g.downloads, g.sends, g.receives)

put-here : (n : ℕ) (p : Point) (requests : ℕ → Point) → put n p requests n ≡ p
put-here n p requests = ground arith

put-apart : (n m : ℕ) (p : Point) (requests : ℕ → Point) → n ≢ m → put n p requests m ≡ requests m
put-apart n m p requests h = ground (arith, h)

not_over : (j a : Job) (p : Phase) → in_phase j p ≡ pumping a → over p ≡ false
not_over j a p h = ground (arith, h)

pub answer_of :
    (j : Job) (p : Phase) (response : Response)
    → in_phase j p ≡ answered response
    → p ≡ finished response
answer_of j p response h = ground (arith, h)

finish-sending :
    (x : Side) (s : Stream) (written : ℕ) (e : Option Error) (r : Registry)
    → x ≡ sending
    → finish x s written e r ≡ finish_sender s written e r
unfolding finish
finish-sending sending s written e r h = refl
finish-sending receiving s written e r h = absurd (ground (arith, h))

finish-receiving :
    (x : Side) (s : Stream) (written : ℕ) (e : Option Error) (r : Registry)
    → x ≡ receiving
    → finish x s written e r ≡ finish_receiver s e r
unfolding finish
finish-receiving receiving s written e r h = refl
finish-receiving sending s written e r h = absurd (ground (arith, h))

module _ (rate : Rate) (shaper : Shaper) (codec : Codec) (crypto : Crypto) (cfg : Config) where
  -- How the relay and the transfer hang together.
  pub record IsInStep (max : ℕ) (body : List Round) (x₀ : System rate shaper)
      (g : Meeting x₀.requests) (x : System rate shaper) (t : Transfer) : Type 0 where
    pub reached : Reach rate shaper codec crypto cfg x
    pub moved :
        Transfer.Reach g.up.stream max
          (begin_transfer g.up.stream max (streams_of rate shaper x₀) body)
          t
    pub same : t.registry ≡ streams_of rate shaper x
    pub up_at : x.requests g.upload ≡ in_phase g.up t.answer_up
    pub down_at : x.requests g.download ≡ in_phase g.down t.answer_down
    pub up_sole : IsSole (ledger rate shaper x) x.requests g.upload g.up
    pub down_sole : IsSole (ledger rate shaper x) x.requests g.download g.down

  pumping-IsSole :
      {x : System rate shaper} (n : ℕ) (j : Job)
      → Reach rate shaper codec crypto cfg x
      → x.requests n ≡ pumping j
      → IsSole (ledger rate shaper x) x.requests n j
  pumping-IsSole n j reached at =
      let i = Reach-InOrder rate shaper codec crypto cfg reached in
      record {
        known = i.kept.known n j (ap job_of at);
        claimed = i.kept.claimed n j (ap live_job at);
        sole = λ l a live side id. i.kept.alone l n a j live (ap live_job at) side id;
      }

  -- A request that ends beside them works on another stream.
  ends_beside :
      (x : System rate shaper) (n l : ℕ) (j a : Job) (written : ℕ) (e : Option Error)
      → IsSole (ledger rate shaper x) x.requests n j
      → x.requests l ≡ pumping a
      → put l
          (in_phase a (finish a.side a.stream written e (streams_of rate shaper x)).0.0)
          x.requests
          n
        ≡ x.requests n
      → a.side ≡ j.side
      → a.stream.id ≢ j.stream.id
  ends_beside x n l j a written e sole here still side id =
      let one : l ≡ n = sole.sole l a (ap live_job here) side id in
      finish-ne-pumping a.side a a a.stream written e (streams_of rate shaper x)
        (ground (arith, one, still, here))

  aside-Ended :
      {x y : System rate shaper} (n m : ℕ) (i j : Job)
      → Reach rate shaper codec crypto cfg x
      → Step rate shaper codec crypto cfg x y
      → IsSole (ledger rate shaper x) x.requests n i
      → IsSole (ledger rate shaper x) x.requests m j
      → i.side ≡ sending
      → j.side ≡ receiving
      → j.stream ≡ i.stream
      → y.requests n ≡ x.requests n
      → y.requests m ≡ x.requests m
      → Ended
          ((streams_of rate shaper x).ends i.stream.id).pipe
          ((streams_of rate shaper y).ends i.stream.id).pipe
  unfolding tick
  aside-Ended {x} n m i j reached (connects drawn fresh move) up down s r same still_n still_m =
      Move-PipeEnded i.stream.id rate codec crypto drawn
        (λ id good e. ground (arith, fresh id good, up.known, e)) move
  aside-Ended {x} n m i j reached (ticks now) up down s r same still_n still_m =
      (others_only_close i.stream.id (streams_of rate shaper x)).1 now
  aside-Ended n m i j reached (arrives l q at) up down s r same still_n still_m = inl refl
  aside-Ended {x} n m i j reached (begins l a at) up down s r same still_n still_m =
      begin-PipeEnded i.stream.id a.side a.stream (streams_of rate shaper x)
  aside-Ended {x} n m i j reached (wakes l a w at met) up down s r same still_n still_m =
      woken-PipeEnded i.stream.id a.side a.stream w (streams_of rate shaper x)
  aside-Ended n m i j reached (shapes d now) up down s r same still_n still_m = inl refl
  aside-Ended n m i j reached (writes ref failed) up down s r same still_n still_m = inl refl
  aside-Ended n m i j reached (pings ref t) up down s r same still_n still_m = inl refl
  aside-Ended {x} n m i j reached (finishes l a written e at) up down s r same still_n still_m =
      finish-PipeEnded i.stream.id a.side a.stream written e (streams_of rate shaper x)
        (elim (Side-cases a.side) [
          | inl sends ↦ ends_beside x n l i a written e up at still_n (sends ∙ sym s)
          | inr receives ↦
              rw (sym (ap (λ (t : Stream). t.id) same))
                (ends_beside x m l j a written e down at still_m (receives ∙ sym r))
        ])

  pub Together-IsInStep :
      (max : ℕ) (body : List Round) (x₀ : System rate shaper) (g : Meeting x₀.requests)
      {x : System rate shaper} {t : Transfer}
      → Reach rate shaper codec crypto cfg x₀
      → Together rate shaper codec crypto cfg max body x₀ g x t
      → IsInStep max body x₀ g x t
  Together-IsInStep max body x₀ g r₀ meets = record {
    reached = r₀;
    moved = Transfer.here;
    same = refl;
    up_at = g.uploads;
    down_at = g.downloads;
    up_sole = pumping-IsSole g.upload g.up r₀ g.uploads;
    down_sole = pumping-IsSole g.download g.down r₀ g.downloads;
  }
  Together-IsInStep max body x₀ g r₀ (aside {x} {y} {t} so_far st still_up still_down) =
      let v = Together-IsInStep max body x₀ g r₀ so_far in
      let i = Reach-InOrder rate shaper codec crypto cfg v.reached in
      let left =
        aside-Ended g.upload g.download g.up g.down v.reached st v.up_sole v.down_sole g.sends
          g.receives g.one_stream still_up still_down in
      record {
        reached = Relay.next v.reached st;
        moved = Transfer.next v.moved (Transfer.others (streams_of rate shaper y) (rw v.same left));
        same = refl;
        up_at = still_up ∙ v.up_at;
        down_at = still_down ∙ v.down_at;
        up_sole = Step-IsSole rate shaper codec crypto cfg _ g.upload g.up st i v.up_sole;
        down_sole = Step-IsSole rate shaper codec crypto cfg _ g.download g.down st i v.down_sole;
      }
  Together-IsInStep max body x₀ g r₀ (moves_bytes so_far m reg up down) =
      let v = Together-IsInStep max body x₀ g r₀ so_far in
      record {
        reached = v.reached;
        moved = Transfer.next v.moved (Transfer.moves m);
        same = reg ∙ v.same;
        up_at = v.up_at ∙ ap (in_phase g.up) (sym up);
        down_at = v.down_at ∙ ap (in_phase g.down) (sym down);
        up_sole = v.up_sole;
        down_sole = v.down_sole;
      }
  Together-IsInStep max body x₀ g r₀ (upload_ends {x} {t} e so_far at ended) =
      let v = Together-IsInStep max body x₀ g r₀ so_far in
      let i = Reach-InOrder rate shaper codec crypto cfg v.reached in
      let st = finishes g.upload g.up t.up.total e at in
      let run : finish g.up.side g.up.stream t.up.total e (streams_of rate shaper x)
          ≡ finish_sender g.up.stream t.up.total e t.registry =
        finish-sending g.up.side g.up.stream t.up.total e _ g.sends
        ∙ ap (finish_sender g.up.stream t.up.total e) (sym v.same) in
      record {
        reached = Relay.next v.reached st;
        moved = Transfer.next v.moved (
            Transfer.moves
              (Transfer.answers_up e ended (not_over g.up g.up t.answer_up (sym v.up_at ∙ at))));
        same = ap (λ o. o.1) (sym run);
        up_at = put-here g.upload _ x.requests ∙ ap (λ o. in_phase g.up o.0.0) run;
        down_at = put-apart g.upload g.download _ x.requests (apart x₀.requests g) ∙ v.down_at;
        up_sole = Step-IsSole rate shaper codec crypto cfg _ g.upload g.up st i v.up_sole;
        down_sole = Step-IsSole rate shaper codec crypto cfg _ g.download g.down st i v.down_sole;
      }
  Together-IsInStep max body x₀ g r₀ (download_ends {x} {t} e so_far at ended) =
      let v = Together-IsInStep max body x₀ g r₀ so_far in
      let i = Reach-InOrder rate shaper codec crypto cfg v.reached in
      let st = finishes g.download g.down t.down.total e at in
      let run : finish g.down.side g.down.stream t.down.total e (streams_of rate shaper x)
          ≡ finish_receiver g.up.stream e t.registry =
        finish-receiving g.down.side g.down.stream t.down.total e _ g.receives
        ∙ ap (λ k. finish_receiver k e (streams_of rate shaper x)) g.one_stream
        ∙ ap (finish_receiver g.up.stream e) (sym v.same) in
      record {
        reached = Relay.next v.reached st;
        moved = Transfer.next v.moved (
            Transfer.moves (
              Transfer.answers_down e ended
                (not_over g.down g.down t.answer_down (sym v.down_at ∙ at))));
        same = ap (λ o. o.1) (sym run);
        up_at =
            put-apart g.download g.upload _ x.requests (λ h. apart x₀.requests g (sym h)) ∙ v.up_at;
        down_at = put-here g.download _ x.requests ∙ ap (λ o. in_phase g.down o.0.0) run;
        up_sole = Step-IsSole rate shaper codec crypto cfg _ g.upload g.up st i v.up_sole;
        down_sole = Step-IsSole rate shaper codec crypto cfg _ g.download g.down st i v.down_sole;
      }
