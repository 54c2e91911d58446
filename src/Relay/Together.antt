-- ===== src/Relay/Together.antt =====
-- A transfer and the whole relay beside it.
pub mod InStep
use icy_easy_send.Base.{
  ℕ, ◌≡◌, ◌≢◌, ◌⊎◌, inl, inr, refl, sym, ◌∙◌, ap, subst, true, false, Option, none, some, List, [],
  lookup, arith, String-cases, length,
}
use icy_easy_send.Auth.{Crypto}
use icy_easy_send.Config.{Config}
use icy_easy_send.Limit.{Rate}
use icy_easy_send.Limit.Bandwidth.{Shaper}
use icy_easy_send.Stream.Errors.{Error}
use icy_easy_send.Stream.Registry.{Stream, Registry}
use icy_easy_send.Stream.Registry.Closing.{IsOpen}
use icy_easy_send.Stream.Handler.{
  Phase, Response, finished, downloaded, uploaded, finish_sender, finish_receiver,
}
use icy_easy_send.Stream.Handler as Handler
use icy_easy_send.Stream.Handler.Pump.{Round, done, running}
use icy_easy_send.Stream.Transfer as Transfer
use icy_easy_send.Stream.Transfer.{
  Transfer, Ended, Move, over, begin_transfer, ended_up, ended_down,
}
use icy_easy_send.Stream.Transfer.Complete.{transfer_is_complete}
use icy_easy_send.Stream.Transfer.Others.{others_only_close}
use icy_easy_send.Signal.Server.{Codec}
use icy_easy_send.Main.{tick}
use icy_easy_send.Relay.{
  Side, sending, receiving, Job, Point, waiting, pumping, answered, in_phase, put, finish, System,
  streams_of, ledger, after_handler, Step, connects, ticks, arrives, begins, wakes, shapes,
  finishes, Reach,
}
use icy_easy_send.Relay as Relay
use icy_easy_send.Relay.Claims.{live_job, job_of}
use icy_easy_send.Relay.Invariant.{Reach-InOrder}
use icy_easy_send.Relay.Sole.{IsSole, Step-IsSole}
use icy_easy_send.Relay.Transfers.{
  Move-PipeEnded, begin-PipeEnded, woken-PipeEnded, finish-PipeEnded, finish-ne-pumping, Side-cases,
}

-- Two requests that move the bytes of one stream, one on each side.
pub record Meeting (requests : ℕ → Point) : Type 0 where
  pub upload : ℕ
  pub download : ℕ
  pub up : Job
  pub down : Job
  pub sends : up.side ≡ sending
  pub receives : down.side ≡ receiving
  pub one_stream : down.stream ≡ up.stream
  pub uploads : requests upload ≡ pumping up
  pub downloads : requests download ≡ pumping down

module _ (rate : Rate) (shaper : Shaper) (codec : Codec) (crypto : Crypto) (cfg : Config) where
  -- What happens from a meeting on: the two requests move bytes and come to their ends, and the rest of
  -- the relay takes its steps.
  pub data Together (max : ℕ) (body : List Round) (x₀ : System rate shaper)
      (g : Meeting x₀.requests) : System rate shaper → Transfer → Type 0 where
    meets :
        Together max body x₀ g x₀ (begin_transfer g.up.stream max (streams_of rate shaper x₀) body)
    -- A step of the relay that is not one of the two requests'.
    aside :
        {x y : System rate shaper} {t : Transfer}
        → Together max body x₀ g x t
        → Step rate shaper codec crypto cfg x y
        → y.requests g.upload ≡ x.requests g.upload
        → y.requests g.download ≡ x.requests g.download
        → Together max body x₀ g y (record t { registry = streams_of rate shaper y })
    -- A round of their loops.
    moves_bytes :
        {x : System rate shaper} {t u : Transfer}
        → Together max body x₀ g x t
        → Move g.up.stream max t u
        → u.registry ≡ t.registry
        → u.answer_up ≡ t.answer_up
        → u.answer_down ≡ t.answer_down
        → Together max body x₀ g x u
    -- A handler behind its loop.
    upload_ends :
        {x : System rate shaper} {t : Transfer} (e : Option Error)
        → Together max body x₀ g x t
        → x.requests g.upload ≡ pumping g.up
        → t.up.outcome ≡ done e
        → Together max body x₀ g
            (after_handler rate shaper g.upload g.up
              (finish g.up.side g.up.stream t.up.total e (streams_of rate shaper x))
              x)
            (ended_up g.up.stream max e t)
    download_ends :
        {x : System rate shaper} {t : Transfer} (e : Option Error)
        → Together max body x₀ g x t
        → x.requests g.download ≡ pumping g.down
        → t.down.outcome ≡ done e
        → Together max body x₀ g
            (after_handler rate shaper g.download g.down
              (finish g.down.side g.down.stream t.down.total e (streams_of rate shaper x))
              x)
            (ended_down g.up.stream max e t)
