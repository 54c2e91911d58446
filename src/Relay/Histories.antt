-- ===== src/Relay/Histories.antt =====
-- Every step of the relay is a sequence of calls on its registry.
use icy_easy_send.Base.{
  ℕ, ◌≡◌, inl, inr, sym, ap, subst, Option, some, List, lookup, arith, Bool-cases,
}
use icy_easy_send.Auth.{Crypto}
use icy_easy_send.Config.{Config}
use icy_easy_send.Limit.{Rate}
use icy_easy_send.Limit.Bandwidth.{Shaper}
use icy_easy_send.Stream.Errors.{Error}
use icy_easy_send.Stream.Registry.{Stream, Registry, Wake, ready, timed_out, cancelled}
use icy_easy_send.Stream.Registry.History as History
use icy_easy_send.Stream.Registry.History.{Steps, here, next}
use icy_easy_send.Stream.Handler.{Phase, Event}
use icy_easy_send.Signal.Server.{Codec}
use icy_easy_send.Main.{tick}
use icy_easy_send.Relay.{
  Side, flag, begin, woken, finish, System, ledger, Step, connects, ticks, arrives, begins, wakes,
  shapes, writes, pings, finishes,
}
use icy_easy_send.Relay.Ledger.{swept, released, pipe_moved, then_evolves}
use icy_easy_send.Relay.Ledger.Moves.{Move-Evolves}
use icy_easy_send.Relay.Claims.{job_of}
use icy_easy_send.Relay.Claims.Claiming.{claim-Step}
use icy_easy_send.Relay.Running.{
  Stops, begin-free, begin-taken, woken-ready, woken-Stops, finish-Stops,
}
use icy_easy_send.Relay.Invariant.{InOrder}

module _ (s : History.System) (t : Stream) (known : lookup t.id s.issued ≡ some t) where
  abbrev Leaves : (Phase × List Event) × Registry → Type 0
  Leaves out = Steps s (record s { registry = out.1 })

  Stops-Leaves :
      (out : (Phase × List Event) × Registry) (q : Registry)
      → Steps s (record s { registry = q })
      → Stops out q
      → Leaves out
  Stops-Leaves out q steps (response, events, same) =
      subst (λ r. Steps s (record s { registry = r })) (sym (ap (λ o. o.1) same)) steps

  begin-Leaves : (x : Side) → Leaves (begin x t s.registry)
  begin-Leaves x = elim (Bool-cases (flag x (s.registry.ends t.id))) [
    | inl taken ↦ Stops-Leaves _ _ (released t known).steps (begin-taken t s.registry x taken)
    | inr free ↦ rw (begin-free t s.registry x free) (next here (claim-Step x t known))
  ]

  woken-Leaves : (x : Side) (w : Wake) → Leaves (woken x t w s.registry)
  woken-Leaves x ready = rw (woken-ready t s.registry x) here
  woken-Leaves x timed_out =
      Stops-Leaves _ _ (released t known).steps
        (woken-Stops t s.registry x timed_out (λ e. ground (arith, e)))
  woken-Leaves x (cancelled e) =
      Stops-Leaves _ _ (released t known).steps
        (woken-Stops t s.registry x (cancelled e) (λ h. ground (arith, h)))

  finish-Leaves :
      (x : Side) (written : ℕ) (e : Option Error) → Leaves (finish x t written e s.registry)
  finish-Leaves x written e =
      let (p, out) = finish-Stops t s.registry x written e in
      elim out [
        | inl (sends, stop) ↦ Stops-Leaves _ _ (pipe_moved t p known).steps stop
        | inr stop ↦
            Stops-Leaves _ _ (then_evolves (pipe_moved t p known) (released t known)).steps stop
      ]

module _ (rate : Rate) (shaper : Shaper) (codec : Codec) (crypto : Crypto) (cfg : Config) where
  pub Step-Steps :
      (max : ℕ) {x y : System rate shaper}
      → Step rate shaper codec crypto cfg x y
      → InOrder rate shaper codec crypto cfg max x
      → Steps (ledger rate shaper x) (ledger rate shaper y)
  unfolding tick
  Step-Steps max {x} (connects drawn fresh m) i =
      (Move-Evolves rate shaper codec crypto max drawn x i.sound fresh m).steps
  Step-Steps max {x} (ticks now) i = (swept max now i.sound).steps
  Step-Steps max (arrives n r at) i = here
  Step-Steps max {x} (begins n j at) i =
      begin-Leaves (ledger rate shaper x) j.stream (i.kept.known n j (ap job_of at)) j.side
  Step-Steps max {x} (wakes n j w at met) i =
      woken-Leaves (ledger rate shaper x) j.stream (i.kept.known n j (ap job_of at)) j.side w
  Step-Steps max (shapes d now) i = here
  Step-Steps max (writes ref failed) i = here
  Step-Steps max (pings ref t) i = here
  Step-Steps max {x} (finishes n j written e at) i =
      finish-Leaves (ledger rate shaper x) j.stream (i.kept.known n j (ap job_of at)) j.side written
        e
