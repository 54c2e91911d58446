-- ===== src/Relay/Sole.antt =====
-- A side that is claimed stays with the request that claimed it, also when this has ended.
use icy_easy_send.Base.{
  ℕ, ◌≡◌, ◌⊎◌, inl, inr, ap, subst, true, false, Option, some, lookup, arith, Bool-cases, eqb,
}
use icy_easy_send.Auth.{Crypto}
use icy_easy_send.Config.{Config}
use icy_easy_send.Limit.{Rate}
use icy_easy_send.Limit.Bandwidth.{Shaper}
use icy_easy_send.Stream.Errors.{Error}
use icy_easy_send.Stream.Registry.{Stream, Registry, Wake, ready, timed_out, cancelled}
use icy_easy_send.Stream.Registry.History as History
use icy_easy_send.Stream.Registry.History.{IsSound}
use icy_easy_send.Stream.Registry.Once.{Steps-Follows}
use icy_easy_send.Stream.Handler.{Phase, serve_http}
use icy_easy_send.Signal.Server.{Codec}
use icy_easy_send.Signal.Transfers.{handler_options}
use icy_easy_send.Relay.{
  Side, sending, receiving, Job, Point, waiting, flag, put, begin, woken, finish, in_phase, System,
  streams_of, ledger, Step, connects, ticks, arrives, begins, wakes, shapes, writes, pings,
  finishes,
}
use icy_easy_send.Relay.Claims.{live_job}
use icy_easy_send.Relay.Running.{
  Stops, begin-free, begin-taken, woken-ready, woken-Stops, finish-Stops,
}
use icy_easy_send.Relay.Histories.{Step-Steps}
use icy_easy_send.Relay.Invariant.{InOrder, live-behind_switch}

-- A request that is live behind a step was live before, with the same job, or its side was free.
abbrev WasLiveOrFree : (ℕ → Point) → Registry → ℕ → Job → Type 0
WasLiveOrFree requests r l a =
    (live_job (requests l) ≡ some a) ⊎ (flag a.side (r.ends a.stream.id) ≡ false)

module _ (requests : ℕ → Point) (r : Registry) (n l : ℕ) (a : Job) where
  put-WasLiveOrFree :
      (p : Point)
      → (live_job p ≡ some a → WasLiveOrFree requests r n a)
      → live_job (put n p requests l) ≡ some a
      → WasLiveOrFree requests r l a
  put-WasLiveOrFree p here h = elim (Bool-cases (eqb n l)) [
    | inl same ↦
        let at : n ≡ l = ground (arith, same) in
        subst (λ k. WasLiveOrFree requests r k a) at (here (ground (arith, h, same)))
    | inr apart ↦ inl (ground (arith, h, apart))
  ]

  stopped :
      (j : Job) (out : (Phase × _) × Registry) (q : Registry)
      → Stops out q
      → live_job (in_phase j out.0.0) ≡ some a
      → WasLiveOrFree requests r n a
  stopped j out q (response, events, same) h =
      absurd (ground (arith, h, ap (λ o. live_job (in_phase j o.0.0)) same))

  begin-WasLiveOrFree :
      (j : Job)
      → live_job (in_phase j (begin j.side j.stream r).0.0) ≡ some a
      → WasLiveOrFree requests r n a
  begin-WasLiveOrFree j h = elim (Bool-cases (flag j.side (r.ends j.stream.id))) [
    | inl taken ↦ stopped j _ _ (begin-taken j.stream r j.side taken) h
    | inr free ↦
        let same : j ≡ a =
          ground
            (arith, h, ap (λ o. live_job (in_phase j o.0.0)) (begin-free j.stream r j.side free)) in
        inr (subst (λ b. flag b.side (r.ends b.stream.id) ≡ false) same free)
  ]

  woken-WasLiveOrFree :
      (j : Job) (w : Wake)
      → requests n ≡ waiting j
      → live_job (in_phase j (woken j.side j.stream w r).0.0) ≡ some a
      → WasLiveOrFree requests r n a
  woken-WasLiveOrFree j ready at h =
      inl (
        ground
          (arith, h, at, ap (λ o. live_job (in_phase j o.0.0)) (woken-ready j.stream r j.side)))
  woken-WasLiveOrFree j timed_out at h =
      stopped j _ _ (woken-Stops j.stream r j.side timed_out (λ e. ground (arith, e))) h
  woken-WasLiveOrFree j (cancelled x) at h =
      stopped j _ _ (woken-Stops j.stream r j.side (cancelled x) (λ e. ground (arith, e))) h

  finish-WasLiveOrFree :
      (j : Job) (written : ℕ) (e : Option Error)
      → live_job (in_phase j (finish j.side j.stream written e r).0.0) ≡ some a
      → WasLiveOrFree requests r n a
  finish-WasLiveOrFree j written e h =
      let (p, out) = finish-Stops j.stream r j.side written e in
      elim out [ inl (sends, stop) ↦ stopped j _ _ stop h | inr stop ↦ stopped j _ _ stop h ]

-- The request has its side for itself, for good.
pub record IsSole (s : History.System) (requests : ℕ → Point) (n : ℕ) (j : Job) : Type 0 where
  pub known : lookup j.stream.id s.issued ≡ some j.stream
  pub claimed : flag j.side (s.registry.ends j.stream.id) ≡ true
  pub sole :
      (l : ℕ) (a : Job)
      → live_job (requests l) ≡ some a
      → a.side ≡ j.side
      → a.stream.id ≡ j.stream.id
      → l ≡ n

flag-Steps :
    (max : ℕ) (x : Side) (t : Stream) {s u : History.System}
    → IsSound max s
    → History.Steps s u
    → lookup t.id s.issued ≡ some t
    → flag x (s.registry.ends t.id) ≡ true
    → flag x (u.registry.ends t.id) ≡ true
flag-Steps max sending t v steps known = (Steps-Follows max t.id t v known steps).sender
flag-Steps max receiving t v steps known = (Steps-Follows max t.id t v known steps).receiver

module _ (rate : Rate) (shaper : Shaper) (codec : Codec) (crypto : Crypto) (cfg : Config) where
  Step-WasLiveOrFree :
      {x y : System rate shaper} (l : ℕ) (a : Job)
      → Step rate shaper codec crypto cfg x y
      → live_job (y.requests l) ≡ some a
      → WasLiveOrFree x.requests (streams_of rate shaper x) l a
  Step-WasLiveOrFree l a (connects drawn fresh m) h = inl h
  Step-WasLiveOrFree l a (ticks now) h = inl h
  Step-WasLiveOrFree {x} l a (arrives n r at) h =
      put-WasLiveOrFree x.requests (streams_of rate shaper x) n l a _
        (λ live. absurd (
          ground (
            arith,
            live,
            live-behind_switch r
                (serve_http (handler_options cfg.token crypto x.relay.world.hub) r
                  (streams_of rate shaper x)).0,
          )))
        h
  Step-WasLiveOrFree {x} l a (begins n j at) h =
      put-WasLiveOrFree x.requests (streams_of rate shaper x) n l a _
        (begin-WasLiveOrFree x.requests (streams_of rate shaper x) n l a j) h
  Step-WasLiveOrFree {x} l a (wakes n j w at met) h =
      put-WasLiveOrFree x.requests (streams_of rate shaper x) n l a _
        (woken-WasLiveOrFree x.requests (streams_of rate shaper x) n l a j w at) h
  Step-WasLiveOrFree l a (shapes d now) h = inl h
  Step-WasLiveOrFree l a (writes ref failed) h = inl h
  Step-WasLiveOrFree l a (pings ref t) h = inl h
  Step-WasLiveOrFree {x} l a (finishes n j written e at) h =
      put-WasLiveOrFree x.requests (streams_of rate shaper x) n l a _
        (finish-WasLiveOrFree x.requests (streams_of rate shaper x) n l a j written e) h

  pub Step-IsSole :
      (max : ℕ) {x y : System rate shaper} (n : ℕ) (j : Job)
      → Step rate shaper codec crypto cfg x y
      → InOrder rate shaper codec crypto cfg max x
      → IsSole (ledger rate shaper x) x.requests n j
      → IsSole (ledger rate shaper y) y.requests n j
  Step-IsSole max {x} {y} n j st i v =
      let steps = Step-Steps rate shaper codec crypto cfg max st i in
      record {
        known =
            (Steps-Follows max j.stream.id j.stream i.sound v.known steps).known j.stream v.known;
        claimed = flag-Steps max j.side j.stream i.sound steps v.known v.claimed;
        sole = λ l a live side id. elim (Step-WasLiveOrFree l a st live) [
          | inl before ↦ v.sole l a before side id
          | inr free ↦
              let free' : flag j.side ((streams_of rate shaper x).ends j.stream.id) ≡ false =
                subst (λ k. flag j.side ((streams_of rate shaper x).ends k) ≡ false) id
                  (subst (λ y'. flag y' ((streams_of rate shaper x).ends a.stream.id) ≡ false) side
                    free) in
              absurd (ground (arith, free', v.claimed))
        ];
      }
