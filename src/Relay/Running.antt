-- ===== src/Relay/Running.antt =====
-- What the steps of a request do to the registry, and whom they leave holding what.
use icy_easy_send.Base.{
  ℕ, ◌≡◌, ◌≢◌, ◌⊎◌, inl, inr, refl, sym, ◌∙◌, ap, subst, true, false, Option, none, some, List, [],
  lookup, arith, eq_refl, Bool-cases,
}
use icy_easy_send.Stream.Errors.{Error, already_attached}
use icy_easy_send.Stream.Registry.{
  Stream, Registry, Wake, ready, timed_out, cancelled, release, claim_sender, claim_receiver,
  wait_for,
}
use icy_easy_send.Stream.Registry.Sweeping.{release_lem}
use icy_easy_send.Stream.Registry.History.{System, IsSound, Step-IsSound, Steps-IsSound, set_pipe}
use icy_easy_send.Stream.Handler.{
  Response, Event, Phase, begin_sender, woken_sender, finish_sender, begin_receiver, woken_receiver,
  finish_receiver, write_error, error_code, error_text,
}
use icy_easy_send.Stream.Pipe.{Pipe}
use icy_easy_send.Stream.Handler as Handler
use icy_easy_send.Relay.{
  Side, sending, receiving, other, Job, Point, routed, waiting, pumping, answered, flag, put, begin,
  woken, finish, in_phase,
}
use icy_easy_send.Relay.Ledger.{Evolves, released, pipe_moved, then_evolves, set_pipe-flag}
use icy_easy_send.Relay.Claims.{
  job_of, live_job, IsKept, IsDispensable, settled, woken-IsKept, Evolves-IsKept,
}
use icy_easy_send.Relay.Claims.Claiming.{claim, claim-Step, claimed-IsKept}

-- A registry and its requests.
pub record IsInOrder (max : ℕ) (s : System) (requests : ℕ → Point) : Type 0 where
  pub sound : IsSound max s
  pub kept : IsKept s requests

-- The handler is at its end, and has left this registry.
abbrev pub Stops : (Phase × List Event) × Registry → Registry → Type 0
Stops out q =
    (response : Response) × (events : List Event) × (out ≡ ((Handler.finished response, events), q))

abbrev refusal : Response × List Event
refusal = write_error (error_code (some already_attached)) (error_text already_attached)

module _ (t : Stream) (r : Registry) where
  pub begin-free :
      (x : Side)
      → flag x (r.ends t.id) ≡ false
      → begin x t r ≡ ((Handler.waiting, []), (claim x t r).1)
  unfolding begin claim_sender claim_receiver begin_sender begin_receiver
  begin-free sending free = ground arith
  begin-free receiving free = ground arith

  pub begin-taken : (x : Side) → flag x (r.ends t.id) ≡ true → Stops (begin x t r) (release t r)
  unfolding begin claim_sender claim_receiver begin_sender begin_receiver
  begin-taken sending taken =
      (refusal.0, refusal.1, rw (taken, begin, begin_sender, claim_sender) refl)
  begin-taken receiving taken =
      (refusal.0, refusal.1, rw (taken, begin, begin_receiver, claim_receiver) refl)

  pub woken-ready : (x : Side) → woken x t ready r ≡ ((Handler.pumping, []), r)
  unfolding woken woken_sender woken_receiver wait_for
  woken-ready sending = refl
  woken-ready receiving = refl

  pub woken-Stops : (x : Side) (w : Wake) → w ≢ ready → Stops (woken x t w r) (release t r)
  unfolding woken woken_sender woken_receiver wait_for
  woken-Stops x ready h = absurd (h refl)
  woken-Stops sending timed_out h = (_, _, refl)
  woken-Stops receiving timed_out h = (_, _, refl)
  woken-Stops sending (cancelled e) h = (_, _, refl)
  woken-Stops receiving (cancelled e) h = (_, _, refl)

  -- The sender's handler that ends well closes its half of the pipe; any other end releases, too.
  pub finish-Stops :
      (x : Side) (written : ℕ) (e : Option Error)
      → (p : Pipe) × (((x ≡ sending) × Stops (finish x t written e r) (set_pipe t p r))
          ⊎ Stops (finish x t written e r) (release t (set_pipe t p r)))
  unfolding finish finish_sender finish_receiver
  finish-Stops sending written none = (_, inl (refl, (_, _, refl)))
  finish-Stops sending written (some e) = (_, inr (_, _, refl))
  finish-Stops receiving written none = (_, inr (_, _, refl))
  finish-Stops receiving written (some e) = (_, inr (_, _, refl))

module _ (max : ℕ) (s : System) (requests : ℕ → Point) (n : ℕ) (j : Job)
    (i : IsInOrder max s requests) where
  abbrev After : (Phase × List Event) × Registry → Type 0
  After ((phase, events), q) =
      IsInOrder max (record s { registry = q }) (put n (in_phase j phase) requests)

  -- A handler that is at its end holds nothing.
  Stops-IsInOrder :
      (out : (Phase × List Event) × Registry) (q : Registry)
      → Evolves s (record s { registry = q })
      → ((a : Job) → live_job (requests n) ≡ some a → IsDispensable (record s { registry = q }) a)
      → Stops out q
      → After out
  Stops-IsInOrder out q e spared (response, events, same) =
      let sound' = Steps-IsSound max e.steps i.sound in
      rw same (record {
        sound = sound';
        kept =
            settled (record s { registry = q }) requests
              (Evolves-IsKept max requests i.sound e i.kept) n (answered response) refl
              (λ a h. absurd (ground (arith, h))) spared sound'.valid;
      })

  known : job_of (requests n) ≡ some j → lookup j.stream.id s.issued ≡ some j.stream
  known = i.kept.known n j

  -- A stream that is released is listed no more.
  unlisted : (r : Registry) → lookup j.stream.id (release j.stream r).streams ≡ none
  unlisted r = (release_lem j.stream r).0 j.stream.id ∙ ground (arith, eq_refl j.stream.id)

  releases-IsInOrder :
      (out : (Phase × List Event) × Registry) (r : Registry)
      → Evolves s (record s { registry = release j.stream r })
      → ((a : Job) → live_job (requests n) ≡ some a → a ≡ j)
      → Stops out (release j.stream r)
      → After out
  releases-IsInOrder out r e own stop =
      Stops-IsInOrder out (release j.stream r) e
        (λ a h.
          subst (λ b. IsDispensable (record s { registry = release j.stream r }) b) (sym (own a h))
            (inl (unlisted r)))
        stop

  pub begin-IsInOrder : requests n ≡ routed j → After (begin j.side j.stream s.registry)
  begin-IsInOrder here = elim (Bool-cases (flag j.side (s.registry.ends j.stream.id))) [
    | inl taken ↦
        releases-IsInOrder _ s.registry (released j.stream (known (ap job_of here)))
          (λ a h. absurd (ground (arith, here, h))) (begin-taken j.stream s.registry j.side taken)
    | inr free ↦ rw (begin-free j.stream s.registry j.side free) (record {
      sound = Step-IsSound max (claim-Step j.side j.stream (known (ap job_of here))) i.sound;
      kept = claimed-IsKept max s requests i.kept i.sound n j here free;
    })
  ]

  fails-IsInOrder :
      (w : Wake) → requests n ≡ waiting j → w ≢ ready → After (woken j.side j.stream w s.registry)
  fails-IsInOrder w here h =
      releases-IsInOrder _ s.registry (released j.stream (known (ap job_of here)))
        (λ a live. ground (arith, here, live)) (woken-Stops j.stream s.registry j.side w h)

  pub woken-IsInOrder :
      (w : Wake)
      → requests n ≡ waiting j
      → (w ≡ ready → flag (other j.side) (s.registry.ends j.stream.id) ≡ true)
      → After (woken j.side j.stream w s.registry)
  woken-IsInOrder ready here met =
      rw (woken-ready j.stream s.registry j.side)
        (record { sound = i.sound; kept = woken-IsKept s requests i.kept n j here (met refl) })
  woken-IsInOrder timed_out here met = fails-IsInOrder timed_out here (λ e. ground (arith, e))
  woken-IsInOrder (cancelled x) here met =
      fails-IsInOrder (cancelled x) here (λ e. ground (arith, e))

  pub finish-IsInOrder :
      (written : ℕ) (e : Option Error)
      → requests n ≡ pumping j
      → After (finish j.side j.stream written e s.registry)
  finish-IsInOrder written e here =
      let (p, out) = finish-Stops j.stream s.registry j.side written e in
      let q = set_pipe j.stream p s.registry in
      let known' = known (ap job_of here) in
      let own : (a : Job) → live_job (requests n) ≡ some a → a ≡ j =
        λ a live. ground (arith, here, live) in
      elim out [
        | inl (sends, stop) ↦
            Stops-IsInOrder _ q (pipe_moved j.stream p known')
              (λ a live. subst (IsDispensable (record s { registry = q })) (sym (own a live)) (
                inr (
                  sends,
                  set_pipe-flag receiving j.stream p s.registry j.stream.id
                      ∙ subst (λ x. flag (other x) (s.registry.ends j.stream.id) ≡ true) sends
                          (i.kept.paired n j here),
                )))
              stop
        | inr stop ↦
            releases-IsInOrder _ q
              (then_evolves (pipe_moved j.stream p known') (released j.stream known')) own stop
      ]
