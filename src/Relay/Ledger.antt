-- ===== src/Relay/Ledger.antt =====
-- What the steps of the relay do to the stream registry.
pub mod Moves
use icy_easy_send.Base.{
  ℕ, ◌+◌, ◌≡◌, refl, sym, ◌∙◌, ap, subst, inl, inr, String, true, Option, none, some, List, [], ◌∷◌,
  lookup, insert, lookup-insert, Result, ok, err, arith, eq_iff, eq_refl, Bool-cases, Option-cases,
  Result-cases, leb,
}
use icy_easy_send.Stream.Errors.{Error, not_found}
use icy_easy_send.Stream.Registry.{
  Stream, Ends, Registry, new_id, new_stream, charged, allocate, create, release, sweep,
  release_device, sweep_loop, release_loop, close_all,
}
use icy_easy_send.Stream.Registry.History.{
  System, Step, allocates, releases, moves_pipe, sweeps, releases_device, Steps, here, next,
  IsSound, Step-IsSound, Steps-IsSound, issue, set_pipe, release-streams, sweep-streams,
  release_device-streams, fresh_of_issued,
}
use icy_easy_send.Stream.Registry.Once.{close_all-sender_attached, close_all-receiver_attached}
use icy_easy_send.Stream.Pipe.{Pipe}
use icy_easy_send.Signal.Server.Streams.{AtMostCreates, AtMostReleases}
use icy_easy_send.Relay.{Side, sending, receiving, flag, noted}

close_all-flag :
    (x : Side) (e : Error) (ss : List Stream) (ends : String → Ends) (k : String)
    → flag x (close_all e ss ends k) ≡ flag x (ends k)
close_all-flag sending e ss ends k = close_all-sender_attached e ss ends k
close_all-flag receiving e ss ends k = close_all-receiver_attached e ss ends k

-- A listed stream with a claimed side was listed before, with this side claimed.
abbrev pub IsQuiet : System → System → Type 0
IsQuiet s u =
    (x : Side) (k : String) (t : Stream)
    → lookup k u.registry.streams ≡ some t
    → flag x (u.registry.ends k) ≡ true
    → (lookup k s.registry.streams ≡ some t) × (flag x (s.registry.ends k) ≡ true)

-- Calls on the registry, none of which claims a side.
pub record Evolves (s u : System) : Type 0 where
  pub steps : Steps s u
  pub quiet : IsQuiet s u

pub stays_put : {s : System} → Evolves s s
stays_put = record { steps = here; quiet = λ x k t at set. (at, set) }

chained : {s t u : System} → Steps s t → Steps t u → Steps s u
chained a here = a
chained a (next b st) = next (chained a b) st

pub then_step : {s t u : System} → Evolves s t → (st : Step t u) → IsQuiet t u → Evolves s u
then_step v st q = record {
  steps = next v.steps st;
  quiet = λ x k a at set. let b = q x k a at set in v.quiet x k a b.0 b.1;
}

pub then_evolves : {s t u : System} → Evolves s t → Evolves t u → Evolves s u
then_evolves v w = record {
  steps = chained v.steps w.steps;
  quiet = λ x k a at set. let b = w.quiet x k a at set in v.quiet x k a b.0 b.1;
}

pub allocate-IsQuiet :
    (id : String) (now : ℕ) (owner sender receiver : String) (s : System)
    → IsQuiet s (
        let out = allocate id now owner sender receiver s.registry in
        record { registry = out.1; issued = issue out.0 s.issued })
unfolding allocate
allocate-IsQuiet id now owner sender receiver s sending k t at set =
    let n = new_stream id owner sender receiver (now + s.registry.ttl) in
    ground (arith, eq_iff id k, lookup-insert id k n s.registry.streams)
allocate-IsQuiet id now owner sender receiver s receiving k t at set =
    let n = new_stream id owner sender receiver (now + s.registry.ttl) in
    ground (arith, eq_iff id k, lookup-insert id k n s.registry.streams)

release-flag :
    (x : Side) (t : Stream) (r : Registry) (k : String)
    → flag x ((release t r).ends k) ≡ flag x (r.ends k)
unfolding release
release-flag sending t r k = ground (arith, eq_iff t.id k)
release-flag receiving t r k = ground (arith, eq_iff t.id k)

pub set_pipe-flag :
    (x : Side) (t : Stream) (p : Pipe) (r : Registry) (k : String)
    → flag x ((set_pipe t p r).ends k) ≡ flag x (r.ends k)
set_pipe-flag sending t p r k = ground (arith, eq_iff t.id k)
set_pipe-flag receiving t p r k = ground (arith, eq_iff t.id k)

pub released :
    (t : Stream) {s : System}
    → lookup t.id s.issued ≡ some t
    → Evolves s (record s { registry = release t s.registry })
released t {s} known =
    then_step stays_put (releases t known) λ x k a at set.
      (release-streams t s.registry k a at, sym (release-flag x t s.registry k) ∙ set)

pub pipe_moved :
    (t : Stream) (p : Pipe) {s : System}
    → lookup t.id s.issued ≡ some t
    → Evolves s (record s { registry = set_pipe t p s.registry })
pipe_moved t p {s} known =
    then_step stays_put (moves_pipe t p known)
      λ x k a at set. (at, sym (set_pipe-flag x t p s.registry k) ∙ set)

pub swept :
    (max now : ℕ) {s : System}
    → IsSound max s
    → Evolves s (record s { registry = (sweep now s.registry).1 })
unfolding sweep
swept max now {s} v =
    let stale = (sweep_loop now s.registry.ends s.registry.streams s.registry.per_device).stale in
    then_step stays_put (sweeps now) λ x k a at set. (
      sweep-streams now s.registry k a v.valid at,
      sym (close_all-flag x not_found stale s.registry.ends k) ∙ set,
    )

pub left :
    (max : ℕ) (d : String) {s : System}
    → IsSound max s
    → Evolves s (record s { registry = release_device d s.registry })
unfolding release_device
left max d {s} v =
    let dropped = (release_loop d s.registry.ends s.registry.streams).dropped in
    then_step stays_put (releases_device d) λ x k a at set. (
      release_device-streams d s.registry k a v.valid at,
      sym (close_all-flag x not_found dropped s.registry.ends k) ∙ set,
    )
