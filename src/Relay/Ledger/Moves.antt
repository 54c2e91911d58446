-- ===== src/Relay/Ledger/Moves.antt =====
-- What the steps of a connection do to the stream registry.
use icy_easy_send.Base.{
  ℕ, ◌+◌, ◌≡◌, refl, sym, subst, inl, inr, String, none, List, Map, lookup, lookup-insert, Result,
  ok, arith, eq_refl, Result-cases, none_of_implied,
}
use icy_easy_send.Auth.{Crypto}
use icy_easy_send.Limit.{Rate}
use icy_easy_send.Limit.Bandwidth.{Shaper}
use icy_easy_send.Stream.Errors.{Error}
use icy_easy_send.Stream.Registry.{
  Stream, Registry, new_id, new_stream, allocate, create, release_device,
}
use icy_easy_send.Stream.Registry.History as History
use icy_easy_send.Stream.Registry.History.{IsSound, issue, fresh_of_issued, release_device-streams}
use icy_easy_send.Signal.Hub.{Session}
use icy_easy_send.Signal.World.{World, close_session}
use icy_easy_send.Signal.Handshake.{
  Refusal, bad_request, incomplete, identity, enter, welcomed, reject_handshake,
}
use icy_easy_send.Signal.Server.{Codec}
use icy_easy_send.Signal.Server.Streams.{
  AtMostCreates, AtMostReleases, streams-dispatch, streams-teardown,
}
use icy_easy_send.Signal.Connections as Connections
use icy_easy_send.Signal.Connections.{Move, answers, is_refused, is_welcome, is_lost, reads, ends}
use icy_easy_send.Relay.{noted, System, signaling, ledger, after_move, IsFresh}
use icy_easy_send.Relay.Ledger.{Evolves, stays_put, then_step, allocate-IsQuiet, left}

noted-unlisted :
    (drawn : Result Error (List ℕ)) (q : Registry) (issued : Map Stream)
    → ((id : String) → new_id drawn ≡ ok id → lookup id q.streams ≡ none)
    → noted drawn q issued ≡ issued
unfolding noted
noted-unlisted drawn q issued h = elim (Result-cases (new_id drawn)) [
  | inr (e, bad) ↦ rw (bad, noted) refl
  | inl (id, good) ↦ rw (good, noted, h id good) refl
]

-- What Create leaves is noted just as it was issued.
noted-allocate :
    (id : String) (now : ℕ) (owner sender receiver : String) (drawn : Result Error (List ℕ))
    (s : History.System)
    → new_id drawn ≡ ok id
    → lookup id s.registry.streams ≡ none
    → let out = allocate id now owner sender receiver s.registry in
      noted drawn out.1 s.issued ≡ issue out.0 s.issued
unfolding allocate noted
noted-allocate id now owner sender receiver drawn s good fresh =
    let n = new_stream id owner sender receiver (now + s.registry.ttl) in
    ground (arith, good, fresh, lookup-insert id id n s.registry.streams, eq_refl id)

module _ (max : ℕ) (drawn : Result Error (List ℕ)) (s : History.System) (v : IsSound max s) where
  abbrev noting : Registry → History.System
  noting q = record { registry = q; issued = noted drawn q s.issued }

  module _ (fresh : (id : String) → new_id drawn ≡ ok id → lookup id s.issued ≡ none) where
    unlisted : (id : String) → new_id drawn ≡ ok id → lookup id s.registry.streams ≡ none
    unlisted id good = fresh_of_issued max s id v (fresh id good)

    pub same-Evolves : (q : Registry) → q ≡ s.registry → Evolves s (noting q)
    same-Evolves q same =
        subst (λ r. Evolves s (noting r)) (sym same)
          (rw (noted-unlisted drawn s.registry s.issued unlisted) stays_put)

    create-Evolves :
        (now : ℕ) (owner sender receiver : String)
        → Evolves s (noting (create drawn now owner sender receiver s.registry).1)
    unfolding create noted
    create-Evolves now owner sender receiver = elim (Result-cases (new_id drawn)) [
      | inr (e, bad) ↦ rw (bad, create, noted) stays_put
      | inl (id, good) ↦
          rw
            (
              good,
              create,
              noted-allocate id now owner sender receiver drawn s good (unlisted id good),
            )
            (then_step stays_put (History.allocates id now owner sender receiver (fresh id good))
              (allocate-IsQuiet id now owner sender receiver s))
    ]

    pub AtMostCreates-Evolves :
        (now : ℕ) (q : Registry) → AtMostCreates drawn now s.registry q → Evolves s (noting q)
    AtMostCreates-Evolves now q (inl same) = same-Evolves q same
    AtMostCreates-Evolves now q (inr (owner, sender, receiver, same)) =
        subst (λ r. Evolves s (noting r)) (sym same) (create-Evolves now owner sender receiver)

    pub AtMostReleases-Evolves :
        (d : String) (q : Registry) → AtMostReleases d s.registry q → Evolves s (noting q)
    AtMostReleases-Evolves d q (inl same) = same-Evolves q same
    AtMostReleases-Evolves d q (inr same) =
        subst (λ r. Evolves s (noting r)) (sym same)
          (rw
            (noted-unlisted drawn (release_device d s.registry) s.issued λ id good.
              none_of_implied _ _ (λ t. release_device-streams d s.registry id t v.valid)
                (unlisted id good))
            (left max d v))

module _ {L : Type 0} where
  pub streams-enter : (s : Session) (w : World L) → (enter s w).streams ≡ w.streams
  unfolding enter close_session
  streams-enter s w = ground arith

  pub streams-reject_handshake :
      (e : Refusal) (w : World L) → (reject_handshake e w).1.streams ≡ w.streams
  unfolding reject_handshake
  streams-reject_handshake bad_request w = refl
  streams-reject_handshake incomplete w = refl
  streams-reject_handshake (identity e) w = refl

module _ (rate : Rate) (shaper : Shaper) (codec : Codec) (crypto : Crypto) where
  -- A step of a connection makes at most one stream or releases those of one device.
  pub Move-Evolves :
      (max : ℕ) (drawn : Result Error (List ℕ)) (x : System rate shaper)
      {y : Connections.System rate.Limiter}
      → IsSound max (ledger rate shaper x)
      → IsFresh rate shaper drawn x
      → Move rate codec crypto drawn (signaling rate shaper x) y
      → Evolves (ledger rate shaper x) (ledger rate shaper (after_move rate shaper drawn y x))
  unfolding welcomed
  Move-Evolves max drawn x v fresh (answers decode nonce read random ref s new good) =
      same-Evolves max drawn (ledger rate shaper x) v fresh _ (streams-enter s x.relay.world)
  Move-Evolves max drawn x v fresh (is_refused ref e new) =
      same-Evolves max drawn (ledger rate shaper x) v fresh _
        (streams-reject_handshake e x.relay.world)
  Move-Evolves max drawn x v fresh (is_welcome s at) =
      same-Evolves max drawn (ledger rate shaper x) v fresh _ refl
  Move-Evolves max drawn x v fresh (is_lost s at) =
      same-Evolves max drawn (ledger rate shaper x) v fresh _ refl
  Move-Evolves max drawn x v fresh (reads now s frame at) =
      AtMostCreates-Evolves max drawn (ledger rate shaper x) v fresh now _
        (streams-dispatch rate codec now drawn s frame x.relay.world)
  Move-Evolves max drawn x v fresh (ends now s at) =
      AtMostReleases-Evolves max drawn (ledger rate shaper x) v fresh s.device_id _
        (streams-teardown rate codec now s x.relay.world)
