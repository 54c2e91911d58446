-- ===== src/Relay/Slots.antt =====
-- The slots of the registry and the requests that use them, in every reachable state of the relay.
use icy_easy_send.Base.{
  ℕ, ◌≡◌, ◌≢◌, ◌≤◌, ◌<◌, ◌⊎◌, inl, inr, refl, ◌∙◌, ap, String, true, some, [], ◌∷◌, Map, lookup,
  arith, eq_iff, eq_refl, HasUniqueKeys,
}
use icy_easy_send.Auth.{Crypto}
use icy_easy_send.Config.{Config}
use icy_easy_send.Limit.{Rate}
use icy_easy_send.Limit.Bandwidth.{Shaper}
use icy_easy_send.Stream.Registry.{Stream, Registry, charged}
use icy_easy_send.Stream.Registry.Accounts.{owned}
use icy_easy_send.Stream.Registry.Invariant.{sweep-IsValid}
use icy_easy_send.Stream.Registry.History.{System, sweep-streams}
use icy_easy_send.Signal.Server.{Codec}
use icy_easy_send.Main.{tick}
use icy_easy_send.Main.Sweeping.{sweeper_lem, is_attached}
use icy_easy_send.Relay as Relay
use icy_easy_send.Relay.{Side, sending, receiving, Job, Point, Reach}
use icy_easy_send.Relay.Claims.{live_job, IsHeld, IsKept}
use icy_easy_send.Relay.Invariant.{Reach-InOrder}

attached-IsHeld :
    (s : System) (requests : ℕ → Point) (k : String) (t : Stream)
    → IsKept s requests
    → lookup k s.registry.streams ≡ some t
    → is_attached (s.registry.ends k) ≡ true
    → (y : Side) × IsHeld requests y t
attached-IsHeld s requests k t i at h =
    let split : ((s.registry.ends k).sender_attached ≡ true)
        ⊎ ((s.registry.ends k).receiver_attached ≡ true) =
      ground (arith, h) in
    elim split [
      | inr received ↦ (receiving, i.received k t at received)
      | inl sent ↦ elim (i.sent k t at sent) [
        | inl held ↦ (sending, held)
        | inr received ↦ (receiving, i.received k t at received)
      ]
    ]

owned-none :
    (d : String) (m : Map Stream)
    → HasUniqueKeys m
    → ((k : String) (t : Stream) → lookup k m ≡ some t → t.owner ≢ d)
    → owned d m ≡ 0
unfolding lookup
owned-none d [] u h = refl
owned-none d ((k, s) ∷ m) u h =
    let rest = owned-none d m u.1 (λ j t at. h j t (ground (arith, at, u.0, eq_iff k j))) in
    ground (arith, rest, eq_iff s.owner d, h k s (ground (arith, eq_refl k)))

module _ (rate : Rate) (shaper : Shaper) (codec : Codec) (crypto : Crypto) (cfg : Config)
    (x : Relay.System rate shaper) where
  abbrev swept : ℕ → Registry
  swept now = (tick rate shaper now x.relay).world.streams

  -- No slot leaks. In every state that the relay reaches, whatever its connections, its requests and
  -- its sweeper have done and in whatever order, a stream that is still listed behind a tick of the
  -- sweeper has a deadline to come, or a request that is in its handler at this moment holds one of
  -- its sides.
  pub no_slot_leaks :
      (now : ℕ) (k : String) (t : Stream)
      → Reach rate shaper codec crypto cfg x
      → lookup k (swept now).streams ≡ some t
      → (now < t.expires_at) ⊎ ((y : Side) × IsHeld x.requests y t)
  unfolding tick
  no_slot_leaks now k t reached at =
      let i = Reach-InOrder rate shaper codec crypto cfg reached in
      let at' = sweep-streams now x.relay.world.streams k t i.sound.valid at in
      elim ((sweeper_lem rate shaper x.relay k t i.sound.valid).1 now at) [
        | inl early ↦ inl early
        | inr h ↦ inr (attached-IsHeld (Relay.ledger rate shaper x) x.requests k t i.kept at' h)
      ]

  -- The quota comes back. In every state that the relay reaches, if all live streams of a device have
  -- passed their deadlines, and no request in its handler works on a stream of this device, then the
  -- next tick of the sweeper leaves the device charged for nothing.
  pub slots_come_back :
      (now : ℕ) (d : String)
      → Reach rate shaper codec crypto cfg x
      → ((k : String) (t : Stream)
          → lookup k x.relay.world.streams.streams ≡ some t
          → t.owner ≡ d
          → t.expires_at ≤ now)
      → ((n : ℕ) (j : Job) → live_job (x.requests n) ≡ some j → j.stream.owner ≢ d)
      → charged d (swept now).per_device ≡ 0
  unfolding tick
  slots_come_back now d reached late idle =
      let i = Reach-InOrder rate shaper codec crypto cfg reached in
      let v = sweep-IsValid now x.relay.world.streams i.sound.valid in
      v.accounted d
      ∙ owned-none d (swept now).streams v.unique λ k t at same.
        let at' = sweep-streams now x.relay.world.streams k t i.sound.valid at in
        elim (no_slot_leaks now k t reached at) [
          | inl early ↦ absurd (omega (arith, early, late k t at' same))
          | inr (y, h) ↦ idle h.number h.job h.live (ap (λ (u : Stream). u.owner) h.stream ∙ same)
        ]

  -- One handler for each side. In every state that the relay reaches, two requests that are in their
  -- handlers at the same moment, on the same side of the same stream, are the same request.
  pub one_handler_per_side :
      (n m : ℕ) (i j : Job)
      → Reach rate shaper codec crypto cfg x
      → live_job (x.requests n) ≡ some i
      → live_job (x.requests m) ≡ some j
      → i.side ≡ j.side
      → i.stream.id ≡ j.stream.id
      → n ≡ m
  one_handler_per_side n m i j reached =
      (Reach-InOrder rate shaper codec crypto cfg reached).kept.alone n m i j
