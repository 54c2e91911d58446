-- ===== src/Signal/Server/Leaving.antt =====
-- What the end of a session takes with it, and who is told.
use icy_easy_send.Base.{
  ℕ, ◌≡◌, ◌⊎◌, inl, inr, refl, ◌-◌, ◌++◌, String, true, false, List, [], ◌∷◌, length, lookup, eqb,
  arith, Bool-cases, Option-cases, if◌then◌else◌,
}
use icy_easy_send.Limit.{Rate}
use icy_easy_send.Stream.Registry.{release_device}
use icy_easy_send.Signal.Hub.{Session, unregister}
use icy_easy_send.Signal.Hub.Departure.{is_current, Left}
use icy_easy_send.Signal.Session.{Message, Outbox, close, send}
use icy_easy_send.Signal.World.{World, close_session, tell_gone, send_to, presence_message}
use icy_easy_send.Signal.Server.{Codec, teardown}

-- What the news of the departure leaves alone.
abbrev Kept : {L : Type 0} → ℕ → World L → World L → Type 0
Kept ref w w' =
    (w'.hub ≡ w.hub)
    × (w'.streams ≡ w.streams)
    × ((w.outboxes ref).closed ≡ true → (w'.outboxes ref).closed ≡ true)

closed-send_to :
    {L : Type 0} (s : Session) (m : Message) (w : World L) (ref : ℕ)
    → (w.outboxes ref).closed ≡ true
    → ((send_to s m w).1.outboxes ref).closed ≡ true
unfolding send_to send close
closed-send_to s m w ref h = ground arith

tell_gone-Kept :
    {L : Type 0} (now : ℕ) (d : String) (ss : List Session) (w : World L) (ref : ℕ)
    → Kept ref w (tell_gone now d ss w)
unfolding tell_gone send_to
tell_gone-Kept now d [] w ref = (refl, refl, λ h. h)
tell_gone-Kept now d (s ∷ ss) w ref =
    let m = presence_message now d false in
    let ih = tell_gone-Kept now d ss (send_to s m w).1 ref in
    (ih.0, ih.1, λ h. ih.2 (closed-send_to s m w ref h))

closed-close_session :
    {L : Type 0} (s : Session) (w : World L) → ((close_session s w).outboxes s.ref).closed ≡ true
unfolding close_session close
closed-close_session s w = ground arith

-- The messages that an outbox can still take; Send closes a full one.
abbrev pub room : Outbox → ℕ
room o = if o.closed then 0 else 32 - length o.queue

-- How many of the sessions have their outbox at this address.
abbrev pub count_at : ℕ → List Session → ℕ
count_at r [] = 0
count_at r (x ∷ xs) = if eqb x.ref r then ℕ.suc (count_at r xs) else count_at r xs

-- So many copies of a message, as far as there is room.
abbrev pub fitting : Message → ℕ → ℕ → List Message
fitting m ℕ.zero free = []
fitting m (ℕ.suc n) ℕ.zero = []
fitting m (ℕ.suc n) (ℕ.suc free) = m ∷ fitting m n free

-- So many Sends of a message.
abbrev sends : Message → ℕ → Outbox → Outbox
sends m ℕ.zero o = o
sends m (ℕ.suc n) o = sends m n (send m o).1

module _ (rate : Rate) (codec : Codec) (now : ℕ) where
  pub teardown_parts :
      (s : Session) (w : World rate.Limiter)
      → ((is_current w.hub s ≡ false) × (teardown rate codec now s w ≡ close_session s w))
        ⊎ ((is_current w.hub s ≡ true)
            × ((teardown rate codec now s w).hub ≡ (unregister s w.hub).1)
            × ((teardown rate codec now s w).streams ≡ release_device s.device_id w.streams)
            × (((teardown rate codec now s w).outboxes s.ref).closed ≡ true))
  unfolding teardown unregister close_session
  teardown_parts s w = elim (Option-cases (lookup s.device_id w.hub.sessions)) [
    | inl off ↦ inl (ground arith, ground arith)
    | inr (c, e) ↦ elim (Bool-cases (eqb c.ref s.ref)) [
      | inr stale ↦ inl (ground arith, ground arith)
      | inl live ↦
          let closed = close_session s w in
          let out = unregister s closed.hub in
          let k = tell_gone-Kept now s.device_id out.0.0 (record closed { hub = out.1 }) s.ref in
          inr (
            ground arith,
            ground (arith, k.0),
            ground (arith, k.1),
            ground (arith, k.2 (closed-close_session s w)),
          )
    ]
  ]

  -- What the end of a device's live connection leaves behind, as another session sees it: the device is
  -- offline; its idle streams are released; its own session is closed; and each session that Unregister
  -- answers with is sent the news that the device is gone, where it can still take a message, and no
  -- other outbox has changed.
  pub record Departed (s other : Session) (w w' : World rate.Limiter) : Type 0 where
    pub left : Left w.hub s other (unregister s w.hub).0.0 w'.hub
    pub streams : w'.streams ≡ release_device s.device_id w.streams
    pub shut : (w'.outboxes s.ref).closed ≡ true
    pub news :
        (r : ℕ)
        → let before = (close_session s w).outboxes r in
          (w'.outboxes r).queue
          ≡ before.queue
            ++ fitting
                (presence_message now s.device_id false)
                (count_at r (unregister s w.hub).0.0)
                (room before)
