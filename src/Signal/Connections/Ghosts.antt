-- ===== src/Signal/Connections/Ghosts.antt =====
-- The hub lists no session whose connection is gone.
use icy_easy_send.Base.{
  ℕ, ◌≡◌, ◌≢◌, ◌⊎◌, inl, inr, refl, ap, sym, ◌∙◌, subst, String, Option, some, List, lookup, insert,
  lookup-insert, lookup-delete, eq_iff, arith, Option-cases, Result, Result-cases, ok, err, Map,
}
use icy_easy_send.Protocol as Wire
use icy_easy_send.Auth.{Crypto, verify_identity}
use icy_easy_send.Limit.{Rate}
use icy_easy_send.Stream.Errors.{Error}
use icy_easy_send.Signal.Hub.{Session, Hub, register, unregister, lookup_session}
use icy_easy_send.Signal.World.{World, close_session}
use icy_easy_send.Signal.Server.{Codec}
use icy_easy_send.Signal.Handshake.{
  Refusal, bad_request, incomplete, identity, check_answer, enter, welcomed, reject_handshake,
  parse_answer, verified,
}
use icy_easy_send.Signal.History.{sessions-dispatch, hub-teardown}
use icy_easy_send.Signal.Connections.{
  Point, outside, gone, entered, reading, System, at_point, Move, Step, moves, answers, is_refused,
  is_welcome, is_lost, reads, ends, others, Reach, start, next,
}

-- The goroutine of this session is between its registration and its end.
abbrev pub IsLive : Point → Session → Type 0
IsLive p s = (p ≡ entered s) ⊎ (p ≡ reading s)

-- Every session that is listed is listed under its own device, and lives.
abbrev AllLive : Map Session → (ℕ → Point) → Type 0
AllLive sessions points =
    (d : String) (s : Session)
    → lookup d sessions ≡ some s
    → (s.device_id ≡ d) × IsLive (points s.ref) s

-- A new session that is registered.
insert-AllLive :
    (s : Session) (m : Map Session) (points : ℕ → Point)
    → points s.ref ≡ outside
    → AllLive m points
    → AllLive (insert s.device_id s m) (at_point s.ref (entered s) points)
insert-AllLive s m points new v d t at =
    ground (arith, eq_iff s.device_id d, lookup-insert s.device_id d s m, v d t)

-- Unregister takes the session off the list, if it is still there.
unregister-AllLive :
    (s : Session) (h : Hub) (points : ℕ → Point)
    → IsLive (points s.ref) s
    → AllLive h.sessions points
    → AllLive (unregister s h).1.sessions (at_point s.ref gone points)
unfolding unregister
unregister-AllLive s h points live v d t at =
    ground (arith, eq_iff s.device_id d, lookup-delete s.device_id d h.sessions, v d t, live)

-- A session whose point moves on.
move-AllLive :
    (s : Session) (m : Map Session) (points : ℕ → Point)
    → points s.ref ≡ entered s
    → AllLive m points
    → AllLive m (at_point s.ref (reading s) points)
move-AllLive s m points here v d t at = ground (arith, v d t)

refuse-AllLive :
    (ref : ℕ) (m : Map Session) (points : ℕ → Point)
    → points ref ≡ outside
    → AllLive m points
    → AllLive m (at_point ref gone points)
refuse-AllLive ref m points new v d t at = ground (arith, v d t)

pub hub-enter :
    {L : Type 0} (s : Session) (w : World L)
    → (enter s w).hub.sessions ≡ insert s.device_id s w.hub.sessions
unfolding enter register close_session
hub-enter s w = ground arith

pub hub-reject_handshake :
    {L : Type 0} (e : Refusal) (w : World L) → (reject_handshake e w).1.hub ≡ w.hub
unfolding reject_handshake
hub-reject_handshake bad_request w = refl
hub-reject_handshake incomplete w = refl
hub-reject_handshake (identity e) w = refl

-- A session has the address of its connection.
HasRef : ℕ → Result Refusal Session → Type 0
HasRef ref (ok s) = s.ref ≡ ref
HasRef ref (err e) = Unit

verified-HasRef :
    (crypto : Crypto) (nonce : List ℕ) (random : Option (List ℕ)) (ref : ℕ) (msg : Wire.Auth)
    → HasRef ref (verified crypto nonce random ref msg)
unfolding verified HasRef
verified-HasRef crypto nonce random ref msg =
    elim (Result-cases (verify_identity crypto msg.device_id msg.public_key msg.signature nonce)) [
      | inr (e, bad) ↦ rw (bad, verified, HasRef) tt
      | inl (key, good) ↦ elim (Option-cases random) [
        | inl dry ↦ rw (good, dry, verified, HasRef) tt
        | inr (raw, e) ↦ rw (good, e, verified, HasRef) refl
      ]
    ]

check_answer-HasRef :
    (crypto : Crypto) (decode : String → Option Wire.Auth) (nonce : List ℕ) (read : Option String)
    (random : Option (List ℕ)) (ref : ℕ)
    → HasRef ref (check_answer crypto decode nonce read random ref)
unfolding check_answer HasRef
check_answer-HasRef crypto decode nonce read random ref =
    elim (Result-cases (parse_answer decode read)) [
      | inr (e, bad) ↦ rw (bad, check_answer, HasRef) tt
      | inl (msg, good) ↦ rw (good, check_answer) (verified-HasRef crypto nonce random ref msg)
    ]

module _ (rate : Rate) (codec : Codec) (crypto : Crypto) where
  abbrev IsClean : System rate.Limiter → Type 0
  IsClean x = AllLive x.world.hub.sessions x.points

  Move-IsClean :
      (drawn : Result Error (List ℕ)) {x y : System rate.Limiter}
      → Move rate codec crypto drawn x y
      → IsClean x
      → IsClean y
  unfolding welcomed HasRef
  Move-IsClean drawn {x} (answers decode nonce read random ref s new good) v =
      let same : s.ref ≡ ref =
        subst (HasRef ref) good (check_answer-HasRef crypto decode nonce read random ref) in
      rw (hub-enter s x.world, sym same)
        (insert-AllLive s x.world.hub.sessions x.points (ap x.points same ∙ new) v)
  Move-IsClean drawn {x} (is_refused ref e new) v =
      rw (hub-reject_handshake e x.world) (refuse-AllLive ref x.world.hub.sessions x.points new v)
  Move-IsClean drawn {x} (is_welcome s here') v =
      move-AllLive s x.world.hub.sessions x.points here' v
  Move-IsClean drawn {x} (is_lost s here') v =
      unregister-AllLive s x.world.hub x.points (inl here') v
  Move-IsClean drawn {x} (reads now s frame here') v =
      rw (sessions-dispatch rate codec now drawn s frame x.world) v
  Move-IsClean drawn {x} (ends now s here') v =
      rw (hub-teardown rate codec now s x.world)
        (unregister-AllLive s x.world.hub x.points (inr here') v)

  Step-IsClean : {x y : System rate.Limiter} → Step rate codec crypto x y → IsClean x → IsClean y
  Step-IsClean (moves drawn m) v = Move-IsClean drawn m v
  Step-IsClean {x} (others w same) v = rw same v

  Reach-IsClean : {x : System rate.Limiter} → Reach rate codec crypto x → IsClean x
  unfolding lookup
  Reach-IsClean (start w e) = λ d s at. absurd (ground (arith, e, at))
  Reach-IsClean (next r st) = Step-IsClean st (Reach-IsClean r)

  -- Nobody looks online without a connection. In every interleaving of any number of connections, a
  -- session that the hub lists is listed under its own device id, and its connection is registered or
  -- reading, with this very session. So from the moment that a connection has ended, or that its
  -- welcome could not be written, no lookup of any device finds its session again.
  pub no_ghosts :
      (x : System rate.Limiter) (d : String) (s : Session)
      → Reach rate codec crypto x
      → lookup_session d x.world.hub ≡ some s
      → (s.device_id ≡ d)
        × ((x.points s.ref ≡ entered s) ⊎ (x.points s.ref ≡ reading s))
        × (x.points s.ref ≢ gone)
  unfolding lookup_session
  no_ghosts x d s r at = let v = Reach-IsClean r d s at in (v.0, v.1, λ h. ground (arith, v.1, h))
