-- ===== src/Signal/Hub/Departure.antt =====
-- Connecting, reconnecting and leaving.
use mathlib.Core.Logic.{◌↔◌}
use icy_easy_send.Base.{
  ◌≡◌, ◌≢◌, ◌⊎◌, inl, inr, refl, subst, String, Bool, true, false, none, some, List, [], ◌∷◌,
  lookup, delete, eqb, ◌==◌, eq_iff, eq_refl, arith, lookup-insert, lookup-delete, Option-cases,
  Bool-cases, if◌then◌else◌, All, delete-AllEntries,
}
use icy_easy_send.Signal.Hub.{
  Session, Hub, subscribed_to, mutual_watchers, register, unregister, lookup_session,
}
use icy_easy_send.Signal.Hub.Invariant.{IsValid, HasOwnKey}
use icy_easy_send.Signal.Hub.Presence.{are_mutual, Listed, mutual_watchers-Watches, Watches}
use icy_easy_send.Signal.Hub.Delivery.{Has, mutual_watchers-Has}

-- The newest connection of a device wins: after it registers, the session before it can no longer
-- take the device offline, since its Unregister changes nothing and tells nobody.
pub superseded :
    (old new : Session) (h : Hub)
    → old.device_id ≡ new.device_id
    → eqb new.ref old.ref ≡ false
    → let after = (register new h).1 in
      (unregister old after ≡ (([], false), after))
      × (lookup_session new.device_id after ≡ some new)
      × ((register new h).0 ≡ lookup_session new.device_id h)
      × ((k : String)
          → lookup_session k after ≡ (if new.device_id == k then some new else lookup_session k h))
unfolding register unregister lookup_session
superseded old new h same other =
    let found = lookup-insert new.device_id new.device_id new h.sessions in
    (
      ground (arith, found, eq_refl new.device_id),
      ground (arith, found, eq_refl new.device_id),
      refl,
      λ k. lookup-insert new.device_id k new h.sessions,
    )

-- The session is the device's live one.
abbrev pub is_current : Hub → Session → Bool
is_current h s = elim (lookup s.device_id h.sessions) [ none ↦ false | some c ↦ eqb c.ref s.ref ]

All-Has : (P : Session → Type 0) (w : Session) (ws : List Session) → All P ws → Has w ws → P w
All-Has P w [] a m = absurd m
All-Has P w (x ∷ xs) a (inl e) = subst P e a.0
All-Has P w (x ∷ xs) a (inr m) = All-Has P w xs a.1 m

-- What the Unregister of a live session answers and leaves behind.
pub record Left (h : Hub) (s w : Session) (ws : List Session) (h' : Hub) : Type 0 where
  pub sessions :
      (k : String) → lookup_session k h' ≡ (if s.device_id == k then none else lookup_session k h)
  pub subs : (k : String) → lookup k h'.subs ≡ (if s.device_id == k then none else lookup k h.subs)
  pub told :
      Has w ws ↔ ((s.device_id ≢ w.device_id) × (are_mutual h s.device_id w.device_id ≡ true))

-- The hub without the device's session.
abbrev gone_hub : String → Hub → Hub
gone_hub d h = record h { sessions = delete d h.sessions }

gone-Left :
    (s w : Session) (h : Hub)
    → IsValid h
    → Listed h w
    → Left h s w
        (mutual_watchers (gone_hub s.device_id h) s.device_id)
        (record (gone_hub s.device_id h) { subs = delete s.device_id h.subs })
unfolding lookup_session
gone-Left s w h v listed =
    let d = s.device_id in
    let gone = gone_hub d h in
    let ws = mutual_watchers gone d in
    record {
      sessions = λ k. lookup-delete d k h.sessions;
      subs = λ k. lookup-delete d k h.subs;
      told = (
        λ m.
            let p =
              All-Has (Watches gone d) w ws
                (mutual_watchers-Watches gone d (delete-AllEntries HasOwnKey d h.sessions v.keyed))
                m in
            (
              λ same.
                  ground (arith, p.0, eq_iff d w.device_id, lookup-delete d w.device_id h.sessions),
              unfold subscribed_to in ground (arith, p.1),
            ),
        λ p.
            mutual_watchers-Has gone w d
              (ground (arith, p.0, eq_iff d w.device_id, lookup-delete d w.device_id h.sessions))
              (unfold subscribed_to in ground (arith, p.1)),
      );
    }

-- Unregister of a session that is not the device's live one changes nothing and tells nobody. Of the
-- live one, it takes the device offline with its subscriptions and no other device; a connected
-- session is among those to be told exactly when it is of another device that is mutual with this one.
pub unregister_lem :
    (s w : Session) (h : Hub)
    → IsValid h
    → Listed h w
    → ((is_current h s ≡ false) × (unregister s h ≡ (([], false), h)))
      ⊎ ((is_current h s ≡ true)
          × ((unregister s h).0.1 ≡ true)
          × Left h s w (unregister s h).0.0 (unregister s h).1)
unfolding unregister lookup_session
unregister_lem s w h v listed = elim (Bool-cases (is_current h s)) [
  | inr stale ↦ inl (stale, ground arith)
  | inl live ↦
      let left = gone-Left s w h v listed in
      elim (Option-cases (lookup s.device_id h.sessions)) [
        | inl none_there ↦ absurd (ground arith)
        | inr (c, e) ↦
            let same : eqb c.ref s.ref ≡ true = ground arith in
            rw (e, unregister, same) (inr (live, refl, left))
      ]
]
