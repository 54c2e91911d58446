-- ===== src/Signal/Hub/Presence.antt =====
-- Presence is told only between devices that subscribe to each other, and then to all of them.
use icy_easy_send.Base.{
  ◌≡◌, ◌⊎◌, inl, inr, refl, sym, ◌∙◌, subst, String, Bool, true, false, ◌&&◌, none, some, List, [],
  ◌∷◌, ◌++◌, lookup, insert, elem, eq_iff, eq_refl, arith, All, All-append, AllEntries,
  AllEntries-lookup, lookup-insert, Option-cases, Bool-cases,
}
use icy_easy_send.Signal.Hub.{
  Session, Hub, PresenceUpdate, subscribed_to, subs_of, mutual_watchers, watchers_among, notices,
  still_mutual, farewells, subscribe, peer_set,
}
use icy_easy_send.Signal.Hub.Invariant.{IsValid, HasOwnKey, subscribe-IsValid}

-- Each of the two devices subscribes to the other.
abbrev pub are_mutual : Hub → String → String → Bool
are_mutual h a b = subscribed_to h a b && subscribed_to h b a

abbrev pub is_online : Hub → String → Bool
is_online h d = elim (lookup d h.sessions) [ none ↦ false | some s ↦ true ]

abbrev pub Listed : Hub → Session → Type 0
Listed h s = lookup s.device_id h.sessions ≡ some s

-- What a notification may say, from a hub to the next: to a connected device, the true state of a
-- device that it is mutual with; or that a device is gone which it was mutual with and no longer is.
abbrev pub Allowed : Hub → Hub → PresenceUpdate → Type 0
Allowed h h' u =
    Listed h' u.to
    × (((are_mutual h' u.to.device_id u.device_id ≡ true) × (u.online ≡ is_online h' u.device_id))
        ⊎ ((are_mutual h u.to.device_id u.device_id ≡ true)
            × (are_mutual h' u.to.device_id u.device_id ≡ false)
            × (u.online ≡ false)))

-- A session found under a key is listed under its own id, which is that key.
pub own_key :
    (h : Hub) (k : String) (s : Session)
    → AllEntries HasOwnKey h.sessions
    → lookup k h.sessions ≡ some s
    → s.device_id ≡ k
own_key h k s v e = AllEntries-lookup HasOwnKey k s h.sessions v e

pub own_key-Listed :
    (h : Hub) (k : String) (s : Session)
    → AllEntries HasOwnKey h.sessions
    → lookup k h.sessions ≡ some s
    → Listed h s
own_key-Listed h k s v e = subst (λ j. lookup j h.sessions ≡ some s) (sym (own_key h k s v e)) e

module _ (h h' : Hub) (v : IsValid h') (self : Session) (listed : Listed h' self) where
  notices-Allowed :
      (set : List String)
      → ((p : String) → elem p set ≡ true → subscribed_to h' self.device_id p ≡ true)
      → All (Allowed h h') (notices h' self self.device_id set)
  unfolding notices elem
  notices-Allowed [] sub = tt
  notices-Allowed (p ∷ ps) sub =
      let rest = notices-Allowed ps (λ q m. sub q (ground arith)) in
      let here : subscribed_to h' self.device_id p ≡ true = sub p (ground (arith, eq_refl p)) in
      elim (Bool-cases (subscribed_to h' p self.device_id)) [
        | inr other ↦ rw other rest
        | inl back ↦ elim (Option-cases (lookup p h'.sessions)) [
          | inl off ↦ rw (back, off, notices) ((listed, inl (ground arith, ground arith)), rest)
          | inr (s, on) ↦
              let key : s.device_id ≡ p = own_key h' p s v.keyed on in
              rw (back, on, notices)
                (
                  (listed, inl (ground arith, ground arith)),
                  (
                    (own_key-Listed h' p s v.keyed on, inl (rw key (ground arith), ground arith)),
                    rest,
                  ),
                )
        ]
      ]

pub elem-still_mutual :
    (h : Hub) (d k : String) (set : List String)
    → elem k (still_mutual h d set) ≡ (elem k set && subscribed_to h k d)
unfolding still_mutual elem
elem-still_mutual h d k [] = refl
elem-still_mutual h d k (p ∷ ps) = ground (arith, elem-still_mutual h d k ps, eq_iff p k)

-- A watcher is a connected session of a device that is mutual with this one.
abbrev pub Watches : Hub → String → Session → Type 0
Watches h d w = Listed h w × (are_mutual h w.device_id d ≡ true)

watchers_among-Watches :
    (h : Hub) (d : String) (set : List String)
    → AllEntries HasOwnKey h.sessions
    → ((p : String) → elem p set ≡ true → subscribed_to h d p ≡ true)
    → All (Watches h d) (watchers_among h d set)
unfolding watchers_among elem
watchers_among-Watches h d [] v sub = tt
watchers_among-Watches h d (p ∷ ps) v sub =
    let rest = watchers_among-Watches h d ps v (λ q m. sub q (ground arith)) in
    let here : subscribed_to h d p ≡ true = sub p (ground (arith, eq_refl p)) in
    elim (Bool-cases (subscribed_to h p d)) [
      | inr other ↦ rw other rest
      | inl back ↦ elim (Option-cases (lookup p h.sessions)) [
        | inl off ↦ rw (back, off, watchers_among) rest
        | inr (s, on) ↦
            rw (back, on, watchers_among)
              ((own_key-Listed h p s v on, rw (own_key h p s v on) (ground arith)), rest)
      ]
    ]

pub mutual_watchers-Watches :
    (h : Hub) (d : String)
    → AllEntries HasOwnKey h.sessions
    → All (Watches h d) (mutual_watchers h d)
unfolding mutual_watchers subscribed_to
mutual_watchers-Watches h d v = watchers_among-Watches h d (subs_of d h) v (λ p m. m)

farewells-Allowed :
    (h h' : Hub) (d : String) (still : List String) (ws : List Session)
    → h'.sessions ≡ h.sessions
    → ((k : String) → elem k still ≡ are_mutual h' d k)
    → All (Watches h d) ws
    → All (Allowed h h') (farewells d still ws)
unfolding farewells
farewells-Allowed h h' d still [] same test ws = tt
farewells-Allowed h h' d still (w ∷ ws) same test a =
    let rest = farewells-Allowed h h' d still ws same test a.1 in
    elim (Bool-cases (elem w.device_id still)) [
      | inl stays ↦ rw stays rest
      | inr gone ↦ rw gone (
        (
          ground (arith, a.0.0, same),
          inr (ground (arith, a.0.1), ground (arith, test w.device_id), refl),
        ),
        rest,
      )
    ]

-- The hub with the subscriptions of one device replaced.
abbrev pub with_set : String → List String → Hub → Hub
with_set d set h = record h { subs = insert d set h.subs }

pub subscribed_to-with_set :
    (d p : String) (set : List String) (h : Hub) → subscribed_to (with_set d set h) d p ≡ elem p set
unfolding subscribed_to
subscribed_to-with_set d p set h = rw (lookup-insert d d set h.subs, eq_refl d)

pub subscribe-some :
    (d : String) (peers : List String) (h : Hub) (self : Session)
    → lookup d h.sessions ≡ some self
    → let set = peer_set d peers in
      let h' = with_set d set h in
      subscribe d peers h
      ≡ (notices h' self d set ++ farewells d (still_mutual h' d set) (mutual_watchers h d), h')
unfolding subscribe
subscribe-some d peers h self e = rw (e, subscribe)

-- Whatever a device subscribes to, the notifications that follow say nothing but this, each to a
-- connected device: the true state of a device that it is now mutual with, or that a device is
-- gone which it was mutual with before and is no longer.
pub subscribe-Allowed :
    (d : String) (peers : List String) (h : Hub)
    → IsValid h
    → All (Allowed h (subscribe d peers h).1) (subscribe d peers h).0
subscribe-Allowed d peers h v = elim (Option-cases (lookup d h.sessions)) [
  | inl e ↦ unfold subscribe in rw (e, subscribe) tt
  | inr (self, e) ↦
      let set = peer_set d peers in
      let h' = with_set d set h in
      let run = subscribe-some d peers h self e in
      let v' : IsValid h' =
        subst (λ (p : List PresenceUpdate × Hub). IsValid p.1) run
          (subscribe-IsValid d peers h v) in
      let key = own_key h d self v.keyed e in
      let told : All (Allowed h h') (notices h' self d set) =
        subst (λ k. All (Allowed h h') (notices h' self k set)) key
          (notices-Allowed h h' v' self (own_key-Listed h d self v.keyed e) set
            (λ p m. rw key (subscribed_to-with_set d p set h ∙ m))) in
      let gone =
        farewells-Allowed h h' d (still_mutual h' d set) (mutual_watchers h d) refl
          (λ k. elem-still_mutual h' d k set ∙ rw (subscribed_to-with_set d k set h))
          (mutual_watchers-Watches h d v.keyed) in
      subst (λ (p : List PresenceUpdate × Hub). All (Allowed h p.1) p.0) (sym run)
        (All-append (Allowed h h') (notices h' self d set) _ told gone)
]
