-- ===== src/Signal/Hub/Delivery.antt =====
-- Everybody who is due a notification gets one.
use icy_easy_send.Base.{
  ◌≡◌, ◌⊎◌, inl, inr, refl, ap, ◌∙◌, String, Bool, true, false, some, List, [], ◌∷◌, ◌++◌, lookup,
  elem, ◌==◌, eq_iff, arith, Option-cases, Bool-cases,
}
use icy_easy_send.Signal.Hub.{
  Session, Hub, PresenceUpdate, update, subscribed_to, subs_of, mutual_watchers, watchers_among,
  notices, still_mutual, farewells, subscribe, peer_set,
}
use icy_easy_send.Signal.Hub.Presence.{
  are_mutual, Listed, with_set, subscribed_to-with_set, subscribe-some, elem-still_mutual,
}

-- The list holds the element.
abbrev pub Has : {A : Type 0} → A → List A → Type 0
Has a [] = ⊥
Has a (x ∷ xs) = (x ≡ a) ⊎ Has a xs

Has-append_left : {A : Type 0} (a : A) (xs ys : List A) → Has a xs → Has a (xs ++ ys)
Has-append_left a [] ys h = absurd h
Has-append_left a (x ∷ xs) ys (inl e) = inl e
Has-append_left a (x ∷ xs) ys (inr h) = inr (Has-append_left a xs ys h)

Has-append_right : {A : Type 0} (a : A) (xs ys : List A) → Has a ys → Has a (xs ++ ys)
Has-append_right a [] ys h = h
Has-append_right a (x ∷ xs) ys h = inr (Has-append_right a xs ys h)

-- Both sides of a mutual pair are told that the other is there.
notices-Has :
    (h : Hub) (self w : Session) (d p : String) (set : List String)
    → lookup p h.sessions ≡ some w
    → elem p set ≡ true
    → subscribed_to h p d ≡ true
    → Has (update self p true) (notices h self d set) × Has (update w d true) (notices h self d set)
unfolding notices elem
notices-Has h self w d p [] on m back = absurd (ground arith)
notices-Has h self w d p (q ∷ qs) on m back = elim (Bool-cases (q == p)) [
  | inl here ↦
      let e : q ≡ p = (eq_iff q p).0 here in
      rw (e, back, on) (inl (ap (λ k. update self k true) e), inr (inl refl))
  | inr there ↦
      let ih = notices-Has h self w d p qs on (ground arith) back in
      elim (Bool-cases (subscribed_to h q d)) [
        | inr other ↦ rw other ih
        | inl mine ↦ elim (Option-cases (lookup q h.sessions)) [
          | inl off ↦ rw (mine, off, notices) (inr ih.0, inr ih.1)
          | inr (s, up) ↦ rw (mine, up, notices) (inr (inr ih.0), inr (inr ih.1))
        ]
      ]
]

watchers_among-Has :
    (h : Hub) (w : Session) (d p : String) (set : List String)
    → lookup p h.sessions ≡ some w
    → elem p set ≡ true
    → subscribed_to h p d ≡ true
    → Has w (watchers_among h d set)
unfolding watchers_among elem
watchers_among-Has h w d p [] on m back = absurd (ground arith)
watchers_among-Has h w d p (q ∷ qs) on m back = elim (Bool-cases (q == p)) [
  | inl here ↦ let e : q ≡ p = (eq_iff q p).0 here in rw (e, back, on) (inl refl)
  | inr there ↦
      let ih = watchers_among-Has h w d p qs on (ground arith) back in
      elim (Bool-cases (subscribed_to h q d)) [
        | inr other ↦ rw other ih
        | inl mine ↦ elim (Option-cases (lookup q h.sessions)) [
          | inl off ↦ rw (mine, off, watchers_among) ih
          | inr (s, up) ↦ rw (mine, up, watchers_among) (inr ih)
        ]
      ]
]

pub mutual_watchers-Has :
    (h : Hub) (w : Session) (d : String)
    → Listed h w
    → are_mutual h d w.device_id ≡ true
    → Has w (mutual_watchers h d)
unfolding mutual_watchers
mutual_watchers-Has h w d on m =
    watchers_among-Has h w d w.device_id (subs_of d h) on (unfold subscribed_to in ground arith)
      (ground arith)

farewells-Has :
    (d : String) (still : List String) (w : Session) (ws : List Session)
    → Has w ws
    → elem w.device_id still ≡ false
    → Has (update w d false) (farewells d still ws)
unfolding farewells
farewells-Has d still w [] m gone = absurd m
farewells-Has d still w (x ∷ xs) (inl e) gone = rw (e, gone) (inl refl)
farewells-Has d still w (x ∷ xs) (inr m) gone = elim (Bool-cases (elem x.device_id still)) [
  | inl stays ↦ rw stays (farewells-Has d still w xs m gone)
  | inr goes ↦ rw goes (inr (farewells-Has d still w xs m gone))
]

-- What is due between the subscriber and a connected device, by whether the two are mutual now, and
-- whether they were: each is told that the other is online, or the former watcher that the
-- subscriber is gone.
abbrev pub Due : Bool → Bool → Session → String → Session → List PresenceUpdate → Type 0
Due true before self d w us = Has (update self w.device_id true) us × Has (update w d true) us
Due false true self d w us = Has (update w d false) us
Due false false self d w us = Unit

-- After a subscription every connected device has what is due to it and to the subscriber about it:
-- if the two are mutual now, each is told that the other is online; if they were mutual and no
-- longer are, that device is told that the subscriber is gone.
pub subscribe-Due :
    (d : String) (peers : List String) (h : Hub) (self w : Session)
    → lookup d h.sessions ≡ some self
    → Listed h w
    → let (us, h') = subscribe d peers h in
      Due (are_mutual h' d w.device_id) (are_mutual h d w.device_id) self d w us
subscribe-Due d peers h self w on listed =
    let set = peer_set d peers in
    let h' = with_set d set h in
    let told = notices h' self d set in
    let gone = farewells d (still_mutual h' d set) (mutual_watchers h d) in
    let sub = subscribed_to-with_set d w.device_id set h in
    rw (subscribe-some d peers h self on) (elim (Bool-cases (are_mutual h' d w.device_id)) [
      | inl now ↦
          let (a, b) =
            notices-Has h' self w d w.device_id set listed (ground (arith, sub)) (ground arith) in
          rw now (Has-append_left _ told gone a, Has-append_left _ told gone b)
      | inr not_now ↦ elim (Bool-cases (are_mutual h d w.device_id)) [
        | inl before ↦
            rw (not_now, before)
              (Has-append_right _ told gone (
                farewells-Has d (still_mutual h' d set) w (mutual_watchers h d)
                  (mutual_watchers-Has h w d listed before)
                  (elem-still_mutual h' d w.device_id set ∙ ground (arith, sub))))
        | inr never ↦ rw (not_now, never) tt
      ]
    ])
