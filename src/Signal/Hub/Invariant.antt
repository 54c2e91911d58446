-- ===== src/Signal/Hub/Invariant.antt =====
-- Well-formedness of the hub, and that every operation keeps it.
use icy_easy_send.Base.{
  ◌≡◌, refl, String, true, false, none, List, [], ◌∷◌, lookup, elem, eqb, ◌==◌, eq_iff, eq_refl,
  arith, HasUniqueKeys, AllEntries, insert-HasUniqueKeys, delete-HasUniqueKeys, insert-AllEntries,
  delete-AllEntries, lookup-insert, lookup-delete, Option-cases, Bool-cases, String-cases, inl, inr,
  if◌then◌else◌,
}
use icy_easy_send.Signal.Hub.{
  Session, Hub, new_hub, register, unregister, subscribe, peer_set, set_add, subs_of,
}

abbrev pub HasOwnKey : String → Session → Type 0
HasOwnKey k s = s.device_id ≡ k

-- A session is listed once and under its own device id; only a connected device has subscriptions,
-- and it never subscribes to itself or to the empty id.
pub record IsValid (h : Hub) : Type 0 where
  pub unique : HasUniqueKeys h.sessions
  pub keyed : AllEntries HasOwnKey h.sessions
  pub connected : (d : String) → lookup d h.sessions ≡ none → lookup d h.subs ≡ none
  pub others : (d : String) → (elem d (subs_of d h) ≡ false) × (elem "" (subs_of d h) ≡ false)

new_hub-IsValid : IsValid new_hub
unfolding lookup elem
new_hub-IsValid = record {
  unique = tt;
  keyed = tt;
  connected = λ d h. refl;
  others = λ d. (refl, refl);
}

pub register-IsValid : (s : Session) (h : Hub) → IsValid h → IsValid (register s h).1
unfolding register
register-IsValid s h v = record {
  unique = insert-HasUniqueKeys s.device_id s h.sessions v.unique;
  keyed = insert-AllEntries HasOwnKey s.device_id s h.sessions refl v.keyed;
  connected = λ d. ground (arith, v.connected d, lookup-insert s.device_id d s h.sessions);
  others = v.others;
}

pub unregister-IsValid : (s : Session) (h : Hub) → IsValid h → IsValid (unregister s h).1
unfolding unregister
unregister-IsValid s h v = elim (Option-cases (lookup s.device_id h.sessions)) [
  | inl e ↦ rw (e, unregister) v
  | inr (c, e) ↦ elim (Bool-cases (eqb c.ref s.ref)) [
    | inl same ↦
        rw (e, unregister, same)
          (record {
            unique = delete-HasUniqueKeys s.device_id h.sessions v.unique;
            keyed = delete-AllEntries HasOwnKey s.device_id h.sessions v.keyed;
            connected = λ d. ground (
              arith,
              v.connected d,
              lookup-delete s.device_id d h.sessions,
              lookup-delete s.device_id d h.subs,
            );
            others = λ d. ground (arith, v.others d, lookup-delete s.device_id d h.subs);
          })
    | inr other ↦ rw (e, unregister, other) v
  ]
]

pub elem-set_add :
    (k p : String) (set : List String)
    → elem k (set_add p set) ≡ (if p == k then true else elem k set)
unfolding set_add elem
elem-set_add k p set = ground (arith, eq_iff p k)

-- What a subscription set holds: the ids that were sent, but the empty one and the sender's own.
pub elem-peer_set :
    (d k : String) (peers : List String)
    → elem k (peer_set d peers)
      ≡ (if (k == "") then false else if k == d then false else elem k peers)
unfolding peer_set elem
elem-peer_set d k [] = ground arith
elem-peer_set d k (p ∷ ps) =
    let ih = elem-peer_set d k ps in
    elim (String-cases p "") [
      | inl (e, t) ↦ rw (t, ih) (ground (arith, eq_iff k "", eq_iff p k))
      | inr (n, t) ↦ elim (String-cases p d) [
        | inl (e, u) ↦ rw (t, u, ih) (ground (arith, eq_iff k d, eq_iff p k))
        | inr (m, u) ↦
            rw (t, u, elem-set_add k p (peer_set d ps), ih)
              (ground (arith, eq_iff k "", eq_iff k d, eq_iff p k))
      ]
    ]

pub subscribe-IsValid :
    (d : String) (peers : List String) (h : Hub) → IsValid h → IsValid (subscribe d peers h).1
unfolding subscribe
subscribe-IsValid d peers h v = elim (Option-cases (lookup d h.sessions)) [
  | inl e ↦ rw (e, subscribe) v
  | inr (self, e) ↦
      rw (e, subscribe)
        (record {
          unique = v.unique;
          keyed = v.keyed;
          connected = λ k.
              ground
                (arith, v.connected k, eq_iff d k, lookup-insert d k (peer_set d peers) h.subs);
          others = λ k. ground (
            arith,
            v.others k,
            eq_iff d k,
            lookup-insert d k (peer_set d peers) h.subs,
            elem-peer_set d k peers,
            elem-peer_set d "" peers,
            eq_refl "",
            eq_refl d,
          );
        })
]

-- The hubs that calls lead to from the empty one.
pub data Reach : Hub → Type 0 where
  start : Reach new_hub
  registers : {h : Hub} (s : Session) → Reach h → Reach (register s h).1
  unregisters : {h : Hub} (s : Session) → Reach h → Reach (unregister s h).1
  subscribes :
      {h : Hub} (d : String) (peers : List String) → Reach h → Reach (subscribe d peers h).1

-- After any history of calls on an empty hub: each session is listed once and under its own device
-- id, only a connected device has subscriptions, and none is to itself or to the empty id.
pub Reach-IsValid : {h : Hub} → Reach h → IsValid h
Reach-IsValid start = new_hub-IsValid
Reach-IsValid (registers {h} s r) = register-IsValid s h (Reach-IsValid r)
Reach-IsValid (unregisters {h} s r) = unregister-IsValid s h (Reach-IsValid r)
Reach-IsValid (subscribes {h} d peers r) = subscribe-IsValid d peers h (Reach-IsValid r)
