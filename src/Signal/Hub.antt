-- ===== src/Signal/Hub.antt =====
-- relay/internal/signal/hub.go: who is connected, and who wants to hear about whom.
--
-- Each method runs under the hub's mutex. A `*Session` is compared by its address, `ref`.
pub mod Presence
pub mod Delivery
pub mod Invariant
pub mod Departure
mod Tests
use icy_easy_send.Base.{
  ℕ, String, Bool, true, false, not, ◌&&◌, Option, none, some, List, [], ◌∷◌, ◌++◌, Map, lookup,
  insert, delete, or_zero, length, eqb, elem, ◌==◌, if◌then◌else◌,
}

-- The fields of Session that never change.
pub record Session : Type 0 where
  pub ref : ℕ
  pub device_id : String
  pub public_key : List ℕ
  pub session_id : String

-- A set of device ids, map[string]struct{}, is the list of its keys.
pub record Hub : Type 0 where
  pub sessions : Map Session
  pub subs : Map (List String)

abbrev pub new_hub : Hub
new_hub = record { sessions = []; subs = [] }

-- Register returns the session that was there before.
unfoldable pub register : Session → Hub → Option Session × Hub
register s h =
    (lookup s.device_id h.sessions, record h { sessions = insert s.device_id s h.sessions })

-- h.subs[d]
abbrev pub subs_of : String → Hub → List String
subs_of d h = or_zero [] (lookup d h.subs)

unfoldable pub subscribed_to : Hub → String → String → Bool
unfolding elem
subscribed_to h subscriber target = elem target (subs_of subscriber h)

-- The loop of mutualWatchersLocked.
unfoldable pub watchers_among : Hub → String → List String → List Session
unfolding subscribed_to
watchers_among h d [] = []
watchers_among h d (peer ∷ rest) =
    let more = watchers_among h d rest in
    if subscribed_to h peer d
    then elim (lookup peer h.sessions) [ none ↦ more | some s ↦ s ∷ more ]
    else more

unfoldable pub mutual_watchers : Hub → String → List Session
unfolding watchers_among
mutual_watchers h d = watchers_among h d (subs_of d h)

unfoldable pub unregister : Session → Hub → (List Session × Bool) × Hub
unfolding mutual_watchers
unregister s h = elim (lookup s.device_id h.sessions) [
  | none ↦ (([], false), h)
  | some current ↦
      if eqb current.ref s.ref
      then (let gone = record h { sessions = delete s.device_id h.sessions } in
          (
            (mutual_watchers gone s.device_id, true),
            record gone { subs = delete s.device_id gone.subs },
          ))
      else (([], false), h)
]

unfoldable pub lookup_session : String → Hub → Option Session
lookup_session d h = lookup d h.sessions

unfoldable pub public_key : String → Hub → Option (List ℕ)
public_key d h = elim (lookup d h.sessions) [ none ↦ none | some s ↦ some s.public_key ]

pub record PresenceUpdate : Type 0 where
  pub to : Session
  pub device_id : String
  pub online : Bool

abbrev pub update : Session → String → Bool → PresenceUpdate
update to device online = record { to = to; device_id = device; online = online }

-- set[peer] = struct{}{}
unfoldable pub set_add : String → List String → List String
set_add p set = if elem p set then set else p ∷ set

-- The new set: no empty id, and not the subscriber's own.
unfoldable pub peer_set : String → List String → List String
unfolding set_add
peer_set d [] = []
peer_set d (p ∷ ps) =
    let rest = peer_set d ps in if not (p == "") && not (p == d) then set_add p rest else rest

-- The loop over the new set: the notifications for the peers that are mutual now.
unfoldable pub notices : Hub → Session → String → List String → List PresenceUpdate
unfolding subscribed_to
notices h self d [] = []
notices h self d (peer ∷ rest) =
    let more = notices h self d rest in
    if subscribed_to h peer d
    then elim (lookup peer h.sessions) [
      | none ↦ update self peer false ∷ more
      | some s ↦ update self peer true ∷ update s d true ∷ more
    ]
    else more

-- stillMutual
unfoldable pub still_mutual : Hub → String → List String → List String
unfolding subscribed_to
still_mutual h d [] = []
still_mutual h d (peer ∷ rest) =
    let more = still_mutual h d rest in if subscribed_to h peer d then peer ∷ more else more

-- The loop over the peers that were mutual before.
unfoldable pub farewells : String → List String → List Session → List PresenceUpdate
farewells d still [] = []
farewells d still (w ∷ ws) =
    let more = farewells d still ws in
    if elem w.device_id still then more else update w d false ∷ more

unfoldable pub subscribe : String → List String → Hub → List PresenceUpdate × Hub
unfolding notices still_mutual farewells mutual_watchers peer_set
subscribe d peers h = elim (lookup d h.sessions) [
  | none ↦ ([], h)
  | some self ↦
      let set = peer_set d peers in
      let h' = record h { subs = insert d set h.subs } in
      (notices h' self d set ++ farewells d (still_mutual h' d set) (mutual_watchers h d), h')
]

unfoldable pub count : Hub → ℕ
count h = length h.sessions
