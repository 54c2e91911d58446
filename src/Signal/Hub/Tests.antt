-- ===== src/Signal/Hub/Tests.antt =====
-- The hub's theorems at a concrete history.
use icy_easy_send.Base.{ℕ, ◌≡◌, ◌⊎◌, refl, String, true, false, some, [], ◌∷◌, lookup, insert, All}
use icy_easy_send.Signal.Hub.{Session, Hub, update, new_hub, register, unregister, subscribe}
use icy_easy_send.Signal.Hub.Invariant.{IsValid, Reach, start, registers, subscribes, Reach-IsValid}
use icy_easy_send.Signal.Hub.Presence.{Allowed, Listed, are_mutual, subscribe-Allowed}
use icy_easy_send.Signal.Hub.Delivery.{Due, subscribe-Due}
use icy_easy_send.Signal.Hub.Departure.{is_current, Left, unregister_lem}

abbrev session : ℕ → String → Session
session ref d = record { ref = ref; device_id = d; public_key = []; session_id = "" }

abbrev alice : Session
alice = session 1 "alice"

abbrev bob : Session
bob = session 2 "bob"

-- Alice and Bob are connected, and Bob subscribes to Alice.
abbrev two : Hub
two = (subscribe "bob" ("alice" ∷ []) (register bob (register alice new_hub).1).1).1

two_Reach : Reach two
two_Reach = subscribes "bob" ("alice" ∷ []) (registers bob (registers alice start))

abbrev paired : Hub
paired = (subscribe "alice" ("bob" ∷ "" ∷ []) two).1

both_are_told :
    (subscribe "alice" ("bob" ∷ "" ∷ []) two).0
    ≡ update alice "bob" true ∷ update bob "alice" true ∷ []
unfolding subscribe register lookup insert
both_are_told = refl

Reach-IsValid_example : IsValid paired
Reach-IsValid_example = Reach-IsValid (subscribes "alice" ("bob" ∷ "" ∷ []) two_Reach)

subscribe-Allowed_example :
    All (Allowed paired (subscribe "alice" [] paired).1) (subscribe "alice" [] paired).0
subscribe-Allowed_example = subscribe-Allowed "alice" [] paired Reach-IsValid_example

abbrev left : Hub
left = (subscribe "alice" [] paired).1

alice_is_on : lookup "alice" paired.sessions ≡ some alice
unfolding subscribe register lookup insert
alice_is_on = refl

bob_is_on : Listed paired bob
unfolding subscribe register lookup insert
bob_is_on = refl

subscribe-Due_example :
    Due
      (are_mutual left "alice" "bob")
      (are_mutual paired "alice" "bob")
      alice
      "alice"
      bob
      (subscribe "alice" [] paired).0
subscribe-Due_example = subscribe-Due "alice" [] paired alice bob alice_is_on bob_is_on

unregister_lem_example :
    ((is_current paired alice ≡ false) × (unregister alice paired ≡ (([], false), paired)))
    ⊎ ((is_current paired alice ≡ true)
        × ((unregister alice paired).0.1 ≡ true)
        × Left paired alice bob (unregister alice paired).0.0 (unregister alice paired).1)
unregister_lem_example = unregister_lem alice bob paired Reach-IsValid_example bob_is_on

abbrev again : Session
again = session 3 "alice"

abbrev reconnected : Hub
reconnected = (register again paired).1
