-- ===== src/Stream/Registry/OrderTests.antt =====
-- The registry against its specification, and in two orders, at concrete calls.
use icy_easy_send.Base.{◌≡◌, refl, true, [], ◌∷◌, lookup, insert, delete, ok, err}
use icy_easy_send.Stream.Errors.{too_many_streams}
use icy_easy_send.Stream.Registry.{
  Stream, new_registry, new_stream, allocate, claim_sender, release_device,
}
use icy_easy_send.Stream.Registry.History.{System, allocates, here, next, IsSound, Reach-IsSound}
use icy_easy_send.Stream.Registry.Ideal.{
  Call, creates, attaches_sender, leaves, stream, attached, nothing, serve,
}
use icy_easy_send.Stream.Registry.Unordered.{all_answers, unordered, unordered_refines}
use icy_easy_send.Stream.Registry.Refinement.{answers, AllPermitted}
use icy_easy_send.Stream.Registry.History.{start}
use icy_easy_send.Base.{List}
use mathlib.Core.Path.{fun_ext}
use icy_easy_send.Base.{arith}
use icy_easy_send.Base.{String-cases, inl, inr, subst}
use icy_easy_send.Stream.Registry.Order.{SameEntries, order_is_irrelevant}

-- Stream "s1", from alice to bob, made at time 5.
abbrev first : Stream
first = new_stream "s1" "alice" "alice" "bob" 35

abbrev one : System
one = record {
  registry = (allocate "s1" 5 "alice" "alice" "bob" (new_registry 2 30)).1;
  issued = insert "s1" first [];
}

-- With a cap of two, the third stream is refused until the device has left.
abbrev calls : List Call
calls =
    creates "s1" 5 "alice" "alice" "bob"
    ∷ attaches_sender first
    ∷ creates "s2" 5 "alice" "bob" "alice"
    ∷ creates "s3" 5 "alice" "alice" "bob"
    ∷ leaves "alice"
    ∷ creates "s3" 6 "alice" "alice" "bob"
    ∷ []

calls_are_permitted : AllPermitted calls (start 2 30)
unfolding AllPermitted lookup serve allocate new_registry insert claim_sender release_device
calls_are_permitted = (refl, (refl, (refl, (refl, (tt, (refl, tt))))))

unordered_refines_example :
    answers calls (new_registry 2 30) ≡ all_answers calls (unordered (new_registry 2 30))
unordered_refines_example = unordered_refines 2 30 calls calls_are_permitted

third_is_refused :
    answers calls (new_registry 2 30)
    ≡ stream (ok first)
      ∷ attached true
      ∷ stream (ok (new_stream "s2" "alice" "bob" "alice" 35))
      ∷ stream (err too_many_streams)
      ∷ nothing
      ∷ stream (ok (new_stream "s3" "alice" "alice" "bob" 36))
      ∷ []
unfolding answers serve allocate new_registry lookup insert claim_sender release_device delete
third_is_refused = refl

-- The same two streams in two orders.
abbrev second : Stream
second = new_stream "s2" "alice" "bob" "alice" 35

abbrev one_way : System
one_way = record {
  registry = (allocate "s2" 5 "alice" "bob" "alice" one.registry).1;
  issued = insert "s2" second one.issued;
}

abbrev other_way : System
other_way = record {
  registry =
      (allocate "s1" 5 "alice" "alice" "bob"
        (allocate "s2" 5 "alice" "bob" "alice" (new_registry 2 30)).1).1;
  issued = insert "s1" first (insert "s2" second []);
}

one_way-IsSound : IsSound 2 one_way
unfolding lookup allocate new_registry insert
one_way-IsSound = Reach-IsSound 2 30 (
    next (next here (allocates "s1" 5 "alice" "alice" "bob" refl))
      (allocates "s2" 5 "alice" "bob" "alice" refl))

other_way-IsSound : IsSound 2 other_way
unfolding lookup allocate new_registry insert
other_way-IsSound = Reach-IsSound 2 30 (
    next (next here (allocates "s2" 5 "alice" "bob" "alice" refl))
      (allocates "s1" 5 "alice" "alice" "bob" refl))

same_entries : SameEntries one_way.registry.streams other_way.registry.streams
unfolding lookup allocate new_registry insert
same_entries k = elim (String-cases "s1" k) [
  | inl (e, t) ↦
      subst (λ j. lookup j one_way.registry.streams ≡ lookup j other_way.registry.streams) e refl
  | inr (n, t) ↦ ground (arith, t)
]

same_ends : one_way.registry.ends ≡ other_way.registry.ends
unfolding lookup allocate new_registry
same_ends = fun_ext (λ k. ground arith)

same_ttl : one_way.registry.ttl ≡ other_way.registry.ttl
unfolding allocate new_registry lookup insert
same_ttl = refl

abbrev more_calls : List Call
more_calls = attaches_sender first ∷ leaves "alice" ∷ creates "s3" 6 "alice" "alice" "bob" ∷ []

permitted_one_way : AllPermitted more_calls one_way
unfolding AllPermitted lookup serve allocate new_registry insert claim_sender release_device
permitted_one_way = (refl, (tt, (refl, tt)))

permitted_other_way : AllPermitted more_calls other_way
unfolding AllPermitted lookup serve allocate new_registry insert claim_sender release_device
permitted_other_way = (refl, (tt, (refl, tt)))

order_is_irrelevant_example :
    answers more_calls one_way.registry ≡ answers more_calls other_way.registry
order_is_irrelevant_example =
    order_is_irrelevant 2 more_calls one_way other_way one_way-IsSound other_way-IsSound
      same_entries same_ends same_ttl permitted_one_way permitted_other_way
