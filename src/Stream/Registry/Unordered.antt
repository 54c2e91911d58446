-- ===== src/Stream/Registry/Unordered.antt =====
-- The registry as a collection without an order: the quotient of its specification by the order in
-- which Go keeps and ranges over `streams`.
use mathlib.Core.Quot
use mathlib.Core.Quot.{Quot, Quot-set}
use text.Mathlib.TextEquality.{IsScalar-prop}
use icy_easy_send.Base.{ℕ, ◌≡◌, refl, ap, ◌∙◌, List, [], ◌∷◌}
use icy_easy_send.Stream.Registry.{Registry, new_registry}
use icy_easy_send.Stream.Registry.History.{start}
use icy_easy_send.Stream.Registry.Ideal.{Ideal, view, Call, Answer, ideal}
use icy_easy_send.Stream.Registry.Order.{AreAlike, ideal-Agree}
use icy_easy_send.Stream.Registry.Refinement.{
  answers, ideal_answers, AllPermitted, registry_refines,
}

-- Views that differ in the order of the streams are one.
abbrev pub Unordered : Type 0
Unordered = Quot AreAlike

abbrev pub unordered : Registry → Unordered
unordered r = Quot.mk (view r)

Answer_set : IsSet Answer
Answer_set = hlevel IsScalar-prop

both_set : IsSet (Answer × Unordered)
both_set = hlevel (Answer_set, Quot-set)

-- A call, which cannot see the order.
pub call : Call → Unordered → Answer × Unordered
unfolding ideal
call c =
    Quot.lift both_set (λ i. let (a, j) = ideal c i in (a, Quot.mk j))
      λ i j alike. let (same, next) = ideal-Agree c i j alike in λ t. (same t, Quot.sound next t)

pub all_answers : List Call → Unordered → List Answer
unfolding call
all_answers [] u = []
all_answers (c ∷ cs) u = let (a, v) = call c u in a ∷ all_answers cs v

ideal-unordered : (cs : List Call) (i : Ideal) → ideal_answers cs i ≡ all_answers cs (Quot.mk i)
unfolding ideal_answers all_answers call
ideal-unordered [] i = refl
ideal-unordered (c ∷ cs) i = ap (λ more. (ideal c i).0 ∷ more) (ideal-unordered cs (ideal c i).1)

-- The registry is a collection without an order. There is a machine on the unordered collections of
-- streams, with their ends, on which each call is defined: there two views that differ in the order of
-- their streams are equal. On every list of calls from an empty registry, in which an id for Create was
-- never issued before and a pointer is to an issued stream, each call on the registry gets the answer
-- that this machine gives.
pub unordered_refines :
    (max ttl : ℕ) (cs : List Call)
    → AllPermitted cs (start max ttl)
    → answers cs (new_registry max ttl) ≡ all_answers cs (unordered (new_registry max ttl))
unordered_refines max ttl cs p =
    registry_refines max ttl cs p ∙ ideal-unordered cs (view (new_registry max ttl))
