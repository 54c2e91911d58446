-- ===== src/Stream/Registry/Order.antt =====
-- The order in which Go keeps or ranges over `streams` decides nothing that a caller sees.
use mathlib.Core.Path.{fun_ext}
use icy_easy_send.Base.{
  ℕ, ◌+◌, ◌-◌, ◌≡◌, refl, ap, sym, subst, ◌∙◌, String, Bool, true, Option, none, some, List, [],
  ◌∷◌, Map, lookup, insert, delete, length, leb, lookup-insert, lookup-delete, lookup-retain,
  HasUniqueKeys, insert-HasUniqueKeys, delete-HasUniqueKeys, retain-HasUniqueKeys, eq_iff,
  if◌then◌else◌, arith, Bool-cases, Option-cases, inl, inr, ok,
}
use icy_easy_send.Stream.Errors.{not_found}
use icy_easy_send.Stream.Registry.{Stream, Ends, new_stream, new_ends, set_ends, close_ends}
use icy_easy_send.Stream.Registry.Accounts.{owned, owned-delete, delete-absent}
use icy_easy_send.Stream.Registry.Loops.{survives, stays}
use icy_easy_send.Stream.Registry.History.{System, IsSound}
use icy_easy_send.Stream.Registry.Ideal.{
  Ideal, view, Call, creates, gets, attaches_sender, attaches_receiver, drops, sweeps_at, leaves,
  Answer, stream, removed, without, claim, ideal,
}
use icy_easy_send.Stream.Registry.Refinement.{answers, ideal_answers, answers-view, AllPermitted}

-- The two maps have the same entries, in whatever order.
abbrev pub SameEntries : Map Stream → Map Stream → Type 0
SameEntries m n = (k : String) → lookup k m ≡ lookup k n

length-delete :
    (k : String) (s : Stream) (m : Map Stream)
    → HasUniqueKeys m
    → lookup k m ≡ some s
    → length m ≡ 1 + length (delete k m)
unfolding lookup delete
length-delete k s [] u h = ground arith
length-delete k s ((j, t) ∷ m) u h =
    ground (arith, length-delete k s m u.1, eq_iff j k, delete-absent k m)

empty-SameEntries : (n : Map Stream) → SameEntries [] n → n ≡ []
unfolding lookup
empty-SameEntries [] h = refl
empty-SameEntries ((k, s) ∷ n) h = absurd (ground (arith, h k, eq_iff k k))

tail-SameEntries :
    (k : String) (s : Stream) (m n : Map Stream)
    → lookup k m ≡ none
    → SameEntries ((k, s) ∷ m) n
    → (lookup k n ≡ some s) × SameEntries m (delete k n)
unfolding lookup
tail-SameEntries k s m n new h =
    (ground (arith, h k, eq_iff k k), λ j. ground (arith, h j, eq_iff k j, lookup-delete k j n))

-- Maps with the same entries have as many, and each device owns as many in both.
sizes-SameEntries :
    (m n : Map Stream)
    → HasUniqueKeys m
    → HasUniqueKeys n
    → SameEntries m n
    → (length m ≡ length n) × ((d : String) → owned d m ≡ owned d n)
sizes-SameEntries [] n u w h = rw (empty-SameEntries n h) (refl, λ d. refl)
sizes-SameEntries ((k, s) ∷ m) n u w h =
    let (at, rest) = tail-SameEntries k s m n u.0 h in
    let ih = sizes-SameEntries m (delete k n) u.1 (delete-HasUniqueKeys k n w) rest in
    (
      omega (arith, ih.0, length-delete k s n w at),
      λ d. omega (arith, ih.1 d, owned-delete d k s n w at),
    )

-- Two views that differ in the order of the streams alone.
pub record AreAlike (i j : Ideal) : Type 0 where
  pub same_max : i.max ≡ j.max
  pub same_ttl : i.ttl ≡ j.ttl
  pub same_ends : i.ends ≡ j.ends
  pub same_entries : SameEntries i.live j.live
  pub unique_i : HasUniqueKeys i.live
  pub unique_j : HasUniqueKeys j.live

shut-same :
    (keep : Stream → Bool) (k : String) (o p : Option Stream) (x y : Ends)
    → o ≡ p
    → x ≡ y
    → (elim o [ none ↦ x | some s ↦ if keep s then x else close_ends not_found x ])
      ≡ (elim p [ none ↦ y | some s ↦ if keep s then y else close_ends not_found y ])
shut-same keep k o p x y e f = ground (arith, e, f)

without-AreAlike :
    (keep : Stream → Bool) (i j : Ideal) → AreAlike i j → AreAlike (without keep i) (without keep j)
without-AreAlike keep i j a = record {
  same_max = a.same_max;
  same_ttl = a.same_ttl;
  same_ends = fun_ext (λ k.
      shut-same keep k (lookup k i.live) (lookup k j.live) (i.ends k) (j.ends k) (a.same_entries k)
        (ap (λ e. e k) a.same_ends));
  same_entries = λ k. ground (
    arith,
    lookup-retain keep k i.live a.unique_i,
    lookup-retain keep k j.live a.unique_j,
    a.same_entries k,
  );
  unique_i = retain-HasUniqueKeys keep i.live a.unique_i;
  unique_j = retain-HasUniqueKeys keep j.live a.unique_j;
}

-- A Create, a Release and a claim by their effect.
insert-AreAlike :
    (id : String) (s t : Stream)
    → s ≡ t
    → (i j : Ideal) → AreAlike i j
    → AreAlike
        (record i { live = insert id s i.live; ends = set_ends id new_ends i.ends })
        (record j { live = insert id t j.live; ends = set_ends id new_ends j.ends })
insert-AreAlike id s t e i j a = record {
  same_max = a.same_max;
  same_ttl = a.same_ttl;
  same_ends = ap (set_ends id new_ends) a.same_ends;
  same_entries = λ k.
      ground (arith, e, lookup-insert id k s i.live, lookup-insert id k t j.live, a.same_entries k);
  unique_i = insert-HasUniqueKeys id s i.live a.unique_i;
  unique_j = insert-HasUniqueKeys id t j.live a.unique_j;
}

delete-AreAlike :
    (id : String) (i j : Ideal)
    → AreAlike i j
    → AreAlike
        (record i {
          live = delete id i.live;
          ends = set_ends id (close_ends not_found (i.ends id)) i.ends;
        })
        (record j {
          live = delete id j.live;
          ends = set_ends id (close_ends not_found (j.ends id)) j.ends;
        })
delete-AreAlike id i j a = record {
  same_max = a.same_max;
  same_ttl = a.same_ttl;
  same_ends = ap (λ e. set_ends id (close_ends not_found (e id)) e) a.same_ends;
  same_entries =
      λ k. ground (arith, lookup-delete id k i.live, lookup-delete id k j.live, a.same_entries k);
  unique_i = delete-HasUniqueKeys id i.live a.unique_i;
  unique_j = delete-HasUniqueKeys id j.live a.unique_j;
}

ends-AreAlike :
    (f : (String → Ends) → String → Ends) (i j : Ideal)
    → AreAlike i j
    → AreAlike (record i { ends = f i.ends }) (record j { ends = f j.ends })
ends-AreAlike f i j a = record {
  same_max = a.same_max;
  same_ttl = a.same_ttl;
  same_ends = ap f a.same_ends;
  same_entries = a.same_entries;
  unique_i = a.unique_i;
  unique_j = a.unique_j;
}

-- The same answer, and views that are alike again.
abbrev Agree : Answer × Ideal → Answer × Ideal → Type 0
Agree (a, i) (b, j) = (a ≡ b) × AreAlike i j

claim-Agree :
    (id : String) (taken : Ends → Bool) (take : Ends → Ends) (i j : Ideal)
    → AreAlike i j
    → Agree (claim id taken take i) (claim id taken take j)
claim-Agree id taken take i j a =
    let same = ap (λ e. taken (e id)) a.same_ends in
    elim (Bool-cases (taken (j.ends id))) [
      | inl won ↦ rw (same, won) (refl, a)
      | inr lost ↦ rw (same, lost) (refl, ends-AreAlike (λ e. set_ends id (take (e id)) e) i j a)
    ]

abbrev sweep_by : (Stream → Bool) → Ideal → Answer × Ideal
sweep_by keep i = (removed (length i.live - length (without keep i).live), without keep i)

sweep_by-Agree :
    (keep : Stream → Bool) (i j : Ideal) → AreAlike i j → Agree (sweep_by keep i) (sweep_by keep j)
sweep_by-Agree keep i j a =
    let after = without-AreAlike keep i j a in
    let was = sizes-SameEntries i.live j.live a.unique_i a.unique_j a.same_entries in
    let is =
      sizes-SameEntries (without keep i).live (without keep j).live after.unique_i after.unique_j
        after.same_entries in
    (ap removed (omega (arith, was.0, is.0)), after)

pub ideal-Agree : (c : Call) (i j : Ideal) → AreAlike i j → Agree (ideal c i) (ideal c j)
unfolding ideal
ideal-Agree (creates id now owner sender receiver) i j a =
    let sizes = sizes-SameEntries i.live j.live a.unique_i a.unique_j a.same_entries in
    let same : leb i.max (owned owner i.live) ≡ leb j.max (owned owner j.live) =
      rw (a.same_max, sizes.1 owner) refl in
    let made = ap (λ ttl. new_stream id owner sender receiver (now + ttl)) a.same_ttl in
    elim (Bool-cases (leb j.max (owned owner j.live))) [
      | inl full ↦ rw (same, full) (refl, a)
      | inr room ↦ rw (same, room) (ap (λ s. stream (ok s)) made, insert-AreAlike id _ _ made i j a)
    ]
ideal-Agree (gets id) i j a = rw (a.same_entries id) (refl, a)
ideal-Agree (attaches_sender s) i j a =
    claim-Agree s.id (λ e. e.sender_attached) (λ e. record e { sender_attached = true }) i j a
ideal-Agree (attaches_receiver s) i j a =
    claim-Agree s.id (λ e. e.receiver_attached) (λ e. record e { receiver_attached = true }) i j a
ideal-Agree (drops s) i j a = elim (Option-cases (lookup s.id j.live)) [
  | inl e ↦ rw (a.same_entries s.id ∙ e, e, ideal) (refl, a)
  | inr (t, e) ↦ rw (a.same_entries s.id ∙ e, e, ideal) (refl, delete-AreAlike s.id i j a)
]
ideal-Agree (sweeps_at now) i j a =
    subst (λ e. Agree (sweep_by (survives now i.ends) i) (sweep_by (survives now e) j)) a.same_ends
      (sweep_by-Agree (survives now i.ends) i j a)
ideal-Agree (leaves d) i j a = (
  refl,
  subst (λ e. AreAlike (without (stays d i.ends) i) (without (stays d e) j)) a.same_ends
      (without-AreAlike (stays d i.ends) i j a),
)

ideal_answers-same :
    (cs : List Call) (i j : Ideal) → AreAlike i j → ideal_answers cs i ≡ ideal_answers cs j
unfolding ideal_answers
ideal_answers-same [] i j a = refl
ideal_answers-same (c ∷ cs) i j a =
    let (same, next) = ideal-Agree c i j a in
    rw same
      (ap (λ more. (ideal c j).0 ∷ more) (ideal_answers-same cs (ideal c i).1 (ideal c j).1 next))

-- The order of the streams decides nothing. Let two well-formed registries, whose callers hold
-- pointers to issued streams only, have the same entries, ends, cap and lifetime, the entries in any two
-- orders, and any accounts. Then every list of calls that is permitted in both gets the same answers.
pub order_is_irrelevant :
    (max : ℕ) (cs : List Call) (x y : System)
    → IsSound max x
    → IsSound max y
    → SameEntries x.registry.streams y.registry.streams
    → x.registry.ends ≡ y.registry.ends
    → x.registry.ttl ≡ y.registry.ttl
    → AllPermitted cs x
    → AllPermitted cs y
    → answers cs x.registry ≡ answers cs y.registry
order_is_irrelevant max cs x y v w same ends ttl p q =
    answers-view max cs x p v
    ∙ (ideal_answers-same cs (view x.registry) (view y.registry) (record {
      same_max = v.cap ∙ sym w.cap;
      same_ttl = ttl;
      same_ends = ends;
      same_entries = same;
      unique_i = v.valid.unique;
      unique_j = w.valid.unique;
    })
        ∙ sym (answers-view max cs y q w))
