-- ===== src/Stream/Registry/Refinement.antt =====
-- The registry implements what Ideal promises, on every history of calls.
use mathlib.Core.Path.{fun_ext}
use icy_easy_send.Base.{
  ℕ, ◌≡◌, refl, ap, sym, ◌∙◌, String, Bool, none, some, List, [], ◌∷◌, Map, lookup, retain, leb,
  if◌then◌else◌, arith, eq_iff, Bool-cases, Option-cases, inl, inr, HasUniqueKeys, AllEntries,
}
use icy_easy_send.Stream.Errors.{not_found}
use icy_easy_send.Stream.Registry.{
  Stream, Ends, Registry, charged, allocate, get, claim_sender, claim_receiver, release, sweep,
  sweep_loop, release_device, release_loop, close_ends, close, close_all, refund, new_registry,
}
use icy_easy_send.Stream.Registry.Loops.{
  survives, stays, kept-sweep_loop, stale-sweep_loop, kept-release_loop,
}
use icy_easy_send.Stream.Registry.Invariant.{IsValid, HasOwnId}
use icy_easy_send.Stream.Registry.History.{
  System, issue, IsSound, Step-IsSound, allocates, claims_sender, claims_receiver, releases, sweeps,
  releases_device, start, start-IsSound,
}
use icy_easy_send.Stream.Registry.Ideal.{
  Ideal, view, Call, creates, gets, attaches_sender, attaches_receiver, drops, sweeps_at, leaves,
  Answer, removed, serve, shut, without, ideal,
}

-- The streams that fail a test.
unfoldable rejected : (Stream → Bool) → Map Stream → List Stream
rejected keep [] = []
rejected keep ((k, s) ∷ m) = if keep s then rejected keep m else s ∷ rejected keep m

stale-rejected :
    (now : ℕ) (ends : String → Ends) (m : Map Stream) (counts : Map ℕ)
    → (sweep_loop now ends m counts).stale ≡ rejected (survives now ends) m
unfolding sweep_loop rejected
stale-rejected now ends [] counts = refl
stale-rejected now ends ((k, s) ∷ m) counts =
    ground
      (arith, stale-rejected now ends m counts, stale-rejected now ends m (refund 1 s.owner counts))

dropped-rejected :
    (d : String) (ends : String → Ends) (m : Map Stream)
    → (release_loop d ends m).dropped ≡ rejected (stays d ends) m
unfolding release_loop rejected
dropped-rejected d ends [] = refl
dropped-rejected d ends ((k, s) ∷ m) = ground (arith, dropped-rejected d ends m)

-- Closing the streams of a list one after the other closes each that is in it, and no other.
close_all-rejected :
    (keep : Stream → Bool) (k : String) (m : Map Stream) (ends : String → Ends)
    → HasUniqueKeys m
    → AllEntries HasOwnId m
    → close_all not_found (rejected keep m) ends k ≡ (elim (lookup k m) [
      | none ↦ ends k
      | some s ↦ if keep s then ends k else close_ends not_found (ends k)
    ])
unfolding rejected close_all lookup close
close_all-rejected keep k [] ends u o = refl
close_all-rejected keep k ((j, s) ∷ m) ends u o = ground (
  arith,
  eq_iff j k,
  eq_iff s.id k,
  close_all-rejected keep k m ends u.1 o.1,
  close_all-rejected keep k m (close not_found s ends) u.1 o.1,
)

pub sweep-view :
    (now : ℕ) (r : Registry)
    → IsValid r
    → view (sweep now r).1 ≡ without (survives now r.ends) (view r)
unfolding sweep
sweep-view now r v =
    let out = sweep_loop now r.ends r.streams r.per_device in
    let live = kept-sweep_loop now r.ends r.streams r.per_device in
    let ends : close_all not_found out.stale r.ends ≡ shut (survives now r.ends) (view r) =
      fun_ext (λ k.
        ap (λ ss. close_all not_found ss r.ends k)
          (stale-rejected now r.ends r.streams r.per_device)
        ∙ close_all-rejected (survives now r.ends) k r.streams r.ends v.unique v.keyed) in
    rw (live, ends) refl

release_device-view :
    (d : String) (r : Registry)
    → IsValid r
    → view (release_device d r) ≡ without (stays d r.ends) (view r)
unfolding release_device
release_device-view d r v =
    let out = release_loop d r.ends r.streams in
    let live = kept-release_loop d r.ends r.streams in
    let ends : close_all not_found out.dropped r.ends ≡ shut (stays d r.ends) (view r) =
      fun_ext (λ k.
        ap (λ ss. close_all not_found ss r.ends k) (dropped-rejected d r.ends r.streams)
        ∙ close_all-rejected (stays d r.ends) k r.streams r.ends v.unique v.keyed) in
    rw (live, ends) refl

allocate-view :
    (id : String) (now : ℕ) (owner sender receiver : String) (r : Registry)
    → IsValid r
    → let c = creates id now owner sender receiver in
      ((serve c r).0 ≡ (ideal c (view r)).0) × (view (serve c r).1 ≡ (ideal c (view r)).1)
unfolding serve ideal allocate
allocate-view id now owner sender receiver r v =
    elim (Bool-cases (leb r.max_per_device (charged owner r.per_device))) [
      | inl full ↦ rw (sym (v.accounted owner), full) (refl, refl)
      | inr room ↦ rw (sym (v.accounted owner), room) (refl, refl)
    ]

-- One call: the same answer, and a registry that looks like the ideal one after it.
serve-view :
    (c : Call) (r : Registry)
    → IsValid r
    → ((serve c r).0 ≡ (ideal c (view r)).0) × (view (serve c r).1 ≡ (ideal c (view r)).1)
unfolding serve ideal get claim_sender claim_receiver release close lookup sweep retain
serve-view (creates id now owner sender receiver) r v =
    allocate-view id now owner sender receiver r v
serve-view (gets id) r v = (refl, refl)
serve-view (attaches_sender s) r v = elim (Bool-cases (r.ends s.id).sender_attached) [
  | inl e ↦ rw e (refl, refl)
  | inr e ↦ rw e (refl, refl)
]
serve-view (attaches_receiver s) r v = elim (Bool-cases (r.ends s.id).receiver_attached) [
  | inl e ↦ rw e (refl, refl)
  | inr e ↦ rw e (refl, refl)
]
serve-view (drops s) r v = elim (Option-cases (lookup s.id r.streams)) [
  | inl e ↦ rw (e, release, ideal) (refl, refl)
  | inr (t, e) ↦ rw (e, release, ideal) (refl, refl)
]
serve-view (sweeps_at now) r v =
    let n = stale-sweep_loop now r.ends r.streams r.per_device in
    (ap removed (omega (arith, n)), sweep-view now r v)
serve-view (leaves d) r v = (refl, release_device-view d r v)

-- The answers to a list of calls.
unfoldable pub answers : List Call → Registry → List Answer
answers [] r = []
answers (c ∷ cs) r = let (a, q) = serve c r in a ∷ answers cs q

unfoldable pub ideal_answers : List Call → Ideal → List Answer
ideal_answers [] i = []
ideal_answers (c ∷ cs) i = let (a, j) = ideal c i in a ∷ ideal_answers cs j

-- What a caller may ask: an id for Create was never issued, and a pointer is to an issued stream.
abbrev pub IsPermitted : Call → Map Stream → Type 0
IsPermitted (creates id now owner sender receiver) issued = lookup id issued ≡ none
IsPermitted (attaches_sender s) issued = lookup s.id issued ≡ some s
IsPermitted (attaches_receiver s) issued = lookup s.id issued ≡ some s
IsPermitted (drops s) issued = lookup s.id issued ≡ some s
IsPermitted c issued = Unit

abbrev issued_after : Call → System → Map Stream
issued_after (creates id now owner sender receiver) s =
    issue (allocate id now owner sender receiver s.registry).0 s.issued
issued_after c s = s.issued

abbrev pub after : Call → System → System
after c s = record { registry = (serve c s.registry).1; issued = issued_after c s }

-- All calls of the list are permitted in their turn.
unfoldable pub AllPermitted : List Call → System → Type 0
AllPermitted [] s = Unit
AllPermitted (c ∷ cs) s = IsPermitted c s.issued × AllPermitted cs (after c s)

after-IsSound :
    (max : ℕ) (c : Call) (s : System)
    → IsPermitted c s.issued
    → IsSound max s
    → IsSound max (after c s)
unfolding serve
after-IsSound max (creates id now owner sender receiver) s p v =
    Step-IsSound max (allocates id now owner sender receiver p) v
after-IsSound max (gets id) s p v = v
after-IsSound max (attaches_sender t) s p v = Step-IsSound max (claims_sender t p) v
after-IsSound max (attaches_receiver t) s p v = Step-IsSound max (claims_receiver t p) v
after-IsSound max (drops t) s p v = Step-IsSound max (releases t p) v
after-IsSound max (sweeps_at now) s p v = Step-IsSound max (sweeps now) v
after-IsSound max (leaves d) s p v = Step-IsSound max (releases_device d) v

pub answers-view :
    (max : ℕ) (cs : List Call) (s : System)
    → AllPermitted cs s
    → IsSound max s
    → answers cs s.registry ≡ ideal_answers cs (view s.registry)
unfolding answers ideal_answers AllPermitted
answers-view max [] s p v = refl
answers-view max (c ∷ cs) s p v =
    let (same, looks) = serve-view c s.registry v.valid in
    let rest = answers-view max cs (after c s) p.1 (after-IsSound max c s p.0 v) in
    rw (same, sym looks) (ap (λ more. (ideal c (view s.registry)).0 ∷ more) rest)

-- The registry is a refinement of its specification, which keeps no accounts: there the quota is told
-- by counting the owner's live streams at each Create, and a sweep or a departure closes exactly the
-- streams that it drops. On every list of calls from an empty registry, in which an id for Create was
-- never issued before and a pointer is to an issued stream, each call gets the answer that the
-- specification gives.
pub registry_refines :
    (max ttl : ℕ) (cs : List Call)
    → AllPermitted cs (start max ttl)
    → answers cs (new_registry max ttl) ≡ ideal_answers cs (view (new_registry max ttl))
registry_refines max ttl cs p = answers-view max cs (start max ttl) p (start-IsSound max ttl)
