-- ===== src/Stream/Registry/History.antt =====
-- Histories of calls on one registry, from an empty one, and of what the handlers do to the pipes.
use icy_easy_send.Base.{
  ℕ, ◌+◌, ◌≡◌, refl, String, none, some, [], Map, lookup, insert, lookup-insert, Result, ok, err,
  arith, Option-cases, inl, inr, lookup-delete, lookup-retain,
}
use icy_easy_send.Stream.Errors.{Error}
use icy_easy_send.Stream.Registry.{
  Stream, Registry, new_registry, new_stream, allocate, claim_sender, claim_receiver, release,
  sweep, release_device, set_ends,
}
use icy_easy_send.Stream.Pipe.{Pipe}
use icy_easy_send.Stream.Registry.Invariant.{
  IsValid, new_registry-IsValid, allocate-IsValid, claim_sender-IsValid, claim_receiver-IsValid,
  release-IsValid, sweep-IsValid, release_device-IsValid,
}
use icy_easy_send.Stream.Registry.Loops.{kept-sweep_loop, kept-release_loop, survives, stays}

-- A registry, and every stream that it has ever handed out, by id.
pub record System : Type 0 where
  pub registry : Registry
  pub issued : Map Stream

-- What the holder of a stream's pointer does to its pipe.
abbrev pub set_pipe : Stream → Pipe → Registry → Registry
set_pipe t p r = record r { ends = set_ends t.id (record (r.ends t.id) { pipe = p }) r.ends }

abbrev pub issue : Result Error Stream → Map Stream → Map Stream
issue (ok t) m = insert t.id t m
issue (err e) m = m

-- A call names a stream by the pointer that Create or Get returned: one of the issued streams.
-- The id of a new stream, 32 random bytes, is one that was never issued.
pub data Step (s : System) : System → Type 0 where
  allocates :
      (id : String) (now : ℕ) (owner sender receiver : String)
      → lookup id s.issued ≡ none
      → Step s (
          let out = allocate id now owner sender receiver s.registry in
          record { registry = out.1; issued = issue out.0 s.issued })
  claims_sender :
      (t : Stream)
      → lookup t.id s.issued ≡ some t
      → Step s (record s { registry = (claim_sender t s.registry).1 })
  claims_receiver :
      (t : Stream)
      → lookup t.id s.issued ≡ some t
      → Step s (record s { registry = (claim_receiver t s.registry).1 })
  releases :
      (t : Stream)
      → lookup t.id s.issued ≡ some t
      → Step s (record s { registry = release t s.registry })
  moves_pipe :
      (t : Stream) (p : Pipe)
      → lookup t.id s.issued ≡ some t
      → Step s (record s { registry = set_pipe t p s.registry })
  sweeps : (now : ℕ) → Step s (record s { registry = (sweep now s.registry).1 })
  releases_device : (d : String) → Step s (record s { registry = release_device d s.registry })

-- Any number of steps.
pub data Steps (s : System) : System → Type 0 where
  here : Steps s s
  next : {t u : System} → Steps s t → Step t u → Steps s u

abbrev pub start : ℕ → ℕ → System
start max ttl = record { registry = new_registry max ttl; issued = [] }

-- What a history of calls leads to from an empty registry.
abbrev pub Reach : ℕ → ℕ → System → Type 0
Reach max ttl = Steps (start max ttl)

-- The registry is well formed, and holds no stream but issued ones.
pub record IsSound (max : ℕ) (s : System) : Type 0 where
  pub cap : s.registry.max_per_device ≡ max
  pub valid : IsValid s.registry
  pub issues :
      (k : String) (t : Stream) → lookup k s.registry.streams ≡ some t → lookup k s.issued ≡ some t

allocate-issues :
    (id : String) (now : ℕ) (owner sender receiver : String) (r : Registry) (issued : Map Stream)
    → ((k : String) (t : Stream) → lookup k r.streams ≡ some t → lookup k issued ≡ some t)
    → (k : String) (t : Stream)
    → lookup k (allocate id now owner sender receiver r).1.streams ≡ some t
    → lookup k (issue (allocate id now owner sender receiver r).0 issued) ≡ some t
unfolding allocate
allocate-issues id now owner sender receiver r issued h k t =
    let s = new_stream id owner sender receiver (now + r.ttl) in
    ground (arith, h k t, lookup-insert id k s r.streams, lookup-insert id k s issued)

-- A stream with an id that was never issued is in no registry.
pub fresh_of_issued :
    (max : ℕ) (s : System) (id : String)
    → IsSound max s
    → lookup id s.issued ≡ none
    → lookup id s.registry.streams ≡ none
fresh_of_issued max s id v h = elim (Option-cases (lookup id s.registry.streams)) [
  | inl e ↦ e
  | inr (t, e) ↦ absurd (cc (v.issues id t e))
]

claim_sender-streams : (t : Stream) (r : Registry) → (claim_sender t r).1.streams ≡ r.streams
unfolding claim_sender
claim_sender-streams t r = ground arith

claim_receiver-streams : (t : Stream) (r : Registry) → (claim_receiver t r).1.streams ≡ r.streams
unfolding claim_receiver
claim_receiver-streams t r = ground arith

pub release-streams :
    (s : Stream) (r : Registry) (k : String) (t : Stream)
    → lookup k (release s r).streams ≡ some t
    → lookup k r.streams ≡ some t
unfolding release
release-streams s r k t = ground (arith, lookup-delete s.id k r.streams)

pub sweep-streams :
    (now : ℕ) (r : Registry) (k : String) (t : Stream)
    → IsValid r
    → lookup k (sweep now r).1.streams ≡ some t
    → lookup k r.streams ≡ some t
unfolding sweep
sweep-streams now r k t v = ground (
  arith,
  kept-sweep_loop now r.ends r.streams r.per_device,
  lookup-retain (survives now r.ends) k r.streams v.unique,
)

pub release_device-streams :
    (d : String) (r : Registry) (k : String) (t : Stream)
    → IsValid r
    → lookup k (release_device d r).streams ≡ some t
    → lookup k r.streams ≡ some t
unfolding release_device
release_device-streams d r k t v = ground (
  arith,
  kept-release_loop d r.ends r.streams,
  lookup-retain (stays d r.ends) k r.streams v.unique,
)

pub Step-IsSound : (max : ℕ) {s t : System} → Step s t → IsSound max s → IsSound max t
unfolding allocate claim_sender claim_receiver release sweep release_device
Step-IsSound max {s} (allocates id now owner sender receiver fresh) v = record {
  cap = ground (arith, v.cap);
  valid =
      allocate-IsValid id now owner sender receiver s.registry (fresh_of_issued max s id v fresh)
        v.valid;
  issues = allocate-issues id now owner sender receiver s.registry s.issued v.issues;
}
Step-IsSound max {s} (claims_sender t known) v = record {
  cap = ground (arith, v.cap);
  valid = claim_sender-IsValid t s.registry v.valid;
  issues = λ k u h. v.issues k u (rw claim_sender-streams at h);
}
Step-IsSound max {s} (claims_receiver t known) v = record {
  cap = ground (arith, v.cap);
  valid = claim_receiver-IsValid t s.registry v.valid;
  issues = λ k u h. v.issues k u (rw claim_receiver-streams at h);
}
Step-IsSound max {s} (releases t known) v = record {
  cap = ground (arith, v.cap);
  valid = release-IsValid t s.registry (λ u h. cc (v.issues t.id u h)) v.valid;
  issues = λ k u h. v.issues k u (release-streams t s.registry k u h);
}
Step-IsSound max {s} (moves_pipe t p known) v = record {
  cap = v.cap;
  valid = record {
    unique = v.valid.unique;
    keyed = v.valid.keyed;
    accounted = v.valid.accounted;
    no_zero = v.valid.no_zero;
    capped = v.valid.capped;
  };
  issues = v.issues;
}
Step-IsSound max {s} (sweeps now) v = record {
  cap = ground (arith, v.cap);
  valid = sweep-IsValid now s.registry v.valid;
  issues = λ k u h. v.issues k u (sweep-streams now s.registry k u v.valid h);
}
Step-IsSound max {s} (releases_device d) v = record {
  cap = ground (arith, v.cap);
  valid = release_device-IsValid d s.registry v.valid;
  issues = λ k u h. v.issues k u (release_device-streams d s.registry k u v.valid h);
}

pub start-IsSound : (max ttl : ℕ) → IsSound max (start max ttl)
unfolding new_registry
start-IsSound max ttl = record {
  cap = refl;
  valid = new_registry-IsValid max ttl;
  issues = λ k t h. h;
}

pub Steps-IsSound : (max : ℕ) {s t : System} → Steps s t → IsSound max s → IsSound max t
Steps-IsSound max here v = v
Steps-IsSound max (next r st) v = Step-IsSound max st (Steps-IsSound max r v)

-- After any history of calls on an empty registry and of changes to the pipes of its streams, whatever
-- their order: every id is listed once
-- and under its own stream, `perDevice` holds for each device exactly the number of live streams
-- that it owns and no zero entry, and no device owns more streams than the cap given at the start.
pub Reach-IsSound : (max ttl : ℕ) {s : System} → Reach max ttl s → IsSound max s
Reach-IsSound max ttl r = Steps-IsSound max r (start-IsSound max ttl)
