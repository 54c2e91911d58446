-- ===== src/Relay/Claims.antt =====
-- Which requests hold which side of which stream.
pub mod Claiming
use icy_easy_send.Base.{
  ℕ, ◌≡◌, ◌⊎◌, inl, inr, refl, sym, ◌∙◌, ap, String, true, false, Option, none, some, lookup, arith,
  eq_iff, eq_refl, eqb, Bool-cases, Option-cases, AllEntries-lookup,
}
use icy_easy_send.Stream.Registry.{Stream, Registry, claim_sender, claim_receiver}
use icy_easy_send.Stream.Registry.Invariant.{IsValid, HasOwnId}
use icy_easy_send.Stream.Registry.History.{System, IsSound}
use icy_easy_send.Stream.Registry.Once.{Steps-Follows}
use icy_easy_send.Relay.{
  Side, sending, receiving, other, Job, Point, outside, routed, waiting, pumping, answered, flag,
  put,
}
use icy_easy_send.Relay.Ledger.{Evolves}

-- The job of a request that is behind the switch, and of one whose handler has claimed its side.
abbrev pub job_of : Point → Option Job
job_of (routed j) = some j
job_of (waiting j) = some j
job_of (pumping j) = some j
job_of p = none

abbrev pub live_job : Point → Option Job
live_job (waiting j) = some j
live_job (pumping j) = some j
live_job p = none

-- A request that holds this side of the stream.
pub record IsHeld (requests : ℕ → Point) (x : Side) (t : Stream) : Type 0 where
  pub number : ℕ
  pub job : Job
  pub live : live_job (requests number) ≡ some job
  pub side : job.side ≡ x
  pub stream : job.stream ≡ t

-- The flags and the requests agree.
pub record IsKept (s : System) (requests : ℕ → Point) : Type 0 where
  -- A request works on a stream that was issued; its side's flag is set from its claim on, and the
  -- other one while it moves bytes.
  pub known :
      (n : ℕ) (j : Job) → job_of (requests n) ≡ some j → lookup j.stream.id s.issued ≡ some j.stream
  pub claimed :
      (n : ℕ) (j : Job)
      → live_job (requests n) ≡ some j
      → flag j.side (s.registry.ends j.stream.id) ≡ true
  pub paired :
      (n : ℕ) (j : Job)
      → requests n ≡ pumping j
      → flag (other j.side) (s.registry.ends j.stream.id) ≡ true
  -- No flag of a listed stream is set for nothing.
  pub received :
      (k : String) (t : Stream)
      → lookup k s.registry.streams ≡ some t
      → flag receiving (s.registry.ends k) ≡ true
      → IsHeld requests receiving t
  pub sent :
      (k : String) (t : Stream)
      → lookup k s.registry.streams ≡ some t
      → flag sending (s.registry.ends k) ≡ true
      → IsHeld requests sending t ⊎ (flag receiving (s.registry.ends k) ≡ true)
  -- One request for each side.
  pub alone :
      (n m : ℕ) (i j : Job)
      → live_job (requests n) ≡ some i
      → live_job (requests m) ≡ some j
      → i.side ≡ j.side
      → i.stream.id ≡ j.stream.id
      → n ≡ m

-- A flag that is set stays set.
flag-Evolves :
    (max : ℕ) (x : Side) (k : String) (t : Stream) {s u : System}
    → IsSound max s
    → Evolves s u
    → lookup k s.issued ≡ some t
    → flag x (s.registry.ends k) ≡ true
    → flag x (u.registry.ends k) ≡ true
flag-Evolves max sending k t v e known = (Steps-Follows max k t v known e.steps).sender
flag-Evolves max receiving k t v e known = (Steps-Follows max k t v known e.steps).receiver

job_of-live : (p : Point) (j : Job) → live_job p ≡ some j → job_of p ≡ some j
job_of-live p j h = ground (arith, h)

-- Calls that claim nothing.
pub Evolves-IsKept :
    (max : ℕ) {s u : System} (requests : ℕ → Point)
    → IsSound max s
    → Evolves s u
    → IsKept s requests
    → IsKept u requests
Evolves-IsKept max {s} {u} requests v e i = record {
  known = λ n j h.
      (Steps-Follows max j.stream.id j.stream v (i.known n j h) e.steps).known j.stream
        (i.known n j h);
  claimed = λ n j h.
      flag-Evolves max j.side j.stream.id j.stream v e (i.known n j (job_of-live (requests n) j h))
        (i.claimed n j h);
  paired = λ n j h.
      flag-Evolves max (other j.side) j.stream.id j.stream v e (i.known n j (ap job_of h))
        (i.paired n j h);
  received =
      λ k t at set. let (at', set') = e.quiet receiving k t at set in i.received k t at' set';
  sent = λ k t at set.
      let (at', set') = e.quiet sending k t at set in
      elim (i.sent k t at' set') [
        | inl h ↦ inl h
        | inr r ↦ inr (flag-Evolves max receiving k t v e (v.issues k t at') r)
      ];
  alone = i.alone;
}

abbrev pub IsDispensable : System → Job → Type 0
IsDispensable s j =
    (lookup j.stream.id s.registry.streams ≡ none)
    ⊎ ((j.side ≡ sending) × (flag receiving (s.registry.ends j.stream.id) ≡ true))

same-IsHeld :
    {requests later : ℕ → Point} {x : Side} {t : Stream}
    → ((m : ℕ) → live_job (later m) ≡ live_job (requests m))
    → IsHeld requests x t
    → IsHeld later x t
same-IsHeld same h = record {
  number = h.number;
  job = h.job;
  live = same h.number ∙ h.live;
  side = h.side;
  stream = h.stream;
}

module _ (s : System) (requests : ℕ → Point) (i : IsKept s requests) (n : ℕ) where
  -- Who held a side still does, unless the request was the sender's and the receiver is there.
  put-IsHeld :
      (p : Point) (x : Side) (k : String) (t : Stream)
      → ((j : Job) → live_job (requests n) ≡ some j → IsDispensable s j)
      → t.id ≡ k
      → lookup k s.registry.streams ≡ some t
      → IsHeld requests x t
      → IsHeld (put n p requests) x t
        ⊎ ((x ≡ sending) × (flag receiving (s.registry.ends k) ≡ true))
  put-IsHeld p x k t spared own at h = elim (Bool-cases (eqb n h.number)) [
    | inr apart ↦ inl (record {
      number = h.number;
      job = h.job;
      live = ground (arith, h.live, apart);
      side = h.side;
      stream = h.stream;
    })
    | inl same ↦
        let same_id : h.job.stream.id ≡ k = ap (λ (u : Stream). u.id) h.stream ∙ own in
        elim (spared h.job (ground (arith, h.live, same))) [
          | inl gone ↦ absurd (ground (arith, gone, at, same_id))
          | inr (sends, set) ↦
              inr (
                sym h.side ∙ sends,
                ap (λ a. flag receiving (s.registry.ends a)) (sym same_id) ∙ set,
              )
        ]
  ]

  -- A request that holds nothing any more, or not yet. What it held is not listed, or is the sending
  -- side of a stream that the receiver holds.
  pub settled :
      (p : Point)
      → live_job p ≡ none
      → ((j : Job) → job_of p ≡ some j → lookup j.stream.id s.issued ≡ some j.stream)
      → ((j : Job) → live_job (requests n) ≡ some j → IsDispensable s j)
      → IsValid s.registry
      → IsKept s (put n p requests)
  settled p idle known spared valid =
      let own : (k : String) (t : Stream) → lookup k s.registry.streams ≡ some t → t.id ≡ k =
        λ k t at. AllEntries-lookup HasOwnId k t s.registry.streams valid.keyed at in
      record {
        known = λ m j h. ground (arith, known j, i.known m j);
        claimed = λ m j h. ground (arith, i.claimed m j);
        paired = λ m j h. ground (arith, i.paired m j, ap live_job h);
        received = λ k t at set.
            elim (put-IsHeld p receiving k t spared (own k t at) at (i.received k t at set)) [
              | inl h ↦ h
              | inr (e, f) ↦ absurd (ground (arith, e))
            ];
        sent = λ k t at set. elim (i.sent k t at set) [
          | inr f ↦ inr f
          | inl h ↦ elim (put-IsHeld p sending k t spared (own k t at) at h) [
            | inl h' ↦ inl h'
            | inr (e, f) ↦ inr f
          ]
        ];
        alone = λ m l a b. ground (arith, i.alone m l a b);
      }

  -- A request that held its side goes on to move bytes.
  pub woken-IsKept :
      (j : Job)
      → requests n ≡ waiting j
      → flag (other j.side) (s.registry.ends j.stream.id) ≡ true
      → IsKept s (put n (pumping j) requests)
  woken-IsKept j here met =
      let same : (m : ℕ) → live_job (put n (pumping j) requests m) ≡ live_job (requests m) =
        λ m. ground (arith, here) in
      record {
        known = λ m a h. ground (arith, here, i.known m a);
        claimed = λ m a h. i.claimed m a (sym (same m) ∙ h);
        paired = λ m a h. ground (arith, met, i.paired m a);
        received = λ k t at set. same-IsHeld same (i.received k t at set);
        sent = λ k t at set. elim (i.sent k t at set) [
          | inl h ↦ inl (same-IsHeld same h)
          | inr f ↦ inr f
        ];
        alone = λ m l a b x y. i.alone m l a b (sym (same m) ∙ x) (sym (same l) ∙ y);
      }
