-- ===== src/Stream/Registry/Invariant.antt =====
-- Well-formedness of the registry, and that every operation keeps it.
use icy_easy_send.Base.{
  ℕ, ◌+◌, ◌≤◌, ◌≡◌, refl, ap, ◌∙◌, inl, inr, String, none, some, List, lookup, length, eq_iff,
  arith, Bool-cases, Option-cases, HasUniqueKeys, AllEntries, insert-HasUniqueKeys,
  delete-HasUniqueKeys, retain-HasUniqueKeys, insert-AllEntries, delete-AllEntries,
  retain-AllEntries, lookup-insert, leb, Result, ok, err,
}
use icy_easy_send.Base.Hex.{hex_encode}
use icy_easy_send.Stream.Errors.{Error}
use icy_easy_send.Stream.Registry.{
  Stream, Ends, Registry, new_stream, charged, new_registry, allocate, create, new_id, claim_sender,
  claim_receiver, release, sweep, release_device, release_loop,
}
use icy_easy_send.Stream.Registry.Accounts.{
  owned, owned-insert, owned-delete, charged-insert, charged-refund, HasNoZero, refund-HasNoZero,
}
use icy_easy_send.Stream.Registry.Loops.{
  owned-retain-le, survives, kept-sweep_loop, counts-sweep_loop, sweep_loop-HasNoZero, stays,
  kept-release_loop, dropped-release_loop,
}

abbrev pub HasOwnId : String → Stream → Type 0
HasOwnId k s = s.id ≡ k

-- `streams` has each id once, with the stream of that id; `perDevice` counts exactly the streams
-- that each device owns, keeps no account at zero, and no device is above the cap.
pub record IsValid (r : Registry) : Type 0 where
  pub unique : HasUniqueKeys r.streams
  pub keyed : AllEntries HasOwnId r.streams
  pub accounted : (d : String) → charged d r.per_device ≡ owned d r.streams
  pub no_zero : HasNoZero r.per_device
  pub capped : (d : String) → owned d r.streams ≤ r.max_per_device

pub new_registry-IsValid : (max ttl : ℕ) → IsValid (new_registry max ttl)
unfolding new_registry lookup
new_registry-IsValid max ttl = record {
  unique = tt;
  keyed = tt;
  accounted = λ d. refl;
  no_zero = λ d h. ground arith;
  capped = λ d. omega arith;
}

-- The id of a new stream is one that no live stream has.
pub allocate-IsValid :
    (id : String) (now : ℕ) (owner sender receiver : String) (r : Registry)
    → lookup id r.streams ≡ none
    → IsValid r
    → IsValid (allocate id now owner sender receiver r).1
unfolding allocate
allocate-IsValid id now owner sender receiver r fresh v =
    let s = new_stream id owner sender receiver (now + r.ttl) in
    elim (Bool-cases (leb r.max_per_device (charged owner r.per_device))) [
      | inl full ↦ rw full v
      | inr room ↦ rw room (record {
        unique = insert-HasUniqueKeys id _ r.streams v.unique;
        keyed = insert-AllEntries HasOwnId id _ r.streams refl v.keyed;
        accounted = λ d. ground (
          arith,
          charged-insert owner d (charged owner r.per_device + 1) r.per_device,
          v.accounted d,
          v.accounted owner,
          eq_iff owner d,
          owned-insert d id s r.streams fresh,
        );
        no_zero = λ d. ground (
          arith,
          v.no_zero d,
          lookup-insert owner d (charged owner r.per_device + 1) r.per_device,
        );
        capped = λ d. ground (
          arith,
          v.capped d,
          v.accounted owner,
          eq_iff owner d,
          owned-insert d id s r.streams fresh,
        );
      })
    ]

-- What changes the ends alone keeps the books.
same_books : {r : Registry} {e : String → Ends} → IsValid r → IsValid (record r { ends = e })
same_books v = record {
  unique = v.unique;
  keyed = v.keyed;
  accounted = v.accounted;
  no_zero = v.no_zero;
  capped = v.capped;
}

pub create-IsValid :
    (random : Result Error (List ℕ)) (now : ℕ) (owner sender receiver : String) (r : Registry)
    → ((id : String) → new_id random ≡ ok id → lookup id r.streams ≡ none)
    → IsValid r
    → IsValid (create random now owner sender receiver r).1
unfolding create
create-IsValid (ok raw) now owner sender receiver r fresh v =
    allocate-IsValid (hex_encode raw) now owner sender receiver r (fresh (hex_encode raw) refl) v
create-IsValid (err e) now owner sender receiver r fresh v = v

pub claim_sender-IsValid : (s : Stream) (r : Registry) → IsValid r → IsValid (claim_sender s r).1
unfolding claim_sender
claim_sender-IsValid s r v = elim (Bool-cases (r.ends s.id).sender_attached) [
  | inl e ↦ rw e v
  | inr e ↦ rw e (same_books v)
]

pub claim_receiver-IsValid :
    (s : Stream) (r : Registry) → IsValid r → IsValid (claim_receiver s r).1
unfolding claim_receiver
claim_receiver-IsValid s r v = elim (Bool-cases (r.ends s.id).receiver_attached) [
  | inl e ↦ rw e v
  | inr e ↦ rw e (same_books v)
]

-- The pointer is to the stream that the registry has under its id, if it has one.
abbrev pub IsOurs : Stream → Registry → Type 0
IsOurs s r = (t : Stream) → lookup s.id r.streams ≡ some t → t ≡ s

pub release-IsValid : (s : Stream) (r : Registry) → IsOurs s r → IsValid r → IsValid (release s r)
unfolding release
release-IsValid s r ours v = elim (Option-cases (lookup s.id r.streams)) [
  | inl gone ↦ rw (gone, release) v
  | inr (t, found) ↦
      let found' : lookup s.id r.streams ≡ some s = found ∙ ap some (ours t found) in
      rw (found, release)
        (record {
          unique = delete-HasUniqueKeys s.id r.streams v.unique;
          keyed = delete-AllEntries HasOwnId s.id r.streams v.keyed;
          accounted = λ d. ground (
            arith,
            charged-refund 1 s.owner d r.per_device,
            v.accounted d,
            eq_iff s.owner d,
            owned-delete d s.id s r.streams v.unique found',
          );
          no_zero = refund-HasNoZero 1 s.owner r.per_device v.no_zero;
          capped = λ d. ground (arith, v.capped d, owned-delete d s.id s r.streams v.unique found');
        })
]

pub sweep-IsValid : (now : ℕ) (r : Registry) → IsValid r → IsValid (sweep now r).1
unfolding sweep
sweep-IsValid now r v =
    let p = survives now r.ends in
    rw (kept-sweep_loop now r.ends r.streams r.per_device) (record {
      unique = retain-HasUniqueKeys p r.streams v.unique;
      keyed = retain-AllEntries HasOwnId p r.streams v.keyed;
      accounted = λ d. omega (
        arith,
        v.accounted d,
        counts-sweep_loop now r.ends d r.streams r.per_device (λ j. omega (arith, v.accounted j)),
      );
      no_zero = sweep_loop-HasNoZero now r.ends r.streams r.per_device v.no_zero;
      capped = λ d. omega (arith, v.capped d, owned-retain-le p d r.streams);
    })

pub release_device-IsValid : (d : String) (r : Registry) → IsValid r → IsValid (release_device d r)
unfolding release_device
release_device-IsValid d r v =
    let p = stays d r.ends in
    let n = length (release_loop d r.ends r.streams).dropped in
    rw (kept-release_loop d r.ends r.streams) (record {
      unique = retain-HasUniqueKeys p r.streams v.unique;
      keyed = retain-AllEntries HasOwnId p r.streams v.keyed;
      accounted = λ j. ground (
        arith,
        v.accounted j,
        eq_iff d j,
        charged-refund n d j r.per_device,
        dropped-release_loop d r.ends j r.streams,
      );
      no_zero = λ j. ground (arith, v.no_zero j, refund-HasNoZero n d r.per_device v.no_zero j);
      capped = λ j. omega (arith, v.capped j, owned-retain-le p j r.streams);
    })
