-- ===== src/Stream/Registry/Once.antt =====
-- What happens to a stream once only: each end is claimed once, and a stream that is gone stays gone.
use icy_easy_send.Base.{
  ℕ, ◌+◌, ◌≡◌, refl, String, true, false, none, some, List, [], ◌∷◌, lookup, lookup-insert, err,
  eq_iff, eq_refl, arith, none_of_implied,
}
use icy_easy_send.Stream.Errors.{Error, not_found}
use icy_easy_send.Stream.Registry.{
  Stream, Ends, new_stream, allocate, claim_sender, claim_receiver, release, sweep, release_device,
  sweep_loop, release_loop, get, close, close_all,
}
use icy_easy_send.Stream.Registry.History.{
  System, Step, allocates, claims_sender, claims_receiver, releases, moves_pipe, sweeps,
  releases_device, Steps, here, next, IsSound, Step-IsSound, Steps-IsSound, Reach, Reach-IsSound,
  release-streams, sweep-streams, release_device-streams,
}

pub close_all-sender_attached :
    (e : Error) (ss : List Stream) (ends : String → Ends) (k : String)
    → (close_all e ss ends k).sender_attached ≡ (ends k).sender_attached
unfolding close_all
close_all-sender_attached e [] ends k = refl
close_all-sender_attached e (s ∷ ss) ends k =
    ground (arith, eq_iff s.id k, close_all-sender_attached e ss (close e s ends) k)

pub close_all-receiver_attached :
    (e : Error) (ss : List Stream) (ends : String → Ends) (k : String)
    → (close_all e ss ends k).receiver_attached ≡ (ends k).receiver_attached
unfolding close_all
close_all-receiver_attached e [] ends k = refl
close_all-receiver_attached e (s ∷ ss) ends k =
    ground (arith, eq_iff s.id k, close_all-receiver_attached e ss (close e s ends) k)

-- What is known of an issued stream in one state and in a later one.
pub record Follows (k : String) (s u : System) : Type 0 where
  pub sender :
      (s.registry.ends k).sender_attached ≡ true → (u.registry.ends k).sender_attached ≡ true
  pub receiver :
      (s.registry.ends k).receiver_attached ≡ true → (u.registry.ends k).receiver_attached ≡ true
  gone : lookup k s.registry.streams ≡ none → lookup k u.registry.streams ≡ none
  pub known : (t : Stream) → lookup k s.issued ≡ some t → lookup k u.issued ≡ some t

Step-Follows :
    (max : ℕ) (k : String) (t : Stream) {s u : System}
    → IsSound max s
    → lookup k s.issued ≡ some t
    → Step s u
    → Follows k s u
unfolding allocate claim_sender claim_receiver release sweep release_device
Step-Follows max k t {s} v old (allocates id now owner sender receiver fresh) =
    let n = new_stream id owner sender receiver (now + s.registry.ttl) in
    record {
      sender = ground (arith, eq_iff id k);
      receiver = ground (arith, eq_iff id k);
      gone = ground (arith, eq_iff id k, lookup-insert id k n s.registry.streams);
      known = λ x. ground (arith, eq_iff id k, lookup-insert id k n s.issued);
    }
Step-Follows max k t {s} v old (claims_sender x h) = record {
  sender = ground (arith, eq_iff x.id k);
  receiver = ground (arith, eq_iff x.id k);
  gone = ground arith;
  known = λ y q. q;
}
Step-Follows max k t {s} v old (claims_receiver x h) = record {
  sender = ground (arith, eq_iff x.id k);
  receiver = ground (arith, eq_iff x.id k);
  gone = ground arith;
  known = λ y q. q;
}
Step-Follows max k t {s} v old (releases x h) = record {
  sender = ground (arith, eq_iff x.id k);
  receiver = ground (arith, eq_iff x.id k);
  gone = none_of_implied _ _ (release-streams x s.registry k);
  known = λ y q. q;
}
Step-Follows max k t {s} v old (moves_pipe x p h) = record {
  sender = ground (arith, eq_iff x.id k);
  receiver = ground (arith, eq_iff x.id k);
  gone = λ y. y;
  known = λ y q. q;
}
Step-Follows max k t {s} v old (sweeps now) =
    let stale = (sweep_loop now s.registry.ends s.registry.streams s.registry.per_device).stale in
    record {
      sender = ground (arith, close_all-sender_attached not_found stale s.registry.ends k);
      receiver = ground (arith, close_all-receiver_attached not_found stale s.registry.ends k);
      gone = none_of_implied _ _ (λ y. sweep-streams now s.registry k y v.valid);
      known = λ y q. q;
    }
Step-Follows max k t {s} v old (releases_device d) =
    let dropped = (release_loop d s.registry.ends s.registry.streams).dropped in
    record {
      sender = ground (arith, close_all-sender_attached not_found dropped s.registry.ends k);
      receiver = ground (arith, close_all-receiver_attached not_found dropped s.registry.ends k);
      gone = none_of_implied _ _ (λ y. release_device-streams d s.registry k y v.valid);
      known = λ y q. q;
    }

pub Steps-Follows :
    (max : ℕ) (k : String) (t : Stream) {s u : System}
    → IsSound max s
    → lookup k s.issued ≡ some t
    → Steps s u
    → Follows k s u
Steps-Follows max k t v old here = record {
  sender = λ h. h;
  receiver = λ h. h;
  gone = λ h. h;
  known = λ x h. h;
}
Steps-Follows max k t v old (next r st) =
    let f = Steps-Follows max k t v old r in
    let g = Step-Follows max k t (Steps-IsSound max r v) (f.known t old) st in
    record {
      sender = λ h. g.sender (f.sender h);
      receiver = λ h. g.receiver (f.receiver h);
      gone = λ h. g.gone (f.gone h);
      known = λ x h. g.known x (f.known x h);
    }

-- If a claim of the sending end of a stream succeeds, every later claim of that end is refused,
-- whatever calls of anyone come between.
pub sender_claimed_once :
    (max ttl : ℕ) {s u : System} (t : Stream)
    → Reach max ttl s
    → lookup t.id s.issued ≡ some t
    → (claim_sender t s.registry).0 ≡ true
    → Steps (record s { registry = (claim_sender t s.registry).1 }) u
    → (claim_sender t u.registry).0 ≡ false
unfolding claim_sender
sender_claimed_once max ttl {s} t reached known won rest =
    let v = Step-IsSound max (claims_sender t known) (Reach-IsSound max ttl reached) in
    let f = Steps-Follows max t.id t v known rest in
    ground (arith, f.sender (ground (arith, eq_refl t.id)))

-- If a claim of the receiving end of a stream succeeds, every later claim of that end is refused,
-- whatever calls of anyone come between.
pub receiver_claimed_once :
    (max ttl : ℕ) {s u : System} (t : Stream)
    → Reach max ttl s
    → lookup t.id s.issued ≡ some t
    → (claim_receiver t s.registry).0 ≡ true
    → Steps (record s { registry = (claim_receiver t s.registry).1 }) u
    → (claim_receiver t u.registry).0 ≡ false
unfolding claim_receiver
receiver_claimed_once max ttl {s} t reached known won rest =
    let v = Step-IsSound max (claims_receiver t known) (Reach-IsSound max ttl reached) in
    let f = Steps-Follows max t.id t v known rest in
    ground (arith, f.receiver (ground (arith, eq_refl t.id)))

-- A stream that was handed out and is no longer listed is never found again: its id is a
-- capability for one use.
pub gone_for_good :
    (max ttl : ℕ) {s u : System} (t : Stream)
    → Reach max ttl s
    → lookup t.id s.issued ≡ some t
    → get t.id s.registry ≡ err not_found
    → Steps s u
    → get t.id u.registry ≡ err not_found
unfolding get
gone_for_good max ttl {s} t reached known missing rest =
    let f = Steps-Follows max t.id t (Reach-IsSound max ttl reached) known rest in
    ground (arith, f.gone (ground arith))
