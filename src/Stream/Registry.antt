-- ===== src/Stream/Registry.antt =====
-- relay/internal/stream/registry.go: streams, their two ends, and the per-device quota.
--
-- Each method runs under the registry's mutex or is one atomic operation, so it is one function
-- from state to state. Times are nanoseconds. A `*Stream` outlives its entry in `streams`, so what
-- its methods change (the two flags, `closeOnce`, the pipe) stands in `ends`, by stream id.
pub mod Accounts
pub mod Loops
pub mod Invariant
pub mod History
pub mod Once
pub mod Sweeping
pub mod Closing
pub mod Ideal
pub mod Refinement
pub mod Order
pub mod Unordered
mod Tests
mod OrderTests
use icy_easy_send.Base.{
  ℕ, ◌+◌, ◌-◌, String, Bool, true, false, not, ◌&&◌, ◌||◌, Option, none, some, List, [], ◌∷◌, Map,
  lookup, insert, delete, or_zero, length, ltb, leb, ◌==◌, if◌then◌else◌, Result, ok, err,
}
use icy_easy_send.Base.Hex.{hex_encode}
use icy_easy_send.Stream.Errors.{
  Error, too_many_streams, not_found, forbidden, already_attached, peer_not_attached,
}
use icy_easy_send.Stream.Pipe.{Pipe, open_pipe, close_write, close_read}
use icy_easy_send.Protocol.{role_sender, role_receiver}

-- The fields of `Stream` that never change.
pub record Stream : Type 0 where
  pub id : String
  pub sender : String
  pub receiver : String
  pub expires_at : ℕ
  pub owner : String

-- The fields of `Stream` that do. A `ready` channel is closed just when its flag is set.
pub record Ends : Type 0 where
  pub sender_attached : Bool
  pub receiver_attached : Bool
  pub closed : Bool
  pub pipe : Pipe

pub record Registry : Type 0 where
  pub streams : Map Stream
  pub per_device : Map ℕ
  pub max_per_device : ℕ
  pub ttl : ℕ
  pub ends : String → Ends

abbrev pub new_ends : Ends
new_ends = record {
  sender_attached = false;
  receiver_attached = false;
  closed = false;
  pipe = open_pipe;
}

unfoldable pub new_registry : ℕ → ℕ → Registry
new_registry max ttl = record {
  streams = [];
  per_device = [];
  max_per_device = max;
  ttl = ttl;
  ends = λ _. new_ends;
}

abbrev pub set_ends : String → Ends → (String → Ends) → String → Ends
set_ends k e ends j = if k == j then e else ends j

-- r.perDevice[d]
abbrev pub charged : String → Map ℕ → ℕ
charged d counts = or_zero 0 (lookup d counts)

-- newID: `random` is what rand.Read gave.
unfoldable pub new_id : Result Error (List ℕ) → Result Error String
unfolding hex_encode
new_id (ok raw) = ok (hex_encode raw)
new_id (err e) = err e

abbrev pub new_stream : String → String → String → String → ℕ → Stream
new_stream id owner sender receiver expires = record {
  id = id;
  sender = sender;
  receiver = receiver;
  expires_at = expires;
  owner = owner;
}

-- The part of Create behind the id, under the lock.
unfoldable pub allocate :
    String → ℕ → String → String → String → Registry → Result Error Stream × Registry
allocate id now owner sender receiver r =
    let s = new_stream id owner sender receiver (now + r.ttl) in
    if leb r.max_per_device (charged owner r.per_device) then (err too_many_streams, r) else (
      ok s,
      record r {
        streams = insert id s r.streams;
        per_device = insert owner (charged owner r.per_device + 1) r.per_device;
        ends = set_ends id new_ends r.ends;
      },
    )

unfoldable pub create :
    Result Error (List ℕ) → ℕ → String → String → String → Registry → Result Error Stream × Registry
unfolding allocate new_id
create random now owner sender receiver r = elim (new_id random) [
  | ok id ↦ allocate id now owner sender receiver r
  | err e ↦ (err e, r)
]

unfoldable pub get : String → Registry → Result Error Stream
get id r = elim (lookup id r.streams) [ none ↦ err not_found | some s ↦ ok s ]

unfoldable pub role : Stream → String → Result Error String
role s device =
    if device == s.sender
    then ok role_sender
    else if device == s.receiver
    then ok role_receiver
    else err forbidden

-- senderAttached.CompareAndSwap(false, true), and close(senderReady)
unfoldable pub claim_sender : Stream → Registry → Bool × Registry
claim_sender s r =
    let e = r.ends s.id in
    if e.sender_attached
    then (false, r)
    else (true, record r { ends = set_ends s.id (record e { sender_attached = true }) r.ends })

unfoldable pub claim_receiver : Stream → Registry → Bool × Registry
claim_receiver s r =
    let e = r.ends s.id in
    if e.receiver_attached
    then (false, r)
    else (true, record r { ends = set_ends s.id (record e { receiver_attached = true }) r.ends })

-- The case that the `select` of waitFor takes.
pub data Wake : Type 0 where
  ready timed_out : Wake
  cancelled : Error → Wake

unfoldable pub wait_for : Wake → Result Error (Unit {0})
wait_for ready = ok tt
wait_for timed_out = err peer_not_attached
wait_for (cancelled e) = err e

-- AttachSender and AttachReceiver: the claim, then the wait, during which others run.
abbrev attach : Bool × Registry → Wake → Result Error (Unit {0}) × Registry
attach (true, r) w = (wait_for w, r)
attach (false, r) w = (err already_attached, r)

unfoldable pub attach_sender : Stream → Wake → Registry → Result Error (Unit {0}) × Registry
unfolding claim_sender wait_for
attach_sender s w r = attach (claim_sender s r) w

unfoldable pub attach_receiver : Stream → Wake → Registry → Result Error (Unit {0}) × Registry
unfolding claim_receiver wait_for
attach_receiver s w r = attach (claim_receiver s r) w

-- Close, under its closeOnce.
unfoldable pub close_ends : Error → Ends → Ends
unfolding close_write close_read
close_ends e x =
    if x.closed
    then x
    else record x { closed = true; pipe = close_read (some e) (close_write (some e) x.pipe) }

unfoldable pub close : Error → Stream → (String → Ends) → String → Ends
unfolding close_ends
close e s ends = set_ends s.id (close_ends e (ends s.id)) ends

unfoldable pub close_all : Error → List Stream → (String → Ends) → String → Ends
unfolding close
close_all e [] ends = ends
close_all e (s ∷ ss) ends = close_all e ss (close e s ends)

-- `r.perDevice[d] -= n; if r.perDevice[d] <= 0 { delete(r.perDevice, d) }`
unfoldable pub refund : ℕ → String → Map ℕ → Map ℕ
refund n d counts =
    if leb (charged d counts) n then delete d counts else insert d (charged d counts - n) counts

-- Safe to call twice: a stream that is gone is left alone.
unfoldable pub release : Stream → Registry → Registry
unfolding refund close
release s r = elim (lookup s.id r.streams) [
  | none ↦ r
  | some _ ↦ record r {
    streams = delete s.id r.streams;
    per_device = refund 1 s.owner r.per_device;
    ends = close not_found s r.ends;
  }
]

-- The test of Sweep's loop, negated.
unfoldable pub is_stale : ℕ → Ends → Stream → Bool
is_stale now e s = not (ltb now s.expires_at || e.sender_attached || e.receiver_attached)

pub record Swept : Type 0 where
  pub kept : Map Stream
  pub counts : Map ℕ
  pub stale : List Stream

unfoldable pub sweep_loop : ℕ → (String → Ends) → Map Stream → Map ℕ → Swept
unfolding is_stale refund
sweep_loop now ends [] counts = record { kept = []; counts = counts; stale = [] }
sweep_loop now ends ((id, s) ∷ rest) counts =
    let drop = is_stale now (ends s.id) s in
    let out = sweep_loop now ends rest (if drop then refund 1 s.owner counts else counts) in
    if drop then record out { stale = s ∷ out.stale } else record out { kept = (id, s) ∷ out.kept }

unfoldable pub sweep : ℕ → Registry → ℕ × Registry
unfolding sweep_loop close_all
sweep now r =
    let out = sweep_loop now r.ends r.streams r.per_device in
    (
      length out.stale,
      record r {
        streams = out.kept;
        per_device = out.counts;
        ends = close_all not_found out.stale r.ends;
      },
    )

-- The tests of ReleaseDevice's loop: owned by the device, and not attached at both ends.
unfoldable pub is_idle_of : String → Ends → Stream → Bool
is_idle_of d e s = (s.owner == d) && not (e.sender_attached && e.receiver_attached)

-- What ReleaseDevice's loop keeps and what it drops.
pub record Split : Type 0 where
  pub kept : Map Stream
  pub dropped : List Stream

unfoldable pub release_loop : String → (String → Ends) → Map Stream → Split
unfolding is_idle_of
release_loop d ends [] = record { kept = []; dropped = [] }
release_loop d ends ((id, s) ∷ rest) =
    let out = release_loop d ends rest in
    if is_idle_of d (ends s.id) s
    then record out { dropped = s ∷ out.dropped }
    else record out { kept = (id, s) ∷ out.kept }

unfoldable pub release_device : String → Registry → Registry
unfolding release_loop refund close_all
release_device d r =
    let out = release_loop d r.ends r.streams in
    let released = length out.dropped in
    record r {
      streams = out.kept;
      per_device = if ltb 0 released then refund released d r.per_device else r.per_device;
      ends = close_all not_found out.dropped r.ends;
    }

unfoldable pub len : Registry → ℕ
len r = length r.streams
