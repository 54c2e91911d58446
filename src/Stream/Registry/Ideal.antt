-- ===== src/Stream/Registry/Ideal.antt =====
-- What the registry promises, without its accounts: the quota is told by counting the live streams
-- again at each Create, and a sweep or a departure closes each stream by itself.
use icy_easy_send.Base.{
  ℕ, ◌+◌, ◌-◌, String, Bool, true, false, none, some, Map, lookup, insert, delete, retain, length,
  leb, if◌then◌else◌, Result, ok, err,
}
use icy_easy_send.Stream.Errors.{Error, too_many_streams, not_found}
use icy_easy_send.Stream.Registry.{
  Stream, Ends, Registry, new_ends, new_stream, set_ends, allocate, get, claim_sender,
  claim_receiver, release, sweep, release_device, close_ends,
}
use icy_easy_send.Stream.Registry.Accounts.{owned}
use icy_easy_send.Stream.Registry.Loops.{survives, stays}

pub record Ideal : Type 0 where
  pub live : Map Stream
  pub ends : String → Ends
  pub max : ℕ
  pub ttl : ℕ

-- The registry with its accounts forgotten.
abbrev pub view : Registry → Ideal
view r = record { live = r.streams; ends = r.ends; max = r.max_per_device; ttl = r.ttl }

pub data Call : Type 0 where
  creates : String → ℕ → String → String → String → Call
  gets : String → Call
  attaches_sender attaches_receiver drops : Stream → Call
  sweeps_at : ℕ → Call
  leaves : String → Call

pub data Answer : Type 0 where
  stream : Result Error Stream → Answer
  attached : Bool → Answer
  removed : ℕ → Answer
  nothing : Answer

unfoldable pub serve : Call → Registry → Answer × Registry
serve (creates id now owner sender receiver) r =
    let (out, q) = allocate id now owner sender receiver r in (stream out, q)
serve (gets id) r = (stream (get id r), r)
serve (attaches_sender s) r = let (won, q) = claim_sender s r in (attached won, q)
serve (attaches_receiver s) r = let (won, q) = claim_receiver s r in (attached won, q)
serve (drops s) r = (nothing, release s r)
serve (sweeps_at now) r = let (n, q) = sweep now r in (removed n, q)
serve (leaves d) r = (nothing, release_device d r)

-- A stream that fails the test is closed, and every other stays as it is.
abbrev pub shut : (Stream → Bool) → Ideal → String → Ends
shut keep i k = elim (lookup k i.live) [
  | none ↦ i.ends k
  | some s ↦ if keep s then i.ends k else close_ends not_found (i.ends k)
]

abbrev pub without : (Stream → Bool) → Ideal → Ideal
without keep i = record i { live = retain keep i.live; ends = shut keep i }

abbrev pub claim : String → (Ends → Bool) → (Ends → Ends) → Ideal → Answer × Ideal
claim id taken take i =
    if taken (i.ends id)
    then (attached false, i)
    else (attached true, record i { ends = set_ends id (take (i.ends id)) i.ends })

unfoldable pub ideal : Call → Ideal → Answer × Ideal
ideal (creates id now owner sender receiver) i =
    let s = new_stream id owner sender receiver (now + i.ttl) in
    if leb i.max (owned owner i.live)
    then (stream (err too_many_streams), i)
    else (stream (ok s), record i { live = insert id s i.live; ends = set_ends id new_ends i.ends })
ideal (gets id) i = (stream (elim (lookup id i.live) [ none ↦ err not_found | some s ↦ ok s ]), i)
ideal (attaches_sender s) i =
    claim s.id (λ e. e.sender_attached) (λ e. record e { sender_attached = true }) i
ideal (attaches_receiver s) i =
    claim s.id (λ e. e.receiver_attached) (λ e. record e { receiver_attached = true }) i
ideal (drops s) i = elim (lookup s.id i.live) [
  | none ↦ (nothing, i)
  | some t ↦ (
    nothing,
    record i {
      live = delete s.id i.live;
      ends = set_ends s.id (close_ends not_found (i.ends s.id)) i.ends;
    },
  )
]
ideal (sweeps_at now) i =
    let next = without (survives now i.ends) i in (removed (length i.live - length next.live), next)
ideal (leaves d) i = (nothing, without (stays d i.ends) i)
