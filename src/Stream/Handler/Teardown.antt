-- ===== src/Stream/Handler/Teardown.antt =====
-- Who ends a stream, and when.
use icy_easy_send.Base.{
  ◌≡◌, refl, Bool, true, false, none, some, List, lookup, lookup-delete, eq_refl, err, arith,
  String, ◌-◌, ◌==◌, if◌then◌else◌,
}
use icy_easy_send.Protocol.{code_stream_forbidden}
use icy_easy_send.Stream.Errors.{not_found, closed_pipe, already_attached}
use icy_easy_send.Stream.Registry.{
  Stream, Ends, Registry, get, release, claim_sender, claim_receiver, close, charged,
}
use icy_easy_send.Stream.Registry.Closing.{reads, writes, IsOpen, close_ends_never_eof}
use icy_easy_send.Stream.Handler.{
  Phase, waiting, pumping, finished, failure, uploaded, Event, begin_sender, begin_receiver,
  give_up, after_claim,
}

get-release : (s : Stream) (r : Registry) → get s.id (release s r) ≡ err not_found
unfolding get release
get-release s r = ground (arith, eq_refl s.id, lookup-delete s.id s.id r.streams)

abbrev pub is_listed : Stream → Registry → Bool
is_listed s r = elim (lookup s.id r.streams) [ none ↦ false | some t ↦ true ]

-- The stream is not listed any more; and where it was, its owner has one slot more to use, and every
-- other device as many as before.
abbrev pub IsFreed : Stream → Registry → Registry → Type 0
IsFreed s before after =
    (get s.id after ≡ err not_found)
    × ((d : String)
        → charged d after.per_device
          ≡ charged d before.per_device
            - (if is_listed s before then if s.owner == d then 1 else 0 else 0))

-- A handler that has failed, or that has ended on the receiving side, has freed the stream's slot. The
-- sending handler that succeeds has left the streams and the accounts as they were.
abbrev pub Released : Stream → Registry → (Phase × List Event) × Registry → Type 0
Released s before ((finished (uploaded n), events), reg) =
    (reg.streams ≡ before.streams) × (reg.per_device ≡ before.per_device)
Released s before ((finished response, events), reg) = IsFreed s before reg
Released s before ((waiting, events), reg) = Unit
Released s before ((pumping, events), reg) = Unit

-- The end of a stream that a request asks for.
pub data Half : Type 0 where
  sending receiving : Half

abbrev pub is_attached : Half → Ends → Bool
is_attached sending x = x.sender_attached
is_attached receiving x = x.receiver_attached

abbrev pub attaches : Half → Stream → Registry → (Phase × List Event) × Registry
attaches sending s reg = begin_sender s reg
attaches receiving s reg = begin_receiver s reg

attaches-refused :
    (half : Half) (s : Stream) (reg : Registry)
    → is_attached half (reg.ends s.id) ≡ true
    → attaches half s reg ≡ give_up s already_attached reg
unfolding begin_sender begin_receiver
attaches-refused sending s reg attached = rw (attached, claim_sender, after_claim) refl
attaches-refused receiving s reg attached = rw (attached, claim_receiver, after_claim) refl

-- A second request for an end that is in use, of either side, ends the transfer in flight. If the
-- stream is listed and its pipe is open, the request is answered with 403, but the stream is no longer
-- listed afterwards, and the next read and the next write of the two handlers that are moving its
-- bytes fail.
pub second_request_ends_first :
    (half : Half) (s : Stream) (reg : Registry)
    → is_attached half (reg.ends s.id) ≡ true
    → lookup s.id reg.streams ≡ some s
    → IsOpen (reg.ends s.id)
    → let ((phase, events), after) = attaches half s reg in
      (phase ≡ finished (failure 403 code_stream_forbidden "endpoint already attached"))
      × (get s.id after ≡ err not_found)
      × (reads (after.ends s.id) ≡ some closed_pipe)
      × (writes (after.ends s.id) ≡ some closed_pipe)
unfolding give_up release close
second_request_ends_first half s reg attached listed unused =
    let refused = attaches-refused half s reg attached in
    let shut = close_ends_never_eof not_found (reg.ends s.id) none none unused in
    (
      rw refused refl,
      rw refused (get-release s reg),
      rw (refused, listed, give_up, release, eq_refl s.id) shut.0,
      rw (refused, listed, give_up, release, eq_refl s.id) shut.1,
    )
