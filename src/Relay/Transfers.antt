-- ===== src/Relay/Transfers.antt =====
-- What each step of the relay does to the pipe of a stream, for the handlers at work on it.
use icy_easy_send.Base.{
  ℕ, ◌≡◌, ◌≢◌, ◌⊎◌, inl, inr, refl, sym, ap, subst, String, Option, none, some, List, Result, ok,
  arith, eq_iff, Result-cases,
}
use icy_easy_send.Auth.{Crypto}
use icy_easy_send.Limit.{Rate}
use icy_easy_send.Stream.Errors.{Error}
use icy_easy_send.Stream.Pipe.{Pipe}
use icy_easy_send.Stream.Registry.{
  Stream, Registry, Wake, ready, timed_out, cancelled, wait_for, create, new_id, release,
}
use icy_easy_send.Stream.Handler.{woken_sender, woken_receiver, finish_sender, finish_receiver}
use icy_easy_send.Stream.Transfer.{Ended}
use icy_easy_send.Stream.Transfer.Others.{others_only_close}
use icy_easy_send.Stream.Registry.History.{set_pipe}
use icy_easy_send.Signal.Server.{Codec}
use icy_easy_send.Signal.Server.Streams.{
  AtMostCreates, AtMostReleases, streams-dispatch, streams-teardown,
}
use icy_easy_send.Signal.Handshake.{welcomed}
use icy_easy_send.Signal.Connections as Connections
use icy_easy_send.Signal.Connections.{Move, answers, is_refused, is_welcome, is_lost, reads, ends}
use icy_easy_send.Relay.{Side, sending, receiving, Job, pumping, in_phase, begin, woken, finish}
use icy_easy_send.Relay.Ledger.Moves.{streams-enter, streams-reject_handshake}

-- What a step does to the pipe of the stream with this id.
module _ (k : String) where
  abbrev PipeEnded : Registry → Registry → Type 0
  PipeEnded r q = Ended (r.ends k).pipe (q.ends k).pipe

  pub begin-PipeEnded : (x : Side) (t : Stream) (r : Registry) → PipeEnded r (begin x t r).1
  unfolding begin
  begin-PipeEnded sending t r = (others_only_close k r).3 t
  begin-PipeEnded receiving t r = (others_only_close k r).4 t

  pub woken-PipeEnded :
      (x : Side) (t : Stream) (w : Wake) (r : Registry) → PipeEnded r (woken x t w r).1
  unfolding woken woken_sender woken_receiver wait_for
  woken-PipeEnded sending t ready r = inl refl
  woken-PipeEnded receiving t ready r = inl refl
  woken-PipeEnded sending t timed_out r = (others_only_close k r).0 t
  woken-PipeEnded receiving t timed_out r = (others_only_close k r).0 t
  woken-PipeEnded sending t (cancelled e) r = (others_only_close k r).0 t
  woken-PipeEnded receiving t (cancelled e) r = (others_only_close k r).0 t

  set_pipe-other :
      (t : Stream) (p : Pipe) (r : Registry) → t.id ≢ k → (set_pipe t p r).ends k ≡ r.ends k
  set_pipe-other t p r h = ground (arith, eq_iff t.id k)

  release-PipeEnded :
      (t : Stream) (p : Pipe) (r : Registry) → t.id ≢ k → PipeEnded r (release t (set_pipe t p r))
  release-PipeEnded t p r h =
      let q = set_pipe t p r in
      subst (λ a. Ended a.pipe ((release t q).ends k).pipe) (set_pipe-other t p r h)
        ((others_only_close k q).0 t)

  -- The end of a handler of another stream.
  pub finish-PipeEnded :
      (x : Side) (t : Stream) (written : ℕ) (e : Option Error) (r : Registry)
      → t.id ≢ k
      → PipeEnded r (finish x t written e r).1
  unfolding finish finish_sender finish_receiver
  finish-PipeEnded sending t written none r h = inl (ap (λ a. a.pipe) (set_pipe-other t _ r h))
  finish-PipeEnded sending t written (some e) r h = release-PipeEnded t _ r h
  finish-PipeEnded receiving t written none r h = release-PipeEnded t _ r h
  finish-PipeEnded receiving t written (some e) r h = release-PipeEnded t _ r h

  create-PipeEnded :
      (drawn : Result Error (List ℕ)) (now : ℕ) (owner sender receiver : String) (r : Registry)
      → ((id : String) → new_id drawn ≡ ok id → id ≢ k)
      → PipeEnded r (create drawn now owner sender receiver r).1
  unfolding create
  create-PipeEnded drawn now owner sender receiver r h = elim (Result-cases (new_id drawn)) [
    | inr (e, bad) ↦ rw (bad, create) (inl refl)
    | inl (id, good) ↦
        rw (good, create) ((others_only_close k r).5 id now owner sender receiver (h id good))
  ]

  creates-PipeEnded :
      (drawn : Result Error (List ℕ)) (now : ℕ) (r q : Registry)
      → ((id : String) → new_id drawn ≡ ok id → id ≢ k)
      → AtMostCreates drawn now r q
      → PipeEnded r q
  creates-PipeEnded drawn now r q h (inl same) = inl (ap (λ a. (a.ends k).pipe) same)
  creates-PipeEnded drawn now r q h (inr (owner, sender, receiver, same)) =
      subst (PipeEnded r) (sym same) (create-PipeEnded drawn now owner sender receiver r h)

  releases-PipeEnded : (d : String) (r q : Registry) → AtMostReleases d r q → PipeEnded r q
  releases-PipeEnded d r q (inl same) = inl (ap (λ a. (a.ends k).pipe) same)
  releases-PipeEnded d r q (inr same) = subst (PipeEnded r) (sym same) ((others_only_close k r).2 d)

  module _ (rate : Rate) (codec : Codec) (crypto : Crypto) where
    pub Move-PipeEnded :
        (drawn : Result Error (List ℕ)) {x y : Connections.System rate.Limiter}
        → ((id : String) → new_id drawn ≡ ok id → id ≢ k)
        → Move rate codec crypto drawn x y
        → PipeEnded x.world.streams y.world.streams
    unfolding welcomed
    Move-PipeEnded drawn {x} h (answers decode nonce read random ref s new good) =
        inl (ap (λ a. (a.ends k).pipe) (streams-enter s x.world))
    Move-PipeEnded drawn {x} h (is_refused ref e new) =
        inl (ap (λ a. (a.ends k).pipe) (streams-reject_handshake e x.world))
    Move-PipeEnded drawn h (is_welcome s at) = inl refl
    Move-PipeEnded drawn h (is_lost s at) = inl refl
    Move-PipeEnded drawn {x} h (reads now s frame at) =
        creates-PipeEnded drawn now _ _ h (streams-dispatch rate codec now drawn s frame x.world)
    Move-PipeEnded drawn {x} h (ends now s at) =
        releases-PipeEnded s.device_id _ _ (streams-teardown rate codec now s x.world)

pub Side-cases : (x : Side) → (x ≡ sending) ⊎ (x ≡ receiving)
Side-cases sending = inl refl
Side-cases receiving = inr refl

pub finish-ne-pumping :
    (x : Side) (j i : Job) (t : Stream) (written : ℕ) (e : Option Error) (r : Registry)
    → in_phase j (finish x t written e r).0.0 ≢ pumping i
unfolding finish finish_sender finish_receiver
finish-ne-pumping sending j i t written none r h = ground (arith, h)
finish-ne-pumping sending j i t written (some e) r h = ground (arith, h)
finish-ne-pumping receiving j i t written none r h = ground (arith, h)
finish-ne-pumping receiving j i t written (some e) r h = ground (arith, h)
