-- ===== src/Signal/Session/Delivery.antt =====
-- What is sent arrives, in order.
use mathlib.Core.List.{append_assoc, append-nil}
use icy_easy_send.Base.{
  ◌≡◌, ◌≤◌, refl, Bool, true, false, Option, none, some, List, [], ◌∷◌, ◌++◌, length, length-append,
  arith, ◌∙◌, sym, ap,
}
use icy_easy_send.Signal.Session.{Message, Outbox, new_outbox, close, send, write_round}

-- The messages that a Send accepted.
abbrev pub accepted_of : Message → Bool × Outbox → List Message
accepted_of m (true, o) = m ∷ []
accepted_of m (false, o) = []

abbrev pub taken_of : Option Message × Outbox → List Message
taken_of (none, o) = []
taken_of (some m, o) = m ∷ []

-- The histories of a session: the queue, the messages accepted and those taken for the socket.
pub data Ran : Outbox → List Message → List Message → Type 0 where
  start : Ran new_outbox [] []
  sends :
      {o : Outbox} {accepted taken : List Message} (m : Message)
      → Ran o accepted taken
      → Ran (send m o).1 (accepted ++ accepted_of m (send m o)) taken
  writes :
      {o : Outbox} {accepted taken : List Message} (failed : Bool)
      → Ran o accepted taken
      → Ran (write_round failed o).1 accepted (taken ++ taken_of (write_round failed o))
  closes :
      {o : Outbox} {accepted taken : List Message}
      → Ran o accepted taken
      → Ran (close o) accepted taken

send-keeps : (m : Message) (o : Outbox) → ((send m o).1.queue ≡ o.queue ++ accepted_of m (send m o))
unfolding send close
send-keeps m o = ground (arith, append-nil o.queue)

send-bounded : (m : Message) (o : Outbox) → length o.queue ≤ 32 → length (send m o).1.queue ≤ 32
unfolding send close
send-bounded m o h = ground (arith, length-append o.queue (m ∷ []))

write_round-keeps :
    (failed : Bool) (o : Outbox)
    → (o.queue ≡ taken_of (write_round failed o) ++ (write_round failed o).1.queue)
unfolding write_round close
write_round-keeps failed o = ground arith

write_round-bounded :
    (failed : Bool) (o : Outbox) → length o.queue ≤ 32 → length (write_round failed o).1.queue ≤ 32
unfolding write_round close
write_round-bounded failed o h = ground arith

-- No accepted message is lost, doubled or overtaken: in every history of a session, the messages
-- that Send accepted are those that were taken for the socket, followed by those that wait, in
-- order; and no more than 32 wait.
pub delivery_in_order :
    {o : Outbox} {accepted taken : List Message}
    → Ran o accepted taken
    → (accepted ≡ taken ++ o.queue) × (length o.queue ≤ 32)
unfolding close send
delivery_in_order start = (refl, omega arith)
delivery_in_order (sends {o} {accepted} {taken} m r) =
    let ih = delivery_in_order r in
    (
      rw (send-keeps m o, ih.0, append_assoc taken o.queue (accepted_of m (send m o))) refl,
      send-bounded m o ih.1,
    )
delivery_in_order (writes {o} {accepted} {taken} failed r) =
    let ih = delivery_in_order r in
    let out = write_round failed o in
    (
      ih.0
          ∙ (ap (λ q. taken ++ q) (write_round-keeps failed o)
              ∙ sym (append_assoc taken (taken_of out) out.1.queue)),
      write_round-bounded failed o ih.1,
    )
delivery_in_order (closes r) = delivery_in_order r
