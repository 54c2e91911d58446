-- ===== src/Stream/Transfer.antt =====
-- relay/internal/stream/handler.go: serveSender and serveReceiver at work on one stream, in every
-- interleaving, with `io.Pipe` between them.
--
-- `Write` on the pipe hands the bytes of its chunk to reads until none is left or a half is closed;
-- a read takes what is there, up to the size of its buffer. The requests of other devices, sweeps and
-- departures run in between (`others`). The rest of the code moves the state by `pump_round`,
-- `finish_sender` and `finish_receiver`, each of which runs as one step.
pub mod Bytes
pub mod Ends
pub mod Sending
pub mod Receiving
pub mod Complete
pub mod Work
pub mod Ending
pub mod Liveness
pub mod Others
pub mod Rendezvous
mod Tests
use icy_easy_send.Base.{
  ℕ, ◌+◌, ◌-◌, ◌*◌, ◌≡◌, ◌≢◌, ◌⊎◌, String, Bool, true, false, not, ◌&&◌, Option, none, some, List,
  [], ◌∷◌, ◌++◌, length, ltb,
}
use icy_easy_send.Stream.Errors.{Error, eof, not_found}
use icy_easy_send.Stream.Pipe.{Pipe, close_write, close_read, read_outcome, write_outcome}
use icy_easy_send.Stream.Registry.{Stream, Registry}
use icy_easy_send.Stream.Handler.{Phase, pumping, finished, finish_sender, finish_receiver}
use icy_easy_send.Stream.Handler.Pump.{
  Round, Progress, Outcome, running, done, pump_round, is_empty,
}

abbrev pub copy_buffer_size : ℕ
copy_buffer_size = 32 * 1024

-- The first bytes of a list, and the rest.
unfoldable pub split_at : ℕ → List ℕ → List ℕ × List ℕ
split_at ℕ.zero xs = ([], xs)
split_at (ℕ.suc n) [] = ([], [])
split_at (ℕ.suc n) (x ∷ xs) = let (front, back) = split_at n xs in (x ∷ front, back)

pub record Transfer : Type 0 where
  pub registry : Registry
  -- What the body of the upload and its deadlines will give; what a write returns is not read here.
  pub upload : List Round
  pub up : Progress
  -- The round whose Write runs, and the bytes of it that are not taken yet.
  pub giving : Option (Round × List ℕ)
  pub answer_up : Phase
  pub down : Progress
  -- The bytes that the receiver has read and not yet written to its client.
  pub taken : Option (List ℕ)
  pub answer_down : Phase
  -- All bytes that went through the pipe.
  pub passed : List ℕ

abbrev pub over : Phase → Bool
over (finished r) = true
over p = false

-- The round comes to its Write.
abbrev pub gives : ℕ → ℕ → Round → Bool
gives max total r =
    elim r.extend_err [ none ↦ true | some e ↦ false ]
    && (not (is_empty r.chunk) && not (ltb 0 max && ltb max (total + length r.chunk)))

-- What others do to the pipe: nothing, or a Close, which is always with this error.
abbrev pub Ended : Pipe → Pipe → Type 0
Ended p q = (q ≡ p) ⊎ (q ≡ close_read (some not_found) (close_write (some not_found) p))

abbrev pub nothing_yet : Progress
nothing_yet = record { total = 0; written = []; outcome = running }

module _ (s : Stream) (max : ℕ) where
  abbrev pub pipe_of : Transfer → Pipe
  pipe_of t = (t.registry.ends s.id).pipe

  -- Both handlers have attached, on an open pipe.
  abbrev pub begin_transfer : Registry → List Round → Transfer
  begin_transfer r upload = record {
    registry = r;
    upload = upload;
    up = nothing_yet;
    giving = none;
    answer_up = pumping;
    down = nothing_yet;
    taken = none;
    answer_down = pumping;
    passed = [];
  }

  abbrev pub round_up : Round → Transfer → Progress
  round_up r t = pump_round max t.up.total t.up.written r

  abbrev pub round_down : Round → Transfer → Progress
  round_down r t = pump_round max t.down.total t.down.written r

  abbrev pub reads_chunk : List ℕ → Option (ℕ × Error) → Round
  reads_chunk c w = record { extend_err = none; chunk = c; read_err = none; write_err = w }

  -- A read of the pipe takes bytes from the sender's chunk.
  abbrev pub handed : Round → List ℕ → Transfer → Transfer
  handed r left t =
      let (front, back) = split_at copy_buffer_size left in
      record t { giving = some (r, back); taken = some front; passed = t.passed ++ front }

  -- The handlers behind their loops.
  abbrev pub ended_up : Option Error → Transfer → Transfer
  ended_up e t =
      let ((phase, events), r) = finish_sender s t.up.total e t.registry in
      record t { registry = r; answer_up = phase }

  abbrev pub ended_down : Option Error → Transfer → Transfer
  ended_down e t =
      let ((phase, events), r) = finish_receiver s e t.registry in
      record t { registry = r; answer_down = phase }

  -- A step of one of the two handlers.
  pub data Move (t : Transfer) : Transfer → Type 0 where
    -- The sender reads a chunk and starts to write it.
    begins :
        (r : Round) (rest : List Round)
        → t.upload ≡ r ∷ rest
        → t.up.outcome ≡ running
        → t.giving ≡ none
        → gives max t.up.total r ≡ true
        → Move t (record t { upload = rest; giving = some (r, r.chunk) })
    -- A round of the sender without a write: an empty read, or the end of its loop.
    skips :
        (r : Round) (rest : List Round)
        → t.upload ≡ r ∷ rest
        → t.up.outcome ≡ running
        → t.giving ≡ none
        → gives max t.up.total r ≡ false
        → Move t (record t { upload = rest; up = round_up r t })
    -- The receiver reads from the pipe.
    hands_over :
        (r : Round) (b : ℕ) (left : List ℕ)
        → t.giving ≡ some (r, b ∷ left)
        → (pipe_of t).write_err ≡ none
        → (pipe_of t).read_err ≡ none
        → t.down.outcome ≡ running
        → t.taken ≡ none
        → Move t (handed r (b ∷ left) t)
    -- The sender's Write returns: all bytes are taken, or a half of the pipe is closed, and then it has
    -- given the bytes that are not left.
    has_written :
        (r : Round)
        → t.giving ≡ some (r, [])
        → Move t (record t { up = round_up (record r { write_err = none }) t; giving = none })
    fails_to_write :
        (r : Round) (b : ℕ) (left : List ℕ) (e : Error)
        → t.giving ≡ some (r, b ∷ left)
        → write_outcome (pipe_of t).write_err (pipe_of t).read_err ≡ some e
        → Move t (record t {
          up = round_up (record r { write_err = some (length r.chunk - length (b ∷ left), e) }) t;
          giving = none;
        })
    -- The receiver writes to its client, all of it or with this error a part of it.
    delivers :
        (c : List ℕ) (w : Option (ℕ × Error))
        → t.taken ≡ some c
        → Move t (record t { down = round_down (reads_chunk c w) t; taken = none })
    -- The receiver cannot renew its deadline.
    gives_up :
        (e : Error)
        → t.down.outcome ≡ running
        → t.taken ≡ none
        → Move t (record t {
          down =
              round_down
                (record { extend_err = some e; chunk = []; read_err = none; write_err = none })
                t;
        })
    -- The receiver's read returns with an error or the end of the file.
    sees_end :
        (e : Error)
        → t.down.outcome ≡ running
        → t.taken ≡ none
        → read_outcome (pipe_of t).read_err (pipe_of t).write_err ≡ some e
        → Move t (record t {
          down =
              round_down
                (record { extend_err = none; chunk = []; read_err = some e; write_err = none })
                t;
        })
    -- A handler is behind its loop.
    answers_up :
        (e : Option Error)
        → t.up.outcome ≡ done e
        → over t.answer_up ≡ false
        → Move t (ended_up e t)
    answers_down :
        (e : Option Error)
        → t.down.outcome ≡ done e
        → over t.answer_down ≡ false
        → Move t (ended_down e t)

  pub data Step (t : Transfer) : Transfer → Type 0 where
    moves : {u : Transfer} → Move t u → Step t u
    others :
        (r : Registry) → Ended (pipe_of t) (r.ends s.id).pipe → Step t (record t { registry = r })

  pub data Reach (t : Transfer) : Transfer → Type 0 where
    here : Reach t t
    next : {u v : Transfer} → Reach t u → Step u v → Reach t v
