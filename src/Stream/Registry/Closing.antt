-- ===== src/Stream/Registry/Closing.antt =====
-- Close, and what the two ends of a pipe then see.
use icy_easy_send.Base.{◌≡◌, String, Option, none, some, arith, eq_refl, eq_iff, false}
use icy_easy_send.Stream.Errors.{Error, closed_pipe}
use icy_easy_send.Stream.Pipe.{close_write, close_read, read_outcome, write_outcome}
use icy_easy_send.Stream.Registry.{Stream, Ends, close_ends, close}

-- What the receiving end reads on its pipe, once the pipe is closed.
abbrev pub reads : Ends → Option Error
reads x = read_outcome x.pipe.read_err x.pipe.write_err

-- What the sending end gets for a write, once the pipe is closed.
abbrev pub writes : Ends → Option Error
writes x = write_outcome x.pipe.write_err x.pipe.read_err

-- An end that has not been closed yet, either by Close or by its own handler.
abbrev pub IsOpen : Ends → Type 0
IsOpen x = (x.closed ≡ false) × (x.pipe.write_err ≡ none) × (x.pipe.read_err ≡ none)

-- A truncated transfer cannot be mistaken for a complete one: if a stream is closed with an error
-- before its pipe is, then, whatever closes either half of the pipe afterwards, with whatever error
-- or none, a read fails with `closed_pipe` and never with the end of the file, and so does a write.
pub close_ends_never_eof :
    (e : Error) (x : Ends) (later_w later_r : Option Error)
    → IsOpen x
    → let y = close_ends e x in
      let z = record y { pipe = close_read later_r (close_write later_w y.pipe) } in
      (reads y ≡ some closed_pipe)
      × (writes y ≡ some closed_pipe)
      × (reads z ≡ some closed_pipe)
      × (writes z ≡ some closed_pipe)
unfolding close_ends close_read close_write read_outcome write_outcome
close_ends_never_eof e x later_w later_r h = ground arith

-- The first Close decides: a later one, with any error, changes nothing.
pub close_once :
    (e f : Error) (s : Stream) (ends : String → Ends) (k : String)
    → close f s (close e s ends) k ≡ close e s ends k
unfolding close
close_once e f s ends k = ground (arith, eq_refl s.id, eq_iff s.id k)
