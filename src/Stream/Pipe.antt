-- ===== src/Stream/Pipe.antt =====
-- `io.Pipe`: how its two halves close, and what a read or a write then returns.
use icy_easy_send.Base.{Option, none, some}
use icy_easy_send.Stream.Errors.{Error, eof, closed_pipe}

-- The errors that the halves were closed with, if they were: `werr` and `rerr` of io.pipe.
pub record Pipe : Type 0 where
  pub write_err : Option Error
  pub read_err : Option Error

abbrev pub open_pipe : Pipe
open_pipe = record { write_err = none; read_err = none }

-- onceError.Store: the first error stays.
unfoldable pub store_once : Error → Option Error → Option Error
store_once e none = some e
store_once e (some old) = some old

abbrev or_default : Error → Option Error → Error
or_default d none = d
or_default d (some e) = e

-- (*PipeWriter).CloseWithError: no error means the end of the file.
unfoldable pub close_write : Option Error → Pipe → Pipe
unfolding store_once
close_write e p = record p { write_err = store_once (or_default eof e) p.write_err }

-- (*PipeReader).CloseWithError
unfoldable pub close_read : Option Error → Pipe → Pipe
unfolding store_once
close_read e p = record p { read_err = store_once (or_default closed_pipe e) p.read_err }

-- What a read on the pipe returns once a half is closed; `none` while both are open.
unfoldable pub read_outcome : Option Error → Option Error → Option Error
read_outcome (some r) w = some closed_pipe
read_outcome none (some w) = some w
read_outcome none none = none

-- What a write returns once a half is closed.
unfoldable pub write_outcome : Option Error → Option Error → Option Error
write_outcome (some w) r = some closed_pipe
write_outcome none (some r) = some r
write_outcome none none = none
