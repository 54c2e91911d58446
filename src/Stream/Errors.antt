-- ===== src/Stream/Errors.antt =====
-- The errors of the data plane: the `Err…` variables of relay/internal/stream/registry.go,
-- `errStreamTooLarge` of handler.go and those of the standard library that the code meets.
use icy_easy_send.Base.{Bool, String}

pub data Error : Type 0 where
  too_many_streams not_found forbidden already_attached peer_not_attached : Error
  stream_too_large : Error
  -- io.EOF and io.ErrClosedPipe
  eof closed_pipe : Error
  -- errors.New of a text
  plain : String → Error
  -- any other error: what its `Timeout()` answers (false where it has none), and its text
  foreign : Bool → String → Error
