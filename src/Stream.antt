-- ===== src/Stream.antt =====
-- relay/internal/stream: the data plane.
pub mod Errors
pub mod Pipe
pub mod Registry
pub mod Handler
pub mod Transfer
