-- ===== src/Signal.antt =====
-- relay/internal/signal: the control plane.
pub mod Hub
pub mod Session
pub mod World
pub mod Server
pub mod Handshake
pub mod History
pub mod Connections
pub mod Visit
pub mod Transfers
pub mod Samples
mod Tests
