-- ===== src/Node.antt =====
-- core/internal/node: the core's server.
pub mod Routes
pub mod Devices
pub mod State
pub mod Server
pub mod Sessions
pub mod Pake
pub mod Pairing
pub mod Enrollment
pub mod DeviceAuth
pub mod VpnApi
pub mod Histories
