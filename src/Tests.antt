-- ===== src/Tests.antt =====
-- Runs of the model on concrete data.
pub mod Client
pub mod Codec
pub mod Authorization
pub mod Fixtures
pub mod Devices
pub mod Server
pub mod State
pub mod Link
pub mod Home
pub mod Pairing
pub mod Vpn
pub mod VpnApi
pub mod Windows
pub mod Files
pub mod Install
pub mod CoreSetup
pub mod Routes
