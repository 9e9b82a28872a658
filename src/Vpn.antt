-- ===== src/Vpn.antt =====
-- core/internal/vpn: the WireGuard exit of the core.
pub mod Client
pub mod Files
pub mod Types
pub mod Config
pub mod Validate
pub mod Manager
pub mod Registration
pub mod Service
pub mod Loading
pub mod Shell
pub mod Rules
pub mod Routes
pub mod HomeRouting
pub mod Linux
pub mod Site
pub mod SiteConfig
pub mod Peers
pub mod Histories
