-- ===== src/Dashboard.antt =====
-- internal/dashboard: what the dashboard shows of the jobs.
pub mod Hub
pub mod Poller
pub mod Activity
pub mod RunCache
pub mod Server
pub mod Detail
pub mod State
pub mod Tailscale
