-- ===== src/McpServer.antt =====
-- internal/mcpserver: the handlers of the tools, what pi_status answers and when its long poll ends.
pub mod Delta
pub mod Coerce
pub mod Validate
pub mod Handlers
pub mod Status
pub mod Wait
